-- ===== src/Examples/Analyses.antt =====
-- An analysis of two functions by one agent at a time, on a machine where every process starts.
use ida_swarm.Base.{
  ℕ, suc, ◌+◌, ◌*◌, ◌≤◌, ◌<◌, ◌≡◌, ◌≢◌, ◌⊎◌, refl, [], ◌∷◌, Option, none, some, true, false, not,
  codes, text_eq, add64, length, arith, word, ◌==◌,
}
use ida_swarm.Base.Numbers.{print_number, print_fuel, digit}
use ida_swarm.Auto.{weigh, Function, Host, Manager, no_progress, enumerate_non_library_functions}
use ida_swarm.Auto.Ops.{on_agent_crashed, on_agent_completed, start_auto_decompile}
use ida_swarm.Auto.Runs.{Run, begun, completed, crashed}
use ida_swarm.Auto.Accounted.{tally, over_queue, over_agents, AlwaysSpawns}
use ida_swarm.Auto.Progress.{targets, Run-once, Run-goes_on}
use ida_swarm.Auto.Returns.{Run-returns}
use ida_swarm.Auto.Counters.{Run-counters}
use ida_swarm.Auto.Parallel.{Run-parallel}
use ida_swarm.Orchestrator.{
  Machine, Orchestrator, spawn_agent_async, spawned_process, with_database,
}
use ida_swarm.Orchestrator.Spawning.{Analysis, orchestrator_host, agent_of}

-- The last process id that was given out. All processes but the first go on.
abbrev pub machine : Machine
machine = record {
  Outside = ℕ;
  create_agent_database = λ agent n. (n, codes "db");
  get_agent_binary = λ agent n. codes "bin";
  create_directories = λ dir n. n;
  spawn_agent = λ agent db config n. (suc n, suc n);
  resurrect_agent = λ agent db channel n. (suc n, suc n);
  is_agent_running = λ pid n. not (pid == 1);
  execute_consensus = λ tool address statements. some (codes "set_comment", codes "{}");
  merge_database = λ agent n. n;
  cleanup_agent_directory_if_no_writes = λ agent n. n;
  has_lldb = true;
  handle_lldb = λ request n. (suc n, some (codes "{}"));
  agent_prompt = λ task context. task;
}

abbrev plain : ℕ → Function
plain x = record {
  start_ea = x;
  is_lib = false;
  is_thunk = false;
  is_tail = false;
  is_outline = false;
  is_hidden = false;
  is_extern = false;
}

abbrev library : ℕ → Function
library x = record (plain x) { is_lib = true }

abbrev pub analysis : Analysis machine
analysis = record {
  Priority = ℕ;
  address = λ p. p;
  prioritize_functions = λ xs. xs;
  prioritize_keeps = λ f xs. refl;
  functions = λ n. some (plain 16) ∷ none ∷ some (library 32) ∷ some (plain 48) ∷ [];
  get_name = λ n x. none;
}

abbrev pub host : Host
host = orchestrator_host machine analysis 1

abbrev fleet : Orchestrator machine
fleet = record {
  binary_name = codes "demo";
  irc_server = codes "127.0.0.1";
  allocated_irc_port = 6667;
  lldb_validation_passed = false;
  next_agent_id = 1;
  agents = [];
  completed_agents = [];
  agent_results = [];
  active_conflicts = [];
  manual_tool_responses = [];
  enforcing = [];
  bus = [];
  sent = [];
  outside = 0;
}

abbrev pub idle : Manager host
unfolding orchestrator_host
idle = record {
  active = false;
  pending_functions = [];
  progress = no_progress;
  completed_functions = [];
  agent_to_function = [];
  function_priorities = λ x. none;
  function_retry_count = λ x. 0;
  failed_functions = [];
  world = fleet;
  events = [];
}

pub idle_inactive : idle.active ≡ false
unfolding idle
idle_inactive = refl

abbrev pub or_idle : Option (Manager host) → Manager host
or_idle none = idle
or_idle (some m) = m

-- After the start the first agent is at work on the function at 16.
abbrev pub one_started : Manager host
one_started = or_idle (start_auto_decompile host 8 idle)

one_started_run : start_auto_decompile host 8 idle ≡ some one_started
unfolding orchestrator_host start_auto_decompile
one_started_run = refl

agents_run : one_started.agent_to_function ≡ (codes "agent_1", 16) ∷ []
unfolding orchestrator_host start_auto_decompile spawn_agent_async print_number print_fuel digit
agents_run = refl

-- The first agent has crashed: its function waits again, and the second agent is at work on 48.
abbrev after_crash : Manager host
after_crash = or_idle (on_agent_crashed host 8 (codes "agent_1") one_started)

-- The second agent is done, and then the third one, which had the function at 16 again.
abbrev one_done : Manager host
one_done = or_idle (on_agent_completed host 8 (codes "agent_2") after_crash)

abbrev all_done : Manager host
all_done = or_idle (on_agent_completed host 8 (codes "agent_3") one_done)

crash_run :
    (on_agent_crashed host 8 (codes "agent_1") one_started ≡ some after_crash)
    × (after_crash.agent_to_function ≡ (codes "agent_2", 48) ∷ [])
    × (after_crash.function_retry_count 16 ≡ 1)
unfolding orchestrator_host start_auto_decompile spawn_agent_async print_number print_fuel digit
    on_agent_crashed text_eq
crash_run = (refl, refl, refl)

done_run :
    (on_agent_completed host 8 (codes "agent_2") after_crash ≡ some one_done)
    × (one_done.agent_to_function ≡ (codes "agent_3", 16) ∷ [])
    × (one_done.progress.pending_functions ≡ 0)
unfolding orchestrator_host start_auto_decompile spawn_agent_async print_number print_fuel digit
    on_agent_completed text_eq add64
done_run = (refl, refl, refl)

all_done_run :
    (on_agent_completed host 8 (codes "agent_3") one_done ≡ some all_done)
    × (all_done.active ≡ false)
    × (all_done.progress.completed_function_addresses ≡ 48 ∷ 16 ∷ [])
unfolding orchestrator_host start_auto_decompile spawn_agent_async print_number print_fuel digit
    on_agent_completed text_eq add64
all_done_run = (refl, refl, refl)

pub one_started-Run : Run host idle one_started
unfolding idle
one_started-Run = begun 8 one_started refl one_started_run

after_crash-Run : Run host idle after_crash
unfolding idle
after_crash-Run =
    crashed 8 (codes "agent_1") one_started after_crash (begun 8 one_started refl one_started_run)
      crash_run.0

one_done-Run : Run host idle one_done
one_done-Run = completed 8 (codes "agent_2") after_crash one_done after_crash-Run done_run.0

pub always : AlwaysSpawns host
unfolding orchestrator_host spawn_agent_async with_database spawned_process agent_of
always task context w e = ground arith

pub found_once : (y : ℕ) → weigh (tally y) (targets host idle) ≤ 1
unfolding orchestrator_host enumerate_non_library_functions weigh tally
found_once y = ground arith

run_once_example :
    over_queue host (tally 16) one_done.pending_functions
      + over_agents host (tally 16) one_done.agent_to_function
      + weigh (tally 16) one_done.progress.completed_function_addresses
      + weigh (tally 16) one_done.failed_functions
    ≡ weigh (tally 16) (targets host idle)
run_once_example = Run-once host idle one_done always found_once one_done-Run 16

run_goes_on_example :
    (one_done.agent_to_function ≢ [])
    ⊎ ((one_done.active ≡ false)
        × ((y : ℕ)
            → weigh (tally y) one_done.progress.completed_function_addresses
                + weigh (tally y) one_done.failed_functions
              ≡ weigh (tally y) (targets host idle)))
run_goes_on_example =
    Run-goes_on host idle one_done always found_once (λ e. unfold orchestrator_host in ground arith)
      one_done-Run

pub eight_enough : 4 * length (targets host idle) ≤ 8
unfolding orchestrator_host enumerate_non_library_functions
eight_enough = omega arith

two_small : length (targets host idle) < word
unfolding orchestrator_host enumerate_non_library_functions
two_small = omega arith

Run-returns_example :
    ((n : Manager host) × (on_agent_completed host 8 (codes "agent_3") one_done ≡ some n))
    × ((n : Manager host) × (on_agent_crashed host 8 (codes "agent_3") one_done ≡ some n))
Run-returns_example = Run-returns host idle one_done 8 one_done-Run eight_enough (codes "agent_3")

run_counters_example :
    (one_done.progress.total_functions ≡ length (targets host idle))
    × (one_done.progress.completed_functions
        ≡ length one_done.progress.completed_function_addresses)
    × (one_done.progress.failed_functions ≡ length one_done.failed_functions)
    × (one_done.progress.active_functions ≡ length one_done.agent_to_function)
    × (one_done.progress.pending_functions ≡ length one_done.pending_functions)
run_counters_example = Run-counters host idle one_done always found_once two_small one_done-Run

run_parallel_example : length after_crash.agent_to_function ≤ host.max_parallel
run_parallel_example = Run-parallel host idle after_crash after_crash-Run
