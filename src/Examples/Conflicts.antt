-- ===== src/Examples/Conflicts.antt =====
-- Messages about a conflict, on a machine where every process starts and goes on.
use ida_swarm.Base.{
  if◌then◌else◌, ℕ, suc, ◌≤◌, ◌≡◌, ◌≢◌, ◌⊎◌, refl, List, [], ◌∷◌, some, true, false, Text, codes,
  drop, text_eq, lookup, insert,
}
use ida_swarm.Irc.Server.{starts_with}
use ida_swarm.Orchestrator.{
  Machine, AgentInfo, ConflictSession, Enforcement, Orchestrator, has_name,
}
use ida_swarm.Orchestrator.Messages.{handle_irc_message, join_agent}
use ida_swarm.Orchestrator.Sessions.{flag, threads_of, session}
use ida_swarm.Orchestrator.Consensus.{Happening, message, monitored, happen, happen_threads}
use ida_swarm.Orchestrator.Agreed.{IsAgreed, handle_irc_message_lem}
use ida_swarm.Orchestrator.Joining.{restart, join_agent_lem}

-- The last process id that was given out.
abbrev machine : Machine
machine = record {
  Outside = ℕ;
  create_agent_database = λ agent n. (n, codes "db");
  get_agent_binary = λ agent n. codes "bin";
  create_directories = λ dir n. n;
  spawn_agent = λ agent db config n. (suc n, suc n);
  resurrect_agent = λ agent db channel n. (suc n, suc n);
  is_agent_running = λ pid n. true;
  execute_consensus = λ tool address statements. some (tool, codes "{}");
  merge_database = λ agent n. n;
  cleanup_agent_directory_if_no_writes = λ agent n. n;
  has_lldb = true;
  handle_lldb = λ request n. (suc n, some (codes "{}"));
  agent_prompt = λ task context. task;
}

abbrev info : Text → ℕ → AgentInfo
info agent pid = record {
  agent_id = agent;
  task = codes "task";
  database_path = codes "db";
  process_id = pid;
}

-- The agents a and b run; c has completed.
abbrev fleet : Orchestrator machine
fleet = record {
  binary_name = codes "demo";
  irc_server = codes "127.0.0.1";
  allocated_irc_port = 6667;
  lldb_validation_passed = false;
  next_agent_id = 3;
  agents =
      (codes "a", info (codes "a") 1)
      ∷ (codes "b", info (codes "b") 2)
      ∷ (codes "c", info (codes "c") 3)
      ∷ [];
  completed_agents = codes "c" ∷ [];
  agent_results = [];
  active_conflicts = [];
  manual_tool_responses = [];
  enforcing = [];
  bus = [];
  sent = [];
  outside = 3;
}

abbrev channel : Text
channel = codes "#conflict_10_set_comment"

-- The monitor finds the channel, and one agent marks.
abbrev one_marked : Orchestrator machine
one_marked =
    happen machine
      (monitored channel ∷ message channel (codes "a") (codes "MARKED_CONSENSUS|a|x") ∷ []) fleet

abbrev agreed : ConflictSession
agreed = record {
  original_tool = codes "set_comment";
  original_address = codes "10";
  participating_agents = codes "b" ∷ codes "a" ∷ [];
  consensus_statements = (codes "a", codes "x") ∷ (codes "b", codes "y") ∷ [];
  resolved = true;
}

abbrev thread : Enforcement
thread = record {
  channel = channel;
  session = agreed;
  tool_call = some (codes "set_comment", codes "{}");
}

-- The second agent marks, and a thread starts.
thread_run :
    (handle_irc_message machine channel
      (codes "b")
      (codes "MARKED_CONSENSUS|b|y")
      one_marked).enforcing
    ≡ thread ∷ one_marked.enforcing
unfolding happen handle_irc_message starts_with text_eq lookup insert drop
thread_run = refl

handle_irc_message_example :
    (thread.channel ≡ channel)
    × IsAgreed machine one_marked thread.session
    × (session machine channel one_marked ≡ 0)
handle_irc_message_example =
    handle_irc_message_lem machine channel (codes "b") (codes "MARKED_CONSENSUS|b|y") one_marked
      thread thread_run

abbrev happenings : List (Happening machine)
happenings =
    monitored channel
    ∷ message channel (codes "a") (codes "MARKED_CONSENSUS|a|x")
    ∷ message channel (codes "b") (codes "MARKED_CONSENSUS|b|y")
    ∷ message channel (codes "b") (codes "MARKED_CONSENSUS|b|z")
    ∷ []

happen_threads_example :
    (threads_of channel (happen machine happenings fleet).enforcing
      ≡ flag (lookup channel (happen machine happenings fleet).active_conflicts))
    × (threads_of channel (happen machine happenings fleet).enforcing ≤ 1)
happen_threads_example = happen_threads machine happenings fleet channel refl refl

-- It is one thread, though the second agent has marked twice.
one_thread_run : threads_of channel (happen machine happenings fleet).enforcing ≡ 1
unfolding threads_of happen handle_irc_message starts_with text_eq lookup insert drop
one_thread_run = refl

c_completed : has_name (codes "c") fleet.completed_agents ≡ true
unfolding has_name text_eq
c_completed = refl

abbrev joined : Orchestrator machine
joined = join_agent machine (codes "c") channel (some (info (codes "c") 3)) fleet

join_agent_example :
    (joined.outside ≡ (restart machine (codes "c") channel (info (codes "c") 3) fleet).0)
    × ((((restart machine (codes "c") channel (info (codes "c") 3) fleet).1 ≢ 0)
          × ((b : Text)
              → (lookup b joined.agents ≡ (
                  if text_eq (codes "c") b
                  then some (record (info (codes "c") 3) {
                    process_id = (restart machine (codes "c") channel (info (codes "c") 3) fleet).1;
                    task = codes "Conflict Resolution";
                  })
                  else lookup b fleet.agents))
                × (has_name b joined.completed_agents ≡ (
                    if text_eq (codes "c") b then false else has_name b fleet.completed_agents))))
        ⊎ (((restart machine (codes "c") channel (info (codes "c") 3) fleet).1 ≡ 0)
            × (joined.agents ≡ fleet.agents)
            × ((b : Text)
                → has_name b joined.completed_agents ≡ has_name b fleet.completed_agents)))
join_agent_example =
    join_agent_lem machine (codes "c") channel (info (codes "c") 3) fleet c_completed
