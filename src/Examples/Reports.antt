-- ===== src/Examples/Reports.antt =====
-- The results of agents, and the wait for them, in the analysis of Analyses.antt.
use ida_swarm.Base.{
  All, ℕ, ◌+◌, ◌≡◌, ◌≢◌, ◌⊎◌, refl, [], ◌∷◌, some, true, false, codes, text_eq, List, ◌++◌, Text,
  if◌then◌else◌, drop, lookup, insert, add64, arith,
}
use ida_swarm.Base.Numbers.{print_number, print_fuel, digit}
use ida_swarm.Auto.{weigh, function_of, Manager, is_in}
use ida_swarm.Auto.Ops.{on_agent_completed, start_auto_decompile}
use ida_swarm.Auto.Accounted.{tally, over_queue, over_agents}
use ida_swarm.Auto.Progress.{targets}
use ida_swarm.Orchestrator.{has_name, spawn_agent_async}
use ida_swarm.Irc.Server.{starts_with}
use ida_swarm.Base.Numbers.{scan_first, scan, digit_value, skip_spaces, is_space}
use ida_swarm.Irc.Client.{split_at}
use ida_swarm.Orchestrator.{LldbRequest, start_session, send_command}
use ida_swarm.Orchestrator.Requests.{request_text}
use ida_swarm.Orchestrator.Debugger.{
  route, routed, bad_number, stoi, decimal, is_debug, IsReadable, AlwaysAnswers,
}
use ida_swarm.Orchestrator.Results.{
  Message, result_mark, read_result, receive_message, world_of, analyse,
}
use ida_swarm.Orchestrator.Served.{analyse_lem}
use ida_swarm.Orchestrator.Recorded.{receive_message_lem}
use ida_swarm.Examples.Calls.{texts}
use ida_swarm.Orchestrator.Spawning.{orchestrator_host}
use ida_swarm.Examples.Analyses.{
  machine, analysis, host, idle, or_idle, one_started, one_started-Run, eight_enough, always,
  found_once, idle_inactive,
}

-- The result of the first agent, in JSON where each key holds the whole text.
abbrev first_result : Message
first_result = record {
  channel = codes "#results";
  sender = codes "agent_1";
  text = result_mark ++ codes "agent_1";
}

abbrev debug_request : Message
debug_request = record {
  channel = codes "#lldb_control";
  sender = codes "agent_1";
  text = codes "LLDB_START_SESSION|r1|agent_1|300";
}

abbrev heard : List (ℕ × Message)
heard = (1, first_result) ∷ (2, debug_request) ∷ []

request_route :
    route debug_request.text
    ≡ routed
        (codes "LLDB_START_SESSION")
        (codes "r1")
        (codes "agent_1")
        (start_session (codes "agent_1") (codes "r1") (false, 300))
unfolding route stoi decimal skip_spaces is_space scan_first scan digit_value split_at text_eq
request_route = refl

-- A number that cannot be read.
bad_route : route (codes "LLDB_START_SESSION|r1|agent_1|soon") ≡ bad_number
unfolding route stoi decimal skip_spaces is_space scan_first scan digit_value split_at text_eq
bad_route = refl

heard-IsReadable : All (λ (e : ℕ × Message). IsReadable machine e.1.channel e.1.text) heard
heard-IsReadable = (
  (λ d l e. absurd (unfold is_debug text_eq in ground arith)),
  ((λ d l e. absurd (ground (arith, request_route))), tt),
)

machine_answers : AlwaysAnswers machine
machine_answers r outside e = absurd (ground arith)

abbrev one_heard : Manager host
one_heard = or_idle (analyse machine texts analysis 1 8 heard idle)

-- The first agent is done, and the second one is at work on 48.
analyse_run :
    (analyse machine texts analysis 1 8 heard idle ≡ some one_heard)
    × (one_heard.agent_to_function ≡ (codes "agent_2", 48) ∷ [])
    × ((world_of machine texts analysis 1 one_heard).completed_agents ≡ codes "agent_1" ∷ [])
unfolding orchestrator_host start_auto_decompile spawn_agent_async print_number print_fuel digit
    on_agent_completed text_eq add64 analyse world_of drop lookup insert is_debug is_space
    digit_value scan
analyse_run = (refl, refl, refl)

analyse_lem_example :
    (m : Manager host) × (analyse machine texts analysis 1 8 heard idle ≡ some m)
    × ((y : ℕ)
        → over_queue host (tally y) m.pending_functions
            + over_agents host (tally y) m.agent_to_function
            + weigh (tally y) m.progress.completed_function_addresses
            + weigh (tally y) m.failed_functions
          ≡ weigh (tally y) (targets host idle))
    × ((m.agent_to_function ≢ [])
        ⊎ ((m.active ≡ false)
            × ((y : ℕ)
                → weigh (tally y) m.progress.completed_function_addresses
                    + weigh (tally y) m.failed_functions
                  ≡ weigh (tally y) (targets host idle))))
analyse_lem_example =
    analyse_lem machine texts analysis 1 idle 8 eight_enough heard heard-IsReadable machine_answers
      idle_inactive always found_once (λ e. unfold orchestrator_host in ground arith)

result_read :
    read_result texts (texts.parse (drop 13 first_result.text))
    ≡ some (codes "agent_1", codes "agent_1")
unfolding read_result drop
result_read = refl

is_result : starts_with result_mark first_result.text ≡ true
unfolding starts_with
is_result = refl

receive_message_example :
    (n : Manager host) × (receive_message machine texts analysis 1 8 first_result one_started
      ≡ some n)
    × ((b : Text)
        → lookup b (world_of machine texts analysis 1 n).agent_results ≡ (
            if text_eq (codes "agent_1") b
            then some (codes "agent_1")
            else lookup b (world_of machine texts analysis 1 one_started).agent_results))
    × ((b : Text)
        → has_name b (world_of machine texts analysis 1 n).completed_agents ≡ (
            if text_eq (codes "agent_1") b
            then true
            else has_name b (world_of machine texts analysis 1 one_started).completed_agents))
    × (is_in 16 n.progress.completed_function_addresses ≡ true)
unfolding orchestrator_host start_auto_decompile spawn_agent_async print_number print_fuel digit
    function_of text_eq
receive_message_example =
    receive_message_lem machine texts analysis 1 idle 8 eight_enough one_started first_result
      (codes "agent_1") (codes "agent_1") 16 one_started-Run refl refl refl is_result result_read

-- A command that has a bar itself.
abbrev read_memory : LldbRequest
read_memory = send_command (codes "s") (codes "a") (codes "memory read | head") (codes "r")

request_text_run : request_text read_memory ≡ codes "LLDB_SEND_COMMAND|r|s|a|memory read | head"
unfolding request_text
request_text_run = refl
