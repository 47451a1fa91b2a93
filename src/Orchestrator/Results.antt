-- ===== src/Orchestrator/Results.antt =====
-- What orchestrator/orchestrator.cpp does about the result of an agent: it tells the analysis, and then
-- merges the agent's changes. The state is the manager of the analysis, with the orchestrator in it.
use ida_swarm.Base.{
  ℕ, List, [], ◌∷◌, Option, none, some, ◌&&◌, Text, codes, drop, text_eq, lookup, insert,
  if◌then◌else◌,
}
use ida_swarm.Base.External.{JsonApi}
use ida_swarm.Irc.Server.{starts_with}
use ida_swarm.Auto.{Manager}
use ida_swarm.Auto.Ops.{on_agent_completed, start_auto_decompile}
use ida_swarm.Orchestrator.{
  Machine, AgentInfo, swarm_result, task_complete, Orchestrator, name_insert, publish,
}
use ida_swarm.Orchestrator.Debugger.{is_debug, handle_lldb_message}
use ida_swarm.Orchestrator.Messages.{handle_irc_message}
use ida_swarm.Orchestrator.Spawning.{Analysis, orchestrator_host}

abbrev pub result_mark : Text
result_mark = codes "AGENT_RESULT|"

-- A message: its channel, its sender and its text.
pub record Message : Type 0 where
  pub channel : Text
  pub sender : Text
  pub text : Text

-- The agent and the report of a result; `none` where reading them throws.
unfoldable pub read_report : (J : JsonApi) → Text → Option J.Json → Option (Text × Text)
read_report J agent none = none
read_report J agent (some j) = elim (J.get_string j (codes "report")) [
  | none ↦ none
  | some report ↦ some (agent, report)
]

unfoldable pub read_result : (J : JsonApi) → Option J.Json → Option (Text × Text)
unfolding read_report
read_result J none = none
read_result J (some j) = elim (J.get_string j (codes "agent_id")) [
  | none ↦ none
  | some agent ↦ read_report J agent (some j)
]

module _ (M : Machine) where
  -- The report is kept, and the agent is completed.
  unfoldable pub store_result : Text → Text → Orchestrator M → Orchestrator M
  unfolding name_insert
  store_result agent report o =
      publish M (task_complete agent) (record (publish M (swarm_result agent report) o) {
        agent_results = insert agent report o.agent_results;
        completed_agents = name_insert agent o.completed_agents;
      })

  unfoldable pub merge_found : Text → Option AgentInfo → Orchestrator M → Orchestrator M
  merge_found agent none o = o
  merge_found agent (some info) o = record o {
    outside = M.cleanup_agent_directory_if_no_writes agent (M.merge_database agent o.outside);
  }

  unfoldable pub merge_agent : Text → Orchestrator M → Orchestrator M
  unfolding merge_found
  merge_agent agent o = merge_found agent (lookup agent o.agents) o

  module _ (J : JsonApi) (A : Analysis M) (max : ℕ) where
    -- The manager of the analysis, whose world is the orchestrator.
    abbrev pub Analyst : Type 0
    Analyst = Manager (orchestrator_host M A max)

    unfoldable pub world_of : Analyst → Orchestrator M
    unfolding orchestrator_host
    world_of m = m.world

    unfoldable pub with_world : Orchestrator M → Analyst → Analyst
    unfolding orchestrator_host
    with_world o m = record m { world = o }

    unfoldable pub stored : Text → Text → Analyst → Analyst
    unfolding store_result world_of with_world
    stored agent report m = with_world (store_result agent report (world_of m)) m

    unfoldable pub merged : Text → Analyst → Analyst
    unfolding merge_agent world_of with_world
    merged agent m = with_world (merge_agent agent (world_of m)) m

    -- A result that could be read.
    unfoldable pub accept_result : ℕ → Option (Text × Text) → Analyst → Option Analyst
    unfolding stored merged on_agent_completed
    accept_result fuel none m = some m
    accept_result fuel (some (agent, report)) m =
        elim (on_agent_completed (orchestrator_host M A max) fuel agent (stored agent report m)) [
          | none ↦ none
          | some n ↦ some (merged agent n)
        ]

    unfoldable pub seen : Message → Analyst → Analyst
    unfolding handle_irc_message world_of with_world
    seen t m = with_world (handle_irc_message M t.channel t.sender t.text (world_of m)) m

    -- A message for the debugger, which was shown before.
    unfoldable pub debugged : Option (Orchestrator M) → Analyst → Option Analyst
    unfolding with_world
    debugged none m = none
    debugged (some o) m = some (with_world o m)

    -- Orchestrator::handle_irc_message; `none` is where the fuel runs out, or where an exception leaves
    -- it, which ends the process. The messages of tokens are only shown here.
    unfoldable pub receive_message : ℕ → Message → Analyst → Option Analyst
    unfolding accept_result seen starts_with read_result is_debug debugged handle_lldb_message
        world_of
    receive_message fuel t m =
        if is_debug t.channel t.text
        then debugged (handle_lldb_message M t.text (world_of (seen t m))) (seen t m)
        else if text_eq t.channel (codes "#results") && starts_with result_mark t.text
        then accept_result fuel (read_result J (J.parse (drop 13 t.text))) (seen t m)
        else some (seen t m)

    -- Between two messages files, processes and IDA have gone on.
    unfoldable pub gone_on : M.Outside → Analyst → Analyst
    unfolding world_of with_world
    gone_on outside m = with_world (record (world_of m) { outside = outside }) m

    unfoldable pub receive_each : ℕ → List (M.Outside × Message) → Analyst → Option Analyst
    unfolding receive_message gone_on
    receive_each fuel [] m = some m
    receive_each fuel ((outside, t) ∷ ts) m = elim (receive_message fuel t (gone_on outside m)) [
      | none ↦ none
      | some n ↦ receive_each fuel ts n
    ]

    -- An analysis is started, and then messages arrive.
    unfoldable pub analyse : ℕ → List (M.Outside × Message) → Analyst → Option Analyst
    unfolding receive_each start_auto_decompile
    analyse fuel ts idle = elim (start_auto_decompile (orchestrator_host M A max) fuel idle) [
      | none ↦ none
      | some m ↦ receive_each fuel ts m
    ]
