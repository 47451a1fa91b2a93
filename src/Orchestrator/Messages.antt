-- ===== src/Orchestrator/Messages.antt =====
-- What Orchestrator::handle_irc_message of orchestrator/orchestrator.cpp does about the messages of
-- conflicts: who takes part, who joins, and the statements of consensus, with the threads that enforce
-- them. The messages for the debugger, of tokens and of results are not modelled here.
use ida_swarm.Base.{
  List, [], ◌∷◌, ◌++◌, map, Option, none, some, Bool, true, false, not, ◌&&◌, ◌||◌, Text, codes,
  drop, text_eq, lookup, insert, erase, keep, length, leb, ◌==◌, if◌then◌else◌,
}
use ida_swarm.Irc.Server.{starts_with}
use ida_swarm.Irc.Client.{split_at}
use ida_swarm.Orchestrator.{
  Machine, AgentInfo, irc_message, ConflictSession, Enforcement, Orchestrator, has_name,
  name_insert, name_erase, publish,
}

abbrev pub split_pipe : Text → Option (Text × Text)
split_pipe = split_at b'|'

abbrev pub new_session : ConflictSession
new_session = record {
  original_tool = [];
  original_address = [];
  participating_agents = [];
  consensus_statements = [];
  resolved = false;
}

-- active_conflicts_[channel]
unfoldable pub or_new : Option ConflictSession → ConflictSession
or_new none = new_session
or_new (some s) = s

unfoldable pub has_statement : ConflictSession → Text → Bool
has_statement s a = elim (lookup a s.consensus_statements) [ none ↦ false | some t ↦ true ]

unfoldable pub each_marked : ConflictSession → List Text → Bool
unfolding has_statement
each_marked s [] = true
each_marked s (a ∷ agents) = has_statement s a && each_marked s agents

-- All have marked, they are two or more, and the session is not resolved.
unfoldable pub is_agreed : ConflictSession → Bool
unfolding each_marked
is_agreed s =
    each_marked s s.participating_agents && leb 2 (length s.participating_agents) && not s.resolved

module _ (M : Machine) where
  abbrev pub send_message : Text → Text → Orchestrator M → Orchestrator M
  send_message channel text o = record o { sent = (channel, text) ∷ o.sent }

  -- A message in a channel of a conflict makes its sender take part.
  unfoldable pub take_part : Text → Text → Orchestrator M → Orchestrator M
  unfolding or_new name_insert starts_with
  take_part channel sender o =
      let s = or_new (lookup channel o.active_conflicts) in
      if starts_with (codes "#conflict_") channel
      then record o {
        active_conflicts =
            insert channel
              (record s { participating_agents = name_insert sender s.participating_agents })
              o.active_conflicts;
      }
      else o

  -- The agent is not among the completed ones for as long as it lives again.
  unfoldable pub resurrect : Text → Text → AgentInfo → Orchestrator M → Orchestrator M
  unfolding name_insert name_erase
  resurrect target channel info o =
      let (outside, pid) = M.resurrect_agent target info.database_path channel o.outside in
      let others = name_erase target o.completed_agents in
      if pid == 0
      then record o { outside = outside; completed_agents = name_insert target others }
      else record o {
        outside = outside;
        completed_agents = others;
        agents =
            insert target (record info { process_id = pid; task = codes "Conflict Resolution" })
              o.agents;
      }

  unfoldable pub join_agent : Text → Text → Option AgentInfo → Orchestrator M → Orchestrator M
  unfolding resurrect has_name
  join_agent target channel none o = o
  join_agent target channel (some info) o =
      if has_name target o.completed_agents
      then resurrect target channel info o
      else send_message (codes "#agents") (codes "CONFLICT_INVITE|" ++ (target ++ b'|' ∷ channel)) o

  unfoldable pub join_parts : Option (Text × Text) → Orchestrator M → Orchestrator M
  unfolding join_agent
  join_parts none o = o
  join_parts (some (target, channel)) o = join_agent target channel (lookup target o.agents) o

  -- JOIN_CONFLICT|target|channel
  unfoldable pub join_conflict : Text → Orchestrator M → Orchestrator M
  unfolding join_parts split_at
  join_conflict parts o = join_parts (split_pipe parts) o

  unfoldable pub is_alive : Orchestrator M → Text → Bool
  is_alive o a = elim (lookup a o.agents) [
    | none ↦ false
    | some info ↦ not (info.process_id == 0) && M.is_agent_running info.process_id o.outside
  ]

  unfoldable pub any_alive : Orchestrator M → List Text → Bool
  unfolding is_alive
  any_alive o [] = false
  any_alive o (a ∷ agents) = is_alive o a || any_alive o agents

  -- The end of a session.
  unfoldable pub clean_up_session : Text → Orchestrator M → Orchestrator M
  clean_up_session channel o = record o { active_conflicts = erase channel o.active_conflicts }

  -- extract_consensus_tool_call, where its call can be enforced
  unfoldable pub extract_consensus_tool_call : ConflictSession → Option (Text × Text)
  extract_consensus_tool_call s = elim s.original_tool [
    | [] ↦ none
    | c ∷ tool ↦ M.execute_consensus (c ∷ tool) s.original_address s.consensus_statements
  ]

  -- Whether an agent of the session still runs decides who ends it: a thread, or this handler.
  unfoldable pub enforce_if : Bool → Text → ConflictSession → Orchestrator M → Orchestrator M
  unfolding clean_up_session extract_consensus_tool_call
  enforce_if true channel s o = record o {
    enforcing =
        record { channel = channel; session = s; tool_call = extract_consensus_tool_call s }
        ∷ o.enforcing;
  }
  enforce_if false channel s o =
      clean_up_session channel (send_message channel (codes "CONSENSUS_COMPLETE") o)

  -- A session has been resolved.
  unfoldable pub enforce : Text → ConflictSession → Orchestrator M → Orchestrator M
  unfolding any_alive enforce_if
  enforce channel s o = enforce_if (any_alive o s.participating_agents) channel s o

  -- The session after an agent has marked.
  unfoldable pub marked : Text → Text → ConflictSession → ConflictSession
  unfolding name_insert
  marked agent consensus s = record s {
    consensus_statements = insert agent consensus s.consensus_statements;
    participating_agents = name_insert agent s.participating_agents;
  }

  unfoldable pub mark_session : Text → ConflictSession → Orchestrator M → Orchestrator M
  unfolding is_agreed enforce
  mark_session channel s o =
      let done = record s { resolved = true } in
      if is_agreed s
      then enforce channel done
          (record o { active_conflicts = insert channel done o.active_conflicts })
      else record o { active_conflicts = insert channel s o.active_conflicts }

  unfoldable pub mark_found :
      Text → Text → Text → Option ConflictSession → Orchestrator M → Orchestrator M
  unfolding mark_session marked
  mark_found channel agent consensus none o = o
  mark_found channel agent consensus (some s) o = mark_session channel (marked agent consensus s) o

  unfoldable pub mark_parts : Text → Option (Text × Text) → Orchestrator M → Orchestrator M
  unfolding mark_found
  mark_parts channel none o = o
  mark_parts channel (some (agent, consensus)) o =
      mark_found channel agent consensus (lookup channel o.active_conflicts) o

  -- MARKED_CONSENSUS|agent_id|consensus
  unfoldable pub mark_consensus : Text → Text → Orchestrator M → Orchestrator M
  unfolding mark_parts split_at
  mark_consensus channel content o = mark_parts channel (split_pipe content) o

  unfoldable pub answered : Text → Option Bool → Orchestrator M → Orchestrator M
  answered agent none o = o
  answered agent (some b) o = record o {
    manual_tool_responses = insert agent true o.manual_tool_responses;
  }

  unfoldable pub status_parts : Text → Option (Text × Text) → Orchestrator M → Orchestrator M
  unfolding answered
  status_parts agent none o = o
  status_parts agent (some (status, json)) o =
      answered agent (lookup agent o.manual_tool_responses) o

  unfoldable pub result_parts : Option (Text × Text) → Orchestrator M → Orchestrator M
  unfolding status_parts split_at
  result_parts none o = o
  result_parts (some (agent, rest)) o = status_parts agent (split_pipe rest) o

  -- What follows the mark of a MANUAL_TOOL_RESULT: agent|status|json
  unfoldable pub handle_manual_tool_result : Text → Orchestrator M → Orchestrator M
  unfolding result_parts split_at
  handle_manual_tool_result content o = result_parts (split_pipe content) o

  abbrev pub manual_result : Text
  manual_result = codes "MANUAL_TOOL_RESULT | "

  abbrev pub join_mark : Text
  join_mark = codes "JOIN_CONFLICT|"

  abbrev pub consensus_mark : Text
  consensus_mark = codes "MARKED_CONSENSUS|"

  -- A message of a conflict, or a result of an enforced tool.
  unfoldable pub handle_irc_message : Text → Text → Text → Orchestrator M → Orchestrator M
  unfolding take_part join_conflict mark_consensus handle_manual_tool_result starts_with
  handle_irc_message channel sender message o =
      let seen = publish M (irc_message channel sender message) o in
      let here = take_part channel sender seen in
      if starts_with manual_result message
      then handle_manual_tool_result (drop 21 message) seen
      else if starts_with join_mark message
      then join_conflict (drop 14 message) here
      else if starts_with (codes "#conflict_") channel && starts_with consensus_mark message
      then mark_consensus channel (drop 17 message) here
      else here

  unfoldable pub session_parts : Option (Text × Text) → ConflictSession
  session_parts none = new_session
  session_parts (some (address, tool)) = record new_session {
    original_tool = tool;
    original_address = address;
  }

  -- A session for a channel named #conflict_address_tool.
  unfoldable pub session_of : Text → ConflictSession
  unfolding session_parts split_at
  session_of channel = session_parts (split_at b'_' (drop 10 channel))

  unfoldable pub monitor_session : Text → Option ConflictSession → Orchestrator M → Orchestrator M
  unfolding session_of
  monitor_session channel none o = record o {
    active_conflicts = insert channel (session_of channel) o.active_conflicts;
  }
  monitor_session channel (some s) o = o

  -- One channel of a round of the monitor of conflict channels.
  unfoldable pub monitor_channel : Text → Orchestrator M → Orchestrator M
  unfolding starts_with monitor_session
  monitor_channel channel o =
      if starts_with (codes "#conflict_") channel
      then monitor_session channel (lookup channel o.active_conflicts) o
      else o

  unfoldable pub send_each : Text → Text → Text → List Text → Orchestrator M → Orchestrator M
  send_each channel tool params [] o = o
  send_each channel tool params (a ∷ agents) o =
      send_each channel tool params agents (
        send_message channel (codes "MANUAL_TOOL_EXEC|" ++ (a ++ b'|' ∷ (tool ++ b'|' ∷ params))) o)

  -- What the living agents are sent. That a numeric address is written in hexadecimal is not modelled.
  unfoldable pub enforce_call :
      Text → List Text → Option (Text × Text) → Orchestrator M → Orchestrator M
  unfolding send_each
  enforce_call channel alive none o = o
  enforce_call channel alive (some (tool, params)) o =
      if text_eq tool (codes "unknown") || length alive == 0
      then o
      else send_each channel tool params alive
          (record o { manual_tool_responses = map (λ a. (a, false)) alive })

  -- enforce_consensus_tool_execution up to its wait for the answers.
  unfoldable pub enforce_consensus_tool_execution : Enforcement → Orchestrator M → Orchestrator M
  unfolding enforce_call is_alive
  enforce_consensus_tool_execution e o =
      enforce_call e.channel (keep (is_alive o) e.session.participating_agents) e.tool_call o
