-- ===== src/Orchestrator/Named.antt =====
-- The number of the next agent in orchestrator/orchestrator.cpp under the handling of messages.
use ida_swarm.Base.{
  ◌≡◌, ◌≢◌, ◌||◌, length, refl, ◌∙◌, inl, inr, Option, none, some, Bool, true, false, ◌&&◌, Text,
  codes, drop, lookup, Bool-cases, ◌==◌,
}
use ida_swarm.Irc.Server.{starts_with}
use ida_swarm.Orchestrator.{
  Machine, AgentInfo, ConflictSession, irc_message, Orchestrator, has_name, publish,
}
use ida_swarm.Orchestrator.Debugger.{
  Route, no_route, bad_number, routed, route, is_debug, respond, handle_route, handle_lldb_message,
  IsReadable, AlwaysAnswers,
}
use ida_swarm.Orchestrator.Messages.{
  split_pipe, take_part, resurrect, join_agent, join_parts, join_conflict, clean_up_session,
  enforce_if, enforce, marked, is_agreed, mark_session, mark_found, mark_parts, mark_consensus,
  answered, status_parts, result_parts, handle_manual_tool_result, manual_result, join_mark,
  consensus_mark, handle_irc_message,
}
use ida_swarm.Orchestrator.Results.{merge_found, merge_agent}

module _ (M : Machine) where
  -- The next agent has the same number.
  abbrev pub IsNext : Orchestrator M → Orchestrator M → Type 0
  IsNext o n = n.next_agent_id ≡ o.next_agent_id

  take_part-IsNext :
      (channel sender : Text) (o : Orchestrator M) → IsNext o (take_part M channel sender o)
  unfolding take_part
  take_part-IsNext channel sender o = elim (Bool-cases (starts_with (codes "#conflict_") channel)) [
    | inl t ↦ rw t refl
    | inr t ↦ rw t refl
  ]

  join_agent-IsNext :
      (target channel : Text) (i : Option AgentInfo) (o : Orchestrator M)
      → IsNext o (join_agent M target channel i o)
  unfolding join_agent resurrect
  join_agent-IsNext target channel none o = refl
  join_agent-IsNext target channel (some info) o =
      elim (Bool-cases (has_name target o.completed_agents)) [
        | inl t ↦
            elim (Bool-cases
              ((M.resurrect_agent target info.database_path channel o.outside).1 == 0)) [
                | inl z ↦ rw (t, z) refl
                | inr z ↦ rw (t, z) refl
              ]
        | inr t ↦ rw t refl
      ]

  join_parts-IsNext :
      (parts : Option (Text × Text)) (o : Orchestrator M) → IsNext o (join_parts M parts o)
  unfolding join_parts
  join_parts-IsNext none o = refl
  join_parts-IsNext (some (target, channel)) o =
      join_agent-IsNext target channel (lookup target o.agents) o

  enforce_if-IsNext :
      (alive : Bool) (channel : Text) (s : ConflictSession) (o : Orchestrator M)
      → IsNext o (enforce_if M alive channel s o)
  unfolding enforce_if clean_up_session
  enforce_if-IsNext true channel s o = refl
  enforce_if-IsNext false channel s o = refl

  mark_session-IsNext :
      (channel : Text) (s : ConflictSession) (o : Orchestrator M)
      → IsNext o (mark_session M channel s o)
  unfolding mark_session enforce
  mark_session-IsNext channel s o = elim (Bool-cases (is_agreed s)) [
    | inl t ↦ rw t (enforce_if-IsNext _ channel _ _)
    | inr t ↦ rw t refl
  ]

  mark_found-IsNext :
      (channel agent consensus : Text) (m : Option ConflictSession) (o : Orchestrator M)
      → IsNext o (mark_found M channel agent consensus m o)
  unfolding mark_found
  mark_found-IsNext channel agent consensus none o = refl
  mark_found-IsNext channel agent consensus (some s) o =
      mark_session-IsNext channel (marked M agent consensus s) o

  mark_parts-IsNext :
      (channel : Text) (parts : Option (Text × Text)) (o : Orchestrator M)
      → IsNext o (mark_parts M channel parts o)
  unfolding mark_parts
  mark_parts-IsNext channel none o = refl
  mark_parts-IsNext channel (some (agent, consensus)) o =
      mark_found-IsNext channel agent consensus (lookup channel o.active_conflicts) o

  answered-IsNext :
      (agent : Text) (b : Option Bool) (o : Orchestrator M) → IsNext o (answered M agent b o)
  unfolding answered
  answered-IsNext agent none o = refl
  answered-IsNext agent (some b) o = refl

  status_parts-IsNext :
      (agent : Text) (parts : Option (Text × Text)) (o : Orchestrator M)
      → IsNext o (status_parts M agent parts o)
  unfolding status_parts
  status_parts-IsNext agent none o = refl
  status_parts-IsNext agent (some (status, json)) o =
      answered-IsNext agent (lookup agent o.manual_tool_responses) o

  result_parts-IsNext :
      (parts : Option (Text × Text)) (o : Orchestrator M) → IsNext o (result_parts M parts o)
  unfolding result_parts
  result_parts-IsNext none o = refl
  result_parts-IsNext (some (agent, rest)) o = status_parts-IsNext agent (split_pipe rest) o

  pub handle_irc_message-IsNext :
      (channel sender message : Text) (o : Orchestrator M)
      → IsNext o (handle_irc_message M channel sender message o)
  unfolding handle_irc_message join_conflict mark_consensus handle_manual_tool_result
  handle_irc_message-IsNext channel sender message o =
      let seen : Orchestrator M = publish M (irc_message channel sender message) o in
      let here : Orchestrator M = take_part M channel sender seen in
      let taken = take_part-IsNext channel sender seen in
      elim (Bool-cases (starts_with (manual_result M) message)) [
        | inl t ↦ rw t (result_parts-IsNext (split_pipe (drop 21 message)) seen)
        | inr t ↦ elim (Bool-cases (starts_with (join_mark M) message)) [
          | inl u ↦ rw (t, u) (join_parts-IsNext (split_pipe (drop 14 message)) here ∙ taken)
          | inr u ↦
              elim (Bool-cases (
                starts_with (codes "#conflict_") channel
                && starts_with (consensus_mark M) message)) [
                  | inl v ↦
                      rw (t, u, v)
                        (mark_parts-IsNext channel (split_pipe (drop 17 message)) here ∙ taken)
                  | inr v ↦ rw (t, u, v) taken
                ]
        ]
      ]

  merge_found-IsNext :
      (agent : Text) (i : Option AgentInfo) (o : Orchestrator M)
      → IsNext o (merge_found M agent i o)
  unfolding merge_found
  merge_found-IsNext agent none o = refl
  merge_found-IsNext agent (some info) o = refl

  pub merge_agent-IsNext : (agent : Text) (o : Orchestrator M) → IsNext o (merge_agent M agent o)
  unfolding merge_agent
  merge_agent-IsNext agent o = merge_found-IsNext agent (lookup agent o.agents) o

  -- Whether the handling ends, with the number of the next agent as it was.
  abbrev Ends : Orchestrator M → Option (Orchestrator M) → Type 0
  Ends o e = (n : Orchestrator M) × (e ≡ some n) × IsNext o n

  respond-Ends :
      (type request agent : Text) (answer : Option Text) (o : Orchestrator M)
      → answer ≢ none
      → Ends o (respond M type request agent answer o)
  unfolding respond
  respond-Ends type request agent none o h = absurd (h refl)
  respond-Ends type request agent (some json) o h =
      elim (Bool-cases (length request == 0 || length agent == 0)) [
        | inl t ↦ rw t (o, refl, refl)
        | inr t ↦ rw t (_, refl, refl)
      ]

  handle_route-Ends :
      (r : Route) (o : Orchestrator M)
      → r ≢ bad_number
      → AlwaysAnswers M
      → Ends o (handle_route M r o)
  unfolding handle_route
  handle_route-Ends no_route o h answers = (o, refl, refl)
  handle_route-Ends bad_number o h answers = absurd (h refl)
  handle_route-Ends (routed type request agent r) o h answers =
      respond-Ends type request agent (M.handle_lldb r o.outside).1
        (record o { outside = (M.handle_lldb r o.outside).0 }) (answers r o.outside)

  -- A request to the debugger, of which each number can be read, is handled to the end.
  pub handle_lldb_message-Ends :
      (channel text : Text) (o : Orchestrator M)
      → is_debug channel text ≡ true
      → IsReadable M channel text
      → AlwaysAnswers M
      → Ends o (handle_lldb_message M text o)
  unfolding handle_lldb_message
  handle_lldb_message-Ends channel text o debug readable answers = elim (Bool-cases M.has_lldb) [
    | inl t ↦ rw t (handle_route-Ends (route text) o (readable debug t) answers)
    | inr t ↦ rw t (o, refl, refl)
  ]
