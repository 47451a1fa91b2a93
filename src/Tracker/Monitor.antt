-- ===== src/Tracker/Monitor.antt =====
-- The monitor of orchestrator/tool_call_tracker.cpp, which publishes the calls that were added to the
-- table since its last round, and the query of manual calls.
use ida_swarm.Base.{
  ℕ, List, [], ◌∷◌, ◌++◌, Option, none, some, Bool, true, ◌&&◌, ◌||◌, Text, text_eq, keep, ltb,
  if◌then◌else◌,
}
use ida_swarm.Base.External.{JsonApi, RowSteps, selected, stepped}
use ida_swarm.Tracker.{
  ToolCall, Row, Tracker, Answers, record_tool_call, row_to_tool_call, read_rows,
}

-- AgentEvent of type TOOL_CALL.
pub record ToolEvent (J : JsonApi) : Type 0 where
  pub source : Text
  pub tool_name : Text
  pub address : ℕ
  pub parameters : J.Json
  pub is_write : Bool
  pub timestamp : ℕ

-- WHERE id > last_seen_id_, which is negative where its int is; the ids of rows are positive.
unfoldable pub is_unseen : ℕ → Row → Bool
is_unseen last r = if ltb last 0x80000000 then ltb last r.id else true

module _ (J : JsonApi) where
  abbrev pub event_of : ToolCall J → ToolEvent J
  event_of c = record {
    source = c.agent_id;
    tool_name = c.tool_name;
    address = c.address;
    parameters = c.parameters;
    is_write = c.is_write_operation;
    timestamp = c.timestamp;
  }

  -- The loop over the new rows with the last id seen: that id afterwards, and what is published.
  unfoldable pub emit : List Row → ℕ → Option (ℕ × List (ToolEvent J))
  emit [] last = some (last, [])
  emit (r ∷ rs) last = elim (row_to_tool_call J r) [
    | none ↦ none
    | some c ↦ elim (emit rs c.id) [ none ↦ none | some (seen, es) ↦ some (seen, event_of c ∷ es) ]
  ]

  -- One round of monitor_loop, with an event bus: the rows of the table stand in the order of their
  -- ids. The flag is whether the query is prepared, and the number after how many rows a step fails.
  -- `none` where a row does not parse.
  unfoldable pub poll : Bool → Option ℕ → Tracker → Option (Tracker × List (ToolEvent J))
  unfolding is_unseen stepped
  poll prepared fails t =
      if t.db_open && prepared
      then (elim (emit (stepped fails (keep (is_unseen t.last_seen_id) t.rows)) t.last_seen_id) [
        | none ↦ none
        | some (seen, es) ↦ some (record t { last_seen_id = seen }, es)
      ])
      else some (t, [])

  -- The newest first; all agents' for an empty name. `none` where a row does not parse.
  unfoldable pub get_manual_tool_calls :
      RowSteps Row → Bool → Text → Tracker → Option (List (ToolCall J))
  get_manual_tool_calls D prepared agent t =
      if prepared
      then read_rows J (
          selected D
            (keep (λ r. (text_eq agent [] || text_eq r.agent_id agent) && r.is_manual) t.rows))
      else some []

  -- What happens to the table between and in the rounds: a call is recorded, or a round is made.
  pub data Move : Type 0 where
    records : Answers → ℕ → Text → Text → ℕ → J.Json → Move
    polls : Bool → Option ℕ → Move

  -- The tracker after an insertion; one that throws changes nothing.
  unfoldable pub tracker_after : Tracker → Option (Tracker × Bool) → Tracker
  tracker_after t none = t
  tracker_after t (some (u, done)) = u

  -- The tracker, and all that was published so far.
  unfoldable pub step : Move → Tracker × List (ToolEvent J) → Option (Tracker × List (ToolEvent J))
  step (records a now agent tool address p) (t, es) =
      some (tracker_after t (record_tool_call J a now agent tool address p t), es)
  step (polls prepared fails) (t, es) = elim (poll prepared fails t) [
    | none ↦ none
    | some (u, new) ↦ some (u, es ++ new)
  ]

  unfoldable pub run :
      List Move → Tracker × List (ToolEvent J) → Option (Tracker × List (ToolEvent J))
  run [] s = some s
  run (m ∷ ms) s = elim (step m s) [ none ↦ none | some n ↦ run ms n ]
