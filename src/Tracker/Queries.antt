-- ===== src/Tracker/Queries.antt =====
-- The queries of orchestrator/tool_call_tracker.cpp, the check for conflicts and the statistics.
use ida_swarm.Base.{
  ℕ, ◌+◌, List, [], ◌∷◌, Option, none, some, Bool, true, false, not, ◌||◌, ◌&&◌, Text, codes,
  text_eq, keep, length, ltb, ◌==◌, if◌then◌else◌,
}
use ida_swarm.Base.External.{JsonApi, RowSteps, selected}
use ida_swarm.Tracker.{
  ToolCall, ToolConflict, AgentToolStats, Row, Tracker, is_write_tool, row_to_tool_call, read_rows,
}

-- WHERE address = ? AND is_write = 1 AND agent_id != ?
unfoldable pub conflict_row : ℕ → Text → Row → Bool
conflict_row address agent r =
    r.address == address && (r.is_write && not (text_eq r.agent_id agent))

-- DELETE FROM tool_calls WHERE agent_id = ?; the flag is whether SQLite says that it is done.
unfoldable pub clear_agent_data : Bool → Text → Tracker → Tracker × Bool
clear_agent_data done agent t =
    if done
    then (record t { rows = keep (λ r. not (text_eq r.agent_id agent)) t.rows }, true)
    else (t, false)

-- std::set<ea_t>::insert
unfoldable pub add_address : ℕ → List ℕ → List ℕ
add_address a [] = a ∷ []
add_address a (b ∷ s) =
    let further = b ∷ add_address a s in
    if ltb a b then a ∷ b ∷ s else if a == b then b ∷ s else further

-- The second test only where the first one passes, as after `continue`.
unfoldable pub and_then : Option Bool → Option Bool → Option Bool
and_then none second = none
and_then (some false) second = some false
and_then (some true) second = second

module _ (J : JsonApi) where
  -- The special cases of set_variable and set_local_type: the calls clash only on one key that both
  -- name. `none` where reading a key throws.
  unfoldable pub same_key : Text → J.Json → J.Json → Option Bool
  same_key key current existing = elim (J.value_string current key []) [
    | none ↦ none
    | some a ↦ elim (J.value_string existing key []) [
      | none ↦ none
      | some b ↦ some (not (text_eq a [] || (text_eq b [] || not (text_eq a b))))
    ]
  ]

  -- The test of one special tool.
  unfoldable pub key_test : Text → Text → Text → J.Json → J.Json → Option Bool
  key_test special key tool current existing =
      if text_eq tool special then same_key key current existing else some true

  -- Whether an existing call of the same address clashes with the current one.
  unfoldable pub clashes : Text → J.Json → ToolCall J → Option Bool
  clashes tool p existing =
      if text_eq existing.tool_name tool
      then and_then
          (key_test (codes "set_variable") (codes "variable_name") tool p existing.parameters)
          (key_test (codes "set_local_type") (codes "type_name") tool p existing.parameters)
      else some false

  unfoldable pub add_clash :
      ToolCall J
      → ToolCall J
      → Option Bool
      → Option (List (ToolConflict J))
      → Option (List (ToolConflict J))
  add_clash current existing none rest = none
  add_clash current existing (some false) rest = rest
  add_clash current existing (some true) none = none
  add_clash current existing (some true) (some cs) = some (
      record { first_call = existing; second_call = current; conflict_type = current.tool_name }
      ∷ cs)

  -- The loop over the selected rows.
  unfoldable pub collect : ToolCall J → List Row → Option (List (ToolConflict J))
  unfolding add_clash
  collect current [] = some []
  collect current (r ∷ rs) = elim (row_to_tool_call J r) [
    | none ↦ none
    | some existing ↦
        add_clash current existing (clashes current.tool_name current.parameters existing)
          (collect current rs)
  ]

  -- The call that is about to be made; it has no id yet.
  unfoldable pub current_call : ℕ → Text → Text → ℕ → J.Json → ToolCall J
  current_call now agent tool address p = record {
    id = 0;
    agent_id = agent;
    tool_name = tool;
    address = address;
    parameters = p;
    timestamp = now;
    is_write_operation = false;
  }

  unfoldable pub written_addresses : List (ToolCall J) → List ℕ → List ℕ
  unfolding add_address
  written_addresses [] s = s
  written_addresses (c ∷ cs) s =
      written_addresses cs (if c.is_write_operation then add_address c.address s else s)

module _ (J : JsonApi) (O : RowSteps Row) where
  unfoldable pub check_for_conflicts :
      ℕ → Text → Text → ℕ → J.Json → Tracker → Option (List (ToolConflict J))
  check_for_conflicts now agent tool address p t =
      if is_write_tool tool
      then collect J (current_call J now agent tool address p)
          (selected O (keep (conflict_row address agent) t.rows))
      else some []

  -- SELECT * FROM tool_calls WHERE agent_id = ? ORDER BY timestamp
  unfoldable pub get_agent_tool_calls : Text → Tracker → Option (List (ToolCall J))
  get_agent_tool_calls agent t =
      read_rows J (selected O (keep (λ r. text_eq r.agent_id agent) t.rows))

  -- SELECT * FROM tool_calls WHERE address = ? ORDER BY timestamp
  unfoldable pub get_address_tool_calls : ℕ → Tracker → Option (List (ToolCall J))
  get_address_tool_calls address t =
      read_rows J (selected O (keep (λ r. r.address == address) t.rows))

  unfoldable pub get_agent_write_operations : Text → Tracker → Option (List (ToolCall J))
  get_agent_write_operations agent t = elim (get_agent_tool_calls agent t) [
    | none ↦ none
    | some calls ↦ some (keep (λ c. c.is_write_operation) calls)
  ]

  unfoldable pub count_conflicts : ℕ → J.Json → Text → Tracker → List ℕ → ℕ → Option ℕ
  count_conflicts now empty agent t [] n = some n
  count_conflicts now empty agent t (a ∷ s) n =
      elim (check_for_conflicts now agent (codes "check") a empty t) [
        | none ↦ none
        | some cs ↦ count_conflicts now empty agent t s (n + length cs)
      ]

  -- `empty` is json::object().
  unfoldable pub get_agent_stats : ℕ → J.Json → Text → Tracker → Option AgentToolStats
  unfolding count_conflicts
  get_agent_stats now empty agent t = elim (get_agent_tool_calls agent t) [
    | none ↦ none
    | some calls ↦ elim (count_conflicts now empty agent t (written_addresses J calls []) 0) [
      | none ↦ none
      | some n ↦ some (record {
        total_calls = length calls;
        write_calls = length (keep (λ c. c.is_write_operation) calls);
        read_calls = length (keep (λ c. not c.is_write_operation) calls);
        conflicts = n;
      })
    ]
  ]
