-- ===== src/Examples/Merges.antt =====
-- The replay of a merge at concrete inputs.
use ida_swarm.Base.{
  ◌+◌, ◌≡◌, ◌↔◌, suc, ℕ, refl, [], ◌∷◌, none, some, true, Text, codes, text_eq, All, length, keep,
  ◌||◌,
}
use ida_swarm.Base.External.{JsonApi}
use ida_swarm.Tracker
use ida_swarm.Base.External.{selected}
use ida_swarm.Tracker.{ToolCall, Tracker, row_to_tool_call, read_rows, is_member}
use ida_swarm.Tracker.Queries.{get_agent_tool_calls, check_for_conflicts}
use ida_swarm.Merge.{
  MergeResult, Registry, results, is_write_tool, write_tools, merge_agent_changes, replay_call,
}
use ida_swarm.Merge.Replay.{
  Applies, replay, outcomes, writes, injection_tools, merge_agent_changes_lem,
  merge_write_tools_lem,
}
use ida_swarm.Examples.Calls.{texts, by_id, one_row, call_1}

-- A database that counts its calls, and answers each one with success.
abbrev counting : Registry texts
counting = record {
  Database = ℕ;
  execute_tool_call = λ id tool p db. (suc db, results (codes "yes" ∷ []));
}

calls_of_a1 : get_agent_tool_calls texts by_id (codes "a1") one_row ≡ some (call_1 ∷ [])
unfolding get_agent_tool_calls keep text_eq read_rows row_to_tool_call selected
calls_of_a1 = refl

merge_agent_changes_lem_example :
    (r : MergeResult) × (merge_agent_changes texts counting by_id (codes "a1") one_row 0
      ≡ some (replay texts counting (writes texts counting (call_1 ∷ [])) 0, r))
    × ((r.success ≡ true)
        ↔ All (Applies texts) (outcomes texts counting (writes texts counting (call_1 ∷ [])) 0))
    × (length r.applied_changes + length r.failed_changes
        ≡ length (writes texts counting (call_1 ∷ [])))
merge_agent_changes_lem_example =
    merge_agent_changes_lem texts counting by_id (codes "a1") one_row 0 (call_1 ∷ []) calls_of_a1

replayed_once : replay texts counting (writes texts counting (call_1 ∷ [])) 0 ≡ 1
unfolding replay keep replay_call is_write_tool write_tools is_member text_eq
replayed_once = refl

-- No value of these is a string.
abbrev wordless : JsonApi
wordless = record texts { value_string = λ j key default. none }

abbrev counting_wordless : Registry wordless
counting_wordless = record {
  Database = ℕ;
  execute_tool_call = λ id tool p db. (suc db, results (codes "yes" ∷ []));
}

abbrev wordless_call : ToolCall wordless
wordless_call = record {
  id = 1;
  agent_id = codes "a1";
  tool_name = codes "set_name";
  address = 4096;
  parameters = codes "main";
  timestamp = 50;
  is_write_operation = true;
}

set_name_merges : is_write_tool (codes "set_name") ≡ true
unfolding is_write_tool write_tools is_member text_eq
set_name_merges = refl

call_runs : replay_call wordless counting_wordless wordless_call 0 ≡ (1, results (codes "yes" ∷ []))
unfolding replay_call
call_runs = refl

says_yes : text_eq (codes "yes") (codes "yes") ≡ true
unfolding text_eq
says_yes = refl

merge_write_tools_lem_example :
    ((t : Text) → is_write_tool t ≡ (Tracker.is_write_tool t || is_member t injection_tools))
    × All
        (λ tool.
          (is_write_tool tool ≡ true)
          × ((now : ℕ) (agent : Text) (address : ℕ) (p : Text) (t : Tracker)
              → check_for_conflicts texts by_id now agent tool address p t ≡ some []))
        injection_tools
merge_write_tools_lem_example = merge_write_tools_lem texts by_id
