-- ===== src/Merge.antt =====
-- orchestrator/merge_manager.h and .cpp: the write calls of an agent are run again on the main
-- database. The `int` counters count at most two for each recorded call, and stay below 2^31.
pub mod Replay
use ida_swarm.Base.{
  ℕ, zero, suc, ◌+◌, List, [], ◌∷◌, ◌++◌, Option, none, some, Bool, true, false, Text, codes, take,
  ◌==◌, if◌then◌else◌,
}
use ida_swarm.Base.Numbers.{print_number}
use ida_swarm.Base.External.{JsonApi, RowSteps}
use ida_swarm.Tracker.{ToolCall, Row, Tracker, is_member}
use ida_swarm.Tracker.Queries.{get_agent_tool_calls}

pub record MergeResult : Type 0 where
  pub success : Bool
  pub changes_applied : ℕ
  pub changes_failed : ℕ
  pub error_message : Text
  pub applied_changes : List Text
  pub failed_changes : List Text

abbrev pub empty_result : MergeResult
empty_result = record {
  success = false;
  changes_applied = 0;
  changes_failed = 0;
  error_message = [];
  applied_changes = [];
  failed_changes = [];
}

-- What one execution gives: the contents of its tool results, or an exception with its text.
pub data Outcome : Type 0 where
  results : List Text → Outcome
  raised : Text → Outcome

-- The main database, and execute_tool_call of the registry on it: the id of the tool use, the tool
-- and its parameters.
pub record Registry (J : JsonApi) : Type 1 where
  pub Database : Type 0
  pub execute_tool_call : Text → Text → J.Json → Database → Database × Outcome

unfoldable pub write_tools : List Text
write_tools =
    codes "set_name"
    ∷ codes "set_comment"
    ∷ codes "set_function_prototype"
    ∷ codes "set_variable"
    ∷ codes "set_local_type"
    ∷ codes "patch_bytes"
    ∷ codes "patch_assembly"
    ∷ codes "allocate_code_workspace"
    ∷ codes "preview_code_injection"
    ∷ codes "finalize_code_injection"
    ∷ codes "start_semantic_patch"
    ∷ codes "compile_replacement"
    ∷ codes "preview_semantic_patch"
    ∷ codes "finalize_semantic_patch"
    ∷ []

-- WRITE_TOOLS.count(tool_name) > 0
unfoldable pub is_write_tool : Text → Bool
is_write_tool t = is_member t write_tools

-- changes_failed++ and a line for it
unfoldable pub add_failure : Text → MergeResult → MergeResult
add_failure line r = record r {
  changes_failed = suc r.changes_failed;
  failed_changes = r.failed_changes ++ line ∷ [];
}

module _ (J : JsonApi) where
  unfoldable pub parse_failed : ToolCall J → MergeResult → MergeResult
  parse_failed c = add_failure (c.tool_name ++ codes ": Failed to parse result")

  -- The counter moves before the message is read, which may throw.
  unfoldable pub add_applied : ToolCall J → Option Text → MergeResult → MergeResult
  add_applied c none r = parse_failed c (record r { changes_applied = suc r.changes_applied })
  add_applied c (some message) r = record r {
    changes_applied = suc r.changes_applied;
    applied_changes = r.applied_changes ++ (c.tool_name ++ (codes ": " ++ take 100 message)) ∷ [];
  }

  unfoldable pub add_failed : ToolCall J → Option Text → MergeResult → MergeResult
  add_failed c none r = parse_failed c (record r { changes_failed = suc r.changes_failed })
  add_failed c (some error) r = add_failure (c.tool_name ++ (codes ": " ++ error)) r

  unfoldable pub read_success : ToolCall J → J.Json → Option Bool → MergeResult → MergeResult
  read_success c j none r = parse_failed c r
  read_success c j (some true) r =
      add_applied c (J.value_string j (codes "message") (codes "Applied successfully")) r
  read_success c j (some false) r =
      add_failed c (J.value_string j (codes "error") (codes "Unknown error")) r

  unfoldable pub read_result : ToolCall J → Option J.Json → MergeResult → MergeResult
  read_result c none r = parse_failed c r
  read_result c (some j) r = read_success c j (J.value_bool j (codes "success") false) r

  unfoldable pub add_outcome : ToolCall J → Outcome → MergeResult → MergeResult
  add_outcome c (raised what) r = add_failure (c.tool_name ++ (codes ": Exception - " ++ what)) r
  add_outcome c (results []) r = add_failure (c.tool_name ++ codes ": No tool result returned") r
  add_outcome c (results (t ∷ ts)) r = read_result c (J.parse t) r

module _ (J : JsonApi) (G : Registry J) where
  -- The tool use that a call becomes, executed.
  unfoldable pub replay_call : ToolCall J → G.Database → G.Database × Outcome
  replay_call c db =
      G.execute_tool_call (codes "merge_" ++ print_number 10 c.id) c.tool_name c.parameters db

  -- The loop over the calls.
  unfoldable pub merge_calls :
      List (ToolCall J) → G.Database → MergeResult → G.Database × MergeResult
  merge_calls [] db r = (db, r)
  merge_calls (c ∷ cs) db r = elim (is_write_tool c.tool_name) [
    | false ↦ merge_calls cs db r
    | true ↦
        let (next, outcome) = replay_call c db in merge_calls cs next (add_outcome J c outcome r)
  ]

  unfoldable pub set_success : G.Database × MergeResult → G.Database × MergeResult
  set_success (db, r) = (db, record r { success = r.changes_failed == 0 })

  unfoldable pub merge_tool_calls : List (ToolCall J) → G.Database → G.Database × MergeResult
  merge_tool_calls [] db =
      (db, record empty_result { success = true; error_message = codes "No tool calls to merge" })
  merge_tool_calls (c ∷ cs) db = set_success (merge_calls (c ∷ cs) db empty_result)

  -- `none` where the stored calls do not parse.
  unfoldable pub merge_agent_changes :
      RowSteps Row → Text → Tracker → G.Database → Option (G.Database × MergeResult)
  merge_agent_changes O agent t db = elim (get_agent_tool_calls J O agent t) [
    | none ↦ none
    | some calls ↦ some (merge_tool_calls calls db)
  ]
