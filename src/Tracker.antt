-- ===== src/Tracker.antt =====
-- orchestrator/tool_call_tracker.h and .cpp: the table of tool calls that all agents share. The SQL
-- statements are functions on the list of its rows, oldest first. The id of a call is an int of 32
-- bits, as two's complement.
pub mod Queries
pub mod Conflicts
pub mod Detection
pub mod Detector
pub mod Monitor
pub mod Published
use ida_swarm.Base.{
  ℕ, suc, ◌%◌, List, [], ◌∷◌, ◌++◌, Option, none, some, Bool, true, false, not, ◌||◌, ◌&&◌, Text,
  codes, text_eq, if◌then◌else◌,
}
use ida_swarm.Base.External.{JsonApi}

pub record ToolCall (J : JsonApi) : Type 0 where
  pub id : ℕ
  pub agent_id : Text
  pub tool_name : Text
  pub address : ℕ
  pub parameters : J.Json
  pub timestamp : ℕ
  pub is_write_operation : Bool

pub record ToolConflict (J : JsonApi) : Type 0 where
  pub first_call : ToolCall J
  pub second_call : ToolCall J
  pub conflict_type : Text

pub record AgentToolStats : Type 0 where
  pub total_calls : ℕ
  pub write_calls : ℕ
  pub read_calls : ℕ
  pub conflicts : ℕ

-- A row of the table tool_calls.
pub record Row : Type 0 where
  pub id : ℕ
  pub agent_id : Text
  pub tool_name : Text
  pub address : ℕ
  pub parameters : Text
  pub timestamp : ℕ
  pub is_write : Bool
  pub is_manual : Bool

-- 2^32
abbrev pub int_word : ℕ
int_word = 0x100000000

-- The shared table, and what one tracker holds: whether its database and statements are ready.
pub record Tracker : Type 0 where
  pub rows : List Row
  pub next_id : ℕ
  pub db_open : Bool
  pub insert_ready : Bool
  -- last_seen_id_, which is 0 or the id of a call
  pub last_seen_id : ℕ

unfoldable pub write_tools : List Text
write_tools =
    codes "set_name"
    ∷ codes "set_comment"
    ∷ codes "set_function_prototype"
    ∷ codes "set_variable"
    ∷ codes "set_local_type"
    ∷ codes "patch_bytes"
    ∷ codes "patch_assembly"
    ∷ codes "start_semantic_patch"
    ∷ codes "compile_replacement"
    ∷ codes "preview_semantic_patch"
    ∷ codes "finalize_semantic_patch"
    ∷ []

-- std::find over a list of names
unfoldable pub is_member : Text → List Text → Bool
is_member t [] = false
is_member t (u ∷ us) = text_eq u t || is_member t us

unfoldable pub is_write_tool : Text → Bool
unfolding write_tools is_member
is_write_tool t = is_member t write_tools

-- The row that a call binds; its id is the next one.
abbrev pub new_row : ℕ → Text → Text → ℕ → Text → Bool → Tracker → Row
new_row now agent tool address params manual t = record {
  id = t.next_id;
  agent_id = agent;
  tool_name = tool;
  address = address;
  parameters = params;
  timestamp = now;
  is_write = is_write_tool tool;
  is_manual = manual;
}

-- How SQLite answers the calls of one insertion: each bind by its index, and the step.
pub record Answers : Type 0 where
  pub bind_ok : ℕ → Bool
  pub step_done : Bool

-- The insertion with its text of parameters and its marker at hand.
unfoldable pub insert_row : Answers → Row → Tracker → Tracker × Bool
insert_row a row t =
    if a.step_done
    then (record t { rows = t.rows ++ row ∷ []; next_id = suc t.next_id }, true)
    else (t, false)

module _ (J : JsonApi) where
  -- `none` where reading the value of the marker throws.
  unfoldable pub manual_flag : J.Json → Option Bool
  manual_flag p =
      if J.contains p (codes "__is_manual") then J.get_bool p (codes "__is_manual") else some false

  unfoldable pub bind_from_marker :
      Answers → ℕ → Text → Text → ℕ → Text → Option Bool → Tracker → Option (Tracker × Bool)
  unfolding insert_row
  bind_from_marker a now agent tool address params none t = none
  bind_from_marker a now agent tool address params (some manual) t =
      if a.bind_ok 7
      then some (insert_row a (new_row now agent tool address params manual t) t)
      else some (t, false)

  unfoldable pub bind_from_dump :
      Answers → ℕ → Text → Text → ℕ → J.Json → Option Text → Tracker → Option (Tracker × Bool)
  unfolding bind_from_marker
  bind_from_dump a now agent tool address p none t = none
  bind_from_dump a now agent tool address p (some params) t =
      if a.bind_ok 4 && (a.bind_ok 5 && a.bind_ok 6)
      then bind_from_marker a now agent tool address params (manual_flag p) t
      else some (t, false)

  -- The result, or `none` where a JSON call throws. `now` is the time in seconds.
  unfoldable pub record_tool_call :
      Answers → ℕ → Text → Text → ℕ → J.Json → Tracker → Option (Tracker × Bool)
  unfolding bind_from_dump
  record_tool_call a now agent tool address p t =
      if not t.db_open
      then some (t, false)
      else if not t.insert_ready
      then some (t, false)
      else if a.bind_ok 1 && (a.bind_ok 2 && a.bind_ok 3)
      then bind_from_dump a now agent tool address p (J.dump p) t
      else some (t, false)

  -- `none` where the stored parameters do not parse.
  unfoldable pub row_to_tool_call : Row → Option (ToolCall J)
  row_to_tool_call r = elim (J.parse r.parameters) [
    | none ↦ none
    | some p ↦ some (record {
      id = r.id % int_word;
      agent_id = r.agent_id;
      tool_name = r.tool_name;
      address = r.address;
      parameters = p;
      timestamp = r.timestamp;
      is_write_operation = r.is_write;
    })
  ]

  unfoldable pub read_rows : List Row → Option (List (ToolCall J))
  read_rows [] = some []
  read_rows (r ∷ rs) = elim (row_to_tool_call r) [
    | none ↦ none
    | some c ↦ elim (read_rows rs) [ none ↦ none | some cs ↦ some (c ∷ cs) ]
  ]
