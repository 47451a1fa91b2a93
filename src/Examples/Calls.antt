-- ===== src/Examples/Calls.antt =====
-- The shared table of tool calls and the gate of a message, at concrete inputs.
use ida_swarm.Base.{
  ◌≡◌, ◌≢◌, ◌↔◌, refl, sym, [], ◌∷◌, none, some, true, false, Text, codes, text_eq, Any, All, arith,
  keep,
}
use ida_swarm.Base.External.{JsonApi, RowSteps, NeverFails, selected, number}
use ida_swarm.Tracker.{
  ToolCall, ToolConflict, AgentToolStats, Row, Tracker, Answers, is_write_tool, record_tool_call,
  bind_from_dump, bind_from_marker, manual_flag, insert_row, row_to_tool_call, read_rows,
}
use ida_swarm.Tracker.Queries.{
  check_for_conflicts, get_agent_stats, clear_agent_data, collect, add_clash, clashes, key_test,
  and_then, current_call, conflict_row, written_addresses, add_address, get_agent_tool_calls,
  get_address_tool_calls,
}
use ida_swarm.Tracker.Conflicts.{SameTarget, Conflicting, check_for_conflicts_iff}
use ida_swarm.Tracker.Detection.{check-record}
use ida_swarm.Tracker.Detector.{Detector, check_conflict, record_call, is_address_modified}
use ida_swarm.Swarm.{
  ToolUse, gate, run_tools, refuse_all, out_of_turn, conflicts_for, extract_address, after_turn,
  after_check, after_record,
}
use ida_swarm.Swarm.Gate.{Unopposed, gate-Unopposed}

-- JSON values that are texts; every key but the address holds the whole text.
abbrev pub texts : JsonApi
texts = record {
  Json = Text;
  value_string = λ j key default. some j;
  value_bool = λ j key default. some (text_eq j (codes "yes"));
  contains = λ j key. false;
  get_bool = λ j key. none;
  get_string = λ j key. some j;
  field = λ j key. number 4096;
  dump = λ j. some j;
  parse = λ t. some t;
  parse-dump = λ j t e. sym e;
}

abbrev pub by_id : RowSteps Row
by_id = record {
  order = record { ordered = λ rows. rows; Any-ordered = λ P rows. (λ a. a, λ a. a) };
  fails_after = λ rows. none;
}

never : NeverFails by_id
never rows = refl

abbrev pub willing : Answers
willing = record { bind_ok = λ i. true; step_done = true }

abbrev pub empty_table : Tracker
empty_table = record {
  rows = [];
  next_id = 1;
  db_open = true;
  insert_ready = true;
  last_seen_id = 0;
}

abbrev pub row_1 : Row
row_1 = record {
  id = 1;
  agent_id = codes "a1";
  tool_name = codes "set_name";
  address = 4096;
  parameters = codes "main";
  timestamp = 50;
  is_write = true;
  is_manual = false;
}

abbrev pub one_row : Tracker
one_row = record empty_table { rows = row_1 ∷ []; next_id = 2 }

first_record :
    record_tool_call texts willing 50
      (codes "a1")
      (codes "set_name")
      4096
      (codes "main")
      empty_table
    ≡ some (one_row, true)
unfolding record_tool_call bind_from_dump bind_from_marker manual_flag insert_row is_write_tool
    text_eq
first_record = refl

abbrev pub call_1 : ToolCall texts
call_1 = record {
  id = 1;
  agent_id = codes "a1";
  tool_name = codes "set_name";
  address = 4096;
  parameters = codes "main";
  timestamp = 50;
  is_write_operation = true;
}

abbrev clash : ToolConflict texts
clash = record {
  first_call = call_1;
  second_call = record {
    id = 0;
    agent_id = codes "a2";
    tool_name = codes "set_name";
    address = 4096;
    parameters = codes "start";
    timestamp = 60;
    is_write_operation = false;
  };
  conflict_type = codes "set_name";
}

set_name_writes : is_write_tool (codes "set_name") ≡ true
unfolding is_write_tool text_eq
set_name_writes = refl

no_target : SameTarget texts (codes "set_name") (codes "start") (codes "main")
no_target = (λ e. absurd (ground (arith, e)), λ e. absurd (ground (arith, e)))

second_check :
    check_for_conflicts texts by_id 60 (codes "a2") (codes "set_name") 4096 (codes "start") one_row
    ≡ some (clash ∷ [])
unfolding check_for_conflicts collect add_clash clashes key_test and_then current_call conflict_row
    row_to_tool_call selected keep is_write_tool text_eq
second_check = refl

check_for_conflicts_iff_example :
    Any (λ c. c.first_call ≡ call_1) (clash ∷ [])
    ↔ Any
        (Conflicting texts (codes "a2") (codes "set_name") 4096 (codes "start") call_1)
        one_row.rows
check_for_conflicts_iff_example =
    check_for_conflicts_iff texts by_id 60 (codes "a2") (codes "set_name") 4096 (codes "start")
      one_row call_1 (clash ∷ []) never set_name_writes second_check

a1_is_not_a2 : ◌≢◌ {A = Text} (codes "a1") (codes "a2")
a1_is_not_a2 e = ground (arith, e)

check-record_example :
    Any
      (λ c. (c.first_call.agent_id ≡ codes "a1") × (c.first_call.parameters ≡ codes "main"))
      (clash ∷ [])
check-record_example =
    check-record texts by_id willing 50 60 (codes "a1") (codes "a2") (codes "set_name") 4096
      (codes "main") (codes "start") empty_table one_row (clash ∷ []) never first_record
      set_name_writes a1_is_not_a2 no_target second_check

cleared_check :
    check_for_conflicts texts by_id 60
      (codes "a2")
      (codes "set_name")
      4096
      (codes "start")
      (clear_agent_data true (codes "a1") one_row).0
    ≡ some []
unfolding check_for_conflicts collect clear_agent_data conflict_row keep is_write_tool text_eq
    selected
cleared_check = refl

abbrev stats_1 : AgentToolStats
stats_1 = record { total_calls = 1; write_calls = 1; read_calls = 0; conflicts = 0 }

stats_run : get_agent_stats texts by_id 70 [] (codes "a1") one_row ≡ some stats_1
unfolding get_agent_stats get_agent_tool_calls written_addresses add_address check_for_conflicts
    read_rows row_to_tool_call selected keep is_write_tool text_eq
stats_run = refl

abbrev full_disk : Answers
full_disk = record { bind_ok = λ i. true; step_done = false }

failed_record :
    record_tool_call texts full_disk 50
      (codes "a1")
      (codes "set_name")
      4096
      (codes "main")
      empty_table
    ≡ some (empty_table, false)
unfolding record_tool_call bind_from_dump bind_from_marker manual_flag insert_row
failed_record = refl

abbrev agent_2 : Detector
agent_2 = record { agent_id = codes "a2"; tracker = one_row; conflict_count = 0 }

modified_run : is_address_modified texts by_id 4096 agent_2 ≡ some true
unfolding is_address_modified get_address_tool_calls read_rows row_to_tool_call selected keep
    text_eq
modified_run = refl

-- Two calls of one message: a comment, which is recorded, and then a name, which clashes.
abbrev comment_use : ToolUse texts
comment_use = record { name = codes "set_comment"; input = codes "entry" }

abbrev name_use : ToolUse texts
name_use = record { name = codes "set_name"; input = codes "start" }

abbrev agent_2_after : Detector
agent_2_after = record agent_2 {
  tracker = record one_row {
    rows =
        row_1
        ∷ record {
          id = 2;
          agent_id = codes "a2";
          tool_name = codes "set_comment";
          address = 4096;
          parameters = codes "entry";
          timestamp = 60;
          is_write = true;
          is_manual = false;
        }
        ∷ [];
    next_id = 3;
  };
}

comment_free : out_of_turn texts [] comment_use ≡ some false
unfolding out_of_turn text_eq
comment_free = refl

name_free : out_of_turn texts [] name_use ≡ some false
unfolding out_of_turn text_eq
name_free = refl

comment_clear : conflicts_for texts by_id 60 comment_use agent_2 ≡ some (agent_2, [])
unfolding conflicts_for check_conflict check_for_conflicts collect add_clash clashes key_test
    and_then current_call conflict_row row_to_tool_call selected extract_address keep is_write_tool
    text_eq
comment_clear = refl

comment_recorded :
    record_call texts by_id willing 60
      (codes "set_comment")
      (extract_address texts (codes "entry"))
      (codes "entry")
      agent_2
    ≡ some (agent_2_after, true)
unfolding record_call record_tool_call bind_from_dump bind_from_marker manual_flag insert_row
    extract_address is_write_tool text_eq
comment_recorded = refl

name_clashes :
    conflicts_for texts by_id 60 name_use agent_2_after
    ≡ some (record agent_2_after { conflict_count = 1 }, clash ∷ [])
unfolding conflicts_for check_conflict check_for_conflicts collect add_clash clashes key_test
    and_then current_call conflict_row row_to_tool_call selected extract_address keep is_write_tool
    text_eq
name_clashes = refl

comment_alone :
    gate texts by_id (λ i. willing) 60 [] (comment_use ∷ []) agent_2
    ≡ some (agent_2_after, run_tools)
unfolding gate after_turn after_check after_record out_of_turn record_call record_tool_call
    bind_from_dump bind_from_marker manual_flag insert_row conflicts_for check_conflict
    check_for_conflicts collect add_clash clashes key_test and_then current_call conflict_row
    row_to_tool_call selected extract_address keep is_write_tool text_eq
comment_alone = refl

gate-Unopposed_example : All (Unopposed texts by_id (codes "a2") one_row.rows) (comment_use ∷ [])
gate-Unopposed_example =
    gate-Unopposed texts by_id (λ i. willing) 60 [] (comment_use ∷ []) agent_2 agent_2_after never
      comment_alone

name_clashes_at_once :
    conflicts_for texts by_id 60 name_use agent_2
    ≡ some (record agent_2 { conflict_count = 1 }, clash ∷ [])
unfolding conflicts_for check_conflict check_for_conflicts collect add_clash clashes key_test
    and_then current_call conflict_row row_to_tool_call selected extract_address keep is_write_tool
    text_eq
name_clashes_at_once = refl

name_refused :
    gate texts by_id (λ i. willing) 60 [] (name_use ∷ comment_use ∷ []) agent_2
    ≡ some (record agent_2 { conflict_count = 1 }, refuse_all (clash ∷ []))
unfolding gate after_turn after_check out_of_turn conflicts_for check_conflict check_for_conflicts
    collect add_clash clashes key_test and_then current_call conflict_row row_to_tool_call selected
    extract_address keep is_write_tool text_eq
name_refused = refl
