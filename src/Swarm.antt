-- ===== src/Swarm.antt =====
-- agent/swarm_agent.cpp, process_tool_calls up to the call of the base class: the turns of a
-- discussion, the check for conflicts, and the record of each tool call of one message.
pub mod Gate
use ida_swarm.Base.{
  ℕ, List, [], ◌∷◌, Option, none, some, Bool, true, false, not, ◌&&◌, Text, codes, text_eq, lookup,
  ◌==◌, if◌then◌else◌,
}
use ida_swarm.Base.External.{JsonApi, RowSteps, Field, missing, text, number, other}
use ida_swarm.Base.Numbers.{stoull}
use ida_swarm.Tracker.{ToolConflict, Row, Answers, is_write_tool}
use ida_swarm.Tracker.Detector.{Detector, check_conflict, record_call}

-- A tool use of the model's message; those that are null are left out.
pub record ToolUse (J : JsonApi) : Type 0 where
  pub name : Text
  pub input : J.Json

pub record SimpleConflictState : Type 0 where
  pub channel : Text
  pub my_turn : Bool
  pub consensus_reached : Bool
  pub waiting_for_consensus_complete : Bool

pub data Decision (J : JsonApi) : Type 0 where
  -- every tool goes to the base class, which runs it
  run_tools : Decision J
  -- one error result, for a message out of turn
  wait_turn : Decision J
  -- an error result for each tool; each conflict is handled
  refuse_all : List (ToolConflict J) → Decision J

-- The address that a tool use is about; 0 where there is none or it cannot be read.
unfoldable pub parsed_address : Option ℕ → ℕ
parsed_address none = 0
parsed_address (some a) = a

unfoldable pub extract_address : (J : JsonApi) → J.Json → ℕ
unfolding parsed_address
extract_address J input = elim (J.field input (codes "address")) [
  | missing ↦ 0
  | text t ↦ parsed_address (stoull t)
  | number n ↦ n
  | other ↦ 0
]

unfoldable pub blocks : Option SimpleConflictState → Bool
blocks none = false
blocks (some c) = not c.my_turn && not c.consensus_reached

-- Whether a message would be sent out of turn; `none` where the channel is no string.
unfoldable pub out_of_turn :
    (J : JsonApi) → List (Text × SimpleConflictState) → ToolUse J → Option Bool
unfolding blocks
out_of_turn J conflicts u =
    if text_eq u.name (codes "send_irc_message") && J.contains u.input (codes "channel")
    then elim (J.get_string u.input (codes "channel")) [
      | none ↦ none
      | some channel ↦ some (blocks (lookup channel conflicts))
    ]
    else some false

module _ (J : JsonApi) (O : RowSteps Row) where
  -- The conflicts that stop a tool use; none for a tool that does not write or has no address.
  unfoldable pub conflicts_for :
      ℕ → ToolUse J → Detector → Option (Detector × List (ToolConflict J))
  conflicts_for now u d =
      if is_write_tool u.name && not (extract_address J u.input == 0)
      then check_conflict J O now u.name (extract_address J u.input) u.input d
      else some (d, [])

  -- A tool use goes on by `go_on` unless its message is out of turn, it meets a conflict, or a JSON
  -- call throws.
  unfoldable pub after_turn :
      Option Bool → Detector → Option (Detector × Decision J) → Option (Detector × Decision J)
  after_turn none d go_on = none
  after_turn (some true) d go_on = some (d, wait_turn)
  after_turn (some false) d go_on = go_on

  unfoldable pub after_check :
      Option (Detector × List (ToolConflict J))
      → (Detector → Option (Detector × Decision J))
      → Option (Detector × Decision J)
  after_check none go_on = none
  after_check (some (d, c ∷ cs)) go_on = some (d, refuse_all (c ∷ cs))
  after_check (some (d, [])) go_on = go_on d

  unfoldable pub after_record :
      Option (Detector × Bool)
      → (Detector → Option (Detector × Decision J))
      → Option (Detector × Decision J)
  after_record none go_on = none
  after_record (some (d, recorded)) go_on = go_on d

  -- The loop over the tool uses of one message; `answers` is how the database takes the record that
  -- would get an id. `none` where a JSON call throws.
  unfoldable pub gate :
      (ℕ → Answers)
      → ℕ
      → List (Text × SimpleConflictState)
      → List (ToolUse J)
      → Detector
      → Option (Detector × Decision J)
  gate answers now conflicts [] d = some (d, run_tools)
  gate answers now conflicts (u ∷ us) d = after_turn (out_of_turn J conflicts u) d (
      after_check (conflicts_for now u d) λ e.
        after_record
          (record_call J O (answers e.tracker.next_id) now u.name (extract_address J u.input)
            u.input e)
          (gate answers now conflicts us))
