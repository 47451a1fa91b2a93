-- ===== src/Tracker/Detector.antt =====
-- agent/conflict_detector.h and .cpp: one agent's view of the shared table.
use ida_swarm.Base.{
  ℕ, ◌%◌, ◌+◌, ◌≡◌, ◌≢◌, ◌↔◌, inl, inr, refl, sym, ◌∙◌, List, [], ◌∷◌, Option, none, some, Bool,
  true, false, not, ◌||◌, ◌&&◌, Text, text_eq, text_eq_iff, length, keep, Any, Any-keep, Any-map,
  arith, ◌==◌, Option-cases, Bool-cases,
}
use ida_swarm.Base.External.{JsonApi, RowSteps, selected, NeverFails, Any-selected}
use ida_swarm.Tracker.{
  int_word, ToolCall, ToolConflict, Row, Tracker, Answers, record_tool_call, row_to_tool_call,
  read_rows,
}
use ida_swarm.Tracker.Queries.{check_for_conflicts, get_address_tool_calls}

pub record Detector : Type 0 where
  pub agent_id : Text
  pub tracker : Tracker
  pub conflict_count : ℕ

unfoldable pub any_foreign_write : {J : JsonApi} → Text → List (ToolCall J) → Bool
any_foreign_write agent [] = false
any_foreign_write agent (c ∷ cs) =
    c.is_write_operation && not (text_eq c.agent_id agent) || any_foreign_write agent cs

module _ (J : JsonApi) (O : RowSteps Row) where
  unfoldable pub check_conflict :
      ℕ → Text → ℕ → J.Json → Detector → Option (Detector × List (ToolConflict J))
  check_conflict now tool address p d =
      elim (check_for_conflicts J O now d.agent_id tool address p d.tracker) [
        | none ↦ none
        | some cs ↦ some (record d { conflict_count = d.conflict_count + length cs }, cs)
      ]

  -- The table of the result, and whether the call was recorded.
  unfoldable pub record_call : Answers → ℕ → Text → ℕ → J.Json → Detector → Option (Detector × Bool)
  record_call a now tool address p d =
      elim (record_tool_call J a now d.agent_id tool address p d.tracker) [
        | none ↦ none
        | some (t, done) ↦ some (record d { tracker = t }, done)
      ]

  unfoldable pub is_address_modified : ℕ → Detector → Option Bool
  unfolding any_foreign_write
  is_address_modified address d = elim (get_address_tool_calls J O address d.tracker) [
    | none ↦ none
    | some calls ↦ some (any_foreign_write d.agent_id calls)
  ]

  read_rows-cons :
      (r : Row) (rs : List Row) (cs : List (ToolCall J))
      → read_rows J (r ∷ rs) ≡ some cs
      → (c : ToolCall J) × (ds : List (ToolCall J)) × (read_rows J rs ≡ some ds)
        × (c ∷ ds ≡ cs)
        × (c.agent_id ≡ r.agent_id)
        × (c.is_write_operation ≡ r.is_write)
  unfolding read_rows row_to_tool_call
  read_rows-cons r rs cs h = elim (Option-cases (J.parse r.parameters)) [
    | inl e ↦ absurd (ground arith)
    | inr (p, e) ↦ elim (Option-cases (read_rows J rs)) [
      | inl f ↦ absurd (ground arith)
      | inr (ds, f) ↦ (
        record {
          id = r.id % int_word;
          agent_id = r.agent_id;
          tool_name = r.tool_name;
          address = r.address;
          parameters = p;
          timestamp = r.timestamp;
          is_write_operation = r.is_write;
        },
        ds,
        f,
        ground arith,
        refl,
        refl,
      )
    ]
  ]

  any_foreign_write-Any :
      (agent : Text) (rs : List Row) (cs : List (ToolCall J))
      → read_rows J rs ≡ some cs
      → (any_foreign_write agent cs ≡ true)
        ↔ Any (λ r. (r.is_write ≡ true) × (r.agent_id ≢ agent)) rs
  unfolding any_foreign_write
  any_foreign_write-Any agent [] cs h =
      let e : [] ≡ cs = unfold read_rows in ground arith in
      rw (← e) (λ a. absurd (cc), λ a. absurd a)
  any_foreign_write-Any agent (r ∷ rs) cs h =
      let (c, ds, rest, split, same, written) = read_rows-cons r rs cs h in
      let ih = any_foreign_write-Any agent rs ds rest in
      rw (← split) (elim (Bool-cases (c.is_write_operation && not (text_eq c.agent_id agent))) [
        | inl t ↦ (
          λ _. inl (ground arith, λ e. ground (arith, text_eq_iff c.agent_id agent)),
          λ _. ground arith,
        )
        | inr f ↦ (
          λ k. inr (ih.0 (ground arith)),
          λ s. elim s [
            | inl (w, n) ↦ absurd (ground (arith, text_eq_iff c.agent_id agent))
            | inr a ↦ let deeper = ih.1 a in ground arith
          ],
        )
      ])

  -- Where no step fails: when it returns, is_address_modified says yes exactly if the table has a write of another agent
  -- at the address, whatever the tool.
  pub is_address_modified_iff :
      (address : ℕ) (d : Detector) (b : Bool)
      → NeverFails O
      → is_address_modified address d ≡ some b
      → (b ≡ true)
        ↔ Any
            (λ r. (r.address ≡ address) × (r.is_write ≡ true) × (r.agent_id ≢ d.agent_id))
            d.tracker.rows
  unfolding is_address_modified get_address_tool_calls
  is_address_modified_iff address d b never h =
      let rows = keep (λ (r : Row). r.address == address) d.tracker.rows in
      elim (Option-cases (read_rows J (selected O rows))) [
        | inl e ↦ absurd (ground arith)
        | inr (cs, e) ↦
            let found = any_foreign_write-Any d.agent_id (selected O rows) cs e in
            let foreign = λ (r : Row). (r.is_write ≡ true) × (r.agent_id ≢ d.agent_id) in
            let sorted = Any-selected O never foreign rows in
            let kept = Any-keep foreign (λ (r : Row). r.address == address) d.tracker.rows in
            let same : any_foreign_write d.agent_id cs ≡ b = ground arith in
            (
              λ t.
                  Any-map (λ r k. (ground arith, k.1.0, k.1.1)) d.tracker.rows
                    (kept.0 (sorted.0 (found.0 (same ∙ t)))),
              λ a.
                  sym same
                  ∙ found.1 (
                      sorted.1
                        (kept.1 (Any-map (λ r k. (ground arith, (k.1, k.2))) d.tracker.rows a))),
            )
      ]
