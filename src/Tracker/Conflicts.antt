-- ===== src/Tracker/Conflicts.antt =====
-- What the check for conflicts of orchestrator/tool_call_tracker.cpp reports.
use ida_swarm.Base.{
  ℕ, ◌≡◌, ◌≢◌, subst, ◌↔◌, ◌⊎◌, inl, inr, refl, List, [], ◌∷◌, Option, none, some, Bool, true,
  false, Text, codes, text_eq, text_eq_iff, keep, Any, Any-keep, Any-map, arith, Bool-cases,
  Option-cases,
}
use ida_swarm.Base.External.{JsonApi, RowSteps, selected, NeverFails, Any-selected}
use ida_swarm.Tracker.{ToolCall, ToolConflict, Row, Tracker, is_write_tool, row_to_tool_call}
use ida_swarm.Tracker.Queries.{
  conflict_row, and_then, same_key, key_test, add_clash, clashes, collect, current_call,
  check_for_conflicts,
}

-- Both calls name one and the same key.
abbrev pub NamesSame : (J : JsonApi) → Text → J.Json → J.Json → Type 0
NamesSame J key p q =
    (k : Text) × (J.value_string p key [] ≡ some k) × (J.value_string q key [] ≡ some k) × (k ≢ [])

-- Calls of one tool at one address touch the same thing; a variable and a type have to be named.
abbrev pub SameTarget : (J : JsonApi) → Text → J.Json → J.Json → Type 0
SameTarget J tool p q =
    (tool ≡ codes "set_variable" → NamesSame J (codes "variable_name") p q)
    × (tool ≡ codes "set_local_type" → NamesSame J (codes "type_name") p q)

module _ (J : JsonApi) where
  same_key-NamesSame :
      (key : Text) (p q : J.Json) → (same_key J key p q ≡ some true) ↔ NamesSame J key p q
  unfolding same_key
  same_key-NamesSame key p q = elim (Option-cases (J.value_string p key [])) [
    | inl e ↦ (λ h. ground arith, λ (k, a, b, c). ground arith)
    | inr (a, e) ↦ elim (Option-cases (J.value_string q key [])) [
      | inl f ↦ (λ h. ground arith, λ (k, g, b, c). ground arith)
      | inr (b, f) ↦ (
        λ h. (a, e, ground (arith, text_eq_iff a b), ground (arith, text_eq_iff a [])),
        λ (k, g, i, c). ground (arith, text_eq_iff a b, text_eq_iff a [], text_eq_iff b []),
      )
    ]
  ]

  key_test-NamesSame :
      (special key tool : Text) (p q : J.Json)
      → (key_test J special key tool p q ≡ some true) ↔ (tool ≡ special → NamesSame J key p q)
  unfolding key_test
  key_test-NamesSame special key tool p q = elim (Bool-cases (text_eq tool special)) [
    | inl t ↦ rw t (
      λ h _. (same_key-NamesSame key p q).0 h,
      λ h. (same_key-NamesSame key p q).1 (h ((text_eq_iff tool special).0 t)),
    )
    | inr f ↦ rw f (λ h e. absurd (ground (arith, text_eq_iff tool special)), λ h. refl)
  ]

  and_then_iff :
      (a b : Option Bool) → (and_then a b ≡ some true) ↔ (a ≡ some true) × (b ≡ some true)
  unfolding and_then
  and_then_iff none b = ground arith
  and_then_iff (some false) b = ground arith
  and_then_iff (some true) b = ground arith

  clashes_iff :
      (tool : Text) (p : J.Json) (c : ToolCall J)
      → (clashes J tool p c ≡ some true) ↔ (c.tool_name ≡ tool) × SameTarget J tool p c.parameters
  unfolding clashes
  clashes_iff tool p c =
      let v =
        key_test-NamesSame (codes "set_variable") (codes "variable_name") tool p c.parameters in
      let t = key_test-NamesSame (codes "set_local_type") (codes "type_name") tool p c.parameters in
      let both =
        and_then_iff (key_test J (codes "set_variable") (codes "variable_name") tool p c.parameters)
          (key_test J (codes "set_local_type") (codes "type_name") tool p c.parameters) in
      elim (Bool-cases (text_eq c.tool_name tool)) [
        | inl same ↦ rw same (
          λ h. ((text_eq_iff c.tool_name tool).0 same, (v.0 (both.0 h).0, t.0 (both.0 h).1)),
          λ (e, k). both.1 (v.1 k.0, t.1 k.1),
        )
        | inr other ↦
            rw other
              (λ h. absurd (cc), λ (e, k). absurd (ground (arith, text_eq_iff c.tool_name tool)))
      ]

  -- The row's call, if it clashes with the current one.
  abbrev Clashing : ToolCall J → ToolCall J → Row → Type 0
  Clashing current call r =
      (row_to_tool_call J r ≡ some call)
      × (call.tool_name ≡ current.tool_name)
      × SameTarget J current.tool_name current.parameters call.parameters

  abbrev conflict_of : ToolCall J → ToolCall J → ToolConflict J
  conflict_of current existing = record {
    first_call = existing;
    second_call = current;
    conflict_type = current.tool_name;
  }

  add_clash_cases :
      (current existing : ToolCall J) (o : Option Bool) (rest : Option (List (ToolConflict J)))
      (cs : List (ToolConflict J))
      → add_clash J current existing o rest ≡ some cs
      → ((o ≡ some false) × (rest ≡ some cs))
        ⊎ ((ds : List (ToolConflict J)) × (o ≡ some true)
            × (rest ≡ some ds)
            × (conflict_of current existing ∷ ds ≡ cs))
  unfolding add_clash
  add_clash_cases current existing none rest cs h = cc
  add_clash_cases current existing (some false) rest cs h = inl (refl, h)
  add_clash_cases current existing (some true) none cs h = cc
  add_clash_cases current existing (some true) (some ds) cs h = inr (ds, refl, refl, ground arith)

  -- A row that parses to `existing` has no other call.
  Clashing-clashes :
      (current existing call : ToolCall J) (r : Row)
      → row_to_tool_call J r ≡ some existing
      → Clashing current call r
      → (existing ≡ call) × (clashes J current.tool_name current.parameters existing ≡ some true)
  Clashing-clashes current existing call r e (f, n, s) =
      let same : existing ≡ call = ground arith in
      (same, rw same ((clashes_iff current.tool_name current.parameters call).1 (n, s)))

  collect-Clashing :
      (current call : ToolCall J) (rs : List Row) (cs : List (ToolConflict J))
      → collect J current rs ≡ some cs
      → Any (λ c. c.first_call ≡ call) cs ↔ Any (Clashing current call) rs
  unfolding collect
  collect-Clashing current call [] cs h =
      let e : [] ≡ cs = ground arith in rw (← e) (λ a. a, λ a. a)
  collect-Clashing current call (r ∷ rs) cs h = elim (Option-cases (row_to_tool_call J r)) [
    | inl e ↦ absurd (ground arith)
    | inr (existing, e) ↦
        elim (add_clash_cases current existing
          (clashes J current.tool_name current.parameters existing) (collect J current rs) cs
          (rw (e, collect) at h)) [
            | inl (none_here, rest) ↦
                let ih = collect-Clashing current call rs cs rest in
                (
                  λ a. inr (ih.0 a),
                  λ s. elim s [
                    | inl k ↦ absurd (ground (arith, Clashing-clashes current existing call r e k))
                    | inr a ↦ ih.1 a
                  ],
                )
            | inr (ds, here, rest, split) ↦
                let ih = collect-Clashing current call rs ds rest in
                let target = (clashes_iff current.tool_name current.parameters existing).0 here in
                rw (← split) (
                  λ s. elim s [
                    | inl same ↦
                        inl (subst (λ c. Clashing current c r) same (e, target.0, target.1))
                    | inr a ↦ inr (ih.0 a)
                  ],
                  λ s. elim s [
                    | inl k ↦ inl (Clashing-clashes current existing call r e k).0
                    | inr a ↦ inr (ih.1 a)
                  ],
                )
          ]
  ]

conflict_row_iff :
    (address : ℕ) (agent : Text) (r : Row)
    → (conflict_row address agent r ≡ true)
      ↔ (r.address ≡ address) × (r.is_write ≡ true) × (r.agent_id ≢ agent)
unfolding conflict_row
conflict_row_iff address agent r = (
  λ h. (ground arith, ground arith, λ e. ground (arith, text_eq_iff r.agent_id agent)),
  λ (a, w, n). ground (arith, text_eq_iff r.agent_id agent),
)

-- The rows that clash with a call of an agent: writes of another agent at the address, by the same
-- tool, and on the same variable or type where the tool is about one.
abbrev pub Conflicting : (J : JsonApi) → Text → Text → ℕ → J.Json → ToolCall J → Row → Type 0
Conflicting J agent tool address p call r =
    (row_to_tool_call J r ≡ some call)
    × (r.address ≡ address)
    × (r.is_write ≡ true)
    × (r.agent_id ≢ agent)
    × (call.tool_name ≡ tool)
    × SameTarget J tool p call.parameters

module _ (J : JsonApi) (O : RowSteps Row) where
  -- Where no step of the query fails: for a write tool, a check that returns reports a call as a first call exactly if the table
  -- has a row of it that was written at the address by another agent, with the same tool, and, for
  -- set_variable and set_local_type, on the same variable or type, which both calls name.
  pub check_for_conflicts_iff :
      (now : ℕ) (agent tool : Text) (address : ℕ) (p : J.Json) (t : Tracker) (call : ToolCall J)
      (cs : List (ToolConflict J))
      → NeverFails O
      → is_write_tool tool ≡ true
      → check_for_conflicts J O now agent tool address p t ≡ some cs
      → Any (λ c. c.first_call ≡ call) cs ↔ Any (Conflicting J agent tool address p call) t.rows
  unfolding check_for_conflicts current_call selected
  check_for_conflicts_iff now agent tool address p t call cs never w h =
      let rows = keep (conflict_row address agent) t.rows in
      let found =
        collect-Clashing J (current_call J now agent tool address p) call (selected O rows) cs
          (rw w at h) in
      let kept =
        Any-keep (Clashing J (current_call J now agent tool address p) call)
          (conflict_row address agent) t.rows in
      let sorted =
        Any-selected O never (Clashing J (current_call J now agent tool address p) call) rows in
      (
        λ a.
            Any-map
              (λ r k.
                let row = (conflict_row_iff address agent r).0 k.0 in
                (k.1.0, row.0, row.1, row.2, k.1.1, k.1.2))
              t.rows (kept.0 (sorted.0 (found.0 a))),
        λ a. found.1 (
            sorted.1 (
              kept.1 (
                Any-map
                  (λ r (e, at, w, other, n, target).
                    ((conflict_row_iff address agent r).1 (at, w, other), (e, n, target)))
                  t.rows a))),
      )
