-- ===== src/Merge/Replay.antt =====
-- What a merge of orchestrator/merge_manager.cpp replays and reports.
use ida_swarm.Base.{
  ℕ, suc, ◌+◌, ◌≡◌, ◌↔◌, ◌⊎◌, ◌<◌, ◌≤◌, inl, inr, refl, ◌∙◌, List, [], ◌∷◌, ◌++◌, Option, none,
  some, Bool, true, false, Text, ◌||◌, codes, take, text_eq, keep, length, length-append, All,
  arith, Bool-cases, ◌==◌,
}
use ida_swarm.Base.External.{JsonApi, RowSteps}
use ida_swarm.Tracker
use ida_swarm.Tracker.{ToolCall, Row, Tracker, is_member}
use ida_swarm.Tracker.Queries.{get_agent_tool_calls, check_for_conflicts}
use ida_swarm.Merge.{
  MergeResult, empty_result, Outcome, results, raised, Registry, is_write_tool, add_outcome,
  replay_call, merge_calls, merge_tool_calls, merge_agent_changes, add_failure, parse_failed,
  add_applied, add_failed, read_success, read_result, set_success, write_tools,
}

module _ (J : JsonApi) where
  -- The tool result says that the change was made, with a message that can be read.
  abbrev pub Applies : Outcome → Type 0
  Applies (raised w) = ⊥
  Applies (results []) = ⊥
  Applies (results (t ∷ ts)) =
      (j : J.Json) × (m : Text) × (J.parse t ≡ some j)
      × (J.value_bool j (codes "success") false ≡ some true)
      × (J.value_string j (codes "message") (codes "Applied successfully") ≡ some m)

  abbrev lines : MergeResult → ℕ
  lines r = length r.applied_changes + length r.failed_changes

  -- One outcome adds one line, and leaves the count of failures as it was exactly if it applies.
  abbrev Adds : Outcome → MergeResult → MergeResult → Type 0
  Adds o r s =
      (lines s ≡ suc (lines r))
      × ((Applies o × (s.changes_failed ≡ r.changes_failed))
          ⊎ ((¬ Applies o) × (r.changes_failed < s.changes_failed)))

  add_failure-Adds :
      (o : Outcome) (line : Text) (r : MergeResult) → ¬ Applies o → Adds o r (add_failure line r)
  unfolding add_failure
  add_failure-Adds o line r h =
      (omega (arith, length-append r.failed_changes (line ∷ [])), inr (h, omega arith))

  add_applied-Adds :
      (c : ToolCall J) (t : Text) (ts : List Text) (j : J.Json) (r : MergeResult) (m : Option Text)
      → J.parse t ≡ some j
      → J.value_bool j (codes "success") false ≡ some true
      → J.value_string j (codes "message") (codes "Applied successfully") ≡ m
      → Adds (results (t ∷ ts)) r (add_applied J c m r)
  unfolding add_applied parse_failed add_failure
  add_applied-Adds c t ts j r none e b h = (
    omega (
      arith,
      length-append r.failed_changes ((c.tool_name ++ codes ": Failed to parse result") ∷ []),
    ),
    inr ((λ (i, m, e', b', h'). absurd (ground (arith))), omega arith),
  )
  add_applied-Adds c t ts j r (some m) e b h = (
    omega
        (arith, length-append r.applied_changes ((c.tool_name ++ (codes ": " ++ take 100 m)) ∷ [])),
    inl ((j, m, e, b, h), refl),
  )

  add_failed-Adds :
      (c : ToolCall J) (o : Outcome) (r : MergeResult) (m : Option Text)
      → ¬ Applies o
      → Adds o r (add_failed J c m r)
  unfolding add_failed parse_failed add_failure
  add_failed-Adds c o r none h = (
    omega (
      arith,
      length-append r.failed_changes ((c.tool_name ++ codes ": Failed to parse result") ∷ []),
    ),
    inr (h, omega arith),
  )
  add_failed-Adds c o r (some error) h = unfold add_failure in add_failure-Adds o _ r h

  read_success-Adds :
      (c : ToolCall J) (t : Text) (ts : List Text) (j : J.Json) (r : MergeResult) (b : Option Bool)
      → J.parse t ≡ some j
      → J.value_bool j (codes "success") false ≡ b
      → Adds (results (t ∷ ts)) r (read_success J c j b r)
  unfolding read_success parse_failed
  read_success-Adds c t ts j r none e h =
      add_failure-Adds (results (t ∷ ts)) _ r (λ (i, m, e', b, h'). ground arith)
  read_success-Adds c t ts j r (some true) e h = add_applied-Adds c t ts j r _ e h refl
  read_success-Adds c t ts j r (some false) e h =
      add_failed-Adds c (results (t ∷ ts)) r _ (λ (i, m, e', b, h'). ground arith)

  read_result-Adds :
      (c : ToolCall J) (t : Text) (ts : List Text) (r : MergeResult) (p : Option J.Json)
      → J.parse t ≡ p
      → Adds (results (t ∷ ts)) r (read_result J c p r)
  unfolding read_result parse_failed
  read_result-Adds c t ts r none e =
      add_failure-Adds (results (t ∷ ts)) _ r (λ (j, m, e', b, h). ground arith)
  read_result-Adds c t ts r (some j) e = read_success-Adds c t ts j r _ e refl

  add_outcome-Adds :
      (c : ToolCall J) (o : Outcome) (r : MergeResult) → Adds o r (add_outcome J c o r)
  unfolding add_outcome
  add_outcome-Adds c (raised w) r = add_failure-Adds (raised w) _ r (λ h. h)
  add_outcome-Adds c (results []) r = add_failure-Adds (results []) _ r (λ h. h)
  add_outcome-Adds c (results (t ∷ ts)) r = read_result-Adds c t ts r (J.parse t) refl

module _ (J : JsonApi) (G : Registry J) where
  -- The calls run one after the other: the database that is left, and what each gave.
  unfoldable pub replay : List (ToolCall J) → G.Database → G.Database
  replay [] db = db
  replay (c ∷ cs) db = replay cs (replay_call J G c db).0

  unfoldable pub outcomes : List (ToolCall J) → G.Database → List Outcome
  outcomes [] db = []
  outcomes (c ∷ cs) db = let (next, outcome) = replay_call J G c db in outcome ∷ outcomes cs next

  abbrev pub writes : List (ToolCall J) → List (ToolCall J)
  writes = keep (λ c. is_write_tool c.tool_name)

  -- What a merge has made of a database and of a result.
  abbrev Merges : List (ToolCall J) → G.Database → MergeResult → G.Database × MergeResult → Type 0
  Merges cs db r (d, s) =
      (d ≡ replay cs db)
      × (lines J s ≡ lines J r + length cs)
      × (r.changes_failed ≤ s.changes_failed)
      × ((s.changes_failed ≡ r.changes_failed) ↔ All (Applies J) (outcomes cs db))

  merge_calls-Merges :
      (cs : List (ToolCall J)) (db : G.Database) (r : MergeResult)
      → Merges (writes cs) db r (merge_calls J G cs db r)
  unfolding merge_calls keep replay outcomes
  merge_calls-Merges [] db r = (refl, omega arith, omega arith, (λ _. tt, λ _. refl))
  merge_calls-Merges (c ∷ cs) db r = elim (Bool-cases (is_write_tool c.tool_name)) [
    | inl t ↦
        let (next, o) = replay_call J G c db in
        let ih = merge_calls-Merges cs next (add_outcome J c o r) in
        let one = add_outcome-Adds J c o r in
        let s = (merge_calls J G cs next (add_outcome J c o r)).1 in
        let counted : (r.changes_failed ≤ s.changes_failed)
            × ((s.changes_failed ≡ r.changes_failed)
                ↔ (Applies J o × All (Applies J) (outcomes (writes cs) next))) =
          elim one.1 [
            | inl (ok, same) ↦
                (omega arith, ((λ e. (ok, ih.3.0 (omega arith))), (λ all. ih.3.1 all.1 ∙ same)))
            | inr (bad, more) ↦
                (omega arith, ((λ e. absurd (omega arith)), (λ all. absurd (bad all.0))))
          ] in
        rw (t, merge_calls) (ih.0, omega (arith, one.0, ih.1), counted.0, counted.1)
    | inr f ↦ rw (f, merge_calls) (merge_calls-Merges cs db r)
  ]

  -- A merge of calls that are read with success runs the write calls among them once each, in
  -- order, each on the database that the one before has left, whatever the earlier ones gave. It
  -- reports success exactly if every one of them says that it was applied, with a message that can
  -- be read, and it has one line for each of them.
  pub merge_agent_changes_lem :
      (O : RowSteps Row) (agent : Text) (t : Tracker) (db : G.Database) (calls : List (ToolCall J))
      → get_agent_tool_calls J O agent t ≡ some calls
      → (r : MergeResult) × (merge_agent_changes J G O agent t db
          ≡ some (replay (writes calls) db, r))
        × ((r.success ≡ true) ↔ All (Applies J) (outcomes (writes calls) db))
        × (length r.applied_changes + length r.failed_changes ≡ length (writes calls))
  unfolding merge_agent_changes merge_tool_calls set_success
  merge_agent_changes_lem O agent t db [] e =
      unfold keep replay outcomes in
      (
        record empty_result { success = true; error_message = codes "No tool calls to merge" },
        ground arith,
        (λ _. tt, λ _. refl),
        refl,
      )
  merge_agent_changes_lem O agent t db (c ∷ cs) e =
      let (d, s) = merge_calls J G (c ∷ cs) db empty_result in
      let m : Merges (writes (c ∷ cs)) db empty_result (d, s) =
        merge_calls-Merges (c ∷ cs) db empty_result in
      (
        record s { success = s.changes_failed == 0 },
        ground (arith, m.0),
        (λ h. m.3.0 (ground arith), λ h. ground (arith, m.3.1 h)),
        omega (arith, m.1),
      )

  -- One write call whose result says success, with a message that is no string, is counted twice:
  -- as a change that was made and as one that failed.
  pub merge_counts_twice :
      (c : ToolCall J) (db d : G.Database) (t : Text) (ts : List Text) (j : J.Json)
      → is_write_tool c.tool_name ≡ true
      → replay_call J G c db ≡ (d, results (t ∷ ts))
      → J.parse t ≡ some j
      → J.value_bool j (codes "success") false ≡ some true
      → J.value_string j (codes "message") (codes "Applied successfully") ≡ none
      → (r : MergeResult) × (merge_tool_calls J G (c ∷ []) db ≡ (d, r))
        × (r.changes_applied ≡ 1)
        × (r.changes_failed ≡ 1)
        × (r.success ≡ false)
  unfolding merge_tool_calls merge_calls set_success add_outcome read_result read_success
      add_applied parse_failed add_failure
  merge_counts_twice c db d t ts j w run p b m = (
    record empty_result {
      changes_applied = 1;
      changes_failed = 1;
      failed_changes = (c.tool_name ++ codes ": Failed to parse result") ∷ [];
    },
    ground arith,
    refl,
    refl,
    refl,
  )

-- The tools that only a merge takes for write tools.
abbrev pub injection_tools : List Text
injection_tools =
    codes "allocate_code_workspace"
    ∷ codes "preview_code_injection"
    ∷ codes "finalize_code_injection"
    ∷ []

is_member-insert :
    (t : Text) (xs ys zs : List Text)
    → is_member t (xs ++ (ys ++ zs)) ≡ is_member t (xs ++ zs) || is_member t ys
unfolding is_member
is_member-insert t [] [] zs = ground arith
is_member-insert t [] (y ∷ ys) zs = ground (arith, is_member-insert t [] ys zs)
is_member-insert t (x ∷ xs) ys zs = ground (arith, is_member-insert t xs ys zs)

-- A merge runs again every call that the tracker takes for a write, and besides them just the calls
-- of the three tools that inject code; of those three, no agent's call is ever checked for a
-- conflict: the check answers that there is none, whatever is in the table.
pub merge_write_tools_lem :
    (J : JsonApi) (O : RowSteps Row)
    → ((t : Text) → is_write_tool t ≡ (Tracker.is_write_tool t || is_member t injection_tools))
      × All
          (λ tool.
            (is_write_tool tool ≡ true)
            × ((now : ℕ) (agent : Text) (address : ℕ) (p : J.Json) (t : Tracker)
                → check_for_conflicts J O now agent tool address p t ≡ some []))
          injection_tools
unfolding is_write_tool write_tools Tracker.is_write_tool Tracker.write_tools check_for_conflicts
    is_member text_eq
merge_write_tools_lem J O = (
  λ t.
      is_member-insert t
        (codes "set_name"
          ∷ codes "set_comment"
          ∷ codes "set_function_prototype"
          ∷ codes "set_variable"
          ∷ codes "set_local_type"
          ∷ codes "patch_bytes"
          ∷ codes "patch_assembly"
          ∷ [])
        injection_tools
        (codes "start_semantic_patch"
          ∷ codes "compile_replacement"
          ∷ codes "preview_semantic_patch"
          ∷ codes "finalize_semantic_patch"
          ∷ []),
  (
    (refl, λ now agent address p t. refl),
    ((refl, λ now agent address p t. refl), ((refl, λ now agent address p t. refl), tt)),
  ),
)
