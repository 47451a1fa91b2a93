-- ===== src/Swarm/Gate.antt =====
-- When the tool calls of a message go ahead: process_tool_calls of agent/swarm_agent.cpp.
use ida_swarm.Base.{
  ℕ, ◌≡◌, ◌≢◌, inl, inr, refl, sym, ap, subst, ◌∙◌, List, [], ◌∷◌, ◌++◌, append-nil, Option, none,
  some, Bool, true, false, Text, All, Any, arith, Option-cases,
}
use ida_swarm.Base.External.{JsonApi, RowSteps, NeverFails}
use ida_swarm.Tracker.{
  ToolCall, ToolConflict, Row, Tracker, Answers, new_row, is_write_tool, record_tool_call,
}
use ida_swarm.Tracker.Conflicts.{Conflicting, check_for_conflicts_iff}
use ida_swarm.Tracker.Queries.{check_for_conflicts}
use ida_swarm.Tracker.Detection.{recorded, not_recorded}
use ida_swarm.Tracker.Detector.{Detector, check_conflict, record_call}
use ida_swarm.Swarm.{
  ToolUse, SimpleConflictState, Decision, run_tools, refuse_all, extract_address, out_of_turn,
  conflicts_for, after_turn, after_check, after_record, gate,
}

Any-append_left : {A : Type 0} (P : A → Type 0) (xs ys : List A) → Any P xs → Any P (xs ++ ys)
Any-append_left P (x ∷ xs) ys (inl h) = inl h
Any-append_left P (x ∷ xs) ys (inr a) = inr (Any-append_left P xs ys a)
Any-append_left P [] ys a = absurd a

-- The second table is the first with more rows behind.
abbrev Extends : List Row → List Row → Type 0
Extends rows rows' = (more : List Row) × (rows' ≡ rows ++ more)

module _ (J : JsonApi) where
  record-Extends :
      (a : Answers) (now : ℕ) (agent tool : Text) (address : ℕ) (p : J.Json) (t t' : Tracker)
      (b : Bool)
      → record_tool_call J a now agent tool address p t ≡ some (t', b)
      → Extends t.rows t'.rows
  record-Extends a now agent tool address p t t' true h =
      let (params, manual, dumped, e) = recorded J a now agent tool address p t t' h in
      (new_row now agent tool address params manual t ∷ [], e)
  record-Extends a now agent tool address p t t' false h =
      ([], rw (← not_recorded J a now agent tool address p t t' h) (sym (append-nil t.rows)))

module _ (J : JsonApi) (O : RowSteps Row) where
  -- Looking for conflicts leaves the table alone.
  conflicts_for-tracker :
      (now : ℕ) (u : ToolUse J) (d d' : Detector) (cs : List (ToolConflict J))
      → conflicts_for J O now u d ≡ some (d', cs)
      → (d'.tracker ≡ d.tracker) × (d'.agent_id ≡ d.agent_id)
  unfolding conflicts_for check_conflict
  conflicts_for-tracker now u d d' cs h = (ground arith, ground arith)

  record_call-Extends :
      (a : Answers) (now : ℕ) (tool : Text) (address : ℕ) (p : J.Json) (d d' : Detector) (b : Bool)
      → record_call J O a now tool address p d ≡ some (d', b)
      → (d'.agent_id ≡ d.agent_id) × Extends d.tracker.rows d'.tracker.rows
  unfolding record_call
  record_call-Extends a now tool address p d d' b h =
      elim (Option-cases (record_tool_call J a now d.agent_id tool address p d.tracker)) [
        | inl e ↦ absurd (ground arith)
        | inr ((t, done), e) ↦ (
          ground arith,
          let same : t ≡ d'.tracker = ground arith in
              rw (← same) (record-Extends J a now d.agent_id tool address p d.tracker t done e),
        )
      ]

  turn_passed :
      (o : Option Bool) (d e : Detector) (go_on : Option (Detector × Decision J))
      → after_turn J O o d go_on ≡ some (e, run_tools)
      → go_on ≡ some (e, run_tools)
  unfolding after_turn
  turn_passed none d e go_on h = cc
  turn_passed (some true) d e go_on h = absurd (ground arith)
  turn_passed (some false) d e go_on h = h

  check_passed :
      (o : Option (Detector × List (ToolConflict J)))
      (go_on : Detector → Option (Detector × Decision J)) (e : Detector)
      → after_check J O o go_on ≡ some (e, run_tools)
      → (d : Detector) × (o ≡ some (d, [])) × (go_on d ≡ some (e, run_tools))
  unfolding after_check
  check_passed none go_on e h = cc
  check_passed (some (d, c ∷ cs)) go_on e h = absurd (ground arith)
  check_passed (some (d, [])) go_on e h = (d, refl, h)

  record_passed :
      (o : Option (Detector × Bool)) (go_on : Detector → Option (Detector × Decision J))
      (e : Detector)
      → after_record J O o go_on ≡ some (e, run_tools)
      → (d : Detector) × (b : Bool) × (o ≡ some (d, b)) × (go_on d ≡ some (e, run_tools))
  unfolding after_record
  record_passed none go_on e h = cc
  record_passed (some (d, b)) go_on e h = (d, b, refl, h)

  -- No row of the table clashes with the tool use, for a call of the agent.
  abbrev pub Unopposed : Text → List Row → ToolUse J → Type 0
  Unopposed agent rows u =
      is_write_tool u.name ≡ true
      → extract_address J u.input ≢ 0
      → (call : ToolCall J)
      → ¬ Any (Conflicting J agent u.name (extract_address J u.input) u.input call) rows

  passed-Unopposed :
      (now : ℕ) (u : ToolUse J) (d d' : Detector)
      → NeverFails O
      → conflicts_for J O now u d ≡ some (d', [])
      → Unopposed d.agent_id d.tracker.rows u
  unfolding conflicts_for check_conflict
  passed-Unopposed now u d d' never h w n call clash =
      let address = extract_address J u.input in
      elim (Option-cases
        (check_for_conflicts J O now d.agent_id u.name address u.input d.tracker)) [
          | inl e ↦ absurd (ground arith)
          | inr (cs, e) ↦
              let empty : cs ≡ [] = ground arith in
              let reported =
                (check_for_conflicts_iff J O now d.agent_id u.name address u.input d.tracker call cs
                    never w e).1
                  clash in
              rw empty at reported
        ]

  All-map_Unopposed :
      (agent : Text) (rows more : List Row) (us : List (ToolUse J))
      → All (Unopposed agent (rows ++ more)) us
      → All (Unopposed agent rows) us
  All-map_Unopposed agent rows more [] h = tt
  All-map_Unopposed agent rows more (u ∷ us) h = (
    λ w n call clash. h.0 w n call (Any-append_left _ rows more clash),
    All-map_Unopposed agent rows more us h.1,
  )

  -- Where no step of a query fails: a message's tools are run only if no write among them that names an address clashes with what
  -- the table held, when the message came, of the other agents' writes at that address.
  pub gate-Unopposed :
      (answers : ℕ → Answers) (now : ℕ) (conflicts : List (Text × SimpleConflictState))
      (us : List (ToolUse J)) (d e : Detector)
      → NeverFails O
      → gate J O answers now conflicts us d ≡ some (e, run_tools)
      → All (Unopposed d.agent_id d.tracker.rows) us
  unfolding gate
  gate-Unopposed answers now conflicts [] d e never h = tt
  gate-Unopposed answers now conflicts (u ∷ us) d e never h =
      let (d', passed, k) = check_passed _ _ e (turn_passed (out_of_turn J conflicts u) d e _ h) in
      let (d'', b, recorded, rest) = record_passed _ _ e k in
      let looked = conflicts_for-tracker now u d d' [] passed in
      let (agent, (more, ext)) = record_call-Extends _ now u.name _ u.input d' d'' b recorded in
      let ih = gate-Unopposed answers now conflicts us d'' e never rest in
      let rows = ext ∙ ap (λ (t : Tracker). t.rows ++ more) looked.0 in
      let kept = subst (λ a. All (Unopposed a d''.tracker.rows) us) (agent ∙ looked.1) ih in
      (
        passed-Unopposed now u d d' never passed,
        All-map_Unopposed d.agent_id d.tracker.rows more us
            (subst (λ r. All (Unopposed d.agent_id r) us) rows kept),
      )

  refused_first :
      (o : Option Bool) (d d' e : Detector) (c : ToolConflict J) (cs ds : List (ToolConflict J))
      (go_on : Detector → Option (Detector × Decision J))
      → after_turn J O o d (after_check J O (some (d', c ∷ cs)) go_on) ≡ some (e, refuse_all ds)
      → d' ≡ e
  refused_first none d d' e c cs ds go_on h = unfold after_turn in cc
  refused_first (some true) d d' e c cs ds go_on h = absurd (unfold after_turn in ground arith)
  refused_first (some false) d d' e c cs ds go_on h = unfold after_turn after_check in ground arith

  -- Where the first tool use of a message meets a conflict, and the message is refused, the table
  -- stays as it was: nothing of the message is recorded.
  pub gate_first_refused :
      (answers : ℕ → Answers) (now : ℕ) (conflicts : List (Text × SimpleConflictState))
      (u : ToolUse J) (us : List (ToolUse J)) (d d' e : Detector) (c : ToolConflict J)
      (cs ds : List (ToolConflict J))
      → conflicts_for J O now u d ≡ some (d', c ∷ cs)
      → gate J O answers now conflicts (u ∷ us) d ≡ some (e, refuse_all ds)
      → e.tracker ≡ d.tracker
  unfolding gate
  gate_first_refused answers now conflicts u us d d' e c cs ds found h =
      let at = refused_first (out_of_turn J conflicts u) d d' e c cs ds _ (rw found at h) in
      ap (λ (x : Detector). x.tracker) (sym at)
      ∙ (conflicts_for-tracker now u d d' (c ∷ cs) found).0
