-- ===== src/Injection/Runs.antt =====
-- The stages of patching/code_injection_manager.cpp one after the other: what a finalization rests on.
use ida_swarm.Base.{
  ℕ, ◌-◌, ◌≡◌, ◌<◌, inl, inr, refl, sym, ◌∙◌, subst, List, [], ◌∷◌, none, some, Bool, true, false,
  ◌==◌, All, Any, Text, arith, Bool-cases, Option-cases,
}
use ida_swarm.NoGo.{badaddr}
use ida_swarm.Injection.{Platform, Ida, PreviewRecord, Manager}
use ida_swarm.Injection.Caves.{find_code_cave}
use ida_swarm.Injection.Stages.{
  Result, failure, success, CodeFinalizationResult, get, remove, same_range,
  allocate_code_workspace, allocate_at, track_workspace, find_safe_address_after_segments,
}
use ida_swarm.Injection.Finalize.{
  finalize_code_injection, finalize_previewed, finish, place_code, set_no_go_zones,
}
use ida_swarm.Injection.Previews.{
  Call, allocate, preview, finalize, set_zones, IsPreview, IsWordCall, manager_of, step, run, Kept,
  remove-All, get-All, get-remove, preview-Kept,
}

module _ (I : Ida) (P : Platform) where
  finish-cache :
      (Q : (ℕ × ℕ) × PreviewRecord → Type 0) (s e : ℕ) (r : PreviewRecord)
      (placed : I.Database × Result (ℕ × Text)) (m : Manager I)
      → All Q m.preview_cache
      → All Q (finish I P s e r placed m).0.preview_cache
  unfolding finish
  finish-cache Q s e r (db, failure text) m h = h
  finish-cache Q s e r (db, success (a, method)) m h = remove-All Q (s, e) m.preview_cache h

  finalize-Kept :
      (cs : List Call) (s e : ℕ) (m n : Manager I)
      → manager_of (finalize_code_injection I P s e m) ≡ some n
      → All (Kept I P cs) m.preview_cache
      → All (Kept I P cs) n.preview_cache
  unfolding finalize_code_injection finalize_previewed manager_of
  finalize-Kept cs s e m n r h = elim (Option-cases (get same_range (s, e) m.preview_cache)) [
    | inl missing ↦
        let same : m ≡ n = ground arith in subst (λ x. All (Kept I P cs) x.preview_cache) same h
    | inr (p, found) ↦ elim (Bool-cases p.previewed) [
      | inr no_preview ↦
          let same : m ≡ n = ground arith in subst (λ x. All (Kept I P cs) x.preview_cache) same h
      | inl ready ↦ elim (Option-cases (find_code_cave I P m.database m.no_go_zones p.code_size)) [
        | inl out ↦ absurd (ground arith)
        | inr (c, e') ↦
            let placed = place_code I P m.database c p in
            let same : (finish I P s e p placed m).0 ≡ n = ground arith in
            subst (λ x. All (Kept I P cs) x.preview_cache) same
              (finish-cache (Kept I P cs) s e p placed m h)
      ]
    ]
  ]

  track-cache :
      (now ea size : ℕ) (name : Text) (made : I.Database × Bool) (m : Manager I)
      → (track_workspace I P now ea size name made m).0.preview_cache ≡ m.preview_cache
  unfolding track_workspace
  track-cache now ea size name (db, false) m = refl
  track-cache now ea size name (db, true) m = refl

  allocate-cache :
      (now n : ℕ) (m : Manager I)
      → (allocate_code_workspace I P now n m).0.preview_cache ≡ m.preview_cache
  unfolding allocate_code_workspace allocate_at
  allocate-cache now n m =
      let ea = find_safe_address_after_segments (I.segments m.database) in
      elim (Bool-cases (ea == badaddr)) [
        | inl top ↦ rw top refl
        | inr room ↦ rw room (track-cache now ea _ _ _ _)
      ]

  step-Kept :
      (cs : List Call) (c : Call) (m n : Manager I)
      → IsWordCall c
      → step I P c m ≡ some n
      → All (Kept I P (c ∷ cs)) m.preview_cache
      → All (Kept I P (c ∷ cs)) n.preview_cache
  unfolding step
  step-Kept cs (allocate now k) m n w r h =
      let same : (allocate_code_workspace I P now k m).0 ≡ n = ground arith in
      subst (λ x. All (Kept I P (allocate now k ∷ cs)) x.preview_cache) same
        (subst (All (Kept I P (allocate now k ∷ cs))) (sym (allocate-cache now k m)) h)
  step-Kept cs (preview now s e) m n w r h = preview-Kept I P cs now s e m n w.1 r h
  step-Kept cs (finalize s e) m n w r h = finalize-Kept (finalize s e ∷ cs) s e m n r h
  step-Kept cs (set_zones zs) m n w r h =
      let same : set_no_go_zones I P zs m ≡ n = ground arith in
      subst (λ x. All (Kept I P (set_zones zs ∷ cs)) x.preview_cache) same
        (unfold set_no_go_zones in h)

  later-Kept :
      (c : Call) (cs : List Call) (m : List ((ℕ × ℕ) × PreviewRecord))
      → All (Kept I P cs) m
      → All (Kept I P (c ∷ cs)) m
  later-Kept c cs [] h = tt
  later-Kept c cs (((s, e), r) ∷ m) h = ((h.0.0, inr h.0.1), later-Kept c cs m h.1)

  run-Kept :
      (cs : List Call) (m n : Manager I)
      → m.preview_cache ≡ []
      → All IsWordCall cs
      → run I P m cs ≡ some n
      → All (Kept I P cs) n.preview_cache
  unfolding run
  run-Kept [] m n empty w r =
      let same : m ≡ n = ground arith in
      subst (λ x. All (Kept I P []) x.preview_cache) same (subst (All (Kept I P [])) (sym empty) tt)
  run-Kept (c ∷ cs) m n empty w r = elim (Option-cases (run I P m cs)) [
    | inl out ↦ absurd (ground arith)
    | inr (k, e) ↦
        step-Kept cs c k n w.0 (ground arith)
          (later-Kept c cs k.preview_cache (run-Kept cs m k empty w.1 e))
  ]

  finish_lem :
      (s e : ℕ) (p : PreviewRecord) (placed : I.Database × Result (ℕ × Text)) (m n : Manager I)
      (r : CodeFinalizationResult)
      → finish I P s e p placed m ≡ (n, success r)
      → (r.code_size ≡ p.code_size)
        × (r.old_temp_address ≡ s)
        × (get same_range (s, e) n.preview_cache ≡ none)
  unfolding finish
  finish_lem s e p (db, failure text) m n r h = absurd (ground arith)
  finish_lem s e p (db, success (a, method)) m n r h =
      let cache : remove same_range (s, e) m.preview_cache ≡ n.preview_cache = ground arith in
      (
        ground arith,
        ground arith,
        subst (λ c. get same_range (s, e) c ≡ none) cache (get-remove s e m.preview_cache),
      )

  -- After any calls on a manager without previews (addresses are words), a finalization that succeeds
  -- is of a range that one of the calls has previewed, and of its full size, from the start that it
  -- names; afterwards that range has no preview, so a second finalization needs a new one.
  pub finalize-run :
      (cs : List Call) (m n k : Manager I) (s e : ℕ) (r : CodeFinalizationResult)
      → m.preview_cache ≡ []
      → All IsWordCall cs
      → run I P m cs ≡ some n
      → finalize_code_injection I P s e n ≡ some (k, success r)
      → Any (IsPreview s e) cs
        × (s < e)
        × (r.code_size ≡ e - s)
        × (r.old_temp_address ≡ s)
        × (get same_range (s, e) k.preview_cache ≡ none)
  unfolding finalize_code_injection finalize_previewed
  finalize-run cs m n k s e r empty w ran done =
      elim (Option-cases (get same_range (s, e) n.preview_cache)) [
        | inl missing ↦ absurd (ground arith)
        | inr (p, found) ↦ elim (Bool-cases p.previewed) [
          | inr no_preview ↦ absurd (ground arith)
          | inl ready ↦
              elim (Option-cases (find_code_cave I P n.database n.no_go_zones p.code_size)) [
                | inl out ↦ absurd (ground arith)
                | inr (c, g) ↦
                    let kept =
                      get-All (Kept I P cs) s e p n.preview_cache (run-Kept cs m n empty w ran)
                        found in
                    let end =
                      finish_lem s e p (place_code I P n.database c p) n k r (ground arith) in
                    (kept.1, kept.0.0, end.0 ∙ kept.0.1, end.1, end.2)
              ]
        ]
      ]
