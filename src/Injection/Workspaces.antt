-- ===== src/Injection/Workspaces.antt =====
-- The temporary workspaces of patching/code_injection_manager.cpp: where they lie, and how they end.
use ida_swarm.Base.{
  ℕ, ◌+◌, ◌%◌, ◌^◌, ◌≡◌, ◌≤◌, ◌<◌, inl, inr, refl, sym, ◌∙◌, subst, List, [], ◌∷◌, none, some, Bool,
  true, false, ltb, ◌==◌, add64, All, Text, if◌then◌else◌, arith, Bool-cases, Option-cases,
}
use ida_swarm.NoGo.{badaddr}
use ida_swarm.Injection.{
  Platform, Segment, Ida, WorkspaceInfo, PreviewRecord, Manager, align_up, workspace_name,
}
use ida_swarm.Injection.Caves.{find_code_cave}
use ida_swarm.Injection.Stages.{
  Result, failure, success, WorkspaceAllocation, CodeFinalizationResult, put, get, remove,
  same_address, same_range, allocate_code_workspace, allocate_at, track_workspace, new_workspace,
  create_temp_segment, is_in_temp_workspace, last_end, address_after,
  find_safe_address_after_segments, delete_temp_segment,
}
use ida_swarm.Injection.Finalize.{finalize_code_injection, finalize_previewed, finish, place_code}

last_end-le : (ss : List Segment) (h : ℕ) → h ≤ last_end ss h
unfolding last_end
last_end-le [] h = omega arith
last_end-le (s ∷ ss) h =
    let rest = last_end-le ss (if ltb h s.end_ea then s.end_ea else h) in ground (arith, rest)

last_end-All : (ss : List Segment) (h : ℕ) → All (λ s. s.end_ea ≤ last_end ss h) ss
unfolding last_end
last_end-All [] h = tt
last_end-All (s ∷ ss) h =
    let next = if ltb h s.end_ea then s.end_ea else h in
    let rest = last_end-le ss next in
    let most : s.end_ea ≤ next = ground arith in (omega (arith, rest, most), last_end-All ss next)

below_All :
    (ss : List Segment) (h k : ℕ) → h ≤ k → All (λ s. s.end_ea ≤ h) ss → All (λ s. s.end_ea ≤ k) ss
below_All [] h k l a = tt
below_All (s ∷ ss) h k l a = (omega (arith, a.0), below_All ss h k l a.1)

address_after-le :
    (last : ℕ)
    → (address_after last == badaddr) ≡ false
    → (last ≤ address_after last) × (address_after last % 4096 ≡ 0)
unfolding address_after align_up add64
address_after-le last h = elim (Bool-cases (ltb (align_up last 4096) last)) [
  | inl wrapped ↦ absurd (ground arith)
  | inr fits ↦ (ground arith, ground arith)
]

put-is_in_temp_workspace :
    (ea a : ℕ) (w : WorkspaceInfo) (ws : List (ℕ × WorkspaceInfo))
    → w.is_temporary ≡ true
    → w.start_ea ≤ a
    → a < w.end_ea
    → is_in_temp_workspace a (put same_address ea w ws) ≡ true
unfolding put is_in_temp_workspace
put-is_in_temp_workspace ea a w [] t l h = ground arith
put-is_in_temp_workspace ea a w ((j, v) ∷ ws) t l h =
    ground (arith, put-is_in_temp_workspace ea a w ws t l h)

remove_missing :
    {V : Type 0} (k : ℕ) (m : List (ℕ × V))
    → get same_address k m ≡ none
    → remove same_address k m ≡ m
unfolding get remove
remove_missing k [] h = refl
remove_missing k ((j, w) ∷ m) h = ground (arith, remove_missing k m)

module _ (I : Ida) (P : Platform) where
  -- What an allocation that succeeds has done.
  abbrev pub Allocated : Manager I → Manager I → WorkspaceAllocation → Type 0
  Allocated m n r =
      All (λ s. s.end_ea ≤ r.temp_segment_ea) (I.segments m.database)
      × (r.temp_segment_ea % 4096 ≡ 0)
      × ((a : ℕ)
          → r.temp_segment_ea ≤ a
          → a < add64 r.temp_segment_ea r.allocated_size
          → is_in_temp_workspace a n.active_workspaces ≡ true)

  track_lem :
      (now ea size : ℕ) (name : Text) (made : I.Database × Bool) (m n : Manager I)
      (r : WorkspaceAllocation)
      → track_workspace I P now ea size name made m ≡ (n, success r)
      → (ea ≡ r.temp_segment_ea)
        × ((a : ℕ)
            → r.temp_segment_ea ≤ a
            → a < add64 r.temp_segment_ea r.allocated_size
            → is_in_temp_workspace a n.active_workspaces ≡ true)
  unfolding track_workspace new_workspace
  track_lem now ea size name (db, false) m n r h = absurd (ground arith)
  track_lem now ea size name (db, true) m n r h =
      let start : ea ≡ r.temp_segment_ea = ground arith in
      let same_size : size ≡ r.allocated_size = ground arith in
      let w = new_workspace I P now ea size name in
      let kept : put same_address ea w m.active_workspaces ≡ n.active_workspaces = ground arith in
      (
        start,
        λ a l u.
            subst (λ ws. is_in_temp_workspace a ws ≡ true) kept
              (put-is_in_temp_workspace ea a w m.active_workspaces refl (rw start l) (
                subst (λ x. a < add64 x size) (sym start)
                  (subst (λ x. a < add64 r.temp_segment_ea x) (sym same_size) u))),
      )

  -- A workspace that is allocated starts at a page, at or after the end of every segment that was
  -- there, and each of its addresses is then in a workspace, as a preview asks.
  pub allocate_code_workspace_lem :
      (now requested : ℕ) (m n : Manager I) (r : WorkspaceAllocation)
      → allocate_code_workspace I P now requested m ≡ (n, success r)
      → Allocated m n r
  unfolding allocate_code_workspace allocate_at find_safe_address_after_segments
  allocate_code_workspace_lem now requested m n r h =
      let last = last_end (I.segments m.database) 0 in
      let ea = address_after last in
      elim (Bool-cases (ea == badaddr)) [
        | inl top ↦ absurd (ground arith)
        | inr room ↦
            let size = align_up (P.enlarged requested) 4096 in
            let name = workspace_name m.next_workspace_id in
            let t =
              track_lem now ea size name (create_temp_segment I P m.database ea size name)
                (record m { next_workspace_id = (m.next_workspace_id + 1) % 2 ^ 32 }) n r
                (ground arith) in
            let page = address_after-le last room in
            (
              subst (λ x. All (λ s. s.end_ea ≤ x) (I.segments m.database)) t.0
                  (below_All (I.segments m.database) last ea page.0
                    (last_end-All (I.segments m.database) 0)),
              subst (λ x. x % 4096 ≡ 0) t.0 page.1,
              t.1,
            )
      ]

  finish-workspaces :
      (s e : ℕ) (p : PreviewRecord) (placed : I.Database × Result (ℕ × Text)) (m n : Manager I)
      (r : CodeFinalizationResult)
      → get same_address s m.active_workspaces ≡ none
      → finish I P s e p placed m ≡ (n, success r)
      → (n.active_workspaces ≡ m.active_workspaces)
        × ((db : I.Database) × (n.database ≡ (delete_temp_segment I P db s).0))
  unfolding finish
  finish-workspaces s e p (db, failure text) m n r off h = absurd (ground arith)
  finish-workspaces s e p (db, success (a, method)) m n r off h =
      let last = add64 a p.code_size in
      let marked = I.plan_and_wait (I.plan_range db a last) a last in
      let kept = remove_missing s m.active_workspaces off in
      let left : remove same_address s m.active_workspaces ≡ n.active_workspaces = ground arith in
      (sym left ∙ kept, (marked, ground arith))

  -- A finalization that succeeds from a start where no workspace starts keeps every workspace, while
  -- it deletes the segment at that start from the database: a workspace that the range lies inside is
  -- still taken to be there, though its segment is gone.
  pub finalize_keeps_workspaces :
      (s e : ℕ) (m n : Manager I) (r : CodeFinalizationResult)
      → get same_address s m.active_workspaces ≡ none
      → finalize_code_injection I P s e m ≡ some (n, success r)
      → (n.active_workspaces ≡ m.active_workspaces)
        × ((db : I.Database) × (n.database ≡ (delete_temp_segment I P db s).0))
  unfolding finalize_code_injection finalize_previewed
  finalize_keeps_workspaces s e m n r off done =
      elim (Option-cases (get same_range (s, e) m.preview_cache)) [
        | inl missing ↦ absurd (ground arith)
        | inr (p, found) ↦ elim (Bool-cases p.previewed) [
          | inr no_preview ↦ absurd (ground arith)
          | inl ready ↦
              elim (Option-cases (find_code_cave I P m.database m.no_go_zones p.code_size)) [
                | inl out ↦ absurd (ground arith)
                | inr (c, g) ↦
                    finish-workspaces s e p (place_code I P m.database c p) m n r off (ground arith)
              ]
        ]
      ]
