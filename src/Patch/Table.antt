-- ===== src/Patch/Table.antt =====
-- The table of patches of patching/patch_manager.cpp: what entries it has after a change.
use ida_swarm.Base.{
  ℕ, ◌≡◌, subst, inl, inr, List, [], ◌∷◌, none, some, All, Any, ◌==◌, arith, Bool-cases,
}
use ida_swarm.Patch.{PatchEntry}
use ida_swarm.Patch.Ops.{find_patch, put_patch, erase_patch}

pub find-put_patch :
    (a : ℕ) (p : PatchEntry) (ps : List (ℕ × PatchEntry)) → find_patch a (put_patch a p ps) ≡ some p
unfolding put_patch find_patch
find-put_patch a p [] = ground arith
find-put_patch a p ((b, q) ∷ ps) = ground (arith, find-put_patch a p ps)

module _ (P : ℕ × PatchEntry → Type 0) (a : ℕ) where
  pub put_patch-All :
      (p : PatchEntry) (ps : List (ℕ × PatchEntry)) → P (a, p) → All P ps → All P (put_patch a p ps)
  unfolding put_patch
  put_patch-All p [] h k = (h, tt)
  put_patch-All p ((b, q) ∷ ps) h k = elim (Bool-cases (a == b)) [
    | inl t ↦ rw t (h, k.1)
    | inr f ↦ rw f (k.0, put_patch-All p ps h k.1)
  ]

  pub put_patch-new :
      (p : PatchEntry) (ps : List (ℕ × PatchEntry)) → P (a, p) → Any P (put_patch a p ps)
  unfolding put_patch
  put_patch-new p [] h = inl h
  put_patch-new p ((b, q) ∷ ps) h = elim (Bool-cases (a == b)) [
    | inl t ↦ rw t (inl h)
    | inr f ↦ rw f (inr (put_patch-new p ps h))
  ]

  pub put_patch-old :
      (p : PatchEntry) (ps : List (ℕ × PatchEntry))
      → find_patch a ps ≡ none
      → Any P ps
      → Any P (put_patch a p ps)
  unfolding put_patch find_patch
  put_patch-old p [] e h = absurd h
  put_patch-old p ((b, q) ∷ ps) e h = elim (Bool-cases (a == b)) [
    | inl t ↦ absurd (ground arith)
    | inr f ↦ rw f (elim h [ inl k ↦ inl k | inr k ↦ inr (put_patch-old p ps (ground arith) k) ])
  ]

  pub erase_patch-All : (ps : List (ℕ × PatchEntry)) → All P ps → All P (erase_patch a ps)
  unfolding erase_patch
  erase_patch-All [] h = tt
  erase_patch-All ((b, q) ∷ ps) h = elim (Bool-cases (a == b)) [
    | inl t ↦ rw t (h.1)
    | inr f ↦ rw f (h.0, erase_patch-All ps h.1)
  ]

  pub find_patch-All :
      (p : PatchEntry) (ps : List (ℕ × PatchEntry)) → find_patch a ps ≡ some p → All P ps → P (a, p)
  unfolding find_patch
  find_patch-All p [] e h = absurd (ground arith)
  find_patch-All p ((b, q) ∷ ps) e h = elim (Bool-cases (a == b)) [
    | inl t ↦
        let key : b ≡ a = ground arith in
        let entry : q ≡ p = ground arith in
        subst (λ k. P (a, k)) entry (subst (λ k. P (k, q)) key h.0)
    | inr f ↦ find_patch-All p ps (ground arith) h.1
  ]

  -- An element of a table is the one that is found and erased, or stays.
  pub erase_patch-Any :
      (p : PatchEntry) (ps : List (ℕ × PatchEntry))
      → find_patch a ps ≡ some p
      → Any P ps
      → Any P ((a, p) ∷ erase_patch a ps)
  unfolding find_patch erase_patch
  erase_patch-Any p [] e h = absurd h
  erase_patch-Any p ((b, q) ∷ ps) e h = elim (Bool-cases (a == b)) [
    | inl t ↦
        let key : b ≡ a = ground arith in
        let entry : q ≡ p = ground arith in
        rw t (elim h [
          | inl k ↦ inl (subst (λ r. P (a, r)) entry (subst (λ r. P (r, q)) key k))
          | inr k ↦ inr k
        ])
    | inr f ↦ rw f (elim h [
      | inl k ↦ inr (inl k)
      | inr k ↦ elim (erase_patch-Any p ps (ground arith) k) [ inl j ↦ inl j | inr j ↦ inr (inr j) ]
    ])
  ]
