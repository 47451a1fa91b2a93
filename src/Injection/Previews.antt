-- ===== src/Injection/Previews.antt =====
-- Runs of the stages of patching/code_injection_manager.cpp, and what each preview puts in the cache.
use ida_swarm.Base.{
  sub64, ℕ, ◌+◌, ◌-◌, ◌%◌, ◌≡◌, ◌<◌, inl, inr, refl, sym, ◌∙◌, ap, subst, List, [], ◌∷◌, Option,
  none, some, not, ◌||◌, leb, word, length, All, Any, Text, arith, Bool-cases, Option-cases,
}
use ida_swarm.NoGo.{NoGoZone}
use ida_swarm.Injection.{Platform, Ida, PreviewRecord, Manager}
use ida_swarm.Injection.Stages.{
  put, get, remove, same_range, allocate_code_workspace, preview_code_injection, preview_text,
  cache_preview, get_disassembly, get_bytes_from_range, is_in_temp_workspace,
}
use ida_swarm.Injection.Finalize.{finalize_code_injection, set_no_go_zones}

module _ {V : Type 0} (Q : (ℕ × ℕ) × V → Type 0) where
  pub put-All :
      (k : ℕ × ℕ) (v : V) (m : List ((ℕ × ℕ) × V))
      → Q (k, v)
      → All Q m
      → All Q (put same_range k v m)
  unfolding put
  put-All k v [] q h = (q, tt)
  put-All k v ((j, w) ∷ m) q h = elim (Bool-cases (same_range j k)) [
    | inl t ↦ rw t (q, h.1)
    | inr f ↦ rw f (h.0, put-All k v m q h.1)
  ]

  pub remove-All : (k : ℕ × ℕ) (m : List ((ℕ × ℕ) × V)) → All Q m → All Q (remove same_range k m)
  unfolding remove
  remove-All k [] h = tt
  remove-All k ((j, w) ∷ m) h = elim (Bool-cases (same_range j k)) [
    | inl t ↦ rw t (remove-All k m h.1)
    | inr f ↦ rw f (h.0, remove-All k m h.1)
  ]

  pub get-All :
      (a b : ℕ) (v : V) (m : List ((ℕ × ℕ) × V))
      → All Q m
      → get same_range (a, b) m ≡ some v
      → Q ((a, b), v)
  unfolding get
  get-All a b v [] h e = absurd (ground arith)
  get-All a b v (((c, d), w) ∷ m) h e = elim (Bool-cases (same_range (c, d) (a, b))) [
    | inl t ↦
        let left : c ≡ a = ground arith in
        let right : d ≡ b = ground arith in
        let value : w ≡ v = ground arith in
        subst (λ x. Q ((x, b), v)) left
          (subst (λ y. Q ((c, y), v)) right (subst (λ u. Q ((c, d), u)) value h.0))
    | inr f ↦ get-All a b v m h.1 (ground arith)
  ]

pub get-remove :
    {V : Type 0} (a b : ℕ) (m : List ((ℕ × ℕ) × V))
    → get same_range (a, b) (remove same_range (a, b) m) ≡ none
unfolding get remove
get-remove a b [] = refl
get-remove a b (((c, d), w) ∷ m) = elim (Bool-cases (same_range (c, d) (a, b))) [
  | inl t ↦ rw t (get-remove a b m)
  | inr f ↦ rw f (rw f (get-remove a b m))
]

pub data Call : Type 0 where
  allocate : ℕ → ℕ → Call
  preview : ℕ → ℕ → ℕ → Call
  finalize : ℕ → ℕ → Call
  set_zones : List NoGoZone → Call

-- A call to preview a range, whose end is a word.
abbrev pub IsPreview : ℕ → ℕ → Call → Type 0
IsPreview start end (allocate now n) = ⊥
IsPreview start end (preview now s e) = (s ≡ start) × (e ≡ end)
IsPreview start end (finalize s e) = ⊥
IsPreview start end (set_zones zs) = ⊥

abbrev pub IsWordCall : Call → Type 0
IsWordCall (allocate now n) = Unit
IsWordCall (preview now s e) = (s < word) × (e < word)
IsWordCall (finalize s e) = Unit
IsWordCall (set_zones zs) = Unit

unfoldable pub manager_of : {A B : Type 0} → Option (A × B) → Option A
manager_of none = none
manager_of (some (a, b)) = some a

module _ (I : Ida) (P : Platform) where
  unfoldable pub step : Call → Manager I → Option (Manager I)
  unfolding manager_of
  step (allocate now n) m = some (allocate_code_workspace I P now n m).0
  step (preview now s e) m = manager_of (preview_code_injection I P now s e m)
  step (finalize s e) m = manager_of (finalize_code_injection I P s e m)
  step (set_zones zs) m = some (set_no_go_zones I P zs m)

  -- The calls of a list, the last one first.
  unfoldable pub run : Manager I → List Call → Option (Manager I)
  run m [] = some m
  run m (c ∷ cs) = elim (run m cs) [ none ↦ none | some n ↦ step c n ]

  -- A record of a preview of its range, with all the bytes of it.
  abbrev pub IsRecord : ℕ → ℕ → PreviewRecord → Type 0
  IsRecord s e r = (s < e) × (r.code_size ≡ e - s) × (length r.final_bytes ≡ e - s)

  abbrev pub Kept : List Call → (ℕ × ℕ) × PreviewRecord → Type 0
  Kept cs ((s, e), r) = IsRecord s e r × Any (IsPreview s e) cs

  bytes-length :
      (db : I.Database) (s e b : ℕ) (bs : List ℕ)
      → s < e
      → e < word
      → get_bytes_from_range I P db s e ≡ b ∷ bs
      → length (b ∷ bs) ≡ e - s
  unfolding get_bytes_from_range sub64
  bytes-length db s e b bs l w h =
      let size : (e + (word - s)) % word ≡ e - s = omega arith in
      elim (Option-cases (I.get_bytes db s ((e + (word - s)) % word))) [
        | inl n ↦ ground arith
        | inr (ys, n) ↦
            let all = I.get_bytes-length db s ((e + (word - s)) % word) ys n in
            let same : ys ≡ b ∷ bs = ground arith in sym (ap length same) ∙ (all ∙ size)
      ]

  cache-Kept :
      (cs : List Call) (now s e : ℕ) (text : Text) (bytes : List ℕ) (m : Manager I)
      → s < e
      → e < word
      → get_bytes_from_range I P m.database s e ≡ bytes
      → All (Kept (preview now s e ∷ cs)) m.preview_cache
      → All (Kept (preview now s e ∷ cs)) (cache_preview I P now s e text bytes m).0.preview_cache
  unfolding cache_preview
  cache-Kept cs now s e text [] m l w b h = h
  cache-Kept cs now s e text (b ∷ bs) m l w g h =
      let size : sub64 e s ≡ e - s = unfold sub64 in omega arith in
      put-All (Kept (preview now s e ∷ cs)) (s, e) _ m.preview_cache
        ((l, size, bytes-length m.database s e b bs l w g), inl (refl, refl)) h

  text-Kept :
      (cs : List Call) (now s e : ℕ) (o : Option Text) (m n : Manager I)
      → s < e
      → e < word
      → manager_of (preview_text I P now s e o m) ≡ some n
      → All (Kept (preview now s e ∷ cs)) m.preview_cache
      → All (Kept (preview now s e ∷ cs)) n.preview_cache
  unfolding preview_text manager_of
  text-Kept cs now s e none m n l w r h = absurd (ground arith)
  text-Kept cs now s e (some []) m n l w r h =
      let same : m ≡ n = ground arith in
      subst (λ x. All (Kept (preview now s e ∷ cs)) x.preview_cache) same h
  text-Kept cs now s e (some (c ∷ t)) m n l w r h =
      let next =
        (cache_preview I P now s e (c ∷ t) (get_bytes_from_range I P m.database s e) m).0 in
      let same : next ≡ n = ground arith in
      subst (λ x. All (Kept (preview now s e ∷ cs)) x.preview_cache) same
        (cache-Kept cs now s e (c ∷ t) _ m l w refl h)

  pub preview-Kept :
      (cs : List Call) (now s e : ℕ) (m n : Manager I)
      → e < word
      → manager_of (preview_code_injection I P now s e m) ≡ some n
      → All (Kept (preview now s e ∷ cs)) m.preview_cache
      → All (Kept (preview now s e ∷ cs)) n.preview_cache
  unfolding preview_code_injection manager_of
  preview-Kept cs now s e m n w r h =
      let db = I.auto_wait (I.plan_range m.database s e) in
      let at = is_in_temp_workspace s m.active_workspaces in
      let up_to = is_in_temp_workspace (e - 1) m.active_workspaces in
      elim (Bool-cases (leb e s)) [
        | inl bad ↦
            let same : m ≡ n = ground arith in
            subst (λ x. All (Kept (preview now s e ∷ cs)) x.preview_cache) same h
        | inr good ↦ elim (Bool-cases (not at || not up_to)) [
          | inl out ↦
              let same : m ≡ n = ground arith in
              subst (λ x. All (Kept (preview now s e ∷ cs)) x.preview_cache) same h
          | inr inside ↦
              text-Kept cs now s e (get_disassembly I P db s e) (record m { database = db }) n
                (ground arith) w (ground arith) h
        ]
      ]
