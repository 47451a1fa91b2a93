-- ===== src/Patch/Effect.antt =====
-- What a write of patching/patch_manager.cpp does to memory, and what it leaves alone.
use ida_swarm.Base.{
  ℕ, zero, suc, ◌+◌, ◌-◌, ◌%◌, ◌^◌, ◌≢◌, ==_iff, ◌≤◌, ◌<◌, ◌≡◌, refl, sym, ap, subst, ◌∙◌, ◌⊎◌, inl,
  inr, List, [], ◌∷◌, ◌++◌, some, Bool, true, false, Text, length, ◌==◌, if◌then◌else◌, word, add64,
  arith, Bool-cases, Option-cases,
}
use ida_swarm.NoGo.{badaddr}
use ida_swarm.Injection.Stages.{is_in_temp_workspace}
use ida_swarm.Patch.{
  Ida, Analysis, Manager, overwrite, bytes_at, apply_to_file, patch_file, write_bytes, reanalyse,
  analyse_all, recreate, trigger_reanalysis,
}

pub overwrite_outside :
    (a : ℕ) (bs : List ℕ) (f : ℕ → ℕ) (x : ℕ)
    → (x < a) ⊎ (a + length bs ≤ x)
    → overwrite a bs f x ≡ f x
unfolding overwrite
overwrite_outside a [] f x h = refl
overwrite_outside a (b ∷ bs) f x h =
    let other : (x == a) ≡ false = ground arith in
    rw other (overwrite_outside (suc a) bs f x (ground arith))

pub overwrite_inside :
    (a n : ℕ) (f g : ℕ → ℕ) (x : ℕ) → a ≤ x → x < a + n → overwrite a (bytes_at f a n) g x ≡ f x
unfolding overwrite bytes_at
overwrite_inside a zero f g x l h = absurd (omega arith)
overwrite_inside a (suc n) f g x l h = elim (Bool-cases (x == a)) [
  | inl t ↦ let same : a ≡ x = ground arith in rw t (ap f same)
  | inr k ↦ rw k (overwrite_inside (suc a) n f g x (ground arith) (omega arith))
]

pub length-bytes_at : (f : ℕ → ℕ) (a n : ℕ) → length (bytes_at f a n) ≡ n
unfolding bytes_at
length-bytes_at f a zero = refl
length-bytes_at f a (suc n) = omega (arith, length-bytes_at f (suc a) n)

pub bytes_at_same :
    (f g : ℕ → ℕ) (a n : ℕ)
    → ((x : ℕ) → a ≤ x → x < a + n → f x ≡ g x)
    → bytes_at f a n ≡ bytes_at g a n
unfolding bytes_at
bytes_at_same f g a zero h = refl
bytes_at_same f g a (suc n) h =
    ap (λ b. b ∷ bytes_at f (suc a) n) (h a (omega arith) (omega arith))
    ∙ ap (λ bs. g a ∷ bs) (bytes_at_same f g (suc a) n (λ x l u. h x (omega arith) (omega arith)))

pub bytes_at-overwrite :
    (a : ℕ) (bs : List ℕ) (f : ℕ → ℕ) → bytes_at (overwrite a bs f) a (length bs) ≡ bs
unfolding overwrite bytes_at
bytes_at-overwrite a [] f = refl
bytes_at-overwrite a (b ∷ bs) f =
    let hit : (if a == a then b else overwrite (suc a) bs f a) ≡ b = ground arith in
    ap (λ c. c ∷ bytes_at (λ x. if x == a then b else overwrite (suc a) bs f x) (suc a) (length bs))
      hit
    ∙ ap (λ cs. b ∷ cs)
        (bytes_at_same (λ x. if x == a then b else overwrite (suc a) bs f x)
            (overwrite (suc a) bs f) (suc a) (length bs) (λ x l h. ground arith)
          ∙ bytes_at-overwrite (suc a) bs f)

module _ (I : Ida) (file_opens : Text → Bool) where
  abbrev pub memory : Manager I → ℕ → ℕ
  memory m = I.get_byte m.database

  -- The segments are where they were.
  abbrev pub HasSpace : I.Database → Manager I → Type 0
  HasSpace db m =
      (x : ℕ)
      → (I.is_mapped m.database x ≡ I.is_mapped db x) × (I.getseg m.database x ≡ I.getseg db x)

  -- The bytes and the segments of a database are those of another.
  abbrev Same : I.Database → I.Database → Type 0
  Same db next =
      (x : ℕ)
      → (I.get_byte next x ≡ I.get_byte db x)
        × (I.is_mapped next x ≡ I.is_mapped db x)
        × (I.getseg next x ≡ I.getseg db x)

  analyse-Same : (c : Analysis) (db : I.Database) → Same db (I.analyse c db).0
  analyse-Same c db x =
      (I.get_byte-analyse c db x, I.is_mapped-analyse c db x, I.getseg-analyse c db x)

  Same-trans : (a b c : I.Database) → Same a b → Same b c → Same a c
  Same-trans a b c p q x = ((q x).0 ∙ (p x).0, (q x).1 ∙ (p x).1, (q x).2 ∙ (p x).2)

  analyse_all-Same :
      (cs : List Analysis) (db : I.Database) → Same db (analyse_all I file_opens cs db)
  unfolding analyse_all
  analyse_all-Same [] db = λ x. (refl, refl, refl)
  analyse_all-Same (c ∷ cs) db =
      Same-trans db (I.analyse c db).0 (analyse_all I file_opens cs (I.analyse c db).0)
        (analyse-Same c db) (analyse_all-Same cs (I.analyse c db).0)

  if-Same : (b : Bool) (db x y : I.Database) → Same db x → Same db y → Same db (if b then x else y)
  if-Same true db x y p q = p
  if-Same false db x y p q = q

  recreate-Same : (start end : ℕ) (db : I.Database) → Same db (recreate I file_opens start end db)
  unfolding recreate
  recreate-Same start end db =
      let first = I.analyse (Analysis.add_func start end) db in
      let second = I.analyse (Analysis.add_func start badaddr) first.0 in
      let third = I.analyse (Analysis.create_insn start) second.0 in
      let one = analyse-Same (Analysis.add_func start end) db in
      let two =
        Same-trans db first.0 second.0 one
          (analyse-Same (Analysis.add_func start badaddr) first.0) in
      let three =
        Same-trans db second.0 third.0 two (analyse-Same (Analysis.create_insn start) second.0) in
      if-Same first.1 db first.0 (if second.1 then second.0 else third.0) one
        (if-Same second.1 db second.0 third.0 two three)

  reanalyse-Same :
      (address size : ℕ) (db : I.Database) → Same db (reanalyse I file_opens address size db)
  reanalyse-Same address size db = elim (Option-cases (I.get_func db address)) [
    | inl n ↦
        let calls =
          Analysis.del_items address size
          ∷ Analysis.auto_mark_range address (add64 address size)
          ∷ Analysis.auto_wait
          ∷ [] in
        let out : reanalyse I file_opens address size db ≡ analyse_all I file_opens calls db =
          unfold reanalyse in (ground arith) in
        subst (Same db) (sym out) (analyse_all-Same calls db)
    | inr ((start, end), e) ↦
        let calls =
          Analysis.del_func start
          ∷ Analysis.del_items start (end - start)
          ∷ Analysis.auto_mark_range start end
          ∷ Analysis.plan_and_wait start end
          ∷ [] in
        let planned = analyse_all I file_opens calls db in
        let again = recreate I file_opens start end planned in
        let out : reanalyse I file_opens address size db ≡ (I.analyse Analysis.auto_wait again).0 =
          unfold reanalyse in (ground arith) in
        subst (Same db) (sym out) (
          Same-trans db again (I.analyse Analysis.auto_wait again).0
            (Same-trans db planned again (analyse_all-Same calls db)
              (recreate-Same start end planned))
            (analyse-Same Analysis.auto_wait again))
  ]

  patch_file-database :
      (address : ℕ) (bs : List ℕ) (m : Manager I)
      → ((patch_file I file_opens address bs m).database ≡ m.database)
        × ((patch_file I file_opens address bs m).patches ≡ m.patches)
  unfolding patch_file apply_to_file
  patch_file-database address bs m = (ground arith, ground arith)

  -- What happens to the bytes of a database, with the same segments.
  abbrev pub Writes : I.Database → I.Database → ℕ → List ℕ → Type 0
  Writes db next address bs =
      (x : ℕ)
      → (I.get_byte next x ≡ overwrite address bs (I.get_byte db) x)
        × (I.is_mapped next x ≡ I.is_mapped db x)
        × (I.getseg next x ≡ I.getseg db x)

  pub write_bytes-failed :
      (address : ℕ) (bs : List ℕ) (m : Manager I)
      → (write_bytes I file_opens address bs m).1 ≡ false
      → (write_bytes I file_opens address bs m).0 ≡ m
  unfolding write_bytes
  write_bytes-failed address [] m h = refl
  write_bytes-failed address (b ∷ bs) m h = ground arith

  -- A write that succeeds, at addresses that are words.
  pub write_bytes_lem :
      (address : ℕ) (bs : List ℕ) (m : Manager I)
      → address + length bs ≤ word
      → (write_bytes I file_opens address bs m).1 ≡ true
      → Writes m.database (write_bytes I file_opens address bs m).0.database address bs
        × ((write_bytes I file_opens address bs m).0.patches ≡ m.patches)
  write_bytes_lem address [] m l h = absurd (unfold write_bytes in (ground arith))
  write_bytes_lem address (b ∷ bs) m l h =
      let next : Manager I = record m { database = I.patch_bytes m.database address (b ∷ bs) } in
      let out : (write_bytes I file_opens address (b ∷ bs) m).0
          ≡ patch_file I file_opens address (b ∷ bs) next =
        unfold write_bytes in (ground arith) in
      let kept = patch_file-database address (b ∷ bs) next in
      let written : Writes m.database next.database address (b ∷ bs) = λ x. (
        I.get_byte-patch_bytes m.database address (b ∷ bs) x l,
        I.is_mapped-patch_bytes m.database address (b ∷ bs) x,
        I.getseg-patch_bytes m.database address (b ∷ bs) x,
      ) in
      (
        subst (λ db. Writes m.database db address (b ∷ bs))
            (sym (ap (λ k. k.database) out ∙ kept.0)) written,
        ap (λ k. k.patches) out ∙ kept.1,
      )

  -- A write of one byte or more at an address of a segment succeeds.
  pub write_bytes-succeeds :
      (address end : ℕ) (bs : List ℕ) (m : Manager I)
      → 0 < length bs
      → I.is_mapped m.database address ≡ true
      → I.getseg m.database address ≡ some end
      → (write_bytes I file_opens address bs m).1 ≡ true
  unfolding write_bytes
  write_bytes-succeeds address end [] m l h s = absurd (omega arith)
  write_bytes-succeeds address end (b ∷ bs) m l h s = ground arith

  pub Writes-analysis :
      (address size a : ℕ) (bs : List ℕ) (db : I.Database) (m : Manager I)
      → Writes db m.database a bs
      → Writes db (trigger_reanalysis I file_opens address size m).database a bs
  unfolding trigger_reanalysis
  Writes-analysis address size a bs db m w x =
      let s = reanalyse-Same address size m.database x in
      (s.0 ∙ (w x).0, s.1 ∙ (w x).1, s.2 ∙ (w x).2)

  patch_file-file_writes :
      (address : ℕ) (bs : List ℕ) (m : Manager I)
      → is_in_temp_workspace address m.workspaces ≡ false
      → m.binary_path ≢ []
      → file_opens m.binary_path ≡ true
      → (patch_file I file_opens address bs m).file_writes
        ≡ m.file_writes ++ (I.get_fileregion_offset m.database address % 2 ^ 32, bs) ∷ []
  unfolding patch_file apply_to_file
  patch_file-file_writes address bs m w p o =
      let offset = I.get_fileregion_offset m.database address % 2 ^ 32 in
      let differs : (offset == badaddr) ≡ false = ground (arith, ==_iff offset badaddr) in
      ground (arith, p)

  -- A write that succeeds outside the workspaces, with a binary file that opens, is made in the file
  -- too, at the low 32 bits of the file offset of the address.
  pub write_bytes-file_writes :
      (address : ℕ) (bs : List ℕ) (m : Manager I)
      → (write_bytes I file_opens address bs m).1 ≡ true
      → is_in_temp_workspace address m.workspaces ≡ false
      → m.binary_path ≢ []
      → file_opens m.binary_path ≡ true
      → (write_bytes I file_opens address bs m).0.file_writes
        ≡ m.file_writes
          ++ (I.get_fileregion_offset (I.patch_bytes m.database address bs) address % 2 ^ 32, bs)
            ∷ []
  write_bytes-file_writes address [] m h w p o = absurd (unfold write_bytes in (ground arith))
  write_bytes-file_writes address (b ∷ bs) m h w p o =
      let next : Manager I = record m { database = I.patch_bytes m.database address (b ∷ bs) } in
      let out : (write_bytes I file_opens address (b ∷ bs) m).0
          ≡ patch_file I file_opens address (b ∷ bs) next =
        unfold write_bytes in (ground arith) in
      ap (λ k. k.file_writes) out ∙ patch_file-file_writes address (b ∷ bs) next w p o

  -- A write that succeeds is at an address of a segment.
  pub write_bytes-mapped :
      (address : ℕ) (bs : List ℕ) (m : Manager I)
      → (write_bytes I file_opens address bs m).1 ≡ true
      → (I.is_mapped m.database address ≡ true)
        × ((end : ℕ) × (I.getseg m.database address ≡ some end))
  write_bytes-mapped address [] m h = absurd (unfold write_bytes in (ground arith))
  write_bytes-mapped address (b ∷ bs) m h = elim (Option-cases (I.getseg m.database address)) [
    | inl n ↦ absurd (unfold write_bytes in (ground arith))
    | inr (end, e) ↦ (unfold write_bytes in (ground arith), (end, e))
  ]
