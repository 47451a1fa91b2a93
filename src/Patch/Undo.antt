-- ===== src/Patch/Undo.antt =====
-- What undoing the patches of patching/patch_manager.cpp rests on, and that the operations keep it.
use ida_swarm.Base.{
  ℕ, ◌+◌, ◌≤◌, ◌<◌, ◌≡◌, refl, sym, ap, subst, ◌∙◌, ◌⊎◌, inl, inr, List, [], ◌∷◌, none, some, Bool,
  true, false, ◌&&◌, Text, length, All, Any, All-each, each-All, ltb, leb, word, arith, Bool-cases,
  Option-cases,
}
use ida_swarm.Base.External.{RowOrder}
use ida_swarm.Patch.{Ida, PatchEntry, Manager, overwrite, bytes_at, write_bytes, trigger_reanalysis}
use ida_swarm.Patch.Ops.{
  find_patch, put_patch, erase_patch, revert_patch, revert_entries, revert_all, revert_bytes,
}
use ida_swarm.Patch.Effect.{
  overwrite_outside, overwrite_inside, bytes_at_same, HasSpace, Writes, write_bytes_lem,
  write_bytes-succeeds, write_bytes-mapped, length-bytes_at, Writes-analysis,
}
use ida_swarm.Patch.Table.{
  put_patch-All, put_patch-new, put_patch-old, erase_patch-All, find_patch-All, erase_patch-Any,
}
use ida_swarm.Patch.Applied.{Placed, IsClear, Covers}

module _ (I : Ida) (file_opens : Text → Bool) (first : I.Database) where
  -- The entry has the first bytes of its range, which can be written.
  abbrev pub IsEntry : ℕ × PatchEntry → Type 0
  IsEntry (a, p) =
      (p.original_bytes ≡ bytes_at (I.get_byte first) a (length p.original_bytes))
      × (0 < length p.original_bytes)
      × (a + length p.original_bytes ≤ word)
      × (I.is_mapped first a ≡ true)
      × ((end : ℕ) × (I.getseg first a ≡ some end))
      × (p.is_segment_injection ≡ false)

  -- Outside the ranges of some entries memory is as it was first.
  abbrev IsFirst : List (ℕ × PatchEntry) → I.Database → Type 0
  IsFirst ps db = (x : ℕ) → (I.get_byte db x ≡ I.get_byte first x) ⊎ Any (Covers x) ps

  abbrev pub IsRevertible : Manager I → Type 0
  IsRevertible m =
      All IsEntry m.patches × HasSpace I file_opens first m × IsFirst m.patches m.database

  -- After the first bytes of a range are back.
  IsFirst-write :
      (a : ℕ) (p : PatchEntry) (ps : List (ℕ × PatchEntry)) (db next : I.Database)
      → IsEntry (a, p)
      → Writes I file_opens db next a p.original_bytes
      → IsFirst ((a, p) ∷ ps) db
      → IsFirst ps next
  IsFirst-write a p ps db next e w h x =
      let n = length p.original_bytes in
      elim (Bool-cases (leb a x && ltb x (a + n))) [
        | inl inside ↦ inl (
            (w x).0
            ∙ (ap (λ bs. overwrite a bs (I.get_byte db) x) e.0
                ∙ overwrite_inside a n (I.get_byte first) (I.get_byte db) x (ground arith)
                    (ground arith)))
        | inr outside ↦
            let kept = overwrite_outside a p.original_bytes (I.get_byte db) x (ground arith) in
            elim (h x) [
              | inl same ↦ inl ((w x).0 ∙ (kept ∙ same))
              | inr (inl c) ↦ absurd (ground arith)
              | inr (inr c) ↦ inr c
            ]
      ]

  -- The write of an entry's first bytes, and the analysis after it.
  revert_step :
      (a : ℕ) (p : PatchEntry) (m : Manager I)
      → IsEntry (a, p)
      → HasSpace I file_opens first m
      → ((write_bytes I file_opens a p.original_bytes m).1 ≡ true)
        × Writes I file_opens m.database
            (trigger_reanalysis I file_opens a
              (length p.original_bytes)
              (write_bytes I file_opens a p.original_bytes m).0).database
            a
            p.original_bytes
  revert_step a p m (same, size, l, mapped, (end, e), plain) s =
      let ok =
        write_bytes-succeeds I file_opens a end p.original_bytes m size ((s a).0 ∙ mapped)
          ((s a).1 ∙ e) in
      let w = write_bytes I file_opens a p.original_bytes m in
      (
        ok,
        Writes-analysis I file_opens a (length p.original_bytes) a p.original_bytes m.database w.0
            (write_bytes_lem I file_opens a p.original_bytes m l ok).0,
      )

  Writes-HasSpace :
      (a : ℕ) (bs : List ℕ) (m n : Manager I)
      → Writes I file_opens m.database n.database a bs
      → HasSpace I file_opens first m
      → HasSpace I file_opens first n
  Writes-HasSpace a bs m n w s x = ((w x).1 ∙ (s x).0, (w x).2 ∙ (s x).1)

  revert_entries_lem :
      (ps : List (ℕ × PatchEntry)) (m : Manager I)
      → All IsEntry ps
      → HasSpace I file_opens first m
      → IsFirst ps m.database
      → ((revert_entries I file_opens ps m).1 ≡ true)
        × ((x : ℕ)
            → I.get_byte (revert_entries I file_opens ps m).0.database x ≡ I.get_byte first x)
  revert_entries_lem [] m h s f =
      unfold revert_entries in (refl, λ x. elim (f x) [ inl e ↦ e | inr c ↦ absurd c ])
  revert_entries_lem ((a, p) ∷ ps) m h s f =
      let (ok, writes) = revert_step a p m h.0 s in
      let next =
        trigger_reanalysis I file_opens a (length p.original_bytes)
          (write_bytes I file_opens a p.original_bytes m).0 in
      let out : revert_entries I file_opens ((a, p) ∷ ps) m ≡ revert_entries I file_opens ps next =
        unfold revert_entries in (ground arith) in
      subst (λ r. (r.1 ≡ true) × ((x : ℕ) → I.get_byte r.0.database x ≡ I.get_byte first x))
        (sym out)
        (revert_entries_lem ps next h.1 (Writes-HasSpace a p.original_bytes m next writes s)
          (IsFirst-write a p ps m.database next.database h.0 writes f))

  -- All patches undone, in whatever order the table gives them.
  pub revert_all-IsRevertible :
      (O : RowOrder (ℕ × PatchEntry)) (m : Manager I)
      → IsRevertible m
      → ((revert_all I file_opens O m).1 ≡ true)
        × ((revert_all I file_opens O m).0.patches ≡ [])
        × ((x : ℕ) → I.get_byte (revert_all I file_opens O m).0.database x ≡ I.get_byte first x)
  revert_all-IsRevertible O m (entries, space, firsts) =
      let ps = O.ordered m.patches in
      let same_entries : All IsEntry ps = All-each IsEntry ps (λ e a.
        each-All IsEntry m.patches e entries ((O.Any-ordered (λ y. y ≡ e) m.patches).0 a)) in
      let same_firsts : IsFirst ps m.database = λ x. elim (firsts x) [
        | inl e ↦ inl e
        | inr c ↦ inr ((O.Any-ordered (Covers x) m.patches).1 c)
      ] in
      let r = revert_entries I file_opens ps m in
      let done = revert_entries_lem ps m same_entries space same_firsts in
      let out : revert_all I file_opens O m ≡ (record r.0 { patches = [] }, true) =
        unfold revert_all in (ground arith) in
      (
        ap (λ k. k.1) out,
        ap (λ k. k.0.patches) out,
        λ x. ap (λ k. I.get_byte k.0.database x) out ∙ done.1 x,
      )

  -- The bytes that a patch reads are the first ones.
  read_first :
      (a n : ℕ) (m : Manager I)
      → IsClear I file_opens a n m
      → IsFirst m.patches m.database
      → I.get_bytes m.database a n ≡ bytes_at (I.get_byte first) a n
  read_first a n m (l, loaded, clear) f =
      I.get_bytes-get_byte m.database a n loaded
      ∙ bytes_at_same (I.get_byte m.database) (I.get_byte first) a n
          (λ x low high. elim (f x) [ inl e ↦ e | inr c ↦ absurd (clear x low high c) ])

  -- After a patch outside the entries, with the new entry.
  IsFirst-patch :
      (a : ℕ) (p : PatchEntry) (new : List ℕ) (ps : List (ℕ × PatchEntry)) (db next : I.Database)
      → find_patch a ps ≡ none
      → length new ≡ length p.original_bytes
      → Writes I file_opens db next a new
      → IsFirst ps db
      → IsFirst (put_patch a p ps) next
  IsFirst-patch a p new ps db next free same w f x =
      elim (Bool-cases (leb a x && ltb x (a + length new))) [
        | inl inside ↦ inr (put_patch-new (Covers x) a p ps (ground arith, ground (arith, same)))
        | inr outside ↦
            let kept = overwrite_outside a new (I.get_byte db) x (ground arith) in
            elim (f x) [
              | inl e ↦ inl ((w x).0 ∙ (kept ∙ e))
              | inr c ↦ inr (put_patch-old (Covers x) a p ps free c)
            ]
      ]

  -- The entry of a patch outside the entries.
  Placed-IsEntry :
      (a n : ℕ) (new : List ℕ) (p : PatchEntry) (m k : Manager I)
      → Placed I file_opens a n new p m k
      → IsClear I file_opens a n m
      → IsRevertible m
      → (length p.original_bytes ≡ n) × IsEntry (a, p)
  Placed-IsEntry a n new p m k (size, read, plain, same, free, ok, out) clear
        (entries, space, firsts) =
      let bytes = read ∙ read_first a n m clear firsts in
      let long : length p.original_bytes ≡ n =
        ap length bytes ∙ length-bytes_at (I.get_byte first) a n in
      let (mapped, (end, seg)) = write_bytes-mapped I file_opens a new m ok in
      (
        long,
        (
          subst (λ i. p.original_bytes ≡ bytes_at (I.get_byte first) a i) (sym long) bytes,
          subst (λ i. 0 < i) (sym long) size,
          subst (λ i. a + i ≤ word) (sym long) clear.0,
          sym (space a).0 ∙ mapped,
          (end, sym (space a).1 ∙ seg),
          plain,
        ),
      )

  pub Placed-IsRevertible :
      (a n : ℕ) (new : List ℕ) (p : PatchEntry) (m k : Manager I)
      → Placed I file_opens a n new p m k
      → IsClear I file_opens a n m
      → IsRevertible m
      → IsRevertible k
  Placed-IsRevertible a n new p m k (size, read, plain, same, free, ok, out) clear
        (entries, space, firsts) =
      let w = (write_bytes I file_opens a new m).0 in
      let before : Manager I = record w { patches = put_patch a p w.patches } in
      let last = trigger_reanalysis I file_opens a (length new) before in
      let (long, entry) =
        Placed-IsEntry a n new p m k (size, read, plain, same, free, ok, out) clear
          (entries, space, firsts) in
      let (written, patches) =
        write_bytes_lem I file_opens a new m (subst (λ i. a + i ≤ word) (sym same) clear.0) ok in
      let writes : Writes I file_opens m.database last.database a new =
        Writes-analysis I file_opens a (length new) a new m.database before written in
      let table : last.patches ≡ put_patch a p m.patches =
        unfold trigger_reanalysis in ap (put_patch a p) patches in
      subst IsRevertible (sym out) (
        subst (λ ps. All IsEntry ps × HasSpace I file_opens first last × IsFirst ps last.database)
          (sym table)
          (
            put_patch-All IsEntry a p m.patches entry entries,
            Writes-HasSpace a new m last writes space,
            IsFirst-patch a p new m.patches m.database last.database free (same ∙ sym long) writes
                firsts,
          ))

  pub revert-IsRevertible :
      (a : ℕ) (m : Manager I) → IsRevertible m → IsRevertible (revert_patch I file_opens a m).0
  revert-IsRevertible a m (entries, space, firsts) = elim (Option-cases (find_patch a m.patches)) [
    | inl n ↦
        let out : (revert_patch I file_opens a m).0 ≡ m = unfold revert_patch in (ground arith) in
        subst IsRevertible (sym out) (entries, space, firsts)
    | inr (p, found) ↦
        let entry = find_patch-All IsEntry a p m.patches found entries in
        let (ok, writes) = revert_step a p m entry space in
        let w = (write_bytes I file_opens a p.original_bytes m).0 in
        let traced = trigger_reanalysis I file_opens a (length p.original_bytes) w in
        let last : Manager I = record traced { patches = erase_patch a w.patches } in
        let plain : p.is_segment_injection ≡ false = entry.5 in
        let out : (revert_patch I file_opens a m).0 ≡ last =
          unfold revert_patch revert_bytes in (ground arith) in
        let table : last.patches ≡ erase_patch a m.patches =
          ap (erase_patch a) (write_bytes_lem I file_opens a p.original_bytes m entry.2 ok).1 in
        let covered : IsFirst ((a, p) ∷ erase_patch a m.patches) m.database = λ x. elim (firsts x) [
          | inl e ↦ inl e
          | inr c ↦ inr (erase_patch-Any (Covers x) a p m.patches found c)
        ] in
        subst IsRevertible (sym out) (
          subst (λ ps. All IsEntry ps × HasSpace I file_opens first last × IsFirst ps last.database)
            (sym table)
            (
              erase_patch-All IsEntry a m.patches entries,
              Writes-HasSpace a p.original_bytes m last writes space,
              IsFirst-write a p (erase_patch a m.patches) m.database last.database entry writes
                  covered,
            ))
  ]
