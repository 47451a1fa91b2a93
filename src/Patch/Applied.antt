-- ===== src/Patch/Applied.antt =====
-- What a byte patch of patching/patch_manager.cpp has done when it succeeds, and that it does nothing
-- when it fails.
use ida_swarm.Base.{
  ℕ, ◌+◌, ◌≤◌, ◌<◌, ◌≡◌, refl, sym, ap, subst, ◌∙◌, ◌⊎◌, inl, inr, List, none, some, Bool, true,
  false, Text, text_eq_iff, length, Any, ◌==◌, word, arith, Bool-cases, Option-cases,
}
use ida_swarm.Patch.{
  Ida, PatchEntry, Manager, overwrite, bytes_at, all_in, read_bytes, write_bytes,
  trigger_reanalysis,
}
use ida_swarm.Patch.Ops.{
  find_patch, put_patch, PatchResult, patched, refused, PatchError, bytes_eq, validate_address,
  verify_original_bytes, validate_patch_size, byte_entry, commit_bytes, patch_checked,
  apply_byte_patch,
}
use ida_swarm.Patch.Table.{find-put_patch}
use ida_swarm.Patch.Hex.{is_valid_hex_string, hex_string_to_bytes}
use ida_swarm.Patch.Effect.{
  overwrite_outside, bytes_at-overwrite, bytes_at_same, Writes, write_bytes-failed, write_bytes_lem,
  Writes-analysis,
}

-- An address in the range that an entry took.
abbrev pub Covers : ℕ → ℕ × PatchEntry → Type 0
Covers x (a, p) = (a ≤ x) × (x < a + length p.original_bytes)

module _ (I : Ida) (file_opens : Text → Bool) where
  -- What holds where a byte patch succeeds.
  abbrev pub Applied : ℕ → ℕ → List ℕ → List ℕ → Text → Manager I → Manager I → ℕ → Type 0
  Applied now a expected new description m k n =
      (0 < length expected)
      × (length new ≡ length expected)
      × (I.is_mapped m.database a ≡ true)
      × (I.get_bytes m.database a (length expected) ≡ expected)
      × ((end : ℕ) × (I.getseg m.database a ≡ some end))
      × (find_patch a m.patches ≡ none)
      × ((write_bytes I file_opens a new m).1 ≡ true)
      × (n ≡ length new)
      × (k ≡ (
          let w = (write_bytes I file_opens a new m).0 in
          trigger_reanalysis I file_opens a (length new) (record w {
            patches =
                put_patch a (byte_entry I file_opens a expected new description now) w.patches;
          })))

  commit_bytes-Applied :
      (now a : ℕ) (expected new : List ℕ) (description : Text) (m k : Manager I) (n : ℕ)
      → commit_bytes I file_opens now a expected new description m ≡ (k, patched n)
      → ((write_bytes I file_opens a new m).1 ≡ true)
        × (n ≡ length new)
        × (k ≡ (
            let w = (write_bytes I file_opens a new m).0 in
            trigger_reanalysis I file_opens a (length new) (record w {
              patches =
                  put_patch a (byte_entry I file_opens a expected new description now) w.patches;
            })))
  unfolding commit_bytes
  commit_bytes-Applied now a expected new description m k n e =
      elim (Bool-cases (write_bytes I file_opens a new m).1) [
        | inl t ↦ (t, ground arith, ground arith)
        | inr f ↦ absurd (ground arith)
      ]

  validate_patch_size_lem :
      (a old size : ℕ) (m : Manager I)
      → validate_patch_size I file_opens a old size m ≡ none
      → (size ≡ old) × ((end : ℕ) × (I.getseg m.database a ≡ some end))
  unfolding validate_patch_size
  validate_patch_size_lem a old size m e = elim (Bool-cases (old == size)) [
    | inr f ↦ absurd (ground arith)
    | inl t ↦ elim (Option-cases (I.getseg m.database a)) [
      | inl n ↦ absurd (ground arith)
      | inr (end, s) ↦ (ground arith, (end, s))
    ]
  ]

  pub patch_checked-Applied :
      (now a : ℕ) (expected new : List ℕ) (description : Text) (m k : Manager I) (n : ℕ)
      → patch_checked I file_opens now a expected new description m ≡ (k, patched n)
      → Applied now a expected new description m k n
  unfolding patch_checked
  patch_checked-Applied now a expected new description m k n e =
      elim (Bool-cases (length expected == 0)) [
        | inl t ↦ absurd (ground arith)
        | inr some_old ↦ elim (Bool-cases (length new == 0)) [
          | inl t ↦ absurd (ground arith)
          | inr some_new ↦ elim (Bool-cases (validate_address I file_opens a m)) [
            | inr f ↦ absurd (ground arith)
            | inl valid ↦ elim (Bool-cases (verify_original_bytes I file_opens a expected m)) [
              | inr f ↦ absurd (ground arith)
              | inl verified ↦
                  elim (Option-cases
                    (validate_patch_size I file_opens a (length expected) (length new) m)) [
                      | inr (x, s) ↦ absurd (ground arith)
                      | inl fits ↦ elim (Option-cases (find_patch a m.patches)) [
                        | inr (p, s) ↦ absurd (ground arith)
                        | inl free ↦
                            let committed : commit_bytes I file_opens now a expected new description
                                  m
                                ≡ (k, patched n) =
                              ground arith in
                            let (ok, size, out) =
                              commit_bytes-Applied now a expected new description m k n committed in
                            let (same, space) =
                              validate_patch_size_lem a (length expected) (length new) m fits in
                            let mapped : I.is_mapped m.database a ≡ true =
                              unfold validate_address in (ground arith) in
                            let read : I.get_bytes m.database a (length expected) ≡ expected =
                              (text_eq_iff (I.get_bytes m.database a (length expected)) expected).0
                                (unfold verify_original_bytes bytes_eq read_bytes in verified) in
                            (ground arith, same, mapped, read, space, free, ok, size, out)
                      ]
                    ]
            ]
          ]
        ]
      ]

  commit_bytes-refused :
      (now a : ℕ) (expected new : List ℕ) (description : Text) (m k : Manager I) (e : PatchError)
      → commit_bytes I file_opens now a expected new description m ≡ (k, refused e)
      → k ≡ m
  unfolding commit_bytes
  commit_bytes-refused now a expected new description m k e h =
      elim (Bool-cases (write_bytes I file_opens a new m).1) [
        | inl t ↦ absurd (ground arith)
        | inr f ↦ ground (arith, write_bytes-failed I file_opens a new m f)
      ]

  pub patch_checked-refused :
      (now a : ℕ) (expected new : List ℕ) (description : Text) (m k : Manager I) (e : PatchError)
      → patch_checked I file_opens now a expected new description m ≡ (k, refused e)
      → k ≡ m
  unfolding patch_checked
  patch_checked-refused now a expected new description m k e h =
      ground (arith, commit_bytes-refused now a expected new description m k e)

  -- A byte patch that returns was refused for its texts, or comes down to the bytes of these.
  pub apply_byte_patch_cases :
      (now a : ℕ) (original_hex new_hex description : Text) (m k : Manager I) (r : PatchResult)
      → apply_byte_patch I file_opens now a original_hex new_hex description m ≡ some (k, r)
      → ((k ≡ m) × ((e : PatchError) × (r ≡ refused e)))
        ⊎ ((expected : List ℕ) × (new : List ℕ) × (hex_string_to_bytes original_hex ≡ some expected)
            × (hex_string_to_bytes new_hex ≡ some new)
            × (patch_checked I file_opens now a expected new description m ≡ (k, r)))
  unfolding apply_byte_patch
  apply_byte_patch_cases now a original_hex new_hex description m k r h =
      elim (Bool-cases (is_valid_hex_string original_hex)) [
        | inr f ↦ inl (ground arith, (PatchError.invalid_original_hex, ground arith))
        | inl t ↦ elim (Bool-cases (is_valid_hex_string new_hex)) [
          | inr f ↦ inl (ground arith, (PatchError.invalid_new_hex, ground arith))
          | inl u ↦ elim (Option-cases (hex_string_to_bytes original_hex)) [
            | inl n ↦ absurd (ground arith)
            | inr (expected, e) ↦ elim (Option-cases (hex_string_to_bytes new_hex)) [
              | inl n ↦ absurd (ground arith)
              | inr (new, f) ↦ inr (expected, new, e, f, ground arith)
            ]
          ]
        ]
      ]

  -- A range whose bytes have values, that lies inside the address space and clear of the entries.
  abbrev pub IsClear : ℕ → ℕ → Manager I → Type 0
  IsClear a n m =
      (a + n ≤ word)
      × (all_in (I.is_loaded m.database) a n ≡ true)
      × ((x : ℕ) → a ≤ x → x < a + n → ¬ Any (Covers x) m.patches)

  -- A patch of either kind that succeeds: as many bytes as were read are written, and the entry has
  -- what was read.
  abbrev pub Placed : ℕ → ℕ → List ℕ → PatchEntry → Manager I → Manager I → Type 0
  Placed a n new p m k =
      (0 < n)
      × (p.original_bytes ≡ I.get_bytes m.database a n)
      × (p.is_segment_injection ≡ false)
      × (length new ≡ n)
      × (find_patch a m.patches ≡ none)
      × ((write_bytes I file_opens a new m).1 ≡ true)
      × (k ≡ (
          let w = (write_bytes I file_opens a new m).0 in
          trigger_reanalysis I file_opens a (length new)
            (record w { patches = put_patch a p w.patches })))

  pub Applied-Placed :
      (now a : ℕ) (expected new : List ℕ) (description : Text) (m k : Manager I) (n : ℕ)
      → Applied now a expected new description m k n
      → Placed a n new (byte_entry I file_opens a expected new description now) m k
  unfolding byte_entry
  Applied-Placed now a expected new description m k n
        (size, same, mapped, read, space, free, ok, count, out) =
      (
        omega arith,
        sym (ap (I.get_bytes m.database a) (count ∙ same) ∙ read),
        refl,
        sym count,
        free,
        ok,
        out,
      )

  -- What is so after some bytes were written, an entry was made and the analysis was run.
  abbrev pub HasWritten : ℕ → ℕ → List ℕ → PatchEntry → Manager I → Manager I → Type 0
  HasWritten a n new p m k =
      (bytes_at (I.get_byte k.database) a n ≡ new)
      × ((x : ℕ) → (x < a) ⊎ (a + n ≤ x) → I.get_byte k.database x ≡ I.get_byte m.database x)
      × (find_patch a k.patches ≡ some p)

  pub commit-HasWritten :
      (a n : ℕ) (new : List ℕ) (p : PatchEntry) (m k : Manager I)
      → length new ≡ n
      → a + n ≤ word
      → (write_bytes I file_opens a new m).1 ≡ true
      → k ≡ (
          let w = (write_bytes I file_opens a new m).0 in
          trigger_reanalysis I file_opens a
            (length new)
            (record w { patches = put_patch a p w.patches }))
      → HasWritten a n new p m k
  commit-HasWritten a n new p m k size l ok out =
      let b = (write_bytes I file_opens a new m).0 in
      let before : Manager I = record b { patches = put_patch a p b.patches } in
      let (written, patches) =
        write_bytes_lem I file_opens a new m (subst (λ i. a + i ≤ word) (sym size) l) ok in
      let writes : Writes I file_opens m.database k.database a new =
        subst (λ j. Writes I file_opens m.database j.database a new) (sym out)
          (Writes-analysis I file_opens a (length new) a new m.database before written) in
      let table : k.patches ≡ put_patch a p b.patches =
        ap (λ j. j.patches) out ∙ (unfold trigger_reanalysis in refl) in
      let memory_after = overwrite a new (I.get_byte m.database) in
      (
        bytes_at_same (I.get_byte k.database) memory_after a n (λ x low high. (writes x).0)
            ∙ (ap (bytes_at memory_after a) (sym size)
                ∙ bytes_at-overwrite a new (I.get_byte m.database)),
        λ x outside.
            (writes x).0
            ∙ overwrite_outside a new (I.get_byte m.database) x
                (subst (λ i. (x < a) ⊎ (a + i ≤ x)) (sym size) outside),
        ap (find_patch a) table ∙ find-put_patch a p b.patches,
      )

  -- A byte patch that succeeds on a range of loaded bytes inside the address space.
  pub apply_byte_patch_lem :
      (now a : ℕ) (original_hex new_hex description : Text) (m k : Manager I) (n : ℕ)
      → apply_byte_patch I file_opens now a original_hex new_hex description m ≡ some (k, patched n)
      → a + n ≤ word
      → all_in (I.is_loaded m.database) a n ≡ true
      → (expected : List ℕ) × (new : List ℕ) × (hex_string_to_bytes original_hex ≡ some expected)
        × (hex_string_to_bytes new_hex ≡ some new)
        × (bytes_at (I.get_byte m.database) a n ≡ expected)
        × (bytes_at (I.get_byte k.database) a n ≡ new)
        × ((x : ℕ) → (x < a) ⊎ (a + n ≤ x) → I.get_byte k.database x ≡ I.get_byte m.database x)
        × (find_patch a k.patches ≡ some (byte_entry I file_opens a expected new description now))
  apply_byte_patch_lem now a original_hex new_hex description m k n h l loaded =
      elim (apply_byte_patch_cases now a original_hex new_hex description m k (patched n) h) [
        | inl (same, (e, r)) ↦ absurd (ground arith)
        | inr (expected, new, o, w, checked) ↦
            let (size, same, mapped, read, space, free, ok, count, out) =
              patch_checked-Applied now a expected new description m k n checked in
            let old : n ≡ length expected = count ∙ same in
            let p = byte_entry I file_opens a expected new description now in
            let written = commit-HasWritten a n new p m k (sym count) l ok out in
            (
              expected,
              new,
              o,
              w,
              sym (I.get_bytes-get_byte m.database a n loaded)
                  ∙ (ap (I.get_bytes m.database a) old ∙ read),
              written.0,
              written.1,
              written.2,
            )
      ]
