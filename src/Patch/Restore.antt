-- ===== src/Patch/Restore.antt =====
-- Runs of the operations of patching/patch_manager.cpp, and the undoing of all patches after them.
use ida_swarm.Base.{
  ℕ, ◌≡◌, refl, sym, ap, subst, ◌∙◌, ◌⊎◌, inl, inr, List, [], ◌∷◌, Option, none, some, ◌+◌, Bool,
  true, Text, All, arith, Option-cases,
}
use ida_swarm.Base.External.{RowOrder}
use ida_swarm.Patch.{Ida, PatchEntry, Manager}
use ida_swarm.Patch.Ops.{byte_entry, patched, refused, apply_byte_patch, revert_patch, revert_all}
use ida_swarm.Patch.Applied.{
  Applied, patch_checked-Applied, patch_checked-refused, apply_byte_patch_cases, Applied-Placed,
  IsClear,
}
use ida_swarm.Patch.Undo.{
  IsEntry, revert_all-IsRevertible, Placed-IsRevertible, revert-IsRevertible, IsRevertible,
}
use ida_swarm.Patch.Assembly.{
  AssemblyResult, assembly_entry, Assembler, assembled, apply_assembly_patch,
}
use ida_swarm.Patch.Assembled.{apply_assembly_patch-Replaced, apply_assembly_patch-refused}

-- The operations: a byte patch (a time, an address, the two hexadecimal texts and a description), an
-- assembly patch (with the two instructions in their place), and the undoing at an address.
pub data Op : Type 0 where
  patch : ℕ → ℕ → Text → Text → Text → Op
  assemble : ℕ → ℕ → Text → Text → Text → Op
  revert : ℕ → Op

module _ (I : Ida) (file_opens : Text → Bool) where
  -- Where an exception leaves a byte patch, nothing has changed.
  unfoldable pub patch_step : ℕ → ℕ → Text → Text → Text → Manager I → Manager I
  patch_step now a original_hex new_hex description m =
      elim (apply_byte_patch I file_opens now a original_hex new_hex description m) [
        | none ↦ m
        | some (k, r) ↦ k
      ]

  -- A byte patch either has applied, or left everything as it was.
  step-patch :
      (now a : ℕ) (original_hex new_hex description : Text) (m : Manager I)
      → (patch_step now a original_hex new_hex description m ≡ m)
        ⊎ ((expected : List ℕ) × (new : List ℕ) × (n : ℕ) × (apply_byte_patch I file_opens now a
                original_hex new_hex description m
              ≡ some (patch_step now a original_hex new_hex description m, patched n))
            × Applied I file_opens now a expected new description m
                (patch_step now a original_hex new_hex description m)
                n)
  step-patch now a original_hex new_hex description m =
      elim (Option-cases (apply_byte_patch I file_opens now a original_hex new_hex description m)) [
        | inl n ↦ inl (unfold patch_step in (ground arith))
        | inr ((k, refused e), h) ↦
            let kept : k ≡ m =
              elim (apply_byte_patch_cases I file_opens now a original_hex new_hex description m k
                (refused e) h) [
                  | inl same ↦ same.0
                  | inr (expected, new, _, _, checked) ↦
                      patch_checked-refused I file_opens now a expected new description m k e
                        checked
                ] in
            inl (unfold patch_step in (ground arith))
        | inr ((k, patched n), h) ↦
            elim (apply_byte_patch_cases I file_opens now a original_hex new_hex description m k
              (patched n) h) [
                | inl (same, (e, r)) ↦ absurd (ground arith)
                | inr (expected, new, _, _, checked) ↦
                    let now_k : patch_step now a original_hex new_hex description m ≡ k =
                      unfold patch_step in (ground arith) in
                    let applied =
                      patch_checked-Applied I file_opens now a expected new description m k n
                        checked in
                    inr (
                      expected,
                      new,
                      n,
                      h ∙ ap (λ j. some (j, patched n)) (sym now_k),
                      subst (λ j. Applied I file_opens now a expected new description m j n)
                          (sym now_k) applied,
                    )
              ]
      ]

  module _ (A : Assembler I) where
    -- The engine of the assembler, and the manager.
    unfoldable pub step : Op → Option A.Engine × Manager I → Option A.Engine × Manager I
    step (patch now a original_hex new_hex description) (engine, m) =
        (engine, patch_step now a original_hex new_hex description m)
    step (assemble now a original_asm new_asm description) (engine, m) =
        let (next, result) =
          apply_assembly_patch I file_opens A now a original_asm new_asm description engine m in
        (next, result.0)
    step (revert a) (engine, m) = (engine, (revert_patch I file_opens a m).0)

    unfoldable pub run : List Op → Option A.Engine × Manager I → Option A.Engine × Manager I
    run [] st = st
    run (o ∷ os) st = run os (step o st)

    -- If the operation is a patch that succeeds, its range is clear of the patches in place.
    abbrev pub IsClearOp : Op → Option A.Engine × Manager I → Type 0
    IsClearOp (patch now a original_hex new_hex description) (engine, m) =
        (k : Manager I) (n : ℕ)
        → apply_byte_patch I file_opens now a original_hex new_hex description m
          ≡ some (k, patched n)
        → IsClear I file_opens a n m
    IsClearOp (assemble now a original_asm new_asm description) (engine, m) =
        (next : Option A.Engine) (k : Manager I) (count nops : ℕ)
        → apply_assembly_patch I file_opens A now a original_asm new_asm description engine m
          ≡ (next, (k, assembled count nops))
        → IsClear I file_opens a (count + nops) m
    IsClearOp (revert a) (engine, m) = Unit

    -- So it is for every operation of a run.
    abbrev pub IsApart : List Op → Option A.Engine × Manager I → Type 0
    IsApart [] st = Unit
    IsApart (o ∷ os) st = IsClearOp o st × IsApart os (step o st)

    module _ (first : I.Database) where
      patch-IsRevertible :
          (now a : ℕ) (original_hex new_hex description : Text) (engine : Option A.Engine)
          (m : Manager I)
          → IsClearOp (patch now a original_hex new_hex description) (engine, m)
          → IsRevertible I file_opens first m
          → IsRevertible I file_opens first (patch_step now a original_hex new_hex description m)
      patch-IsRevertible now a original_hex new_hex description engine m h v =
          elim (step-patch now a original_hex new_hex description m) [
            | inl same ↦ subst (IsRevertible I file_opens first) (sym same) v
            | inr (expected, new, n, e, applied) ↦
                let k = patch_step now a original_hex new_hex description m in
                let p = byte_entry I file_opens a expected new description now in
                Placed-IsRevertible I file_opens first a n new p m k
                  (Applied-Placed I file_opens now a expected new description m k n applied)
                  (h k n e) v
          ]

      assemble-IsRevertible :
          (now a : ℕ) (original_asm new_asm description : Text) (m : Manager I)
          (engine next : Option A.Engine) (k : Manager I) (r : AssemblyResult)
          → apply_assembly_patch I file_opens A now a original_asm new_asm description engine m
            ≡ (next, (k, r))
          → IsClearOp (assemble now a original_asm new_asm description) (engine, m)
          → IsRevertible I file_opens first m
          → IsRevertible I file_opens first k
      assemble-IsRevertible now a original_asm new_asm description m engine next k
            (AssemblyResult.refused e) q h v =
          subst (IsRevertible I file_opens first)
            (sym (
              apply_assembly_patch-refused I file_opens A now a original_asm new_asm description m k
                e engine next q))
            v
      assemble-IsRevertible now a original_asm new_asm description m engine next k
            (assembled count nops) q h v =
          let (total, (new, placed)) =
            apply_assembly_patch-Replaced I file_opens A now a original_asm new_asm description m k
              count nops engine next q in
          let size = A.decode_insn m.database a in
          let p =
            assembly_entry a (I.get_bytes m.database a size) new original_asm new_asm description
              now in
          Placed-IsRevertible I file_opens first a size new p m k placed
            (subst (λ i. IsClear I file_opens a i m) total (h next k count nops q)) v

      step-IsRevertible :
          (o : Op) (st : Option A.Engine × Manager I)
          → IsClearOp o st
          → IsRevertible I file_opens first st.1
          → IsRevertible I file_opens first (step o st).1
      unfolding step
      step-IsRevertible (revert a) (engine, m) h v = revert-IsRevertible I file_opens first a m v
      step-IsRevertible (patch now a original_hex new_hex description) (engine, m) h v =
          patch-IsRevertible now a original_hex new_hex description engine m h v
      step-IsRevertible (assemble now a original_asm new_asm description) (engine, m) h v =
          let r =
            apply_assembly_patch I file_opens A now a original_asm new_asm description engine m in
          assemble-IsRevertible now a original_asm new_asm description m engine r.0 r.1.0 r.1.1 refl
            h v

      run-IsRevertible :
          (os : List Op) (st : Option A.Engine × Manager I)
          → IsApart os st
          → IsRevertible I file_opens first st.1
          → IsRevertible I file_opens first (run os st).1
      unfolding run
      run-IsRevertible [] st h v = v
      run-IsRevertible (o ∷ os) st h v =
          run-IsRevertible os (step o st) h.1 (step-IsRevertible o st h.0 v)

    -- From a manager without patches, after any run of byte patches, assembly patches and undoings in
    -- which every patch that succeeds has a range of loaded bytes inside the address space and clear of
    -- the patches in place, undoing all reports success, in whatever order the table gives the patches:
    -- every byte of the database is as it was first, and no patch is left.
    pub revert_all-run :
        (O : RowOrder (ℕ × PatchEntry)) (os : List Op) (engine : Option A.Engine) (m : Manager I)
        → m.patches ≡ []
        → IsApart os (engine, m)
        → ((revert_all I file_opens O (run os (engine, m)).1).1 ≡ true)
          × ((revert_all I file_opens O (run os (engine, m)).1).0.patches ≡ [])
          × ((x : ℕ)
              → I.get_byte (revert_all I file_opens O (run os (engine, m)).1).0.database x
                ≡ I.get_byte m.database x)
    revert_all-run O os engine m none_yet h =
        let entries : All (IsEntry I file_opens m.database) m.patches =
          subst (All (IsEntry I file_opens m.database)) (sym none_yet) tt in
        let start : IsRevertible I file_opens m.database m =
          (entries, (λ x. (refl, refl)), (λ x. inl refl)) in
        revert_all-IsRevertible I file_opens m.database O (run os (engine, m)).1
          (run-IsRevertible m.database os (engine, m) h start)
