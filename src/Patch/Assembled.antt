-- ===== src/Patch/Assembled.antt =====
-- What an assembly patch of patching/patch_manager.cpp has done when it succeeds.
use ida_swarm.Base.{
  ℕ, ◌+◌, ◌-◌, ◌≤◌, ◌<◌, ◌≡◌, refl, inl, inr, List, ◌++◌, Option, none, some, Bool, Text, length,
  length-append, word, arith, Bool-cases, Option-cases,
}
use ida_swarm.Patch.{Ida, Manager, read_bytes, write_bytes}
use ida_swarm.Patch.Ops.{find_patch}
use ida_swarm.Patch.Applied.{Placed, HasWritten, commit-HasWritten}
use ida_swarm.Patch.Padding.{get_nop_bytes, length-get_nop_bytes}
use ida_swarm.Patch.Effect.{write_bytes-failed}
use ida_swarm.Patch.Assembly.{
  AssemblyError, refused, Assembler, assembled, assembly_entry, assemble_instruction,
  commit_assembly, pad_and_commit, patch_code, apply_assembly_patch,
}

module _ (I : Ida) (file_opens : Text → Bool) (A : Assembler I) where
  module _ (now a : ℕ) (original_asm new_asm description : Text) (m k : Manager I)
      (count nops : ℕ) where
    -- A patch of the size of the instruction.
    abbrev Replaced : ℕ → Type 0
    Replaced size =
        (count + nops ≡ size)
        × ((new : List ℕ) × Placed I file_opens a size new
              (assembly_entry a (I.get_bytes m.database a size) new original_asm new_asm description
                now)
              m k)

    commit_assembly-Replaced :
        (size pad : ℕ) (new : List ℕ)
        → 0 < size
        → find_patch a m.patches ≡ none
        → length new ≡ size
        → pad ≤ size
        → commit_assembly I file_opens A now a size new pad original_asm new_asm description m
          ≡ (k, assembled count nops)
        → Replaced size
    unfolding commit_assembly assembly_entry read_bytes
    commit_assembly-Replaced size pad new some_size free l le e =
        elim (Bool-cases (write_bytes I file_opens a new m).1) [
          | inr f ↦ absurd (ground arith)
          | inl t ↦
              let first : count ≡ length new - pad = ground arith in
              let second : nops ≡ pad = ground arith in
              (
                omega (arith, first, second, l),
                (new, (some_size, refl, refl, l, free, t, ground arith)),
              )
        ]

    pad_and_commit-Replaced :
        (size : ℕ) (code : List ℕ)
        → 0 < size
        → length code ≤ size
        → pad_and_commit I file_opens A now a size code original_asm new_asm description m
          ≡ (k, assembled count nops)
        → Replaced size
    pad_and_commit-Replaced size code some_size le e =
        let thumb = A.is_thumb m.database a in
        let pad = size - length code in
        let new = code ++ get_nop_bytes A.target thumb pad in
        let fits : length new ≡ size = omega (
          arith,
          length-append code (get_nop_bytes A.target thumb pad),
          length-get_nop_bytes A.target thumb pad,
          le,
        ) in
        elim (Option-cases (find_patch a m.patches)) [
          | inr (p, found) ↦ absurd (unfold pad_and_commit in (ground arith))
          | inl free ↦
              let down : commit_assembly I file_opens A now a size new pad original_asm new_asm
                    description m
                  ≡ (k, assembled count nops) =
                unfold pad_and_commit in (ground arith) in
              commit_assembly-Replaced size pad new some_size free fits (omega arith) down
        ]

    patch_code-Replaced :
        (code : List ℕ)
        → patch_code I file_opens A now a code original_asm new_asm description m
          ≡ (k, assembled count nops)
        → Replaced (A.decode_insn m.database a)
    patch_code-Replaced code e =
        let size = A.decode_insn m.database a in
        let le : length code ≤ size = unfold patch_code in (ground arith) in
        let down : pad_and_commit I file_opens A now a size code original_asm new_asm description m
            ≡ (k, assembled count nops) =
          unfold patch_code in (ground arith) in
        let some_size : 0 < size = unfold patch_code in (ground arith) in
        pad_and_commit-Replaced size code some_size le down

    pub apply_assembly_patch-Replaced :
        (engine next : Option A.Engine)
        → apply_assembly_patch I file_opens A now a original_asm new_asm description engine m
          ≡ (next, (k, assembled count nops))
        → Replaced (A.decode_insn m.database a)
    apply_assembly_patch-Replaced none next e =
        absurd (unfold apply_assembly_patch in (ground arith))
    apply_assembly_patch-Replaced (some engine) next e =
        elim (Option-cases
          (assemble_instruction I file_opens A m.database (some engine) new_asm a).1) [
            | inl n ↦ absurd (unfold apply_assembly_patch in (ground arith))
            | inr (code, c) ↦
                let down : patch_code I file_opens A now a code original_asm new_asm description m
                    ≡ (k, assembled count nops) =
                  unfold apply_assembly_patch in (ground arith) in
                patch_code-Replaced code down
          ]

  -- An assembly patch that succeeds on an instruction whose bytes lie inside the address space: the new
  -- instruction and its padding are together as long as the one in place was, so that its bytes and no
  -- others are changed; and the table has an entry with the bytes that were read before.
  pub apply_assembly_patch_lem :
      (now a : ℕ) (original_asm new_asm description : Text) (m k : Manager I) (count nops : ℕ)
      (engine next : Option A.Engine)
      → apply_assembly_patch I file_opens A now a original_asm new_asm description engine m
        ≡ (next, (k, assembled count nops))
      → a + A.decode_insn m.database a ≤ word
      → (count + nops ≡ A.decode_insn m.database a)
        × ((new : List ℕ) × (length new ≡ A.decode_insn m.database a)
            × HasWritten I file_opens a
                (A.decode_insn m.database a)
                new
                (assembly_entry a
                  (I.get_bytes m.database a (A.decode_insn m.database a))
                  new
                  original_asm
                  new_asm
                  description
                  now)
                m
                k)
  apply_assembly_patch_lem now a original_asm new_asm description m k count nops engine next h l =
      let size = A.decode_insn m.database a in
      let (total, (new, placed)) =
        apply_assembly_patch-Replaced now a original_asm new_asm description m k count nops engine
          next h in
      let p =
        assembly_entry a (I.get_bytes m.database a size) new original_asm new_asm description now in
      (
        total,
        (
          new,
          placed.3,
          commit-HasWritten I file_opens a size new p m k placed.3 l placed.5 placed.6,
        ),
      )

  commit_assembly-refused :
      (now a size pad : ℕ) (new : List ℕ) (original_asm new_asm description : Text)
      (m k : Manager I) (e : AssemblyError)
      → commit_assembly I file_opens A now a size new pad original_asm new_asm description m
        ≡ (k, refused e)
      → k ≡ m
  unfolding commit_assembly
  commit_assembly-refused now a size pad new original_asm new_asm description m k e h =
      elim (Bool-cases (write_bytes I file_opens a new m).1) [
        | inl t ↦ absurd (ground arith)
        | inr f ↦ ground (arith, write_bytes-failed I file_opens a new m f)
      ]

  patch_code-refused :
      (now a : ℕ) (code : List ℕ) (original_asm new_asm description : Text) (m k : Manager I)
      (e : AssemblyError)
      → patch_code I file_opens A now a code original_asm new_asm description m ≡ (k, refused e)
      → k ≡ m
  unfolding patch_code pad_and_commit
  patch_code-refused now a code original_asm new_asm description m k e h =
      let size = A.decode_insn m.database a in
      let pad = size - length code in
      let new = code ++ get_nop_bytes A.target (A.is_thumb m.database a) pad in
      ground
        (arith, commit_assembly-refused now a size pad new original_asm new_asm description m k e)

  -- An assembly patch that is refused has changed nothing but the engine.
  pub apply_assembly_patch-refused :
      (now a : ℕ) (original_asm new_asm description : Text) (m k : Manager I) (e : AssemblyError)
      (engine next : Option A.Engine)
      → apply_assembly_patch I file_opens A now a original_asm new_asm description engine m
        ≡ (next, (k, refused e))
      → k ≡ m
  apply_assembly_patch-refused now a original_asm new_asm description m k e none next h =
      unfold apply_assembly_patch in (ground arith)
  apply_assembly_patch-refused now a original_asm new_asm description m k e (some engine) next h =
      elim (Option-cases
        (assemble_instruction I file_opens A m.database (some engine) new_asm a).1) [
          | inl n ↦ unfold apply_assembly_patch in (ground arith)
          | inr (code, c) ↦
              unfold apply_assembly_patch in
              (ground (arith, patch_code-refused now a code original_asm new_asm description m k e))
        ]
