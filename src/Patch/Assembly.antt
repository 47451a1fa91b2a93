-- ===== src/Patch/Assembly.antt =====
-- Assembly patches in patching/patch_manager.cpp: a new instruction in the place of one that is no
-- shorter, with padding after it. What IDA and Keystone do about instructions is the record `Assembler`.
use ida_swarm.Base.{
  ℕ, ◌+◌, ◌-◌, List, [], ◌∷◌, ◌++◌, map, Option, none, some, Bool, true, false, not, ◌&&◌, ◌||◌,
  Text, codes, text_eq, length, ltb, leb, ◌==◌, if◌then◌else◌,
}
use ida_swarm.Patch.{Ida, PatchEntry, Manager, read_bytes, write_bytes, trigger_reanalysis}
use ida_swarm.Patch.Ops.{find_patch, put_patch, validate_address}
use ida_swarm.Patch.Padding.{
  Target, is_arm, is_aligned, fits_alignment, fits_padding, get_nop_bytes,
}

pub record Assembler (I : Ida) : Type 1 where
  pub target : Target
  -- The low bit of the register T at an address.
  pub is_thumb : I.Database → ℕ → Bool
  -- The size of the instruction at an address; 0 where there is none.
  pub decode_insn : I.Database → ℕ → ℕ
  -- generate_disasm_line without the colour tags (tag_remove).
  pub disasm_line : I.Database → ℕ → Option Text
  -- qstring::trim2
  pub trim2 : Text → Text
  -- An engine of Keystone, and one that is opened for ARM, in Thumb mode or not.
  pub Engine : Type 0
  pub ks_open_arm : Bool → Option Engine
  pub ks_asm : Engine → Text → ℕ → Option (List ℕ)

-- The first place of a part in a text: what is before it and after it.
unfoldable pub after_part : Text → Text → Option Text
after_part [] s = some s
after_part (c ∷ part) [] = none
after_part (c ∷ part) (d ∷ s) = if c == d then after_part part s else none

unfoldable pub find_part : Text → Text → Option (Text × Text)
find_part part [] = elim (after_part part []) [ none ↦ none | some rest ↦ some ([], rest) ]
find_part part (c ∷ s) =
    let further = find_part part s in
    elim (after_part part (c ∷ s)) [
      | some rest ↦ some ([], rest)
      | none ↦ elim further [ none ↦ none | some p ↦ some (c ∷ p.0, p.1) ]
    ]

abbrev pub is_trimmed : ℕ → Bool
is_trimmed c = c == b' ' || (c == 9 || (c == 10 || c == 13))

-- erase(0, find_first_not_of(" \t\n\r"))
unfoldable pub trim_left : Text → Text
trim_left [] = []
trim_left (c ∷ s) = if is_trimmed c then trim_left s else c ∷ s

-- erase(find_last_not_of(" \t\n\r") + 1)
unfoldable pub trim_right : Text → Text
trim_right [] = []
trim_right (c ∷ s) = elim (trim_right s) [
  | [] ↦ if is_trimmed c then [] else c ∷ []
  | d ∷ t ↦ c ∷ d ∷ t
]

abbrev pub is_blank_byte : ℕ → Bool
is_blank_byte c = c == b' ' || leb 9 c && leb c 13

abbrev pub lower : ℕ → ℕ
lower c = if leb b'A' c && leb c b'Z' then c + 32 else c

-- std::unique with a test that holds of two blanks: of a run of blanks the first is kept.
unfoldable pub unique_blanks : Bool → Text → Text
unique_blanks after_blank [] = []
unique_blanks after_blank (c ∷ s) =
    let rest = unique_blanks (is_blank_byte c) s in
    if after_blank && is_blank_byte c then rest else c ∷ rest

unfoldable pub normalize_assembly : Text → Text
normalize_assembly s = trim_right (trim_left (unique_blanks false (map lower s)))

-- The text before a comment.
unfoldable pub before_comment : Text → Text
before_comment [] = []
before_comment (c ∷ s) = if c == b';' then [] else c ∷ before_comment s

pub data AssemblyError : Type 0 where
  invalid_address not_at_instruction assembly_mismatch no_assembler not_assembled no_instruction
        too_large :
      AssemblyError
  misaligned bad_padding already_patched write_failed : AssemblyError

-- The bytes of the instruction and of the padding, or the error.
pub data AssemblyResult : Type 0 where
  assembled : ℕ → ℕ → AssemblyResult
  refused : AssemblyError → AssemblyResult

unfoldable pub assembly_entry : ℕ → List ℕ → List ℕ → Text → Text → Text → ℕ → PatchEntry
assembly_entry address original_bytes new_bytes original_asm new_asm description now = record {
  address = address;
  original_bytes = original_bytes;
  patched_bytes = new_bytes;
  description = description;
  timestamp = now;
  is_assembly_patch = true;
  original_asm = original_asm;
  patched_asm = new_asm;
  is_segment_injection = false;
  segment_name = [];
  segment_size = 0;
}

module _ (I : Ida) (file_opens : Text → Bool) (A : Assembler I) where
  unfoldable pub disassemble_at : I.Database → ℕ → Text
  disassemble_at db address = elim (A.disasm_line db address) [
    | none ↦ []
    | some line ↦ A.trim2 (before_comment line)
  ]

  unfoldable pub verify_original_asm : I.Database → ℕ → Text → Bool
  verify_original_asm db address expected_asm =
      text_eq (normalize_assembly expected_asm) (normalize_assembly (disassemble_at db address))

  unfoldable pub validate_instruction_boundary : I.Database → ℕ → Bool
  validate_instruction_boundary db address =
      is_aligned A.target (A.is_thumb db address) address && not (A.decode_insn db address == 0)

  -- The mode that a directive in the text asks for, and the text without it.
  unfoldable pub directive : Bool → Text → Bool × Text
  directive thumb text = elim (find_part (codes ".thumb") text) [
    | some p ↦ (true, p.0 ++ p.1)
    | none ↦ elim (find_part (codes ".arm") text) [
      | some p ↦ (false, p.0 ++ p.1)
      | none ↦ (thumb, text)
    ]
  ]

  -- No output, or no byte of it, counts as a failure.
  unfoldable pub run_asm : A.Engine → Text → ℕ → Option A.Engine × Option (List ℕ)
  run_asm engine text address = elim (A.ks_asm engine (trim_right (trim_left text)) address) [
    | none ↦ (some engine, none)
    | some bytes ↦ if length bytes == 0 then (some engine, none) else (some engine, some bytes)
  ]

  -- The engine afterwards, and the bytes or none. For 32-bit ARM the engine is opened anew; where that
  -- fails there is none any more.
  unfoldable pub assemble_instruction :
      I.Database → Option A.Engine → Text → ℕ → Option A.Engine × Option (List ℕ)
  assemble_instruction db none text address = (none, none)
  assemble_instruction db (some engine) text address =
      if length text == 0
      then (some engine, none)
      else if is_arm A.target.processor && not A.target.is_64bit
      then (let (thumb, rest) = directive (A.is_thumb db address) text in
          elim (A.ks_open_arm thumb) [
            | none ↦ (none, none)
            | some opened ↦ run_asm opened rest address
          ])
      else run_asm engine text address

  -- The write, the entry and the analysis.
  unfoldable pub commit_assembly :
      ℕ → ℕ → ℕ → List ℕ → ℕ → Text → Text → Text → Manager I → Manager I × AssemblyResult
  commit_assembly now address original_size new_bytes nops original_asm new_asm description m =
      let original_bytes = read_bytes I file_opens address original_size m in
      let (written, success) = write_bytes I file_opens address new_bytes m in
      if not success then (written, refused write_failed) else (
        trigger_reanalysis I file_opens address (length new_bytes) (record written {
          patches =
              put_patch address
                (assembly_entry address original_bytes new_bytes original_asm new_asm description
                  now)
                written.patches;
        }),
        assembled (length new_bytes - nops) nops,
      )

  -- From the padding on.
  unfoldable pub pad_and_commit :
      ℕ → ℕ → ℕ → List ℕ → Text → Text → Text → Manager I → Manager I × AssemblyResult
  pad_and_commit now address original_size code original_asm new_asm description m =
      let thumb = A.is_thumb m.database address in
      let nops = original_size - length code in
      let new_bytes = code ++ get_nop_bytes A.target thumb nops in
      if ltb (length code) original_size && not (fits_padding A.target thumb nops)
      then (m, refused bad_padding)
      else elim (find_patch address m.patches) [
        | some p ↦ (m, refused already_patched)
        | none ↦
            commit_assembly now address original_size new_bytes nops original_asm new_asm
              description m
      ]

  -- From the assembled bytes on.
  unfoldable pub patch_code :
      ℕ → ℕ → List ℕ → Text → Text → Text → Manager I → Manager I × AssemblyResult
  patch_code now address code original_asm new_asm description m =
      let original_size = A.decode_insn m.database address in
      if original_size == 0
      then (m, refused no_instruction)
      else if ltb original_size (length code)
      then (m, refused too_large)
      else if not (fits_alignment A.target (A.is_thumb m.database address) address (length code))
      then (m, refused misaligned)
      else pad_and_commit now address original_size code original_asm new_asm description m

  unfoldable pub apply_assembly_patch :
      ℕ
      → ℕ
      → Text
      → Text
      → Text
      → Option A.Engine
      → Manager I
      → Option A.Engine × (Manager I × AssemblyResult)
  apply_assembly_patch now address original_asm new_asm description engine m =
      if not (validate_address I file_opens address m)
      then (engine, (m, refused invalid_address))
      else if not (validate_instruction_boundary m.database address)
      then (engine, (m, refused not_at_instruction))
      else if not (verify_original_asm m.database address original_asm)
      then (engine, (m, refused assembly_mismatch))
      else elim engine [
        | none ↦ (none, (m, refused no_assembler))
        | some e ↦
            let (next, result) = assemble_instruction m.database (some e) new_asm address in
            elim result [
              | none ↦ (next, (m, refused not_assembled))
              | some code ↦ (next, patch_code now address code original_asm new_asm description m)
            ]
      ]
