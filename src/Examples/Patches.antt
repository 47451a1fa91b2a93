-- ===== src/Examples/Patches.antt =====
-- Patches of patching/patch_manager.cpp at concrete inputs, in a database that holds its bytes.
use ida_swarm.Base.{
  ℕ, ◌+◌, ◌≤◌, ◌<◌, ◌≡◌, ◌⊎◌, inl, inr, ap, Option, refl, sym, subst, List, [], ◌∷◌, none, some,
  Bool, true, false, Text, codes, text_eq, keep, ltb, if◌then◌else◌, add64, length, arith,
}
use ida_swarm.Base.Numbers.{digit_value}
use ida_swarm.Base.External.{RowOrder}
use ida_swarm.NoGo.{badaddr}
use ida_swarm.Injection.Stages.{is_in_temp_workspace}
use ida_swarm.Patch.{
  Ida, PatchEntry, Manager, overwrite, bytes_at, all_in, read_bytes, write_bytes, apply_to_file,
  patch_file, trigger_reanalysis, reanalyse,
}
use ida_swarm.Patch.Hex.{
  is_valid_hex_string, hex_string_to_bytes, cleaned, bytes_of, byte_of, cons_byte, all_xdigits,
  is_xdigit,
}
use ida_swarm.Patch.Ops.{
  find_patch, put_patch, apply_byte_patch, patch_checked, validate_address, verify_original_bytes,
  bytes_eq, validate_patch_size, commit_bytes, revert_all, patched, byte_entry,
}
use ida_swarm.Patch.Applied.{apply_byte_patch_lem, HasWritten}
use ida_swarm.Patch.Padding.{
  x86, is_aligned, fits_alignment, get_nop_bytes, nops_of, repeat_word, fits_padding,
}
use ida_swarm.Patch.Assembly.{
  Assembler, assembled, assembly_entry, normalize_assembly, unique_blanks, trim_left, trim_right,
  disassemble_at, before_comment, verify_original_asm, validate_instruction_boundary,
  assemble_instruction, run_asm, commit_assembly, pad_and_commit, patch_code, apply_assembly_patch,
}
use ida_swarm.Patch.Assembled.{apply_assembly_patch-Replaced, apply_assembly_patch_lem}
use ida_swarm.Patch.Restore.{
  Op, patch, assemble, revert, patch_step, step, run, IsClearOp, IsApart, revert_all-run,
}

-- All bytes are loaded; a segment holds the addresses below 0x2000, and there are no functions.
abbrev ida : Ida
ida = record {
  Database = ℕ → ℕ;
  get_byte = λ db a. db a;
  is_loaded = λ db a. true;
  is_mapped = λ db a. ltb a 0x2000;
  getseg = λ db a. if ltb a 0x2000 then some 0x2000 else none;
  get_bytes = λ db a n. bytes_at db a n;
  patch_bytes = λ db a bs. overwrite a bs db;
  get_func = λ db a. none;
  analyse = λ c db. (db, true);
  del_segm = λ db a. (db, true);
  get_fileregion_offset = λ db a. badaddr;
  get_bytes-get_byte = λ db a n h. refl;
  get_byte-patch_bytes = λ db a bs x h. refl;
  is_mapped-patch_bytes = λ db a bs x. refl;
  getseg-patch_bytes = λ db a bs x. refl;
  get_byte-analyse = λ c db x. refl;
  is_mapped-analyse = λ c db x. refl;
  getseg-analyse = λ c db x. refl;
}

abbrev opens : Text → Bool
opens path = true

abbrev manager : Manager ida
manager = record {
  database = λ a. 0x90;
  file_writes = [];
  patches = [];
  binary_path = codes "bin";
  workspaces = [];
}

abbrev trap_entry : PatchEntry
trap_entry = record {
  address = 0x1000;
  original_bytes = 0x90 ∷ 0x90 ∷ [];
  patched_bytes = 0xcc ∷ 0xcc ∷ [];
  description = codes "trap";
  timestamp = 7;
  is_assembly_patch = false;
  original_asm = [];
  patched_asm = [];
  is_segment_injection = false;
  segment_name = [];
  segment_size = 0;
}

abbrev trapped : Manager ida
trapped = record {
  database = overwrite 0x1000 (0xcc ∷ 0xcc ∷ []) (λ a. 0x90);
  file_writes = (0xffffffff, 0xcc ∷ 0xcc ∷ []) ∷ [];
  patches = (0x1000, trap_entry) ∷ [];
  binary_path = codes "bin";
  workspaces = [];
}

hex_runs :
    (hex_string_to_bytes (codes "90 90") ≡ some (0x90 ∷ 0x90 ∷ []))
    × (hex_string_to_bytes (codes "cc CC") ≡ some (0xcc ∷ 0xcc ∷ []))
    × (is_valid_hex_string (codes "90 90") ≡ true)
    × (is_valid_hex_string (codes "9 09g") ≡ false)
    × (hex_string_to_bytes (codes "-1") ≡ some (0xff ∷ []))
unfolding hex_string_to_bytes is_valid_hex_string cleaned keep bytes_of byte_of cons_byte
    digit_value all_xdigits is_xdigit
hex_runs = (refl, refl, refl, refl, refl)

trap_applied :
    apply_byte_patch ida opens 7 0x1000 (codes "90 90") (codes "cc CC") (codes "trap") manager
    ≡ some (trapped, patched 2)
unfolding apply_byte_patch patch_checked validate_address verify_original_bytes read_bytes bytes_eq
    text_eq validate_patch_size add64 find_patch commit_bytes write_bytes patch_file apply_to_file
    is_in_temp_workspace put_patch byte_entry trigger_reanalysis reanalyse hex_string_to_bytes
    is_valid_hex_string cleaned keep bytes_of byte_of cons_byte digit_value all_xdigits is_xdigit
    bytes_at
trap_applied = refl

apply_byte_patch_lem_example :
    (expected : List ℕ) × (new : List ℕ) × (hex_string_to_bytes (codes "90 90") ≡ some expected)
    × (hex_string_to_bytes (codes "cc CC") ≡ some new)
    × (bytes_at manager.database 0x1000 2 ≡ expected)
    × (bytes_at trapped.database 0x1000 2 ≡ new)
    × ((x : ℕ) → (x < 0x1000) ⊎ (0x1000 + 2 ≤ x) → trapped.database x ≡ manager.database x)
    × (find_patch 0x1000 trapped.patches
        ≡ some (byte_entry ida opens 0x1000 expected new (codes "trap") 7))
apply_byte_patch_lem_example =
    apply_byte_patch_lem ida opens 7 0x1000 (codes "90 90") (codes "cc CC") (codes "trap") manager
      trapped 2 trap_applied (omega arith) (unfold all_in in refl)

-- Every instruction has three bytes, and every text is assembled to one.
abbrev assembler : Assembler ida
assembler = record {
  target = record { processor = x86; is_64bit = true; is_be = false };
  is_thumb = λ db a. false;
  decode_insn = λ db a. 3;
  disasm_line = λ db a. some (codes "xor  EAX, eax; zero");
  trim2 = λ s. s;
  Engine = Unit;
  ks_open_arm = λ thumb. none;
  ks_asm = λ e s a. some (0xcc ∷ []);
}

abbrev int3_entry : PatchEntry
int3_entry = record {
  address = 0x1000;
  original_bytes = 0x90 ∷ 0x90 ∷ 0x90 ∷ [];
  patched_bytes = 0xcc ∷ 0x90 ∷ 0x90 ∷ [];
  description = codes "stop";
  timestamp = 8;
  is_assembly_patch = true;
  original_asm = codes "xor eax, eax ";
  patched_asm = codes " int3";
  is_segment_injection = false;
  segment_name = [];
  segment_size = 0;
}

abbrev stopped : Manager ida
stopped = record {
  database = overwrite 0x1000 (0xcc ∷ 0x90 ∷ 0x90 ∷ []) (λ a. 0x90);
  file_writes = (0xffffffff, 0xcc ∷ 0x90 ∷ 0x90 ∷ []) ∷ [];
  patches = (0x1000, int3_entry) ∷ [];
  binary_path = codes "bin";
  workspaces = [];
}

int3_applied :
    apply_assembly_patch ida opens assembler 8 0x1000
      (codes "xor eax, eax ")
      (codes " int3")
      (codes "stop")
      (some tt)
      manager
    ≡ (some tt, (stopped, assembled 1 2))
unfolding apply_assembly_patch validate_address validate_instruction_boundary is_aligned
    verify_original_asm normalize_assembly unique_blanks trim_left trim_right disassemble_at
    before_comment text_eq assemble_instruction run_asm patch_code fits_alignment pad_and_commit
    get_nop_bytes nops_of repeat_word fits_padding find_patch commit_assembly read_bytes bytes_at
    write_bytes patch_file apply_to_file is_in_temp_workspace put_patch assembly_entry
    trigger_reanalysis reanalyse
int3_applied = refl

apply_assembly_patch_lem_example :
    (1 + 2 ≡ 3)
    × ((new : List ℕ) × (length new ≡ 3)
        × HasWritten ida opens 0x1000 3 new
            (assembly_entry 0x1000
              (bytes_at manager.database 0x1000 3)
              new
              (codes "xor eax, eax ")
              (codes " int3")
              (codes "stop")
              8)
            manager
            stopped)
apply_assembly_patch_lem_example =
    apply_assembly_patch_lem ida opens assembler 8 0x1000 (codes "xor eax, eax ") (codes " int3")
      (codes "stop") manager stopped 1 2 (some tt) (some tt) int3_applied (omega arith)

as_it_comes : RowOrder (ℕ × PatchEntry)
as_it_comes = record { ordered = λ rows. rows; Any-ordered = λ P rows. (λ a. a, λ a. a) }

abbrev trap : Op
trap = patch 7 0x1000 (codes "90 90") (codes "cc CC") (codes "trap")

abbrev stop : Op
stop = assemble 8 0x1010 (codes "xor eax, eax ") (codes " int3") (codes "stop")

abbrev ops : List Op
ops = trap ∷ stop ∷ revert 0x1800 ∷ []

after_trap : step ida opens assembler trap (some tt, manager) ≡ (some tt, trapped)
unfolding step patch_step
after_trap =
    ap
      (λ r.
        let m : Manager ida = elim r [ none ↦ manager | some (k, result) ↦ k ] in
        let e : Option Unit = some tt in (e, m))
      trap_applied

trap-IsClearOp : IsClearOp ida opens assembler trap (some tt, manager)
trap-IsClearOp k n h =
    let two : n ≡ 2 = ground (arith, trap_applied) in
    (
      omega arith,
      subst (λ i. all_in (ida.is_loaded manager.database) 0x1000 i ≡ true) (sym two)
          (unfold all_in in refl),
      λ x low high c. c,
    )

stop-IsClearOp : IsClearOp ida opens assembler stop (some tt, trapped)
stop-IsClearOp next k count nops h =
    let three : count + nops ≡ 3 =
      (apply_assembly_patch-Replaced ida opens assembler 8 0x1010 (codes "xor eax, eax ")
        (codes " int3") (codes "stop") trapped k count nops (some tt) next h).0 in
    (
      omega arith,
      subst (λ i. all_in (ida.is_loaded trapped.database) 0x1010 i ≡ true) (sym three)
          (unfold all_in in refl),
      λ x low high c. elim c [ inl d ↦ omega arith | inr d ↦ d ],
    )

ops-IsApart : IsApart ida opens assembler ops (some tt, manager)
ops-IsApart = (
  trap-IsClearOp,
  subst
      (λ st.
        IsClearOp ida opens assembler stop st
        × IsApart ida opens assembler (revert 0x1800 ∷ []) (step ida opens assembler stop st))
      (sym after_trap) (stop-IsClearOp, (tt, tt)),
)

revert_all-run_example :
    ((revert_all ida opens as_it_comes (run ida opens assembler ops (some tt, manager)).1).1 ≡ true)
    × ((revert_all ida opens as_it_comes
          (run ida opens assembler ops (some tt, manager)).1).0.patches
        ≡ [])
    × ((x : ℕ)
        → (revert_all ida opens as_it_comes
              (run ida opens assembler ops (some tt, manager)).1).0.database
            x
          ≡ manager.database x)
revert_all-run_example =
    revert_all-run ida opens assembler as_it_comes ops (some tt) manager refl ops-IsApart
