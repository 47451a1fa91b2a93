-- ===== src/Examples/Injections.antt =====
-- The injection of code at concrete inputs: a file with one segment of padding.
use ida_swarm.Base.{
  sub64, ℕ, zero, suc, ◌+◌, ◌-◌, ◌/◌, ◌≡◌, ◌<◌, ◌⊎◌, inl, inr, refl, ap, List, [], ◌∷◌, Option,
  none, some, true, false, codes, length, Any, ltb, add64, if◌then◌else◌, arith, Bool-cases,
}
use ida_swarm.Base.Numbers.{print_number, print_fuel, digit}
use ida_swarm.NoGo.{badaddr, is_no_go_range}
use ida_swarm.Injection.{
  x86, elf, Platform, Segment, Ida, WorkspaceInfo, PreviewRecord, CodeCave, Manager, align_up,
  repeat, padding_bytes, is_one_of, is_padding_byte, segment_bitness, workspace_name,
}
use ida_swarm.Injection.Caves.{
  count_same, outside_code, count_cave_bytes, scan_segment, scan_segments, find_code_cave,
}
use ida_swarm.Injection.Stages.{
  Result, CodePreviewResult, success, WorkspaceAllocation, CodeFinalizationResult, put, get, remove,
  same_address, same_range, allocate_code_workspace, allocate_at, track_workspace, new_workspace,
  create_temp_segment, is_in_temp_workspace, last_end, address_after,
  find_safe_address_after_segments, delete_temp_segment, preview_code_injection, preview_text,
  cache_preview, get_disassembly, disassemble, line_of, get_bytes_from_range,
}
use ida_swarm.Injection.Finalize.{
  finalize_code_injection, finalize_previewed, finish, place_code, patch_cave,
}
use ida_swarm.Injection.Space.{IsCave, HasCode, find_code_cave_lem}
use ida_swarm.Injection.Previews.{allocate, preview, IsPreview, step, run, manager_of}
use ida_swarm.Injection.Total.{preview_code_injection_total}
use ida_swarm.Injection.Runs.{finalize-run}
use ida_swarm.Injection.Workspaces.{Allocated, allocate_code_workspace_lem}

length-repeat : (b n : ℕ) → length (repeat b n) ≡ n
unfolding repeat
length-repeat b zero = refl
length-repeat b (suc n) = ap suc (length-repeat b n)

repeated_bytes : (n : ℕ) (bytes : List ℕ) → some (repeat 144 n) ≡ some bytes → length bytes ≡ n
repeated_bytes n bytes e =
    let same : repeat 144 n ≡ bytes = ground arith in
    ground (arith, ap length same, length-repeat 144 n)

next_byte : ℕ → ℕ → ℕ
next_byte ea limit = if ltb (ea + 1) limit then ea + 1 else badaddr

next_byte-lt : (ea limit : ℕ) → (next_byte ea limit ≡ badaddr) ⊎ (ea < next_byte ea limit)
unfolding next_byte
next_byte-lt ea limit = elim (Bool-cases (ltb (ea + 1) limit)) [
  | inl t ↦ inr (ground arith)
  | inr f ↦ inl (ground arith)
]

abbrev text_segment : Segment
text_segment = record { start_ea = 16; end_ea = 24; is_code = true; is_exec = true }

-- The database is a count of the changes; every byte is a NOP.
abbrev nops : Ida
nops = record {
  Database = ℕ;
  segments = λ db. text_segment ∷ [];
  getseg = λ db ea. some text_segment;
  get_byte = λ db ea. 144;
  get_bytes = λ db ea n. some (repeat 144 n);
  get_func = λ db ea. none;
  is_code = λ db ea. false;
  next_head = λ db ea limit. next_byte ea limit;
  generate_disasm_line = λ db ea. some (codes "nop");
  get_fileregion_offset = λ db ea. ea;
  plan_range = λ db s e. db;
  auto_wait = λ db. db;
  plan_and_wait = λ db s e. db;
  add_segm = λ db s e name. (suc db, true);
  update_segm = λ db ea bits. db;
  del_segm = λ db ea. (suc db, true);
  bytes_to_hex_string = λ bytes. bytes;
  apply_byte_patch = λ db ea original new. (suc db, none);
  apply_segment_injection = λ db ea n bytes name. (suc db, inr ea);
  next_head-lt = λ db ea limit. next_byte-lt ea limit;
  get_bytes-length = λ db ea n bytes e. repeated_bytes n bytes e;
}

abbrev linux : Platform
linux = record {
  arch = x86;
  file_type = elf;
  app_bitness = 64;
  enlarged = λ n. n + n / 2;
  enlarged_small = λ n h. refl;
}

abbrev empty_manager : Manager nops
empty_manager = record {
  database = 0;
  active_workspaces = [];
  preview_cache = [];
  next_workspace_id = 1;
  no_go_zones = [];
}

abbrev workspace : WorkspaceInfo
workspace = record {
  start_ea = 4096;
  end_ea = 8192;
  size = 4096;
  segment_name = codes ".tmpcode_001";
  created_at = 5;
  is_temporary = true;
}

abbrev allocated : Manager nops
allocated = record empty_manager {
  database = 1;
  active_workspaces = (4096, workspace) ∷ [];
  next_workspace_id = 2;
}

abbrev allocation : WorkspaceAllocation
allocation = record {
  temp_segment_ea = 4096;
  allocated_size = 4096;
  segment_name = codes ".tmpcode_001";
  is_temporary = true;
}

allocates : allocate_code_workspace nops linux 5 2 empty_manager ≡ (allocated, success allocation)
unfolding allocate_code_workspace allocate_at track_workspace new_workspace create_temp_segment
    last_end address_after find_safe_address_after_segments align_up add64 workspace_name
    print_number print_fuel digit put repeat segment_bitness
allocates = refl

allocate_code_workspace_lem_example : Allocated nops linux empty_manager allocated allocation
allocate_code_workspace_lem_example =
    allocate_code_workspace_lem nops linux 5 2 empty_manager allocated allocation allocates

abbrev nop_preview : PreviewRecord
nop_preview = record {
  start_ea = 4100;
  end_ea = 4102;
  code_size = 2;
  disassembly = codes "0x1004: nop\n0x1005: nop\n";
  final_bytes = 144 ∷ 144 ∷ [];
  preview_time = 7;
  previewed = true;
}

abbrev previewed_manager : Manager nops
previewed_manager = record allocated { preview_cache = ((4100, 4102), nop_preview) ∷ [] }

runs :
    run nops linux empty_manager (preview 7 4100 4102 ∷ allocate 5 2 ∷ []) ≡ some previewed_manager
unfolding run step allocate_code_workspace allocate_at track_workspace new_workspace
    create_temp_segment last_end address_after find_safe_address_after_segments align_up add64
    workspace_name print_number print_fuel digit put repeat segment_bitness preview_code_injection
    preview_text cache_preview get_disassembly disassemble line_of get_bytes_from_range sub64
    is_in_temp_workspace manager_of next_byte
runs = refl

abbrev finalized : Manager nops
finalized = record previewed_manager { database = 3; preview_cache = [] }

abbrev finalization : CodeFinalizationResult
finalization = record {
  old_temp_address = 4100;
  new_permanent_address = 16;
  code_size = 2;
  relocation_method = codes "code_cave";
}

finalizes :
    finalize_code_injection nops linux 4100 4102 previewed_manager
    ≡ some (finalized, success finalization)
unfolding finalize_code_injection finalize_previewed find_code_cave scan_segments scan_segment
    count_cave_bytes outside_code count_same is_padding_byte is_one_of padding_bytes is_no_go_range
    add64 place_code patch_cave finish get remove delete_temp_segment get_bytes_from_range sub64
    repeat
finalizes = refl

finalize-run_example :
    Any (IsPreview 4100 4102) (preview 7 4100 4102 ∷ allocate 5 2 ∷ [])
    × (4100 < 4102)
    × (finalization.code_size ≡ 4102 - 4100)
    × (finalization.old_temp_address ≡ 4100)
    × (get same_range (4100, 4102) finalized.preview_cache ≡ none)
finalize-run_example =
    finalize-run nops linux (preview 7 4100 4102 ∷ allocate 5 2 ∷ []) empty_manager
      previewed_manager finalized 4100 4102 finalization refl ((omega arith, omega arith), (tt, tt))
      runs finalizes

no_workspace_there : get same_address 4100 previewed_manager.active_workspaces ≡ none
unfolding get
no_workspace_there = refl

find_code_cave_lem_example :
    (r : Option CodeCave) × (find_code_cave nops linux 0 [] 2 ≡ some r)
    × ((c : CodeCave)
        → r ≡ some c
        → (c.size ≡ 2)
          × Any (HasCode nops linux c.address) (text_segment ∷ [])
          × IsCave nops linux 0 [] 2 c.address)
find_code_cave_lem_example = find_code_cave_lem nops linux 0 [] 2 (omega arith) (omega arith, tt)

preview_code_injection_total_example :
    (r : Manager nops × Result CodePreviewResult) × (preview_code_injection nops linux 7 4100 4102
        allocated
      ≡ some r)
preview_code_injection_total_example = preview_code_injection_total nops linux 7 4100 4102 allocated
