-- ===== src/Injection/Stages.antt =====
-- The stages of patching/code_injection_manager.cpp: allocate, preview, finalize; and the no-go zones.
use ida_swarm.Base.{
  ℕ, zero, suc, ◌+◌, ◌-◌, ◌%◌, ◌^◌, List, [], ◌∷◌, ◌++◌, Option, none, some, Bool, true, false, not,
  ◌&&◌, ◌||◌, Text, codes, ltb, leb, ◌==◌, add64, if◌then◌else◌,
}
use ida_swarm.Base.Numbers.{print_number}
use ida_swarm.NoGo.{badaddr}
use ida_swarm.Injection.{
  Platform, Segment, Ida, WorkspaceInfo, Manager, sub64, align_up, segment_bitness, workspace_name,
}

-- A result, or the text of an error.
pub data Result (A : Type 0) : Type 0 where
  failure : Text → Result A
  success : A → Result A

pub record WorkspaceAllocation : Type 0 where
  pub temp_segment_ea : ℕ
  pub allocated_size : ℕ
  pub segment_name : Text
  pub is_temporary : Bool

pub record CodePreviewResult : Type 0 where
  pub start_ea : ℕ
  pub end_ea : ℕ
  pub code_size : ℕ
  pub disassembly : Text
  pub final_bytes : List ℕ

pub record CodeFinalizationResult : Type 0 where
  pub old_temp_address : ℕ
  pub new_permanent_address : ℕ
  pub code_size : ℕ
  pub relocation_method : Text

-- m[key] = value, m.find(key) and m.erase(key) on the workspaces and on the previews.
module _ {K V : Type 0} (same : K → K → Bool) where
  unfoldable pub put : K → V → List (K × V) → List (K × V)
  put k v [] = (k, v) ∷ []
  put k v ((j, w) ∷ m) = if same j k then (k, v) ∷ m else (j, w) ∷ put k v m

  unfoldable pub get : K → List (K × V) → Option V
  get k [] = none
  get k ((j, w) ∷ m) = if same j k then some w else get k m

  unfoldable pub remove : K → List (K × V) → List (K × V)
  remove k [] = []
  remove k ((j, w) ∷ m) = if same j k then remove k m else (j, w) ∷ remove k m

abbrev pub same_address : ℕ → ℕ → Bool
same_address a b = a == b

abbrev pub same_range : ℕ × ℕ → ℕ × ℕ → Bool
same_range (a, b) (c, d) = a == c && b == d

unfoldable pub is_in_temp_workspace : ℕ → List (ℕ × WorkspaceInfo) → Bool
is_in_temp_workspace ea [] = false
is_in_temp_workspace ea ((start, w) ∷ ws) =
    w.is_temporary && (leb w.start_ea ea && ltb ea w.end_ea) || is_in_temp_workspace ea ws

unfoldable pub get_active_workspaces : List (ℕ × WorkspaceInfo) → List (ℕ × ℕ)
get_active_workspaces [] = []
get_active_workspaces ((start, w) ∷ ws) =
    let rest = get_active_workspaces ws in if w.is_temporary then (start, w.size) ∷ rest else rest

unfoldable pub last_end : List Segment → ℕ → ℕ
last_end [] highest = highest
last_end (s ∷ ss) highest = last_end ss (if ltb highest s.end_ea then s.end_ea else highest)

unfoldable pub address_after : ℕ → ℕ
address_after last = if ltb (align_up last 4096) last then badaddr else align_up last 4096

unfoldable pub find_safe_address_after_segments : List Segment → ℕ
find_safe_address_after_segments ss = address_after (last_end ss 0)

module _ (I : Ida) (P : Platform) where
  -- The segment in the database, set up, or `none`.
  unfoldable pub create_temp_segment : I.Database → ℕ → ℕ → Text → I.Database × Bool
  create_temp_segment db ea size name =
      let (new, added) = I.add_segm db ea (add64 ea size) name in
      elim added [
        | false ↦ (new, false)
        | true ↦ elim (I.getseg new ea) [
          | none ↦ (new, true)
          | some s ↦ (I.update_segm new ea (segment_bitness P.app_bitness), true)
        ]
      ]

  unfoldable pub delete_temp_segment : I.Database → ℕ → I.Database × Bool
  delete_temp_segment db ea = elim (I.getseg db ea) [
    | none ↦ (db, false)
    | some s ↦ I.del_segm db ea
  ]

  unfoldable pub new_workspace : ℕ → ℕ → ℕ → Text → WorkspaceInfo
  new_workspace now ea size name = record {
    start_ea = ea;
    end_ea = add64 ea size;
    size = size;
    segment_name = name;
    created_at = now;
    is_temporary = true;
  }

  -- The end of an allocation, with what the creation of the segment gave.
  unfoldable pub track_workspace :
      ℕ → ℕ → ℕ → Text → I.Database × Bool → Manager I → Manager I × Result WorkspaceAllocation
  track_workspace now ea size name (db, false) m = (
    record m { database = db },
    failure (codes "Failed to create temporary segment in IDA database"),
  )
  track_workspace now ea size name (db, true) m = (
    record m {
      database = db;
      active_workspaces = put same_address ea (new_workspace now ea size name) m.active_workspaces;
    },
    success (record {
      temp_segment_ea = ea;
      allocated_size = size;
      segment_name = name;
      is_temporary = true;
    }),
  )

  -- The number is taken before the segment is created.
  unfoldable pub allocate_at : ℕ → ℕ → ℕ → Manager I → Manager I × Result WorkspaceAllocation
  allocate_at now ea size m =
      let name = workspace_name m.next_workspace_id in
      track_workspace now ea size name (create_temp_segment m.database ea size name)
        (record m { next_workspace_id = (m.next_workspace_id + 1) % 2 ^ 32 })

  unfoldable pub allocate_code_workspace :
      ℕ → ℕ → Manager I → Manager I × Result WorkspaceAllocation
  allocate_code_workspace now requested m =
      let ea = find_safe_address_after_segments (I.segments m.database) in
      if ea == badaddr
      then (m, failure (codes "Failed to find suitable address for temporary segment"))
      else allocate_at now ea (align_up (P.enlarged requested) 4096) m

  unfoldable pub line_of : ℕ → Option Text → Text
  line_of ea none = []
  line_of ea (some line) =
      codes "0x" ++ (print_number 16 ea ++ (codes ": " ++ (line ++ codes "\n")))

  -- The loop over the heads; `none` means that the fuel ran out.
  unfoldable pub disassemble : ℕ → I.Database → ℕ → ℕ → Option Text
  disassemble zero db ea end = none
  disassemble (suc n) db ea end = elim (ltb ea end && not (ea == badaddr)) [
    | false ↦ some []
    | true ↦ elim (disassemble n db (I.next_head db ea end) end) [
      | none ↦ none
      | some rest ↦ some (line_of ea (I.generate_disasm_line db ea) ++ rest)
    ]
  ]

  -- A head is at least one byte on.
  unfoldable pub get_disassembly : I.Database → ℕ → ℕ → Option Text
  get_disassembly db start end = disassemble (suc (end - start)) db start end

  unfoldable pub get_bytes_from_range : I.Database → ℕ → ℕ → List ℕ
  get_bytes_from_range db start end =
      let size = sub64 end start in
      if size == 0 || ltb 1048576 size
      then []
      else (elim (I.get_bytes db start size) [ none ↦ [] | some bytes ↦ bytes ])

  unfoldable pub cache_preview :
      ℕ → ℕ → ℕ → Text → List ℕ → Manager I → Manager I × Result CodePreviewResult
  cache_preview now start end text [] m = (m, failure (codes "Failed to read bytes from the range"))
  cache_preview now start end text (b ∷ bs) m = (
    record m {
      preview_cache =
          put same_range (start, end)
            (record {
              start_ea = start;
              end_ea = end;
              code_size = sub64 end start;
              disassembly = text;
              final_bytes = b ∷ bs;
              preview_time = now;
              previewed = true;
            })
            m.preview_cache;
    },
    success (record {
      start_ea = start;
      end_ea = end;
      code_size = sub64 end start;
      disassembly = text;
      final_bytes = b ∷ bs;
    }),
  )

  unfoldable pub preview_text :
      ℕ → ℕ → ℕ → Option Text → Manager I → Option (Manager I × Result CodePreviewResult)
  preview_text now start end none m = none
  preview_text now start end (some []) m =
      some (m, failure (codes "Failed to get disassembly for the range"))
  preview_text now start end (some (c ∷ cs)) m =
      some (cache_preview now start end (c ∷ cs) (get_bytes_from_range m.database start end) m)

  -- The result, or `none` where the fuel of the disassembly ran out.
  unfoldable pub preview_code_injection :
      ℕ → ℕ → ℕ → Manager I → Option (Manager I × Result CodePreviewResult)
  preview_code_injection now start end m =
      if leb end start
      then some (m, failure (codes "Invalid address range: start must be less than end"))
      else if not (is_in_temp_workspace start m.active_workspaces)
          || not (is_in_temp_workspace (end - 1) m.active_workspaces)
      then some (m, failure (codes "Address range not entirely within a temporary workspace"))
      else (let db = I.auto_wait (I.plan_range m.database start end) in
          preview_text now start end (get_disassembly db start end) (record m { database = db }))
