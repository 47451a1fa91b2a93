-- ===== src/Injection/Finalize.antt =====
-- The third stage of patching/code_injection_manager.cpp, and the no-go zones.
use ida_swarm.Base.{
  ℕ, inl, inr, List, [], ◌∷◌, ◌++◌, Option, none, some, Text, codes, add64, if◌then◌else◌, ◌==◌,
}
use ida_swarm.NoGo.{NoGoZone, badaddr, temp_segment, code_cave}
use ida_swarm.Injection.{
  Platform, Ida, PreviewRecord, CodeCave, Manager, sub64, align_up, format_address,
  generate_segment_name_for_address, placeholder_name, repeat,
}
use ida_swarm.Injection.Caves.{find_code_cave}
use ida_swarm.Injection.Stages.{
  Result, failure, success, CodeFinalizationResult, get, remove, same_address, same_range,
  find_safe_address_after_segments, delete_temp_segment, get_bytes_from_range,
}

module _ (I : Ida) (P : Platform) where
  -- Where the code has gone, and how; or an error.
  unfoldable pub patch_cave : I.Database → CodeCave → PreviewRecord → I.Database × Result (ℕ × Text)
  patch_cave db cave preview =
      let original =
        get_bytes_from_range I P db cave.address (add64 cave.address preview.code_size) in
      let (new, error) =
        I.apply_byte_patch db cave.address (I.bytes_to_hex_string original)
          (I.bytes_to_hex_string preview.final_bytes) in
      elim error [
        | none ↦ (new, success (cave.address, codes "code_cave"))
        | some text ↦ (new, failure (codes "Failed to patch code cave: " ++ text))
      ]

  unfoldable pub inject_segment_at : I.Database → ℕ → PreviewRecord → I.Database × Result (ℕ × Text)
  inject_segment_at db ea preview =
      let (new, result) =
        I.apply_segment_injection db ea (align_up preview.code_size 4096) preview.final_bytes
          (generate_segment_name_for_address P.file_type ea) in
      elim result [
        | inl text ↦ (new, failure (codes "Failed to inject segment: " ++ text))
        | inr address ↦ (new, success (address, codes "new_segment"))
      ]

  unfoldable pub inject_segment : I.Database → PreviewRecord → I.Database × Result (ℕ × Text)
  inject_segment db preview =
      let ea = find_safe_address_after_segments (I.segments db) in
      if ea == badaddr
      then (db, failure (codes "Failed to find safe address for new segment"))
      else inject_segment_at db ea preview

  unfoldable pub place_code :
      I.Database → Option CodeCave → PreviewRecord → I.Database × Result (ℕ × Text)
  place_code db none preview = inject_segment db preview
  place_code db (some cave) preview = patch_cave db cave preview

  unfoldable pub finish :
      ℕ
      → ℕ
      → PreviewRecord
      → I.Database × Result (ℕ × Text)
      → Manager I
      → Manager I × Result CodeFinalizationResult
  finish start end preview (db, failure text) m = (record m { database = db }, failure text)
  finish start end preview (db, success (address, method)) m =
      let last = add64 address preview.code_size in
      let marked = I.plan_and_wait (I.plan_range db address last) address last in
      (
        record m {
          database = (delete_temp_segment I P marked start).0;
          active_workspaces = remove same_address start m.active_workspaces;
          preview_cache = remove same_range (start, end) m.preview_cache;
        },
        success (record {
          old_temp_address = start;
          new_permanent_address = address;
          code_size = preview.code_size;
          relocation_method = method;
        }),
      )

  unfoldable pub preview_first : ℕ → ℕ → Text
  preview_first start end =
      codes
        "ERROR: You MUST call preview_code_injection first!\nThis is a safety requirement. Preview your code at "
      ++ (format_address start
          ++ (codes " to " ++ (format_address end ++ codes " before finalizing.")))

  unfoldable pub finalize_previewed :
      ℕ → ℕ → PreviewRecord → Manager I → Option (Manager I × Result CodeFinalizationResult)
  finalize_previewed start end preview m =
      elim (find_code_cave I P m.database m.no_go_zones preview.code_size) [
        | none ↦ none
        | some cave ↦ some (finish start end preview (place_code m.database cave preview) m)
      ]

  -- The result, or `none` where the fuel of the search for a cave ran out.
  unfoldable pub finalize_code_injection :
      ℕ → ℕ → Manager I → Option (Manager I × Result CodeFinalizationResult)
  finalize_code_injection start end m = elim (get same_range (start, end) m.preview_cache) [
    | none ↦ some (m, failure (preview_first start end))
    | some preview ↦
        if preview.previewed
        then finalize_previewed start end preview m
        else some (m, failure (preview_first start end))
  ]

  unfoldable pub create_placeholder : NoGoZone → I.Database → I.Database
  create_placeholder z db = elim (z.zone_type) [
    | code_cave ↦ db
    | temp_segment ↦ elim (I.getseg db z.start_address) [
      | some s ↦ db
      | none ↦
          let size = sub64 z.end_address z.start_address in
          (I.apply_segment_injection db z.start_address size (repeat 0 size)
            (placeholder_name P.file_type z.agent_id z.start_address)).0
    ]
  ]

  -- A placeholder that fails is passed over.
  unfoldable pub create_placeholder_segments_for_no_go_zones :
      List NoGoZone → I.Database → I.Database
  create_placeholder_segments_for_no_go_zones [] db = db
  create_placeholder_segments_for_no_go_zones (z ∷ zs) db =
      create_placeholder_segments_for_no_go_zones zs (create_placeholder z db)

  unfoldable pub set_no_go_zones : List NoGoZone → Manager I → Manager I
  set_no_go_zones zones m = record m {
    no_go_zones = zones;
    database = create_placeholder_segments_for_no_go_zones zones m.database;
  }
