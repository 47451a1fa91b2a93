-- ===== src/Patch/Ops.antt =====
-- The operations of patching/patch_manager.cpp on byte patches, and the list of patches. Error texts are
-- constructors, one for each text.
use ida_swarm.Base.{
  ℕ, ◌+◌, List, [], ◌∷◌, map, Option, none, some, Bool, true, false, not, ◌&&◌, Text, text_eq,
  length, ltb, ◌==◌, if◌then◌else◌, add64,
}
use ida_swarm.Base.External.{RowOrder}
use ida_swarm.NoGo.{badaddr}
use ida_swarm.Patch.{Ida, PatchEntry, Manager, read_bytes, write_bytes, trigger_reanalysis}
use ida_swarm.Patch.Hex.{is_valid_hex_string, hex_string_to_bytes, bytes_to_hex_string}

-- patches_, by address. Its order is not modelled.
unfoldable pub find_patch : ℕ → List (ℕ × PatchEntry) → Option PatchEntry
find_patch a [] = none
find_patch a ((b, p) ∷ ps) = if a == b then some p else find_patch a ps

-- patches_[a] = p
unfoldable pub put_patch : ℕ → PatchEntry → List (ℕ × PatchEntry) → List (ℕ × PatchEntry)
put_patch a p [] = (a, p) ∷ []
put_patch a p ((b, q) ∷ ps) = if a == b then (a, p) ∷ ps else (b, q) ∷ put_patch a p ps

unfoldable pub erase_patch : ℕ → List (ℕ × PatchEntry) → List (ℕ × PatchEntry)
erase_patch a [] = []
erase_patch a ((b, q) ∷ ps) = if a == b then ps else (b, q) ∷ erase_patch a ps

pub data PatchError : Type 0 where
  invalid_original_hex invalid_new_hex empty_original empty_new invalid_address original_mismatch :
      PatchError
  size_mismatch no_segment beyond_segment already_patched write_failed : PatchError

-- The number of bytes, or the error.
pub data PatchResult : Type 0 where
  patched : ℕ → PatchResult
  refused : PatchError → PatchResult

unfoldable pub bytes_eq : List ℕ → List ℕ → Bool
bytes_eq bs cs = text_eq bs cs

module _ (I : Ida) (file_opens : Text → Bool) where
  unfoldable pub validate_address : ℕ → Manager I → Bool
  validate_address address m = not (address == badaddr) && I.is_mapped m.database address

  unfoldable pub verify_original_bytes : ℕ → List ℕ → Manager I → Bool
  verify_original_bytes address expected m =
      bytes_eq (read_bytes I file_opens address (length expected) m) expected

  unfoldable pub validate_patch_size : ℕ → ℕ → ℕ → Manager I → Option PatchError
  validate_patch_size address old_size new_size m =
      if not (old_size == new_size)
      then some size_mismatch
      else elim (I.getseg m.database address) [
        | none ↦ some no_segment
        | some end ↦ if ltb end (add64 address new_size) then some beyond_segment else none
      ]

  unfoldable pub byte_entry : ℕ → List ℕ → List ℕ → Text → ℕ → PatchEntry
  byte_entry address expected_bytes new_bytes description now = record {
    address = address;
    original_bytes = expected_bytes;
    patched_bytes = new_bytes;
    description = description;
    timestamp = now;
    is_assembly_patch = false;
    original_asm = [];
    patched_asm = [];
    is_segment_injection = false;
    segment_name = [];
    segment_size = 0;
  }

  -- The write, the entry and the analysis.
  unfoldable pub commit_bytes : ℕ → ℕ → List ℕ → List ℕ → Text → Manager I → Manager I × PatchResult
  commit_bytes now address expected_bytes new_bytes description m =
      let (written, success) = write_bytes I file_opens address new_bytes m in
      if not success then (written, refused write_failed) else (
        trigger_reanalysis I file_opens address (length new_bytes) (record written {
          patches =
              put_patch address (byte_entry address expected_bytes new_bytes description now)
                written.patches;
        }),
        patched (length new_bytes),
      )

  -- From the bytes on.
  unfoldable pub patch_checked :
      ℕ → ℕ → List ℕ → List ℕ → Text → Manager I → Manager I × PatchResult
  patch_checked now address expected_bytes new_bytes description m =
      if length expected_bytes == 0
      then (m, refused empty_original)
      else if length new_bytes == 0
      then (m, refused empty_new)
      else if not (validate_address address m)
      then (m, refused invalid_address)
      else if not (verify_original_bytes address expected_bytes m)
      then (m, refused original_mismatch)
      else elim (validate_patch_size address (length expected_bytes) (length new_bytes) m) [
        | some e ↦ (m, refused e)
        | none ↦ elim (find_patch address m.patches) [
          | some p ↦ (m, refused already_patched)
          | none ↦ commit_bytes now address expected_bytes new_bytes description m
        ]
      ]

  -- `none` where an exception leaves it.
  unfoldable pub apply_byte_patch :
      ℕ → ℕ → Text → Text → Text → Manager I → Option (Manager I × PatchResult)
  apply_byte_patch now address original_hex new_hex description m =
      if not (is_valid_hex_string original_hex)
      then some (m, refused invalid_original_hex)
      else if not (is_valid_hex_string new_hex)
      then some (m, refused invalid_new_hex)
      else elim (hex_string_to_bytes original_hex) [
        | none ↦ none
        | some expected_bytes ↦ elim (hex_string_to_bytes new_hex) [
          | none ↦ none
          | some new_bytes ↦ some (patch_checked now address expected_bytes new_bytes description m)
        ]
      ]

  -- What removing a segment from the binary file does is not modelled.
  revert_segment : ℕ → Manager I → Manager I × Bool
  revert_segment address m =
      let (db, success) = I.del_segm m.database address in
      let deleted = record m { database = db } in
      if success
      then (record deleted { patches = erase_patch address deleted.patches }, true)
      else (deleted, false)

  unfoldable pub revert_bytes : ℕ → PatchEntry → Manager I → Manager I × Bool
  revert_bytes address p m =
      let (written, success) = write_bytes I file_opens address p.original_bytes m in
      if not success then (written, false) else (
        record (trigger_reanalysis I file_opens address (length p.original_bytes) written) {
          patches = erase_patch address written.patches;
        },
        true,
      )

  unfoldable pub revert_patch : ℕ → Manager I → Manager I × Bool
  unfolding revert_segment revert_bytes
  revert_patch address m = elim (find_patch address m.patches) [
    | none ↦ (m, false)
    | some p ↦ if p.is_segment_injection then revert_segment address m else revert_bytes address p m
  ]

  -- The loop of revert_all, over every entry, those of segments too.
  unfoldable pub revert_entries : List (ℕ × PatchEntry) → Manager I → Manager I × Bool
  revert_entries [] m = (m, true)
  revert_entries ((address, p) ∷ ps) m =
      let (written, success) = write_bytes I file_opens address p.original_bytes m in
      let next =
        if success
        then trigger_reanalysis I file_opens address (length p.original_bytes) written
        else written in
      let (last, all_success) = revert_entries ps next in (last, success && all_success)

  unfoldable pub revert_all : RowOrder (ℕ × PatchEntry) → Manager I → Manager I × Bool
  revert_all O m =
      let (reverted, all_success) = revert_entries (O.ordered m.patches) m in
      (if all_success then record reverted { patches = [] } else reverted, all_success)

pub record PatchInfo : Type 0 where
  pub address : ℕ
  pub original_bytes_hex : Text
  pub patched_bytes_hex : Text
  pub description : Text
  pub timestamp : ℕ
  pub is_assembly_patch : Bool
  pub original_asm : Text
  pub patched_asm : Text

unfoldable pub info_of : ℕ → PatchEntry → PatchInfo
info_of address p = record {
  address = address;
  original_bytes_hex = bytes_to_hex_string p.original_bytes;
  patched_bytes_hex = bytes_to_hex_string p.patched_bytes;
  description = p.description;
  timestamp = p.timestamp;
  is_assembly_patch = p.is_assembly_patch;
  original_asm = p.original_asm;
  patched_asm = p.patched_asm;
}

unfoldable pub list_patches : RowOrder (ℕ × PatchEntry) → List (ℕ × PatchEntry) → List PatchInfo
list_patches O ps = map (λ e. info_of e.0 e.1) (O.ordered ps)

unfoldable pub get_patch_info : ℕ → List (ℕ × PatchEntry) → Option PatchInfo
get_patch_info address ps = elim (find_patch address ps) [
  | none ↦ none
  | some p ↦ some (info_of address p)
]

pub record PatchStatistics : Type 0 where
  pub total_patches : ℕ
  pub assembly_patches : ℕ
  pub byte_patches : ℕ
  pub total_bytes_patched : ℕ

unfoldable pub get_statistics : List (ℕ × PatchEntry) → PatchStatistics
get_statistics [] = record {
  total_patches = 0;
  assembly_patches = 0;
  byte_patches = 0;
  total_bytes_patched = 0;
}
get_statistics ((address, p) ∷ ps) =
    let stats = get_statistics ps in
    record {
      total_patches = stats.total_patches + 1;
      assembly_patches =
          if p.is_assembly_patch then stats.assembly_patches + 1 else stats.assembly_patches;
      byte_patches = if p.is_assembly_patch then stats.byte_patches else stats.byte_patches + 1;
      total_bytes_patched = stats.total_bytes_patched + length p.patched_bytes;
    }
