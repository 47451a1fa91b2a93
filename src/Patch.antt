-- ===== src/Patch.antt =====
-- patching/patch_manager.h and .cpp: patches of the binary, each with the bytes it took the place of.
-- Here: what IDA is relied on, the state, and how bytes are read and written.
pub mod Hex
pub mod Ops
pub mod Effect
pub mod Table
pub mod Applied
pub mod Undo
pub mod Restore
pub mod Padding
pub mod Assembly
pub mod Assembled
use ida_swarm.Base.{
  ℕ, zero, suc, ◌+◌, ◌-◌, ◌*◌, ◌%◌, ◌^◌, ◌≤◌, ◌<◌, ◌≡◌, List, [], ◌∷◌, ◌++◌, Option, none, some,
  Bool, true, false, not, ◌&&◌, ◌||◌, Text, length, ltb, leb, ◌==◌, if◌then◌else◌, word, add64,
}
use ida_swarm.NoGo.{badaddr}
use ida_swarm.Injection.{WorkspaceInfo}
use ida_swarm.Injection.Stages.{is_in_temp_workspace}

-- The calls that change what the analysis holds about the bytes: functions, items and queues.
pub data Analysis : Type 0 where
  del_func : ℕ → Analysis
  del_items : ℕ → ℕ → Analysis
  auto_mark_range : ℕ → ℕ → Analysis
  plan_and_wait : ℕ → ℕ → Analysis
  add_func : ℕ → ℕ → Analysis
  create_insn : ℕ → Analysis
  auto_wait : Analysis

-- Memory after some bytes were written from an address on.
unfoldable pub overwrite : ℕ → List ℕ → (ℕ → ℕ) → ℕ → ℕ
overwrite a [] f x = f x
overwrite a (b ∷ bs) f x = if x == a then b else overwrite (suc a) bs f x

-- The bytes of memory from an address on.
unfoldable pub bytes_at : (ℕ → ℕ) → ℕ → ℕ → List ℕ
bytes_at f a zero = []
bytes_at f a (suc n) = f a ∷ bytes_at f (suc a) n

-- All of some addresses pass a test.
unfoldable pub all_in : (ℕ → Bool) → ℕ → ℕ → Bool
all_in p a zero = true
all_in p a (suc n) = p a && all_in p (suc a) n

pub record Ida : Type 1 where
  pub Database : Type 0
  pub get_byte : Database → ℕ → ℕ
  -- Whether a byte has a value.
  pub is_loaded : Database → ℕ → Bool
  pub is_mapped : Database → ℕ → Bool
  -- The end of the segment of an address.
  pub getseg : Database → ℕ → Option ℕ
  -- What get_bytes leaves in a buffer of zeros.
  pub get_bytes : Database → ℕ → ℕ → List ℕ
  pub patch_bytes : Database → ℕ → List ℕ → Database
  -- The bounds of the function at an address.
  pub get_func : Database → ℕ → Option (ℕ × ℕ)
  pub analyse : Analysis → Database → Database × Bool
  pub del_segm : Database → ℕ → Database × Bool
  -- As a 64-bit number; BADADDR where there is no offset.
  pub get_fileregion_offset : Database → ℕ → ℕ
  -- Bytes that have values are read as they are.
  pub get_bytes-get_byte :
      (db : Database) (a n : ℕ)
      → all_in (is_loaded db) a n ≡ true
      → get_bytes db a n ≡ bytes_at (get_byte db) a n
  pub get_byte-patch_bytes :
      (db : Database) (a : ℕ) (bs : List ℕ) (x : ℕ)
      → a + length bs ≤ word
      → get_byte (patch_bytes db a bs) x ≡ overwrite a bs (get_byte db) x
  -- A patch moves no segment, and neither does the analysis, which leaves the bytes alone too.
  pub is_mapped-patch_bytes :
      (db : Database) (a : ℕ) (bs : List ℕ) (x : ℕ)
      → is_mapped (patch_bytes db a bs) x ≡ is_mapped db x
  pub getseg-patch_bytes :
      (db : Database) (a : ℕ) (bs : List ℕ) (x : ℕ) → getseg (patch_bytes db a bs) x ≡ getseg db x
  pub get_byte-analyse :
      (c : Analysis) (db : Database) (x : ℕ) → get_byte (analyse c db).0 x ≡ get_byte db x
  pub is_mapped-analyse :
      (c : Analysis) (db : Database) (x : ℕ) → is_mapped (analyse c db).0 x ≡ is_mapped db x
  pub getseg-analyse :
      (c : Analysis) (db : Database) (x : ℕ) → getseg (analyse c db).0 x ≡ getseg db x

pub record PatchEntry : Type 0 where
  pub address : ℕ
  pub original_bytes : List ℕ
  pub patched_bytes : List ℕ
  pub description : Text
  pub timestamp : ℕ
  pub is_assembly_patch : Bool
  pub original_asm : Text
  pub patched_asm : Text
  pub is_segment_injection : Bool
  pub segment_name : Text
  pub segment_size : ℕ

-- The manager with the database, what was written into the binary file (offset and bytes, in order),
-- and the workspaces of the code injection manager (none without one).
pub record Manager (I : Ida) : Type 0 where
  pub database : I.Database
  pub file_writes : List (ℕ × List ℕ)
  pub patches : List (ℕ × PatchEntry)
  pub binary_path : Text
  pub workspaces : List (ℕ × WorkspaceInfo)

module _ (I : Ida) (file_opens : Text → Bool) where
  unfoldable pub read_bytes : ℕ → ℕ → Manager I → List ℕ
  read_bytes address size m = I.get_bytes m.database address size

  -- `file_opens` says whether the file of a path can be opened.
  unfoldable pub apply_to_file : ℕ → List ℕ → Manager I → Manager I
  apply_to_file offset bytes m = elim m.binary_path [
    | [] ↦ m
    | c ∷ path ↦
        if file_opens m.binary_path
        then record m { file_writes = m.file_writes ++ (offset, bytes) ∷ [] }
        else m
  ]

  -- The offset is cut to 32 bits before it is compared with BADADDR, so that the test never fails.
  unfoldable pub patch_file : ℕ → List ℕ → Manager I → Manager I
  patch_file address bytes m =
      if is_in_temp_workspace address m.workspaces then m else elim m.binary_path [
        | [] ↦ m
        | c ∷ path ↦
            let file_offset = I.get_fileregion_offset m.database address % 2 ^ 32 in
            if not (file_offset == badaddr) then apply_to_file file_offset bytes m else m
      ]

  unfoldable pub write_bytes : ℕ → List ℕ → Manager I → Manager I × Bool
  write_bytes address [] m = (m, false)
  write_bytes address (b ∷ bs) m =
      if not (I.is_mapped m.database address)
      then (m, false)
      else elim (I.getseg m.database address) [
        | none ↦ (m, false)
        | some end ↦ (
          patch_file address (b ∷ bs)
              (record m { database = I.patch_bytes m.database address (b ∷ bs) }),
          true,
        )
      ]

  analyse_all : List Analysis → I.Database → I.Database
  analyse_all [] db = db
  analyse_all (c ∷ cs) db = analyse_all cs (I.analyse c db).0

  -- The function is made again: with its old bounds, or its start alone, or else an instruction.
  recreate : ℕ → ℕ → I.Database → I.Database
  recreate start end db =
      let (first, made) = I.analyse (add_func start end) db in
      if made
      then first
      else (let (second, again) = I.analyse (add_func start badaddr) first in
          if again then second else (I.analyse (create_insn start) second).0)

  unfoldable pub reanalyse : ℕ → ℕ → I.Database → I.Database
  unfolding analyse_all recreate
  reanalyse address size db = elim (I.get_func db address) [
    | some (start, end) ↦
        let planned =
          analyse_all
            (del_func start
              ∷ del_items start (end - start)
              ∷ auto_mark_range start end
              ∷ plan_and_wait start end
              ∷ [])
            db in
        (I.analyse auto_wait (recreate start end planned)).0
    | none ↦
        analyse_all
          (del_items address size ∷ auto_mark_range address (add64 address size) ∷ auto_wait ∷ [])
          db
  ]

  unfoldable pub trigger_reanalysis : ℕ → ℕ → Manager I → Manager I
  trigger_reanalysis address size m = record m { database = reanalyse address size m.database }
