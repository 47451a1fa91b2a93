-- ===== src/Injection.antt =====
-- patching/code_injection_manager.h and .cpp: agents write code in temporary segments, preview it, and
-- have it moved to a code cave or a new segment. Addresses and sizes are 64-bit.
pub mod Caves
pub mod Stages
pub mod Finalize
pub mod Space
pub mod Previews
pub mod Runs
pub mod Workspaces
pub mod Total
use ida_swarm.Base.{
  ℕ, zero, suc, ◌+◌, ◌-◌, ◌*◌, ◌/◌, ◌%◌, ◌<◌, ◌^◌, ◌≡◌, ◌⊎◌, List, [], ◌∷◌, ◌++◌, Option, none,
  some, Bool, true, false, not, ◌&&◌, ◌||◌, Text, codes, take, drop, length, ltb, leb, ◌==◌, word,
  add64, sub64, map, if◌then◌else◌,
}
use ida_swarm.Base.Numbers.{print_number}
use ida_swarm.NoGo.{NoGoZone, badaddr}

pub data Arch : Type 0 where
  x86 arm mips ppc unknown_arch : Arch

pub data FileType : Type 0 where
  pe elf macho other_file : FileType

-- The processor, the type of the file, its bitness, and size_t(n * 1.5), which is computed on doubles.
pub record Platform : Type 0 where
  pub arch : Arch
  pub file_type : FileType
  pub app_bitness : ℕ
  pub enlarged : ℕ → ℕ
  -- Doubles of this size are exact.
  pub enlarged_small : (n : ℕ) → n < 2 ^ 52 → enlarged n ≡ n + n / 2

pub record Segment : Type 0 where
  pub start_ea : ℕ
  pub end_ea : ℕ
  pub is_code : Bool
  pub is_exec : Bool

-- What the manager uses of IDA and of the patch manager. A patch gives its error text if it
-- fails; the descriptions that patches carry are left out.
pub record Ida : Type 1 where
  pub Database : Type 0
  -- The segments by number (getnseg).
  pub segments : Database → List Segment
  pub getseg : Database → ℕ → Option Segment
  pub get_byte : Database → ℕ → ℕ
  pub get_bytes : Database → ℕ → ℕ → Option (List ℕ)
  -- The bounds of the function at an address.
  pub get_func : Database → ℕ → Option (ℕ × ℕ)
  pub is_code : Database → ℕ → Bool
  pub next_head : Database → ℕ → ℕ → ℕ
  pub generate_disasm_line : Database → ℕ → Option Text
  pub get_fileregion_offset : Database → ℕ → ℕ
  pub plan_range : Database → ℕ → ℕ → Database
  pub auto_wait : Database → Database
  pub plan_and_wait : Database → ℕ → ℕ → Database
  pub add_segm : Database → ℕ → ℕ → Text → Database × Bool
  -- Permissions to read, write and execute, the type SEG_CODE, and the bitness.
  pub update_segm : Database → ℕ → ℕ → Database
  pub del_segm : Database → ℕ → Database × Bool
  pub bytes_to_hex_string : List ℕ → Text
  pub apply_byte_patch : Database → ℕ → Text → Text → Database × Option Text
  -- The address of the new segment, or the error.
  pub apply_segment_injection : Database → ℕ → ℕ → List ℕ → Text → Database × (Text ⊎ ℕ)
  -- A head after the given one, or BADADDR.
  pub next_head-lt :
      (db : Database) (ea limit : ℕ)
      → (next_head db ea limit ≡ badaddr) ⊎ (ea < next_head db ea limit)
  pub get_bytes-length :
      (db : Database) (ea n : ℕ) (bytes : List ℕ)
      → get_bytes db ea n ≡ some bytes
      → length bytes ≡ n

pub record WorkspaceInfo : Type 0 where
  pub start_ea : ℕ
  pub end_ea : ℕ
  pub size : ℕ
  pub segment_name : Text
  pub created_at : ℕ
  pub is_temporary : Bool

pub record PreviewRecord : Type 0 where
  pub start_ea : ℕ
  pub end_ea : ℕ
  pub code_size : ℕ
  pub disassembly : Text
  pub final_bytes : List ℕ
  pub preview_time : ℕ
  pub previewed : Bool

pub record CodeCave : Type 0 where
  pub address : ℕ
  pub size : ℕ
  pub file_offset : ℕ

-- The manager with the database that it works on.
pub record Manager (I : Ida) : Type 0 where
  pub database : I.Database
  pub active_workspaces : List (ℕ × WorkspaceInfo)
  pub preview_cache : List ((ℕ × ℕ) × PreviewRecord)
  pub next_workspace_id : ℕ
  pub no_go_zones : List NoGoZone

-- Rounds up to a multiple of the alignment, a power of two.
unfoldable pub align_up : ℕ → ℕ → ℕ
align_up size alignment = let top = add64 size (alignment - 1) in top - top % alignment

unfoldable pub padding_bytes : Arch → FileType → List ℕ
padding_bytes x86 pe = 204 ∷ 144 ∷ 0 ∷ []
padding_bytes x86 _ = 144 ∷ 204 ∷ 0 ∷ []
padding_bytes _ _ = 0 ∷ []

unfoldable pub is_one_of : ℕ → List ℕ → Bool
is_one_of b [] = false
is_one_of b (x ∷ xs) = x == b || is_one_of b xs

unfoldable pub is_padding_byte : Platform → ℕ → Bool
is_padding_byte p b = is_one_of b (padding_bytes p.arch p.file_type)

-- seg->bitness of a temporary segment
unfoldable pub segment_bitness : ℕ → ℕ
segment_bitness n = if n == 64 then 2 else if n == 32 then 1 else if n == 16 then 0 else 1

uppercase : ℕ → ℕ
uppercase c = if leb b'a' c && leb c b'z' then c - 32 else c

unfoldable pub format_address : ℕ → Text
unfolding uppercase
format_address a = codes "0x" ++ map uppercase (print_number 16 a)

-- The last bytes of a text.
unfoldable pub last_bytes : ℕ → Text → Text
last_bytes n s = drop (length s - n) s

unfoldable pub generate_segment_name_for_address : FileType → ℕ → Text
generate_segment_name_for_address pe a = take 8 (codes ".i" ++ last_bytes 6 (print_number 16 a))
generate_segment_name_for_address elf a = codes ".inj_" ++ print_number 16 a
generate_segment_name_for_address macho a =
    take 16 (codes "__INJ_" ++ last_bytes 10 (print_number 16 a))
generate_segment_name_for_address other_file a = codes ".inj"

unfoldable pub placeholder_name : FileType → Text → ℕ → Text
placeholder_name pe agent a = take 8 (codes ".ng" ++ last_bytes 5 (print_number 16 a))
placeholder_name elf agent a = codes ".nogo_" ++ (agent ++ (codes "_" ++ print_number 16 a))
placeholder_name macho agent a = take 16 (codes "__NG_" ++ last_bytes 11 (print_number 16 a))
placeholder_name other_file agent a = codes ".nogo_" ++ take 8 (print_number 16 a)

-- n times the same byte
unfoldable pub repeat : ℕ → ℕ → List ℕ
repeat b zero = []
repeat b (suc n) = b ∷ repeat b n

pad : ℕ → Text → Text
pad n s = if ltb (length s) n then repeat b'0' (n - length s) ++ s else s

-- ".tmpcode_" and the number of the workspace, with at least three digits
unfoldable pub workspace_name : ℕ → Text
unfolding pad
workspace_name n = codes ".tmpcode_" ++ pad 3 (print_number 10 n)
