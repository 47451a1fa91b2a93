-- ===== src/Patch/Padding.antt =====
-- The padding after a shorter instruction in patching/patch_manager.cpp (get_nop_bytes), and the
-- alignment that instructions need.
use native.Mathlib.Nat.{div-add-mod'}
use ida_swarm.Base.{
  ℕ, zero, suc, ◌+◌, ◌*◌, ◌/◌, ◌%◌, ◌≡◌, refl, ap, ◌∙◌, List, [], ◌∷◌, ◌++◌, Bool, true, false, not,
  ◌&&◌, ◌||◌, length, length-append, ◌==◌, if◌then◌else◌, arith,
}

-- PH.id
pub data Processor : Type 0 where
  x86 arm ppc mips sparc other_processor : Processor

pub record Target : Type 0 where
  pub processor : Processor
  pub is_64bit : Bool
  pub is_be : Bool

unfoldable pub repeat_word : List ℕ → ℕ → List ℕ
repeat_word word zero = []
repeat_word word (suc n) = word ++ repeat_word word n

-- The bytes of an instruction in the order of the target.
abbrev pub ordered : Bool → ℕ → ℕ → ℕ → ℕ → List ℕ
ordered big a b c d = if big then a ∷ b ∷ c ∷ d ∷ [] else d ∷ c ∷ b ∷ a ∷ []

-- Whole instructions, and zeros for what is left.
unfoldable pub fill : ℕ → List ℕ → ℕ → List ℕ
fill size word count = repeat_word word (count / size) ++ repeat_word (0 ∷ []) (count % size)

-- `thumb` says whether the address is in Thumb mode.
unfoldable pub nops_of : Processor → Target → Bool → ℕ → List ℕ
nops_of x86 t thumb count = repeat_word (0x90 ∷ []) count
nops_of arm t thumb count =
    if t.is_64bit
    then fill 4 (ordered t.is_be 0xd5 0x03 0x20 0x1f) count
    else if thumb
    then fill 2 (if t.is_be then 0xbf ∷ 0x00 ∷ [] else 0x00 ∷ 0xbf ∷ []) count
    else fill 4 (ordered t.is_be 0xe3 0x20 0xf0 0x00) count
nops_of ppc t thumb count = fill 4 (ordered t.is_be 0x60 0x00 0x00 0x00) count
nops_of mips t thumb count = fill 4 (0x00 ∷ 0x00 ∷ 0x00 ∷ 0x00 ∷ []) count
nops_of sparc t thumb count = fill 4 (ordered t.is_be 0x01 0x00 0x00 0x00) count
nops_of other_processor t thumb count = repeat_word (0x00 ∷ []) count

unfoldable pub get_nop_bytes : Target → Bool → ℕ → List ℕ
get_nop_bytes t thumb count = if count == 0 then [] else nops_of t.processor t thumb count

abbrev pub is_arm : Processor → Bool
is_arm p = elim p [ arm ↦ true | _ ↦ false ]

abbrev pub is_risc : Processor → Bool
is_risc p = elim p [ ppc ↦ true | mips ↦ true | sparc ↦ true | _ ↦ false ]

-- The alignment that validate_instruction_boundary asks for.
unfoldable pub is_aligned : Target → Bool → ℕ → Bool
is_aligned t thumb address =
    if is_arm t.processor
    then (if t.is_64bit
        then address % 4 == 0
        else if thumb
        then address % 2 == 0
        else address % 4 == 0)
    else if is_risc t.processor
    then address % 4 == 0
    else true

-- The test of the address and the size of a new instruction.
unfoldable pub fits_alignment : Target → Bool → ℕ → ℕ → Bool
fits_alignment t thumb address size =
    if is_arm t.processor && (not t.is_64bit && not thumb)
      || (is_arm t.processor && t.is_64bit || is_risc t.processor)
    then address % 4 == 0 && size % 4 == 0
    else if is_arm t.processor && (not t.is_64bit && thumb)
    then address % 2 == 0
    else true

-- The test of the number of bytes to fill.
unfoldable pub fits_padding : Target → Bool → ℕ → Bool
fits_padding t thumb nops =
    if is_risc t.processor && not (nops % 4 == 0)
    then false
    else if is_arm t.processor
    then (if t.is_64bit then nops % 4 == 0 else if thumb then nops % 2 == 0 else nops % 4 == 0)
    else true

length-repeat_word : (word : List ℕ) (n : ℕ) → length (repeat_word word n) ≡ n * length word
unfolding repeat_word
length-repeat_word word zero = omega arith
length-repeat_word word (suc n) =
    length-append word (repeat_word word n)
    ∙ (ap (λ k. length word + k) (length-repeat_word word n) ∙ omega arith)

add_once : (a b c : ℕ) → a + b ≡ c → a + b * 1 ≡ c
add_once a b c h = omega arith

length-fill :
    (size : ℕ) (word : List ℕ) (count : ℕ)
    → length word ≡ size
    → length (fill size word count) ≡ count
unfolding fill
length-fill size word count h =
    let words = repeat_word word (count / size) in
    let zeros = repeat_word (0 ∷ []) (count % size) in
    let left = length-repeat_word (0 ∷ []) (count % size) in
    let whole = length-repeat_word word (count / size) ∙ ap (λ k. count / size * k) h in
    let sum = div-add-mod' count size in
    length-append words zeros
    ∙ (ap (λ k. k + length zeros) whole
        ∙ (ap (λ k. count / size * size + k) left
            ∙ add_once (count / size * size) (count % size) count sum))

length-ordered : (big : Bool) (a b c d : ℕ) → length (ordered big a b c d) ≡ 4
length-ordered true a b c d = refl
length-ordered false a b c d = refl

length-if :
    (b : Bool) (xs ys : List ℕ) (n : ℕ)
    → length xs ≡ n
    → length ys ≡ n
    → length (if b then xs else ys) ≡ n
length-if true xs ys n p q = p
length-if false xs ys n p q = q

length-nops_of :
    (p : Processor) (t : Target) (thumb : Bool) (count : ℕ)
    → length (nops_of p t thumb count) ≡ count
unfolding nops_of
length-nops_of x86 t thumb count = length-repeat_word (0x90 ∷ []) count ∙ omega arith
length-nops_of arm t thumb count =
    length-if t.is_64bit _ _ count
      (length-fill 4 (ordered t.is_be 0xd5 0x03 0x20 0x1f) count
        (length-ordered t.is_be 0xd5 0x03 0x20 0x1f))
      (length-if thumb _ _ count
        (length-fill 2 (if t.is_be then 0xbf ∷ 0x00 ∷ [] else 0x00 ∷ 0xbf ∷ []) count
          (length-if t.is_be _ _ 2 refl refl))
        (length-fill 4 (ordered t.is_be 0xe3 0x20 0xf0 0x00) count
          (length-ordered t.is_be 0xe3 0x20 0xf0 0x00)))
length-nops_of ppc t thumb count =
    length-fill 4 (ordered t.is_be 0x60 0x00 0x00 0x00) count
      (length-ordered t.is_be 0x60 0x00 0x00 0x00)
length-nops_of mips t thumb count = length-fill 4 (0x00 ∷ 0x00 ∷ 0x00 ∷ 0x00 ∷ []) count refl
length-nops_of sparc t thumb count =
    length-fill 4 (ordered t.is_be 0x01 0x00 0x00 0x00) count
      (length-ordered t.is_be 0x01 0x00 0x00 0x00)
length-nops_of other_processor t thumb count = length-repeat_word (0x00 ∷ []) count ∙ omega arith

-- The padding has the size asked for, on every processor.
pub length-get_nop_bytes :
    (t : Target) (thumb : Bool) (count : ℕ) → length (get_nop_bytes t thumb count) ≡ count
unfolding get_nop_bytes
length-get_nop_bytes t thumb count = ground (arith, length-nops_of t.processor t thumb count)
