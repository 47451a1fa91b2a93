-- ===== src/Patch/Hex.antt =====
-- Bytes as hexadecimal text in patching/patch_manager.cpp.
use ida_swarm.Base.{
  ℕ, ◌+◌, ◌-◌, ◌*◌, ◌/◌, ◌%◌, ◌<◌, ◌≡◌, refl, ap, ◌∙◌, List, [], ◌∷◌, ◌++◌, Option, none, some,
  Bool, true, false, not, ◌&&◌, ◌||◌, Text, length, keep, All, ltb, ◌==◌, if◌then◌else◌, arith,
}
use ida_swarm.Base.Numbers.{digit_value}

-- The blanks that are taken out.
abbrev pub is_blank : ℕ → Bool
is_blank c = c == b' ' || (c == 9 || (c == 10 || c == 13))

-- std::isxdigit
unfoldable pub is_xdigit : ℕ → Bool
is_xdigit c = elim (digit_value 16 c) [ none ↦ false | some d ↦ true ]

unfoldable pub cleaned : Text → Text
cleaned hex = keep (λ c. not (is_blank c)) hex

unfoldable pub all_xdigits : Text → Bool
all_xdigits [] = true
all_xdigits (c ∷ s) = is_xdigit c && all_xdigits s

unfoldable pub is_valid_hex_string : Text → Bool
is_valid_hex_string hex =
    all_xdigits (cleaned hex) && (not (length (cleaned hex) == 0) && length (cleaned hex) % 2 == 0)

-- std::stoul(s, nullptr, 16) of one or two bytes that are no blanks above, as a uint8_t; `none` where
-- it throws. A first byte may be a sign or another blank (11 and 12), and what follows the digits is
-- left out.
unfoldable pub byte_of_one : ℕ → Option ℕ
byte_of_one c = digit_value 16 c

unfoldable pub byte_of : ℕ → ℕ → Option ℕ
byte_of c d = elim (digit_value 16 c) [
  | some h ↦ elim (digit_value 16 d) [ some l ↦ some (h * 16 + l) | none ↦ some h ]
  | none ↦ elim (digit_value 16 d) [
    | none ↦ none
    | some l ↦
        if c == b'+' || (c == 11 || c == 12)
        then some l
        else if c == b'-'
        then some ((256 - l) % 256)
        else none
  ]
]

unfoldable pub cons_byte : Option ℕ → Option (List ℕ) → Option (List ℕ)
cons_byte none rest = none
cons_byte (some b) none = none
cons_byte (some b) (some bs) = some (b ∷ bs)

unfoldable pub bytes_of : Text → Option (List ℕ)
bytes_of [] = some []
bytes_of (c ∷ []) = cons_byte (byte_of_one c) (some [])
bytes_of (c ∷ d ∷ s) = cons_byte (byte_of c d) (bytes_of s)

unfoldable pub hex_string_to_bytes : Text → Option (List ℕ)
hex_string_to_bytes hex = bytes_of (cleaned hex)

unfoldable pub upper_digit : ℕ → ℕ
upper_digit d = if ltb d 10 then b'0' + d else b'A' + (d - 10)

-- std::hex, std::uppercase and std::setw(2) on a byte
unfoldable pub hex_byte : ℕ → Text
hex_byte b = upper_digit (b / 16) ∷ upper_digit (b % 16) ∷ []

unfoldable pub bytes_to_hex_string : List ℕ → Text
bytes_to_hex_string [] = []
bytes_to_hex_string (b ∷ []) = hex_byte b
bytes_to_hex_string (b ∷ c ∷ bs) = hex_byte b ++ b' ' ∷ bytes_to_hex_string (c ∷ bs)

digit_value-upper : (d : ℕ) → d < 16 → digit_value 16 (upper_digit d) ≡ some d
unfolding digit_value upper_digit
digit_value-upper d h = ground arith

upper-not_blank : (d : ℕ) → d < 16 → is_blank (upper_digit d) ≡ false
unfolding upper_digit
upper-not_blank d h = ground arith

-- The digits of the bytes, without the blanks between them.
unfoldable digits : List ℕ → Text
digits [] = []
digits (b ∷ bs) = upper_digit (b / 16) ∷ upper_digit (b % 16) ∷ digits bs

abbrev pub IsByte : ℕ → Type 0
IsByte b = b < 256

cleaned-pair :
    (c d : ℕ) (s : Text)
    → is_blank c ≡ false
    → is_blank d ≡ false
    → cleaned (c ∷ d ∷ s) ≡ c ∷ d ∷ cleaned s
unfolding cleaned keep
cleaned-pair c d s h k = rw (h, k) refl

cleaned-blank : (s : Text) → cleaned (b' ' ∷ s) ≡ cleaned s
unfolding cleaned keep
cleaned-blank s = refl

cleaned-bytes_to_hex_string :
    (bs : List ℕ) → All IsByte bs → cleaned (bytes_to_hex_string bs) ≡ digits bs
unfolding bytes_to_hex_string hex_byte digits
cleaned-bytes_to_hex_string [] h = unfold cleaned keep in refl
cleaned-bytes_to_hex_string (b ∷ []) h =
    cleaned-pair (upper_digit (b / 16)) (upper_digit (b % 16)) []
      (upper-not_blank (b / 16) (omega (arith, h.0))) (upper-not_blank (b % 16) (omega arith))
    ∙ (unfold cleaned keep in refl)
cleaned-bytes_to_hex_string (b ∷ c ∷ bs) h =
    let hi = upper_digit (b / 16) in
    let lo = upper_digit (b % 16) in
    let rest = bytes_to_hex_string (c ∷ bs) in
    cleaned-pair hi lo (b' ' ∷ rest) (upper-not_blank (b / 16) (omega (arith, h.0)))
      (upper-not_blank (b % 16) (omega arith))
    ∙ ap (λ t. hi ∷ lo ∷ t) (cleaned-blank rest ∙ cleaned-bytes_to_hex_string (c ∷ bs) h.1)

bytes_of-digits : (bs : List ℕ) → All IsByte bs → bytes_of (digits bs) ≡ some bs
unfolding bytes_of digits byte_of cons_byte
bytes_of-digits [] h = refl
bytes_of-digits (b ∷ bs) h =
    let hi = digit_value-upper (b / 16) (omega (arith, h.0)) in
    let lo = digit_value-upper (b % 16) (omega arith) in
    let whole : b / 16 * 16 + b % 16 ≡ b = omega arith in
    ground (arith, hi, lo, whole, bytes_of-digits bs h.1)

all_xdigits-digits : (bs : List ℕ) → All IsByte bs → all_xdigits (digits bs) ≡ true
unfolding all_xdigits digits is_xdigit
all_xdigits-digits [] h = refl
all_xdigits-digits (b ∷ bs) h =
    let hi = digit_value-upper (b / 16) (omega (arith, h.0)) in
    let lo = digit_value-upper (b % 16) (omega arith) in
    ground (arith, hi, lo, all_xdigits-digits bs h.1)

length-digits : (bs : List ℕ) → length (digits bs) ≡ 2 * length bs
unfolding digits
length-digits [] = refl
length-digits (b ∷ bs) = omega (arith, length-digits bs)

-- The text of one byte or more is valid, and reading it gives the bytes back.
pub hex_string_to_bytes-bytes_to_hex_string :
    (b : ℕ) (bs : List ℕ)
    → All IsByte (b ∷ bs)
    → (is_valid_hex_string (bytes_to_hex_string (b ∷ bs)) ≡ true)
      × (hex_string_to_bytes (bytes_to_hex_string (b ∷ bs)) ≡ some (b ∷ bs))
unfolding is_valid_hex_string hex_string_to_bytes
hex_string_to_bytes-bytes_to_hex_string b bs h =
    let clean = cleaned-bytes_to_hex_string (b ∷ bs) h in
    let size = length-digits (b ∷ bs) in
    let valid : (all_xdigits (digits (b ∷ bs))
          && (not (length (digits (b ∷ bs)) == 0) && length (digits (b ∷ bs)) % 2 == 0))
        ≡ true =
      ground (arith, all_xdigits-digits (b ∷ bs) h, size) in
    (
      ap (λ t. all_xdigits t && (not (length t == 0) && length t % 2 == 0)) clean ∙ valid,
      ap bytes_of clean ∙ bytes_of-digits (b ∷ bs) h,
    )
