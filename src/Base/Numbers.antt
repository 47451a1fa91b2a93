-- ===== src/Base/Numbers.antt =====
-- Numbers as text: what `std::format("{:#x}")`, `std::to_string` and `std::stoull` do.
pub mod RoundTrip
use Prim.Native.Nat.{ℕ, zero, suc, ◌+◌, ◌-◌, ◌*◌, ◌/◌, ◌%◌, ◌≤◌, ◌<◌}
use mathlib.Core.Path.{◌≡◌, refl, ◌∙◌, ap}
use mathlib.Core.Logic.{◌≢◌}
use mathlib.Core.Bool.{Bool, true, false, ◌&&◌, ◌||◌}
use mathlib.Core.Option.{Option, none, some}
use mathlib.Core.List.{List, [], ◌∷◌, ◌++◌, append_assoc}
use native.Mathlib.Omega.{arith}
use ida_swarm.Base.Tests.{ltb, leb, ◌==◌, if◌then◌else◌, word}
use ida_swarm.Base.Lists.{All, All-append}
use ida_swarm.Base.Bytes.{Text, codes}

unfoldable pub digit : ℕ → ℕ
digit d = if ltb d 10 then b'0' + d else b'a' + (d - 10)

-- Most significant digit first; one round for each digit.
unfoldable pub print_fuel : ℕ → ℕ → ℕ → Text
print_fuel zero base n = []
print_fuel (suc fuel) base n =
    let rest = print_fuel fuel base (n / base) ++ digit (n % base) ∷ [] in
    if ltb n base then digit n ∷ [] else rest

-- A number has fewer digits than one more than itself.
unfoldable pub print_number : ℕ → ℕ → Text
print_number base n = print_fuel (suc n) base n

below : ℕ → ℕ → Option ℕ
below base d = if ltb d base then some d else none

-- The value of a digit of a base.
unfoldable pub digit_value : ℕ → ℕ → Option ℕ
unfolding below
digit_value base c =
    if leb b'0' c && leb c b'9'
    then below base (c - b'0')
    else if leb b'a' c && leb c b'z'
    then below base (c - b'a' + 10)
    else if leb b'A' c && leb c b'Z'
    then below base (c - b'A' + 10)
    else none

-- Reads digits as far as they go: the value, and the text after them.
unfoldable pub scan : ℕ → ℕ → Text → ℕ × Text
scan base acc [] = (acc, [])
scan base acc (c ∷ s) = elim (digit_value base c) [
  | none ↦ (acc, c ∷ s)
  | some d ↦ scan base (acc * base + d) s
]

unfoldable pub is_space : ℕ → Bool
is_space c = c == b' ' || leb 9 c && leb c 13

-- strtoull after the blanks and the sign: `none` where there is no digit at all.
unfoldable pub scan_first : ℕ → Text → Option ℕ
scan_first base [] = none
scan_first base (c ∷ s) = elim (digit_value base c) [
  | none ↦ none
  | some d ↦ some (scan base d s).0
]

-- Base 0 reads the base off the prefix: `0x` before a hexadecimal digit, `0`, or neither.
unfoldable pub scan_prefixed : Text → Option ℕ
scan_prefixed (c ∷ x ∷ d ∷ s) =
    if c == b'0' && (x == b'x' || x == b'X')
    then elim (digit_value 16 d) [ none ↦ some 0 | some v ↦ scan_first 16 (d ∷ s) ]
    else if c == b'0'
    then scan_first 8 (c ∷ x ∷ d ∷ s)
    else scan_first 10 (c ∷ x ∷ d ∷ s)
scan_prefixed (c ∷ s) = if c == b'0' then scan_first 8 (c ∷ s) else scan_first 10 (c ∷ s)
scan_prefixed [] = none

-- A value that does not fit a word throws.
in_range : Option ℕ → Option ℕ
in_range none = none
in_range (some n) = if ltb n word then some n else none

-- A minus sign negates modulo 2^64.
negated : Option ℕ → Option ℕ
negated none = none
negated (some n) = some ((word - n) % word)

signed : Text → Option ℕ
unfolding in_range negated
signed [] = none
signed (c ∷ s) =
    if c == b'-'
    then negated (in_range (scan_prefixed s))
    else if c == b'+'
    then in_range (scan_prefixed s)
    else in_range (scan_prefixed (c ∷ s))

unfoldable pub skip_spaces : Text → Text
skip_spaces [] = []
skip_spaces (c ∷ s) = if is_space c then skip_spaces s else c ∷ s

-- std::stoull(s, nullptr, 0); `none` where it throws.
unfoldable pub stoull : Text → Option ℕ
unfolding signed skip_spaces is_space
stoull s = signed (skip_spaces s)

-- std::format("{:#x}", n)
unfoldable pub format_hex : ℕ → Text
format_hex n = b'0' ∷ b'x' ∷ print_number 16 n

stoull_runs :
    (stoull (codes "0x1aF|") ≡ some 431)
    × (stoull (codes " 42") ≡ some 42)
    × (stoull (codes "017") ≡ some 15)
    × (stoull (codes "-1") ≡ some 18446744073709551615)
    × (stoull (codes "18446744073709551616") ≡ none)
    × (stoull (codes "x") ≡ none)
unfolding stoull scan_prefixed scan_first scan digit_value
stoull_runs = (refl, refl, refl, refl, refl, refl)

format_hex_runs : format_hex 18446744073709551615 ≡ codes "0xffffffffffffffff"
unfolding format_hex print_number print_fuel digit
format_hex_runs = refl
