-- ===== src/Base/Numbers/RoundTrip.antt =====
-- Reading a printed number gives it back.
use native.Mathlib.Nat.{div-add-mod', mod-lt, div-lt_self}
use Prim.Native.Nat.{ℕ, zero, suc, ◌+◌, ◌-◌, ◌*◌, ◌/◌, ◌%◌, ◌≤◌, ◌<◌}
use mathlib.Core.Path.{◌≡◌, refl, sym, ◌∙◌, ap}
use mathlib.Core.Logic.{inl, inr}
use mathlib.Core.Option.{Option, none, some}
use mathlib.Core.List.{[], ◌∷◌, ◌++◌, append_assoc, append-nil}
use native.Mathlib.Omega.{arith}
use ida_swarm.Base.Tests.{ltb, ◌==◌, word, Bool-cases}
use ida_swarm.Base.Lists.{All, All-append}
use ida_swarm.Base.Bytes.{Text}
use ida_swarm.Base.Numbers.{
  digit, print_fuel, print_number, digit_value, scan, scan_first, scan_prefixed, stoull, format_hex,
  in_range, negated, signed, skip_spaces,
}

digit_value-digit : (base d : ℕ) → base ≤ 36 → d < base → digit_value base (digit d) ≡ some d
unfolding digit_value digit
digit_value-digit base d h k = ground arith

-- No digit is a byte above `z`.
digit-le : (d : ℕ) → d < 36 → digit d ≤ b'z'
unfolding digit
digit-le d h = ground arith

module _ (base : ℕ) (two : 1 < base) (small : base ≤ 36) where
  scan-digit :
      (acc d : ℕ) (s : Text) → d < base → scan base acc (digit d ∷ s) ≡ scan base (acc * base + d) s
  unfolding scan
  scan-digit acc d s h = ground (arith, digit_value-digit base d small h)

  quotient_lt : (n fuel : ℕ) → n < suc fuel → base ≤ n → n / base < fuel
  quotient_lt n fuel h k = let p = div-lt_self {n = n} {k = base} (omega arith) two in omega arith

  scan-print_fuel :
      (fuel n : ℕ) (s : Text) → n < fuel → scan base 0 (print_fuel fuel base n ++ s) ≡ scan base n s
  unfolding print_fuel
  scan-print_fuel zero n s h = elim h [ ]
  scan-print_fuel (suc fuel) n s h = elim (Bool-cases (ltb n base)) [
    | inl last ↦ rw last (scan-digit 0 n s (ground arith) ∙ ap (λ k. scan base k s) (omega arith))
    | inr more ↦
        rw (more, append_assoc (print_fuel fuel base (n / base)) (digit (n % base) ∷ []) s)
          (scan-print_fuel fuel (n / base) (digit (n % base) ∷ s)
              (quotient_lt n fuel h (ground arith))
            ∙ scan-digit (n / base) (n % base) s (mod-lt n (omega arith))
            ∙ ap (λ k. scan base k s) (div-add-mod' n base))
  ]

  print_fuel-cons :
      (fuel n : ℕ)
      → n < fuel
      → (d : ℕ) × (s : Text) × (d < base) × (print_fuel fuel base n ≡ digit d ∷ s)
  unfolding print_fuel
  print_fuel-cons zero n h = elim h [ ]
  print_fuel-cons (suc fuel) n h = elim (Bool-cases (ltb n base)) [
    | inl last ↦ (n, [], ground arith, rw last)
    | inr more ↦
        let (d, s, k, e) = print_fuel-cons fuel (n / base) (quotient_lt n fuel h (ground arith)) in
        (d, s ++ digit (n % base) ∷ [], k, rw (more, e))
  ]

  print_fuel-le : (fuel n : ℕ) → All (λ c. c ≤ b'z') (print_fuel fuel base n)
  unfolding print_fuel
  print_fuel-le zero n = tt
  print_fuel-le (suc fuel) n = elim (Bool-cases (ltb n base)) [
    | inl last ↦ rw last (digit-le n (ground arith), tt)
    | inr more ↦ rw more (
        All-append _ (print_fuel fuel base (n / base)) (digit (n % base) ∷ [])
          (print_fuel-le fuel (n / base))
          (digit-le (n % base) (let p = mod-lt n {m = base} (omega arith) in omega arith), tt))
  ]

  scan-print :
      (n d : ℕ) (s : Text)
      → d < base
      → print_fuel (suc n) base n ≡ digit d ∷ s
      → scan base d s ≡ (n, [])
  scan-print n d s k e =
      sym (ap (λ m. scan base m s) (omega arith))
      ∙ sym (scan-digit 0 d s k)
      ∙ ap (scan base 0) (sym e)
      ∙ ap (scan base 0) (sym (append-nil (print_fuel (suc n) base n)))
      ∙ scan-print_fuel (suc n) n [] (omega arith)
      ∙ unfold scan in refl

  scan_first-print : (n : ℕ) → scan_first base (print_fuel (suc n) base n) ≡ some n
  unfolding scan_first
  scan_first-print n =
      let (d, s, k, e) = print_fuel-cons (suc n) n (omega arith) in
      rw (e, scan_first) (ground (arith, digit_value-digit base d small k, scan-print n d s k e))

-- Different numbers are printed differently.
pub print_number_injective :
    (base : ℕ)
    → 2 ≤ base
    → base ≤ 36
    → (n k : ℕ) → print_number base n ≡ print_number base k
    → n ≡ k
unfolding print_number
print_number_injective base l u n k e =
    let same : some n ≡ some k =
      sym (scan_first-print base l u n) ∙ ap (scan_first base) e ∙ scan_first-print base l u k in
    ground arith

-- Hexadecimal text with its prefix.
-- A decimal number starts with a digit, and scans to itself.
pub print_decimal :
    (n : ℕ)
    → (d : ℕ) × (s : Text) × (d < 10)
      × (print_number 10 n ≡ (b'0' + d) ∷ s)
      × (scan_first 10 ((b'0' + d) ∷ s) ≡ some n)
unfolding print_number digit
print_decimal n =
    let (d, s, k, e) = print_fuel-cons 10 (omega arith) (omega arith) (suc n) n (omega arith) in
    let same : digit d ≡ b'0' + d = ground arith in
    let first : print_number 10 n ≡ (b'0' + d) ∷ s = e ∙ ap (λ c. c ∷ s) same in
    (
      d,
      s,
      k,
      first,
      ap (scan_first 10) (sym first) ∙ scan_first-print 10 (omega arith) (omega arith) n,
    )

pub stoull-format_hex : (n : ℕ) → n < word → stoull (format_hex n) ≡ some n
unfolding stoull format_hex print_number scan_prefixed
stoull-format_hex n h =
    let (d, s, k, e) = print_fuel-cons 16 (omega arith) (omega arith) (suc n) n (omega arith) in
    let whole : scan_first 16 (digit d ∷ s) ≡ some n =
      ap (scan_first 16) (sym e) ∙ scan_first-print 16 (omega arith) (omega arith) n in
    rw e (ground (arith, whole, digit_value-digit 16 d (omega arith) k))

pub format_hex-le : (n : ℕ) → All (λ c. c ≤ b'z') (format_hex n)
unfolding format_hex print_number
format_hex-le n =
    (omega arith, (omega arith, print_fuel-le 16 (omega arith) (omega arith) (suc n) n))

in_range-lt : (o : Option ℕ) (n : ℕ) → in_range o ≡ some n → n < word
unfolding in_range
in_range-lt none n h = cc
in_range-lt (some m) n h = ground arith

negated-lt : (o : Option ℕ) (n : ℕ) → negated o ≡ some n → n < word
unfolding negated
negated-lt none n h = cc
negated-lt (some m) n h = let e : (word - m) % word ≡ n = ground arith in omega arith

signed-lt : (s : Text) (n : ℕ) → signed s ≡ some n → n < word
unfolding signed
signed-lt [] n h = cc
signed-lt (c ∷ s) n h = elim (Bool-cases (c == b'-')) [
  | inl minus ↦ negated-lt (in_range (scan_prefixed s)) n (ground arith)
  | inr other ↦ elim (Bool-cases (c == b'+')) [
    | inl plus ↦ in_range-lt (scan_prefixed s) n (ground arith)
    | inr digit_first ↦ in_range-lt (scan_prefixed (c ∷ s)) n (ground arith)
  ]
]

-- A conversion that does not throw gives a word.
pub stoull-lt : (s : Text) (n : ℕ) → stoull s ≡ some n → n < word
unfolding stoull
stoull-lt s n h = signed-lt (skip_spaces s) n h
