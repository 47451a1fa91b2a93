-- ===== src/NoGo/Search.antt =====
-- The search for free space in orchestrator/nogo_zone_manager.cpp (find_safe_allocation, is_no_go).
use ida_swarm.Base.{
  ℕ, zero, suc, ◌+◌, ◌≤◌, ◌<◌, ◌≡◌, ◌⊎◌, inl, inr, List, [], ◌∷◌, none, some, true, false, ltb,
  ◌==◌, All, find_if, find_if-All, length, arith, word, add64, add64_small, add64_wraps, Bool-cases,
  Option-cases, if◌then◌else◌,
}
use ida_swarm.NoGo.{NoGoZone, Manager, badaddr, overlaps, search, find_safe_allocation}

-- The byte ranges [a, a + size) and the zone have an address in common, or the empty range lies
-- inside the zone.
abbrev pub Meets : ℕ → ℕ → NoGoZone → Type 0
Meets size a z = (z.start_address < a + size) × (a < z.end_address)

abbrev pub Clear : ℕ → ℕ → NoGoZone → Type 0
Clear size a z = ¬ Meets size a z

-- Addresses are words.
abbrev pub IsWordZone : NoGoZone → Type 0
IsWordZone z = (z.start_address < word) × (z.end_address < word)

overlaps-Meets :
    (z : NoGoZone) (size a : ℕ)
    → a + size < word
    → overlaps z a (add64 a size) ≡ true
    → Meets size a z
unfolding overlaps
overlaps-Meets z size a h o = ground (arith, add64_small a size h)

overlaps-Clear :
    (z : NoGoZone) (size a : ℕ)
    → a + size < word
    → overlaps z a (add64 a size) ≡ false
    → Clear size a z
unfolding overlaps
overlaps-Clear z size a h o = ground (arith, add64_small a size h)

-- What the inner loop finds: no zone in the way, or the first one.
find-Clear :
    (size a : ℕ) (zs : List NoGoZone)
    → a + size < word
    → find_if (λ z. overlaps z a (add64 a size)) zs ≡ none
    → All (Clear size a) zs
unfolding find_if
find-Clear size a [] h e = tt
find-Clear size a (z ∷ zs) h e = elim (Bool-cases (overlaps z a (add64 a size))) [
  | inl o ↦ ground arith
  | inr o ↦ (overlaps-Clear z size a h o, find-Clear size a zs h (ground arith))
]

find-overlaps :
    (a e : ℕ) (zs : List NoGoZone) (z : NoGoZone)
    → find_if (λ z. overlaps z a e) zs ≡ some z
    → overlaps z a e ≡ true
unfolding find_if
find-overlaps a e [] z h = cc
find-overlaps a e (y ∷ zs) z h = ground (arith, find-overlaps a e zs z)

-- How many zones end above an address: what each round of the search makes smaller.
above : ℕ → List NoGoZone → ℕ
above a [] = 0
above a (z ∷ zs) = if ltb a z.end_address then suc (above a zs) else above a zs

above-le-length : (a : ℕ) (zs : List NoGoZone) → above a zs ≤ length zs
unfolding above
above-le-length a [] = omega arith
above-le-length a (z ∷ zs) = ground (arith, above-le-length a zs)

above_mono : (a b : ℕ) (zs : List NoGoZone) → a ≤ b → above b zs ≤ above a zs
unfolding above
above_mono a b [] h = omega arith
above_mono a b (z ∷ zs) h = ground (arith, above_mono a b zs h)

above_skips :
    (a e : ℕ) (zs : List NoGoZone) (z : NoGoZone)
    → find_if (λ z. overlaps z a e) zs ≡ some z
    → above z.end_address zs < above a zs
unfolding find_if above overlaps
above_skips a e [] z h = cc
above_skips a e (y ∷ zs) z h = elim (Bool-cases (overlaps y a e)) [
  | inl o ↦ ground (arith, above_mono a y.end_address zs)
  | inr o ↦ ground (arith, above_skips a e zs z, find-overlaps a e zs z)
]

search_total :
    (fuel : ℕ) (zs : List NoGoZone) (size a : ℕ)
    → above a zs < fuel
    → (r : ℕ) × (search fuel zs size a ≡ some r)
unfolding search
search_total zero zs size a h = elim h [ ]
search_total (suc fuel) zs size a h = elim (Bool-cases (a == badaddr)) [
  | inl top ↦ (badaddr, ground arith)
  | inr below ↦ elim (Option-cases (find_if (λ z. overlaps z a (add64 a size)) zs)) [
    | inl e ↦ (a, ground arith)
    | inr (z, e) ↦ elim (Bool-cases (ltb (add64 z.end_address size) z.end_address)) [
      | inl over ↦ (badaddr, ground arith)
      | inr fits ↦
          let (r, found) =
            search_total fuel zs size z.end_address (omega (arith, above_skips a _ zs z e)) in
          (r, ground arith)
    ]
  ]
]

-- The search always comes to an answer, whatever the zones, the size and the start.
pub find_safe_allocation_total :
    (size start : ℕ) (m : Manager) → (r : ℕ) × (find_safe_allocation size start m ≡ some r)
unfolding find_safe_allocation
find_safe_allocation_total size start m =
    search_total (suc (length m.zones)) m.zones size start
      (omega (arith, above-le-length start m.zones))

-- What an answer is worth: it is not below the start, and it is `BADADDR` or the start of a free
-- range.
abbrev pub Found : List NoGoZone → ℕ → ℕ → ℕ → Type 0
Found zs size a r = (a ≤ r) × ((r ≡ badaddr) ⊎ ((r + size < word) × All (Clear size r) zs))

fits : (a size : ℕ) → a < word → size < word → ltb (add64 a size) a ≡ false → a + size < word
fits a size ha hs h = ground (arith, add64_wraps a size ha hs)

pub search-Found :
    (fuel : ℕ) (zs : List NoGoZone) (size a r : ℕ)
    → All IsWordZone zs
    → size < word
    → a + size < word
    → search fuel zs size a ≡ some r
    → Found zs size a r
unfolding search
search-Found zero zs size a r w hs h e = cc
search-Found (suc fuel) zs size a r w hs h e = elim (Bool-cases (a == badaddr)) [
  | inl top ↦ ground arith
  | inr below ↦ elim (Option-cases (find_if (λ z. overlaps z a (add64 a size)) zs)) [
    | inl clear ↦ let free = find-Clear size a zs h clear in ground arith
    | inr (z, hit) ↦
        let end = (find_if-All IsWordZone _ zs z w hit).1 in
        let jump = overlaps-Meets z size a h (find-overlaps a _ zs z hit) in
        elim (Bool-cases (ltb (add64 z.end_address size) z.end_address)) [
          | inl over ↦ ground arith
          | inr room ↦
              let rest =
                search-Found fuel zs size z.end_address r w hs (fits z.end_address size end hs room)
                  (ground arith) in
              (omega arith, rest.1)
        ]
  ]
]

pub search-least :
    (fuel : ℕ) (zs : List NoGoZone) (size a r b : ℕ)
    → All IsWordZone zs
    → size < word
    → a ≤ b
    → b + size < word
    → b < badaddr
    → All (Clear size b) zs
    → search fuel zs size a ≡ some r
    → r ≤ b
unfolding search
search-least zero zs size a r b w hs ab hb top free e = cc
search-least (suc fuel) zs size a r b w hs ab hb top free e = elim (Bool-cases (a == badaddr)) [
  | inl t ↦ absurd (ground arith)
  | inr below ↦ elim (Option-cases (find_if (λ z. overlaps z a (add64 a size)) zs)) [
    | inl clear ↦ ground arith
    | inr (z, hit) ↦
        let end = (find_if-All IsWordZone _ zs z w hit).1 in
        let jump = overlaps-Meets z size a (omega arith) (find-overlaps a _ zs z hit) in
        let apart = find_if-All (Clear size b) _ zs z free hit in
        let past : z.end_address ≤ b = grind (arith, apart) in
        search-least fuel zs size z.end_address r b w hs past hb top free
          (ground (arith, add64_small z.end_address size))
  ]
]
