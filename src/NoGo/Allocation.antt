-- ===== src/NoGo/Allocation.antt =====
-- What find_safe_allocation of orchestrator/nogo_zone_manager.cpp promises to its callers.
use ida_swarm.Base.{
  ℕ, suc, ◌+◌, ◌≤◌, ◌<◌, ◌≡◌, refl, ◌⊎◌, inl, inr, List, [], ◌∷◌, none, some, false, All, length,
  arith, word, add64, find_if,
}
use ida_swarm.NoGo.{
  NoGoZone, Manager, badaddr, overlaps, is_no_go_range, contains, is_no_go, search,
  find_safe_allocation,
}
use ida_swarm.NoGo.Search.{
  Clear, IsWordZone, search-Found, search-least, find_safe_allocation_total,
}

Clear-is_no_go_range :
    (size a : ℕ) (zs : List NoGoZone)
    → All (Clear size a) zs
    → is_no_go_range a (a + size) zs ≡ false
unfolding is_no_go_range overlaps
Clear-is_no_go_range size a [] free = refl
Clear-is_no_go_range size a (z ∷ zs) free =
    grind (arith, free.0, Clear-is_no_go_range size a zs free.1)

Clear-is_no_go :
    (size a b : ℕ) (zs : List NoGoZone)
    → All (Clear size a) zs
    → a ≤ b
    → b < a + size
    → is_no_go b zs ≡ false
unfolding is_no_go contains
Clear-is_no_go size a b [] free h k = refl
Clear-is_no_go size a b (z ∷ zs) free h k =
    grind (arith, free.0, Clear-is_no_go size a b zs free.1 h k)

-- Let every zone have word addresses, and let the size and the end of the first range tried be
-- below 2^64. Then the search answers, and the answer is `BADADDR`, or a start of a range at or above
-- the start of the search that does not wrap, that is_no_go does not find in a zone as a range, and
-- none of whose addresses it finds in a zone.
pub find_safe_allocation_safe :
    (size start : ℕ) (m : Manager)
    → All IsWordZone m.zones
    → size < word
    → start + size < word
    → (r : ℕ) × (find_safe_allocation size start m ≡ some r)
      × ((r ≡ badaddr)
          ⊎ ((start ≤ r)
              × (r + size < word)
              × (is_no_go_range r (r + size) m.zones ≡ false)
              × ((b : ℕ) → r ≤ b → b < r + size → is_no_go b m.zones ≡ false)))
unfolding find_safe_allocation
find_safe_allocation_safe size start m w hs h =
    let (r, e) = find_safe_allocation_total size start m in
    let (low, found) = search-Found (suc (length m.zones)) m.zones size start r w hs h e in
    (
      r,
      e,
      elim found [
        | inl top ↦ inl top
        | inr (room, free) ↦ inr (
          low,
          room,
          Clear-is_no_go_range size r m.zones free,
          λ b hb kb. Clear-is_no_go size r b m.zones free hb kb,
        )
      ],
    )

is_no_go_range-Clear :
    (size a : ℕ) (zs : List NoGoZone)
    → is_no_go_range a (a + size) zs ≡ false
    → All (Clear size a) zs
unfolding is_no_go_range overlaps
is_no_go_range-Clear size a [] h = tt
is_no_go_range-Clear size a (z ∷ zs) h =
    (λ meets. ground arith, is_no_go_range-Clear size a zs (ground arith))

-- Under the same conditions the answer is the least one: no range of that size that starts from
-- the start of the search, below the answer and below `BADADDR`, and ends below 2^64, is clear of
-- the zones. So `BADADDR` is the answer only where no such range is free.
pub find_safe_allocation_least :
    (size start r b : ℕ) (m : Manager)
    → All IsWordZone m.zones
    → size < word
    → find_safe_allocation size start m ≡ some r
    → start ≤ b
    → b + size < word
    → b < badaddr
    → is_no_go_range b (b + size) m.zones ≡ false
    → r ≤ b
unfolding find_safe_allocation
find_safe_allocation_least size start r b m w hs e ab hb top free =
    search-least (suc (length m.zones)) m.zones size start r b w hs ab hb top
      (is_no_go_range-Clear size b m.zones free) e

find_none :
    (start e : ℕ) (zs : List NoGoZone)
    → All (λ z. e ≤ z.start_address) zs
    → find_if (λ z. overlaps z start e) zs ≡ none
unfolding find_if overlaps
find_none start e [] h = refl
find_none start e (z ∷ zs) h = ground (arith, find_none start e zs h.1)

-- Where the first range tried runs past the end of the address space, and its wrapped end lies at
-- or below the start of every zone, the search returns its own start, in a zone or not: the test
-- for overflow comes only after an overlap was found.
pub find_safe_allocation_wraps :
    (size start : ℕ) (m : Manager)
    → start < badaddr
    → All (λ z. add64 start size ≤ z.start_address) m.zones
    → find_safe_allocation size start m ≡ some start
unfolding find_safe_allocation search
find_safe_allocation_wraps size start m top low =
    ground (arith, find_none start (add64 start size) m.zones low)
