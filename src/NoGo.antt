-- ===== src/NoGo.antt =====
-- orchestrator/nogo_zone_manager.h and .cpp: the zones of the address space that agents must avoid.
-- Addresses are 64-bit (`ea_t` of a 64-bit IDA); `BADADDR` is the largest of them.
pub mod Search
pub mod Allocation
pub mod Tracking
pub mod Wire
use ida_swarm.Base.{
  ℕ, zero, suc, ◌+◌, ◌-◌, ◌≤◌, ◌<◌, ◌⊎◌, List, [], ◌∷◌, ◌++◌, Option, none, some, Bool, true, false,
  not, ◌||◌, ◌&&◌, Text, text_eq, lookup, insert, erase, keep, find_if, length, ltb, leb, ◌==◌,
  if◌then◌else◌, word, add64,
}

pub data NoGoZoneType : Type 0 where
  temp_segment code_cave : NoGoZoneType

pub record NoGoZone : Type 0 where
  pub start_address : ℕ
  pub end_address : ℕ
  pub agent_id : Text
  pub zone_type : NoGoZoneType
  pub timestamp : ℕ

abbrev pub badaddr : ℕ
badaddr = word - 1

unfoldable pub overlaps : NoGoZone → ℕ → ℕ → Bool
overlaps z start end = not (leb end z.start_address || leb z.end_address start)

unfoldable pub contains : NoGoZone → ℕ → Bool
contains z address = leb z.start_address address && ltb address z.end_address

-- `zones_`, and the map from agents to the sets of their indices in it (each set ascending).
pub record Manager : Type 0 where
  pub zones : List NoGoZone
  pub agent_zone_indices : List (Text × List ℕ)

abbrev pub init : Manager
init = record { zones = []; agent_zone_indices = [] }

-- std::set::insert
unfoldable pub set_insert : ℕ → List ℕ → List ℕ
set_insert i [] = i ∷ []
set_insert i (j ∷ s) =
    let further = j ∷ set_insert i s in
    if ltb i j then i ∷ j ∷ s else if i == j then j ∷ s else further

-- m[agent], which makes an empty set for a new agent
unfoldable pub index_set : Text → List (Text × List ℕ) → List ℕ
index_set agent m = elim (lookup agent m) [ none ↦ [] | some s ↦ s ]

-- agent_zone_indices_[agent].insert(i)
pub track : Text → ℕ → List (Text × List ℕ) → List (Text × List ℕ)
track agent i m = insert agent (set_insert i (index_set agent m)) m

-- An overlap with a zone that is there is logged, and the zone is added all the same.
unfoldable pub add_zone : NoGoZone → Manager → Manager
add_zone zone m = record {
  zones = m.zones ++ zone ∷ [];
  agent_zone_indices = track zone.agent_id (length m.zones) m.agent_zone_indices;
}

-- std::vector::erase at an index
pub erase_at : ℕ → List NoGoZone → List NoGoZone
erase_at i [] = []
erase_at zero (z ∷ zs) = zs
erase_at (suc i) (z ∷ zs) = z ∷ erase_at i zs

-- std::sort(indices.rbegin(), indices.rend()): largest first.
pub place : ℕ → List ℕ → List ℕ
place i [] = i ∷ []
place i (j ∷ js) = if leb i j then j ∷ place i js else i ∷ j ∷ js

pub sort_descending : List ℕ → List ℕ
sort_descending [] = []
sort_descending (i ∷ is) = place i (sort_descending is)

pub erase_index : ℕ → List NoGoZone → List NoGoZone
erase_index i zs = if ltb i (length zs) then erase_at i zs else zs

pub erase_indices : List ℕ → List NoGoZone → List NoGoZone
erase_indices [] zs = zs
erase_indices (i ∷ is) zs = erase_indices is (erase_index i zs)

-- The loop that fills the map again from the zones; `i` is the index of the first zone of the list.
pub rebuild : ℕ → List NoGoZone → List (Text × List ℕ) → List (Text × List ℕ)
rebuild i [] m = m
rebuild i (z ∷ zs) m = rebuild (i + 1) zs (track z.agent_id i m)

unfoldable pub remove_agent_zones : Text → Manager → Manager
remove_agent_zones agent m = elim (lookup agent m.agent_zone_indices) [
  | none ↦ m
  | some indices ↦
      let zones = erase_indices (sort_descending indices) m.zones in
      record { zones = zones; agent_zone_indices = rebuild 0 zones [] }
]

abbrev pub get_all_zones : Manager → List NoGoZone
get_all_zones m = m.zones

same_type : NoGoZoneType → NoGoZoneType → Bool
same_type temp_segment temp_segment = true
same_type code_cave code_cave = true
same_type _ _ = false

pub get_zones_by_type : NoGoZoneType → Manager → List NoGoZone
unfolding same_type
get_zones_by_type t m = keep (λ z. same_type z.zone_type t) m.zones

-- is_no_go(start, end)
unfoldable pub is_no_go_range : ℕ → ℕ → List NoGoZone → Bool
is_no_go_range start end [] = false
is_no_go_range start end (z ∷ zs) = overlaps z start end || is_no_go_range start end zs

-- is_no_go(address)
unfoldable pub is_no_go : ℕ → List NoGoZone → Bool
is_no_go address [] = false
is_no_go address (z ∷ zs) = contains z address || is_no_go address zs

-- The `while` loop of find_safe_allocation from `current`; `none` means that the fuel ran out.
unfoldable pub search : ℕ → List NoGoZone → ℕ → ℕ → Option ℕ
search zero zones size current = none
search (suc fuel) zones size current = elim (current == badaddr) [
  | true ↦ some badaddr
  | false ↦ elim (find_if (λ z. overlaps z current (add64 current size)) zones) [
    | none ↦ some current
    | some z ↦ elim (ltb (add64 z.end_address size) z.end_address) [
      | true ↦ some badaddr
      | false ↦ search fuel zones size z.end_address
    ]
  ]
]

-- A round skips the zone that was in the way, so one round more than zones is enough fuel.
unfoldable pub find_safe_allocation : ℕ → ℕ → Manager → Option ℕ
find_safe_allocation size start m = search (suc (length m.zones)) m.zones size start
