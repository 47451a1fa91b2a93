-- ===== src/Examples/Zones.antt =====
-- Zones and searches of orchestrator/nogo_zone_manager.cpp at concrete inputs.
use ida_swarm.Base.{
  ℕ, ◌+◌, ◌-◌, ◌≤◌, ◌<◌, ◌≡◌, ◌⊎◌, refl, [], ◌∷◌, some, true, false, codes, word, All, arith, add64,
  find_if,
}
use ida_swarm.Base.Numbers.{format_hex, print_number, print_fuel, digit}
use ida_swarm.NoGo.{
  NoGoZone, Manager, temp_segment, code_cave, badaddr, init, is_no_go_range, is_no_go,
  find_safe_allocation, overlaps, contains, search,
}
use ida_swarm.NoGo.Tracking.{add, remove, run, run_list, IsTracked, run-init}
use ida_swarm.NoGo.Allocation.{
  find_safe_allocation_safe, find_safe_allocation_least, find_safe_allocation_wraps,
}
use ida_swarm.NoGo.Search.{IsWordZone}
use ida_swarm.NoGo.Wire.{serialize_zone, deserialize_zone, deserialize-serialize}

abbrev zone_a : NoGoZone
zone_a = record {
  start_address = 0x1000;
  end_address = 0x3000;
  agent_id = codes "agent_1";
  zone_type = temp_segment;
  timestamp = 7;
}

abbrev zone_b : NoGoZone
zone_b = record {
  start_address = 0x3800;
  end_address = 0x4000;
  agent_id = codes "agent_2";
  zone_type = code_cave;
  timestamp = 8;
}

abbrev two_zones : Manager
two_zones = record {
  zones = zone_a ∷ zone_b ∷ [];
  agent_zone_indices = (codes "agent_1", 0 ∷ []) ∷ (codes "agent_2", 1 ∷ []) ∷ [];
}

two_zones_search : find_safe_allocation 0x1000 0x2000 two_zones ≡ some 0x4000
unfolding find_safe_allocation search find_if overlaps add64
two_zones_search = refl

two_zones_words : All IsWordZone two_zones.zones
two_zones_words = omega arith

find_safe_allocation_safe_example :
    (r : ℕ) × (find_safe_allocation 0x1000 0x2000 two_zones ≡ some r)
    × ((r ≡ badaddr)
        ⊎ ((0x2000 ≤ r)
            × (r + 0x1000 < word)
            × (is_no_go_range r (r + 0x1000) two_zones.zones ≡ false)
            × ((b : ℕ) → r ≤ b → b < r + 0x1000 → is_no_go b two_zones.zones ≡ false)))
find_safe_allocation_safe_example =
    find_safe_allocation_safe 0x1000 0x2000 two_zones two_zones_words (omega arith) (omega arith)

five_thousand_free : is_no_go_range 0x5000 (0x5000 + 0x1000) two_zones.zones ≡ false
unfolding is_no_go_range overlaps
five_thousand_free = refl

find_safe_allocation_least_example : 0x4000 ≤ 0x5000
find_safe_allocation_least_example =
    find_safe_allocation_least 0x1000 0x2000 0x4000 0x5000 two_zones two_zones_words (omega arith)
      two_zones_search (omega arith) (omega arith) (omega arith) five_thousand_free

-- A zone at the very top, whose inside the search hands out: the range from there wraps.
abbrev top_zone : NoGoZone
top_zone = record {
  start_address = word - 0x2000;
  end_address = word - 1;
  agent_id = codes "agent_1";
  zone_type = temp_segment;
  timestamp = 7;
}

abbrev at_the_top : Manager
at_the_top = record { zones = top_zone ∷ []; agent_zone_indices = (codes "agent_1", 0 ∷ []) ∷ [] }

find_safe_allocation_wraps_example :
    find_safe_allocation 0x2000 (word - 0x1000) at_the_top ≡ some (word - 0x1000)
find_safe_allocation_wraps_example =
    find_safe_allocation_wraps 0x2000 (word - 0x1000) at_the_top (omega arith)
      (unfold add64 in omega arith)

inside_the_top_zone : is_no_go (word - 0x1000) at_the_top.zones ≡ true
unfolding is_no_go contains
inside_the_top_zone = refl

run-init_example :
    ((run init (add zone_a ∷ add zone_b ∷ add zone_a ∷ remove (codes "agent_1") ∷ [])).zones
      ≡ run_list [] (add zone_a ∷ add zone_b ∷ add zone_a ∷ remove (codes "agent_1") ∷ []))
    × IsTracked (run init (add zone_a ∷ add zone_b ∷ add zone_a ∷ remove (codes "agent_1") ∷ []))
run-init_example = run-init (add zone_a ∷ add zone_b ∷ add zone_a ∷ remove (codes "agent_1") ∷ [])

deserialize-serialize_example :
    deserialize_zone 9 (serialize_zone zone_a) ≡ some (record zone_a { timestamp = 9 })
deserialize-serialize_example = deserialize-serialize zone_a 9 (omega arith) (omega arith)

zone_a_text : serialize_zone zone_a ≡ codes "NOGO|SEGMENT|agent_1|0x1000|0x3000"
unfolding serialize_zone format_hex print_number print_fuel digit
zone_a_text = refl
