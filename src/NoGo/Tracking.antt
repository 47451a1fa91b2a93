-- ===== src/NoGo/Tracking.antt =====
-- The zone list and the index map of orchestrator/nogo_zone_manager.cpp (add_zone,
-- remove_agent_zones) stay in step.
use ida_swarm.Base.{
  ℕ, suc, ◌+◌, ◌≤◌, ◌<◌, ◌≡◌, refl, sym, ap, ◌∙◌, List, [], ◌∷◌, ◌++◌, Bool, not, Text, text_eq,
  text_eq_iff, lookup, lookup-insert, keep, All, length, length-append, if◌then◌else◌, arith,
  append-nil, append_assoc, Option-cases, inl, inr, ◌⊎◌,
}
use ida_swarm.NoGo.{
  NoGoZone, Manager, init, set_insert, index_set, track, add_zone, erase_at, place, sort_descending,
  erase_index, erase_indices, rebuild, remove_agent_zones,
}

-- The indices, from `i` on, of the zones of an agent.
unfoldable pub positions : Text → ℕ → List NoGoZone → List ℕ
positions agent i [] = []
positions agent i (z ∷ zs) =
    let rest = positions agent (suc i) zs in if text_eq z.agent_id agent then i ∷ rest else rest

-- The index map holds, for each agent, just the indices of its zones.
abbrev pub IsTracked : Manager → Type 0
IsTracked m = (agent : Text) → index_set agent m.agent_zone_indices ≡ positions agent 0 m.zones

positions-append :
    (agent : Text) (i : ℕ) (zs : List NoGoZone) (z : NoGoZone)
    → positions agent i (zs ++ z ∷ [])
      ≡ positions agent i zs ++ (if text_eq z.agent_id agent then (i + length zs) ∷ [] else [])
unfolding positions
positions-append agent i [] z = ground arith
positions-append agent i (y ∷ zs) z = ground (arith, positions-append agent (suc i) zs z)

positions_below :
    (agent : Text) (i n : ℕ) (zs : List NoGoZone)
    → i + length zs ≤ n
    → All (λ j. j < n) (positions agent i zs)
unfolding positions
positions_below agent i n [] h = tt
positions_below agent i n (z ∷ zs) h = ground (arith, positions_below agent (suc i) n zs)

positions_from :
    (agent : Text) (n i : ℕ) (zs : List NoGoZone) → n ≤ i → All (λ j. n ≤ j) (positions agent i zs)
unfolding positions
positions_from agent n i [] h = tt
positions_from agent n i (z ∷ zs) h = ground (arith, positions_from agent n (suc i) zs)

set_insert_last : (i : ℕ) (s : List ℕ) → All (λ j. j < i) s → set_insert i s ≡ s ++ i ∷ []
unfolding set_insert
set_insert_last i [] h = refl
set_insert_last i (j ∷ s) h = ground (arith, set_insert_last i s h.1)

index_set-track :
    (a agent : Text) (i : ℕ) (m : List (Text × List ℕ))
    → index_set a (track agent i m)
      ≡ (if text_eq agent a then set_insert i (index_set agent m) else index_set a m)
unfolding index_set track
index_set-track a agent i m =
    ground (arith, lookup-insert agent a (set_insert i (index_set agent m)) m)

-- One more zone at the end of the list, and its index in the map.
track-positions :
    (zs : List NoGoZone) (z : NoGoZone) (m : List (Text × List ℕ)) (a : Text)
    → ((agent : Text) → index_set agent m ≡ positions agent 0 zs)
    → index_set a (track z.agent_id (length zs) m) ≡ positions a 0 (zs ++ z ∷ [])
track-positions zs z m a h = ground (
  arith,
  index_set-track a z.agent_id (length zs) m,
  positions-append a 0 zs z,
  h a,
  h z.agent_id,
  text_eq_iff z.agent_id a,
  set_insert_last (length zs) (positions a 0 zs) (positions_below a 0 (length zs) zs (omega arith)),
  append-nil (positions a 0 zs),
)

add_zone-IsTracked : (z : NoGoZone) (m : Manager) → IsTracked m → IsTracked (add_zone z m)
unfolding add_zone
add_zone-IsTracked z m h a = track-positions m.zones z m.agent_zone_indices a h

rebuild-positions :
    (before zs : List NoGoZone) (m : List (Text × List ℕ)) (a : Text)
    → ((agent : Text) → index_set agent m ≡ positions agent 0 before)
    → index_set a (rebuild (length before) zs m) ≡ positions a 0 (before ++ zs)
unfolding rebuild
rebuild-positions before [] m a h = rw append-nil (h a)
rebuild-positions before (z ∷ zs) m a h =
    rw (← length-append before (z ∷ []), ← append_assoc before (z ∷ []) zs)
      (rebuild-positions (before ++ z ∷ []) zs (track z.agent_id (length before) m) a
        (λ agent. track-positions before z m agent h))

-- The erasing loop from the smallest index up, which is easier to follow.
erase_up : List ℕ → List NoGoZone → List NoGoZone
erase_up [] zs = zs
erase_up (i ∷ is) zs = erase_index i (erase_up is zs)

abbrev Ascending : List ℕ → Type 0
Ascending [] = Unit
Ascending (i ∷ is) = All (λ j. i ≤ j) is × Ascending is

positions-Ascending : (agent : Text) (i : ℕ) (zs : List NoGoZone) → Ascending (positions agent i zs)
unfolding positions
positions-Ascending agent i [] = tt
positions-Ascending agent i (z ∷ zs) =
    ground
      (arith, positions-Ascending agent (suc i) zs, positions_from agent i (suc i) zs (omega arith))

place_last : (i : ℕ) (js : List ℕ) → All (λ j. i ≤ j) js → place i js ≡ js ++ i ∷ []
unfolding place
place_last i [] h = refl
place_last i (j ∷ js) h = ground (arith, place_last i js h.1)

place-All : (n i : ℕ) (js : List ℕ) → n ≤ i → All (λ j. n ≤ j) js → All (λ j. n ≤ j) (place i js)
unfolding place
place-All n i [] k h = (k, tt)
place-All n i (j ∷ js) k h = ground (arith, place-All n i js k h.1)

sort_descending-All :
    (n : ℕ) (is : List ℕ) → All (λ j. n ≤ j) is → All (λ j. n ≤ j) (sort_descending is)
unfolding sort_descending
sort_descending-All n [] h = tt
sort_descending-All n (i ∷ is) h = place-All n i _ h.0 (sort_descending-All n is h.1)

erase_indices-append :
    (is : List ℕ) (i : ℕ) (zs : List NoGoZone)
    → erase_indices (is ++ i ∷ []) zs ≡ erase_index i (erase_indices is zs)
unfolding erase_indices
erase_indices-append [] i zs = refl
erase_indices-append (j ∷ is) i zs = erase_indices-append is i (erase_index j zs)

erase_descending :
    (is : List ℕ) (zs : List NoGoZone)
    → Ascending is
    → erase_indices (sort_descending is) zs ≡ erase_up is zs
unfolding sort_descending erase_up
erase_descending [] zs h = unfold erase_indices in refl
erase_descending (i ∷ is) zs h =
    rw
      (
        place_last i _ (sort_descending-All i is h.0),
        erase_indices-append (sort_descending is) i zs,
      )
      (ap (erase_index i) (erase_descending is zs h.1))

erase_index-cons :
    (i : ℕ) (z : NoGoZone) (zs : List NoGoZone)
    → erase_index (suc i) (z ∷ zs) ≡ z ∷ erase_index i zs
unfolding erase_index erase_at
erase_index-cons i z zs = ground arith

erase_up-cons :
    (agent : Text) (i : ℕ) (ys zs : List NoGoZone) (z : NoGoZone)
    → erase_up (positions agent (suc i) ys) (z ∷ zs) ≡ z ∷ erase_up (positions agent i ys) zs
unfolding erase_up positions
erase_up-cons agent i [] zs z = refl
erase_up-cons agent i (y ∷ ys) zs z = ground (
  arith,
  erase_up-cons agent (suc i) ys zs z,
  erase_index-cons i z (erase_up (positions agent (suc i) ys) zs),
)

abbrev pub other_agent : Text → NoGoZone → Bool
other_agent agent z = not (text_eq z.agent_id agent)

erase_up-keep :
    (agent : Text) (zs : List NoGoZone)
    → erase_up (positions agent 0 zs) zs ≡ keep (other_agent agent) zs
unfolding erase_up positions keep erase_index erase_at
erase_up-keep agent [] = refl
erase_up-keep agent (z ∷ zs) = ground (arith, erase_up-cons agent 0 zs zs z, erase_up-keep agent zs)

-- Erasing an agent's indices leaves the zones of the others, in their order.
erase_indices-positions :
    (agent : Text) (zs : List NoGoZone)
    → erase_indices (sort_descending (positions agent 0 zs)) zs ≡ keep (other_agent agent) zs
erase_indices-positions agent zs =
    erase_descending (positions agent 0 zs) zs (positions-Ascending agent 0 zs)
    ∙ erase_up-keep agent zs

rebuild_empty : (zs : List NoGoZone) (a : Text) → index_set a (rebuild 0 zs []) ≡ positions a 0 zs
rebuild_empty zs a =
    rebuild-positions [] zs [] a (λ agent. unfold index_set lookup positions in refl)

erase_nothing :
    (agent : Text) (zs : List NoGoZone)
    → positions agent 0 zs ≡ []
    → keep (other_agent agent) zs ≡ zs
unfolding erase_up
erase_nothing agent zs h = sym (erase_up-keep agent zs) ∙ ap (λ is. erase_up is zs) h

remove_cases :
    (agent : Text) (m : Manager)
    → IsTracked m
    → ((remove_agent_zones agent m ≡ m) × (positions agent 0 m.zones ≡ []))
      ⊎ (remove_agent_zones agent m ≡ record {
        zones = keep (other_agent agent) m.zones;
        agent_zone_indices = rebuild 0 (keep (other_agent agent) m.zones) [];
      })
unfolding remove_agent_zones index_set
remove_cases agent m h = elim (Option-cases (lookup agent m.agent_zone_indices)) [
  | inl e ↦ inl (ground arith, ground (arith, h agent))
  | inr (s, e) ↦ inr (ground (arith, h agent, erase_indices-positions agent m.zones))
]

zones-add : (z : NoGoZone) (m : Manager) → (add_zone z m).zones ≡ m.zones ++ z ∷ []
unfolding add_zone
zones-add z m = refl

zones-remove :
    (agent : Text) (m : Manager)
    → IsTracked m
    → (remove_agent_zones agent m).zones ≡ keep (other_agent agent) m.zones
zones-remove agent m h = elim (remove_cases agent m h) [
  | inl (e, none_there) ↦ rw e (sym (erase_nothing agent m.zones none_there))
  | inr e ↦ rw e
]

remove-IsTracked :
    (agent : Text) (m : Manager) → IsTracked m → IsTracked (remove_agent_zones agent m)
remove-IsTracked agent m h a = elim (remove_cases agent m h) [
  | inl (e, none_there) ↦ rw e (h a)
  | inr e ↦ rw e (rebuild_empty (keep (other_agent agent) m.zones) a)
]

-- The calls that change the manager, in the order in which the mutex lets them in.
pub data Call : Type 0 where
  add : NoGoZone → Call
  remove : Text → Call

pub run : Manager → List Call → Manager
run m [] = m
run m (add z ∷ cs) = run (add_zone z m) cs
run m (remove agent ∷ cs) = run (remove_agent_zones agent m) cs

-- The specification: a plain list, without indices.
pub run_list : List NoGoZone → List Call → List NoGoZone
run_list zs [] = zs
run_list zs (add z ∷ cs) = run_list (zs ++ z ∷ []) cs
run_list zs (remove agent ∷ cs) = run_list (keep (other_agent agent) zs) cs

run-list :
    (m : Manager) (cs : List Call)
    → IsTracked m
    → ((run m cs).zones ≡ run_list m.zones cs) × IsTracked (run m cs)
unfolding run run_list
run-list m [] h = (refl, h)
run-list m (add z ∷ cs) h =
    let rest = run-list (add_zone z m) cs (add_zone-IsTracked z m h) in
    (rw (← zones-add z m) rest.0, rest.1)
run-list m (remove agent ∷ cs) h =
    let rest = run-list (remove_agent_zones agent m) cs (remove-IsTracked agent m h) in
    (rw (← zones-remove agent m h) rest.0, rest.1)

-- After any calls from the empty manager, the zones are those that the plain list of zones would
-- hold, on which adding appends and removing an agent filters; and for each agent the index map
-- holds just the places of its zones, so the erasing by index never takes a zone of another agent.
pub run-init : (cs : List Call) → ((run init cs).zones ≡ run_list [] cs) × IsTracked (run init cs)
run-init cs = run-list init cs (λ agent. unfold index_set lookup positions in refl)
