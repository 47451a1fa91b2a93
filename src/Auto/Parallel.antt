-- ===== src/Auto/Parallel.antt =====
-- How many agents orchestrator/auto_decompile_manager.cpp has at work at a time.
use ida_swarm.Base.{
  ℕ, zero, suc, ◌+◌, ◌≤◌, ◌≡◌, inl, inr, sym, subst, List, [], ◌∷◌, Option, none, some, false, Text,
  arith, Bool-cases, Option-cases, List-cases, length,
}
use ida_swarm.Auto.{
  Host, Manager, nothing_to_do, function_of, assign, forget, enumerate_non_library_functions,
}
use ida_swarm.Auto.Ops.{
  emit, finish, spawned, spawn_for, taken, agent_for, add_agent, drop_agent, give_up, requeue,
  clean_up, start_next, bury, mark_completed, filled, reset, for_each, dead_agents,
  check_agent_health, spawn_next_agent, on_agent_crashed, on_agent_completed, spawn_batch,
  start_auto_decompile,
}
use ida_swarm.Auto.Steps.{bury-some}
use ida_swarm.Auto.Runs.{Run, begun, completed, crashed, moved}

length-assign : (a : Text) (x : ℕ) (m : List (Text × ℕ)) → length (assign a x m) ≤ suc (length m)
unfolding assign
length-assign a x [] = omega arith
length-assign a x ((b, y) ∷ m) = ground (arith, length-assign a x m)

length-forget :
    (a : Text) (x : ℕ) (m : List (Text × ℕ))
    → function_of a m ≡ some x
    → suc (length (forget a m)) ≤ length m
unfolding forget function_of
length-forget a x [] e = absurd (ground arith)
length-forget a x ((b, y) ∷ m) e = ground (arith, length-forget a x m)

module _ (H : Host) where
  abbrev at_work : Manager H → ℕ
  at_work m = length m.agent_to_function

  start_next_one : (m : Manager H) → at_work (start_next H m) ≤ suc (at_work m)
  unfolding start_next finish spawn_for spawned add_agent taken
  start_next_one m = elim (List-cases m.pending_functions) [
    | inl e ↦ ground arith
    | inr (p, rest, e) ↦ elim (Option-cases (agent_for H p m)) [
      | inl f ↦ rw (e, f) (omega arith)
      | inr (a, f) ↦ rw (e, f) (length-assign a (H.address p) m.agent_to_function)
    ]
  ]

  clean_up_one :
      (a : Text) (x : ℕ) (o : Option (H.Priority)) (m : Manager H)
      → function_of a m.agent_to_function ≡ some x
      → suc (at_work (clean_up H a x o m)) ≤ at_work m
  unfolding clean_up give_up requeue drop_agent
  clean_up_one a x none m e = length-forget a x m.agent_to_function e
  clean_up_one a x (some p) m e = ground (arith, length-forget a x m.agent_to_function e)

  bury_one : (a : Text) (m n : Manager H) → bury H a m ≡ some n → suc (at_work n) ≤ at_work m
  bury_one a m n e =
      let (t, (x, f, s)) = bury-some H a m n e in
      subst (λ k. suc (at_work k) ≤ at_work m) (sym s) (clean_up_one a x _ m f)

  abbrev NoMore : (Text → Manager H → Option (Manager H)) → Type 0
  NoMore step = (a : Text) (m n : Manager H) → step a m ≡ some n → at_work n ≤ at_work m

  for_each-NoMore :
      (step : Text → Manager H → Option (Manager H)) (agents : List Text) (m n : Manager H)
      → NoMore step
      → for_each H step agents m ≡ some n
      → at_work n ≤ at_work m
  unfolding for_each
  for_each-NoMore step [] m n k e =
      let same : m ≡ n = ground arith in subst (λ j. at_work j ≤ at_work m) same (omega arith)
  for_each-NoMore step (a ∷ agents) m n k e = elim (Option-cases (step a m)) [
    | inl f ↦ absurd (ground arith)
    | inr (l, f) ↦
        let rest = for_each-NoMore step agents l n k (ground arith) in
        let first = k a m l f in omega arith
  ]

  spawn_next_one :
      (step : Text → Manager H → Option (Manager H)) (m n : Manager H)
      → NoMore step
      → spawn_next_agent H step m ≡ some n
      → at_work n ≤ suc (at_work m)
  unfolding spawn_next_agent check_agent_health
  spawn_next_one step m n k e = elim (Bool-cases m.active) [
    | inl t ↦ elim (Option-cases (for_each H step (dead_agents H m.world m.agent_to_function) m)) [
      | inl f ↦ absurd (ground arith)
      | inr (l, f) ↦
          let less = for_each-NoMore step _ m l k f in
          let one = start_next_one l in
          let same : start_next H l ≡ n = ground arith in
          subst (λ j. at_work j ≤ suc (at_work m)) same (omega arith)
    ]
    | inr t ↦
        let same : start_next H m ≡ n = ground arith in
        subst (λ j. at_work j ≤ suc (at_work m)) same (start_next_one m)
  ]

  crashed-NoMore : (fuel : ℕ) → NoMore (on_agent_crashed H fuel)
  unfolding on_agent_crashed
  crashed-NoMore zero a m n e = elim (Option-cases (bury H a m)) [
    | inl f ↦
        let same : m ≡ n = ground arith in subst (λ j. at_work j ≤ at_work m) same (omega arith)
    | inr (k, f) ↦ absurd (ground arith)
  ]
  crashed-NoMore (suc fuel) a m n e = elim (Option-cases (bury H a m)) [
    | inl f ↦
        let same : m ≡ n = ground arith in subst (λ j. at_work j ≤ at_work m) same (omega arith)
    | inr (k, f) ↦
        let less = bury_one a m k f in
        let one =
          spawn_next_one (on_agent_crashed H fuel) k n (crashed-NoMore fuel) (ground arith) in
        omega arith
  ]

  completed-NoMore : (fuel : ℕ) → NoMore (on_agent_completed H fuel)
  unfolding on_agent_completed mark_completed drop_agent
  completed-NoMore fuel a m n e = elim (Bool-cases m.active) [
    | inl t ↦ elim (Option-cases (function_of a m.agent_to_function)) [
      | inl f ↦
          let same : m ≡ n = ground arith in subst (λ j. at_work j ≤ at_work m) same (omega arith)
      | inr (x, f) ↦
          let less = length-forget a x m.agent_to_function f in
          let one =
            spawn_next_one (on_agent_crashed H fuel) (mark_completed H a x m) n
              (crashed-NoMore fuel) (ground arith) in
          omega arith
    ]
    | inr t ↦
        let same : m ≡ n = ground arith in subst (λ j. at_work j ≤ at_work m) same (omega arith)
  ]

  batch_most :
      (fuel rounds : ℕ) (m n : Manager H)
      → spawn_batch H fuel rounds m ≡ some n
      → at_work n ≤ rounds + at_work m
  unfolding spawn_batch
  batch_most fuel zero m n e =
      let same : m ≡ n = ground arith in subst (λ j. at_work j ≤ 0 + at_work m) same (omega arith)
  batch_most fuel (suc rounds) m n e = elim (List-cases m.pending_functions) [
    | inl f ↦
        let same : m ≡ n = ground arith in
        subst (λ j. at_work j ≤ suc rounds + at_work m) same (omega arith)
    | inr (p, ps, f) ↦ elim (Option-cases (spawn_next_agent H (on_agent_crashed H fuel) m)) [
      | inl g ↦ absurd (ground arith)
      | inr (k, g) ↦
          let one = spawn_next_one (on_agent_crashed H fuel) m k (crashed-NoMore fuel) g in
          let rest = batch_most fuel rounds k n (ground arith) in omega arith
    ]
  ]

  begun_most :
      (fuel : ℕ) (idle m : Manager H)
      → idle.active ≡ false
      → start_auto_decompile H fuel idle ≡ some m
      → at_work m ≤ H.max_parallel
  unfolding start_auto_decompile reset filled
  begun_most fuel idle m f e =
      elim (List-cases (enumerate_non_library_functions (H.functions idle.world))) [
        | inl l ↦
            let same : emit H nothing_to_do (reset H idle) ≡ m = ground arith in
            subst (λ j. at_work j ≤ H.max_parallel) same (omega arith)
        | inr (x, xs, l) ↦
            let most =
              batch_most fuel H.max_parallel (filled H (H.prioritize_functions (x ∷ xs)) idle) m
                (ground arith) in
            omega arith
      ]

  -- In a run never more agents are at work than may run in parallel.
  pub Run-parallel :
      (idle m : Manager H) → Run H idle m → length m.agent_to_function ≤ H.max_parallel
  Run-parallel idle o (begun fuel m f e) = begun_most fuel idle m f e
  Run-parallel idle o (completed fuel a m n r e) =
      let before = Run-parallel idle m r in let less = completed-NoMore fuel a m n e in omega arith
  Run-parallel idle o (crashed fuel a m n r e) =
      let before = Run-parallel idle m r in let less = crashed-NoMore fuel a m n e in omega arith
  Run-parallel idle o (moved w m r k) = Run-parallel idle m r
