-- ===== src/Auto/Returns.antt =====
-- The end of the calls of spawn_next_agent, check_agent_health and on_agent_crashed among each other in
-- orchestrator/auto_decompile_manager.cpp.
use ida_swarm.Base.{
  ℕ, zero, suc, ◌*◌, ◌≤◌, ◌≡◌, inl, inr, refl, subst, List, [], ◌∷◌, Option, some, Text, arith,
  Bool-cases, Option-cases, List-cases, length,
}
use ida_swarm.Auto.{weigh, Host, Manager, nothing_to_do, function_of}
use ida_swarm.Auto.Ops.{
  emit, start_next, bury, mark_completed, filled, reset, for_each, dead_agents, check_agent_health,
  spawn_next_agent, on_agent_crashed, on_agent_completed, spawn_batch, start_auto_decompile,
}
use ida_swarm.Auto.Steps.{bury-Keeps, start_next-Q}
use ida_swarm.Auto.Runs.{Run, IsInvariant, chosen, Run-Q}
use ida_swarm.Auto.Tracked.{IsTracked, IsTracked-IsKept, IsTracked-IsInvariant}
use ida_swarm.Auto.Load.{
  load, load-bury, load-start_next, load_completed, IsLoaded, IsLoaded-IsKept,
}
use ida_swarm.Auto.Progress.{targets, chosen_keeps}

module _ (H : Host) where
  -- A call returns a manager with no more attempts left than there were.
  abbrev Returns : Option (Manager H) → Manager H → Type 0
  Returns o m = (n : Manager H) × (o ≡ some n) × IsTracked H n × (load H n ≤ load H m)

  -- A step returns where no more attempts are left than a bound.
  abbrev StepReturns : ℕ → (Text → Manager H → Option (Manager H)) → Type 0
  StepReturns b step =
      (a : Text) (m : Manager H) → IsTracked H m → load H m ≤ b → Returns (step a m) m

  for_each-Returns :
      (step : Text → Manager H → Option (Manager H)) (b : ℕ) (agents : List Text) (m : Manager H)
      → StepReturns b step
      → IsTracked H m
      → load H m ≤ b
      → Returns (for_each H step agents m) m
  unfolding for_each
  for_each-Returns step b [] m r q l = (m, refl, q, omega arith)
  for_each-Returns step b (a ∷ agents) m r q l =
      let (n, e, t, k) = r a m q l in
      let (o, f, u, j) = for_each-Returns step b agents n r t (omega arith) in
      (o, ground arith, u, omega arith)

  check_agent_health-Returns :
      (step : Text → Manager H → Option (Manager H)) (b : ℕ) (m : Manager H)
      → StepReturns b step
      → IsTracked H m
      → load H m ≤ b
      → Returns (check_agent_health H step m) m
  unfolding check_agent_health
  check_agent_health-Returns step b m r q l = elim (Bool-cases m.active) [
    | inl t ↦
        let (n, e, u, k) =
          for_each-Returns step b (dead_agents H m.world m.agent_to_function) m r q l in
        (n, ground arith, u, k)
    | inr t ↦ (m, ground arith, q, omega arith)
  ]

  spawn_next_agent-Returns :
      (step : Text → Manager H → Option (Manager H)) (b : ℕ) (m : Manager H)
      → StepReturns b step
      → IsTracked H m
      → load H m ≤ b
      → Returns (spawn_next_agent H step m) m
  unfolding spawn_next_agent
  spawn_next_agent-Returns step b m r q l =
      let (n, e, u, k) = check_agent_health-Returns step b m r q l in
      let less = load-start_next H n u in
      (
        start_next H n,
        ground arith,
        start_next-Q H (IsTracked H) (IsTracked-IsKept H) n u,
        omega arith,
      )

  on_agent_crashed-Returns : (fuel : ℕ) → StepReturns fuel (on_agent_crashed H fuel)
  unfolding on_agent_crashed
  on_agent_crashed-Returns zero a m q l = elim (Option-cases (bury H a m)) [
    | inl f ↦ (m, ground arith, q, omega arith)
    | inr (n, f) ↦ let less = load-bury H a m n q f in absurd (omega arith)
  ]
  on_agent_crashed-Returns (suc fuel) a m q l = elim (Option-cases (bury H a m)) [
    | inl f ↦ (m, ground arith, q, omega arith)
    | inr (n, f) ↦
        let less = load-bury H a m n q f in
        let u = bury-Keeps H (IsTracked H) (IsTracked-IsKept H) a m n q f in
        let (o, e, v, k) =
          spawn_next_agent-Returns (on_agent_crashed H fuel) fuel n (on_agent_crashed-Returns fuel)
            u (omega arith) in
        (o, ground arith, v, omega arith)
  ]

  on_agent_completed-Returns : (fuel : ℕ) → StepReturns fuel (on_agent_completed H fuel)
  unfolding on_agent_completed
  on_agent_completed-Returns fuel a m q l = elim (Bool-cases m.active) [
    | inl t ↦ elim (Option-cases (function_of a m.agent_to_function)) [
      | inl f ↦ (m, ground arith, q, omega arith)
      | inr (x, f) ↦
          let less = load_completed H a x m f in
          let u = (IsTracked-IsKept H).mark_completed_keeps a x m q t f in
          let (o, e, v, k) =
            spawn_next_agent-Returns (on_agent_crashed H fuel) fuel (mark_completed H a x m)
              (on_agent_crashed-Returns fuel) u (omega arith) in
          (o, ground arith, v, omega arith)
    ]
    | inr t ↦ (m, ground arith, q, omega arith)
  ]

  spawn_batch-Returns :
      (fuel rounds : ℕ) (m : Manager H)
      → IsTracked H m
      → load H m ≤ fuel
      → Returns (spawn_batch H fuel rounds m) m
  unfolding spawn_batch
  spawn_batch-Returns fuel zero m q l = (m, refl, q, omega arith)
  spawn_batch-Returns fuel (suc rounds) m q l = elim (List-cases m.pending_functions) [
    | inl e ↦ (m, ground arith, q, omega arith)
    | inr (p, ps, e) ↦
        let (n, f, u, k) =
          spawn_next_agent-Returns (on_agent_crashed H fuel) fuel m (on_agent_crashed-Returns fuel)
            q l in
        let (o, g, v, j) = spawn_batch-Returns fuel rounds n u (omega arith) in
        (o, ground arith, v, omega arith)
  ]

  weigh_four : (xs : List ℕ) → weigh (λ x. 4) xs ≡ 4 * length xs
  unfolding weigh
  weigh_four [] = refl
  weigh_four (x ∷ xs) = omega (arith, weigh_four xs)

  load-filled :
      (idle : Manager H)
      → load H (filled H (chosen H idle.world) idle) ≡ 4 * length (targets H idle)
  unfolding filled reset weigh
  load-filled idle =
      let all = chosen_keeps H (λ x. 4) idle.world in
      let four = weigh_four (targets H idle) in omega arith

  IsLoaded-IsInvariant :
      (idle : Manager H) → IsInvariant H idle (IsLoaded H (4 * length (targets H idle)))
  unfolding reset weigh
  IsLoaded-IsInvariant idle = record {
    kept = IsLoaded-IsKept H (4 * length (targets H idle));
    reset_has =
        λ e. record { tracked = (IsTracked-IsInvariant H idle).reset_has e; most = omega arith };
    filled_has = record {
      tracked = (IsTracked-IsInvariant H idle).filled_has;
      most = omega (arith, load-filled idle);
    };
    moved_keeps = λ w m q k. record {
      tracked = (IsTracked-IsInvariant H idle).moved_keeps w m q.tracked k;
      most = q.most;
    };
  }

  -- A start returns where the fuel is four units for each function that is to be analysed: an agent
  -- for it, and three more.
  pub start_returns :
      (idle : Manager H) (fuel : ℕ)
      → 4 * length (targets H idle) ≤ fuel
      → (m : Manager H) × (start_auto_decompile H fuel idle ≡ some m)
  unfolding start_auto_decompile chosen
  start_returns idle fuel b = elim (Bool-cases idle.active) [
    | inl t ↦ (idle, ground arith)
    | inr t ↦ elim (List-cases (targets H idle)) [
      | inl e ↦ (emit H nothing_to_do (reset H idle), ground arith)
      | inr (x, xs, e) ↦
          let these : chosen H idle.world ≡ H.prioritize_functions (x ∷ xs) = ground arith in
          let tracked =
            subst (λ ps. IsTracked H (filled H ps idle)) these
              (IsTracked-IsInvariant H idle).filled_has in
          let same : load H (filled H (H.prioritize_functions (x ∷ xs)) idle)
              ≡ 4 * length (targets H idle) =
            subst (λ ps. load H (filled H ps idle) ≡ 4 * length (targets H idle)) these
              (load-filled idle) in
          let (m, f, q, l) =
            spawn_batch-Returns fuel H.max_parallel
              (filled H (H.prioritize_functions (x ∷ xs)) idle) tracked (omega arith) in
          (m, ground arith)
    ]
  ]

  -- In a run with that fuel, the report that an agent is done and the report that one has crashed
  -- return, whatever agents have crashed meanwhile.
  pub Run-returns :
      (idle m : Manager H) (fuel : ℕ)
      → Run H idle m
      → 4 * length (targets H idle) ≤ fuel
      → (a : Text)
      → ((n : Manager H) × (on_agent_completed H fuel a m ≡ some n))
        × ((n : Manager H) × (on_agent_crashed H fuel a m ≡ some n))
  Run-returns idle m fuel r b a =
      let q = Run-Q H idle _ (IsLoaded-IsInvariant idle) m r in
      let most = q.most in
      let (n, e, t, l) = on_agent_completed-Returns fuel a m q.tracked (omega arith) in
      let (o, f, u, k) = on_agent_crashed-Returns fuel a m q.tracked (omega arith) in
      ((n, e), (o, f))
