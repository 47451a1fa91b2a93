-- ===== src/Auto/Live.antt =====
-- The agents at work while a manager of orchestrator/auto_decompile_manager.cpp is active.
use ida_swarm.Base.{
  ℕ, zero, suc, ◌≡◌, ◌≢◌, inl, inr, refl, sym, ap, subst, List, [], ◌∷◌, some, true, false, Text,
  arith, Bool-cases, Option-cases, List-cases,
}
use ida_swarm.Auto.{
  weigh, Host, nothing_to_do, Manager, function_of, assign, enumerate_non_library_functions,
}
use ida_swarm.Auto.Ops.{
  emit, reset, finish, spawned, spawn_for, taken, agent_for, add_agent, start_next, bury,
  mark_completed, filled, check_agent_health, spawn_next_agent, on_agent_crashed,
  on_agent_completed, spawn_batch, start_auto_decompile,
}
use ida_swarm.Auto.Steps.{
  bury-Keeps, check_agent_health-Keeps, spawn_next_agent-Keeps, on_agent_crashed-Keeps, IsKept,
}
use ida_swarm.Auto.Runs.{Run, begun, completed, crashed, moved, chosen, Run-Q}
use ida_swarm.Auto.Accounted.{
  over_queue, AlwaysSpawns, IsDistinct, IsAccounted, IsAccounted-IsKept, IsAccounted-IsInvariant,
}

assign_some : (a : Text) (x : ℕ) (m : List (Text × ℕ)) → assign a x m ≢ []
unfolding assign
assign_some a x [] e = ground arith
assign_some a x ((b, y) ∷ m) e = ground arith

module _ (H : Host) (idle : Manager H) where
  -- An active manager has an agent at work.
  abbrev IsLive : Manager H → Type 0
  IsLive m = m.active ≡ true → m.agent_to_function ≢ []

  abbrev ps : List (H.Priority)
  ps = chosen H idle.world

  module _ (always : AlwaysSpawns H) (distinct : IsDistinct H ps) where
    abbrev Q : Manager H → Type 0
    Q = IsAccounted H ps

    kept : IsKept H Q
    kept = IsAccounted-IsKept H ps always distinct

    finish-IsLive : (m : Manager H) → Q m → IsLive (finish H m)
    unfolding finish
    finish-IsLive m q = elim (List-cases m.progress.active_agents) [
      | inl e ↦ rw e (λ t. absurd (ground arith))
      | inr (a, agents, e) ↦ rw e (λ t n. let same = sym q.tracked.same_agents in ground arith)
    ]

    spawn_for-IsLive :
        (p : H.Priority) (rest : List (H.Priority)) (m : Manager H) → IsLive (spawn_for H p rest m)
    unfolding spawn_for spawned add_agent taken
    spawn_for-IsLive p rest m t = elim (Option-cases (agent_for H p m)) [
      | inl e ↦ absurd (always _ _ _ e)
      | inr (a, e) ↦ rw e (assign_some a (H.address p) m.agent_to_function)
    ]

    start_next-IsLive : (m : Manager H) → Q m → IsLive (start_next H m)
    unfolding start_next
    start_next-IsLive m q = elim (List-cases m.pending_functions) [
      | inl e ↦
          let same : finish H m ≡ start_next H m = ground arith in
          subst IsLive same (finish-IsLive m q)
      | inr (p, rest, e) ↦
          let same : spawn_for H p rest m ≡ start_next H m = ground arith in
          subst IsLive same (spawn_for-IsLive p rest m)
    ]

    spawn_next-IsLive :
        (fuel : ℕ) (m n : Manager H)
        → Q m
        → spawn_next_agent H (on_agent_crashed H fuel) m ≡ some n
        → IsLive n
    unfolding spawn_next_agent
    spawn_next-IsLive fuel m n q e =
        elim (Option-cases (check_agent_health H (on_agent_crashed H fuel) m)) [
          | inl f ↦ absurd (ground arith)
          | inr (l, f) ↦
              let checked =
                check_agent_health-Keeps H Q kept (on_agent_crashed H fuel) m l
                  (on_agent_crashed-Keeps H Q kept fuel) q f in
              let same : start_next H l ≡ n = ground arith in
              subst IsLive same (start_next-IsLive l checked)
        ]

    crashed-IsLive :
        (fuel : ℕ) (a : Text) (m n : Manager H)
        → Q m
        → IsLive m
        → on_agent_crashed H fuel a m ≡ some n
        → IsLive n
    unfolding on_agent_crashed
    crashed-IsLive zero a m n q l e = elim (Option-cases (bury H a m)) [
      | inl f ↦ let same : m ≡ n = ground arith in subst IsLive same l
      | inr (k, f) ↦ absurd (ground arith)
    ]
    crashed-IsLive (suc fuel) a m n q l e = elim (Option-cases (bury H a m)) [
      | inl f ↦ let same : m ≡ n = ground arith in subst IsLive same l
      | inr (k, f) ↦ spawn_next-IsLive fuel k n (bury-Keeps H Q kept a m k q f) (ground arith)
    ]

    completed-IsLive :
        (fuel : ℕ) (a : Text) (m n : Manager H)
        → Q m
        → IsLive m
        → on_agent_completed H fuel a m ≡ some n
        → IsLive n
    unfolding on_agent_completed
    completed-IsLive fuel a m n q l e = elim (Bool-cases m.active) [
      | inl t ↦ elim (Option-cases (function_of a m.agent_to_function)) [
        | inl f ↦ let same : m ≡ n = ground arith in subst IsLive same l
        | inr (x, f) ↦
            spawn_next-IsLive fuel (mark_completed H a x m) n
              (kept.mark_completed_keeps a x m q t f) (ground arith)
      ]
      | inr t ↦ let same : m ≡ n = ground arith in subst IsLive same l
    ]

    batch-IsLive :
        (fuel rounds : ℕ) (m n : Manager H)
        → Q m
        → IsLive m
        → spawn_batch H fuel rounds m ≡ some n
        → IsLive n
    unfolding spawn_batch
    batch-IsLive fuel zero m n q l e = let same : m ≡ n = ground arith in subst IsLive same l
    batch-IsLive fuel (suc rounds) m n q l e = elim (List-cases m.pending_functions) [
      | inl f ↦ let same : m ≡ n = ground arith in subst IsLive same l
      | inr (p, rest, f) ↦ elim (Option-cases (spawn_next_agent H (on_agent_crashed H fuel) m)) [
        | inl g ↦ absurd (ground arith)
        | inr (k, g) ↦
            let next =
              spawn_next_agent-Keeps H Q kept (on_agent_crashed H fuel) m k
                (on_agent_crashed-Keeps H Q kept fuel) q g in
            batch-IsLive fuel rounds k n next (spawn_next-IsLive fuel m k q g) (ground arith)
      ]
    ]

    -- Something is in the queue after the start.
    filled_batch-IsLive :
        (fuel rounds : ℕ) (p : H.Priority) (rest : List (H.Priority)) (m n : Manager H)
        → Q m
        → rounds ≢ 0
        → m.pending_functions ≡ p ∷ rest
        → spawn_batch H fuel rounds m ≡ some n
        → IsLive n
    unfolding spawn_batch
    filled_batch-IsLive fuel zero p rest m n q r f e = absurd (r refl)
    filled_batch-IsLive fuel (suc rounds) p rest m n q r f e =
        elim (Option-cases (spawn_next_agent H (on_agent_crashed H fuel) m)) [
          | inl g ↦ absurd (ground arith)
          | inr (k, g) ↦
              let next =
                spawn_next_agent-Keeps H Q kept (on_agent_crashed H fuel) m k
                  (on_agent_crashed-Keeps H Q kept fuel) q g in
              batch-IsLive fuel rounds k n next (spawn_next-IsLive fuel m k q g) (ground arith)
        ]

    nothing_prioritized : (x : ℕ) (xs : List ℕ) → H.prioritize_functions (x ∷ xs) ≢ []
    unfolding weigh
    nothing_prioritized x xs e =
        let keeps = H.prioritize_keeps (λ y. 1) (x ∷ xs) in
        let empty : over_queue H (λ y. 1) (H.prioritize_functions (x ∷ xs)) ≡ 0 =
          ap (over_queue H (λ y. 1)) e in
        absurd (omega arith)

    begun-IsLive :
        (fuel : ℕ) (m : Manager H)
        → H.max_parallel ≢ 0
        → idle.active ≡ false
        → start_auto_decompile H fuel idle ≡ some m
        → IsLive m
    unfolding start_auto_decompile chosen reset filled
    begun-IsLive fuel m max f e =
        elim (List-cases (enumerate_non_library_functions (H.functions idle.world))) [
          | inl l ↦
              let same : emit H nothing_to_do (reset H idle) ≡ m = ground arith in
              subst IsLive same (λ t. absurd (ground arith))
          | inr (x, xs, l) ↦
              let these : ps ≡ H.prioritize_functions (x ∷ xs) = ground arith in
              let has = (IsAccounted-IsInvariant H idle always distinct).filled_has in
              elim (List-cases (H.prioritize_functions (x ∷ xs))) [
                | inl g ↦ absurd (nothing_prioritized x xs g)
                | inr (p, rest, g) ↦
                    filled_batch-IsLive fuel H.max_parallel p rest
                      (filled H (H.prioritize_functions (x ∷ xs)) idle) m
                      (subst (λ os. Q (filled H os idle)) these has) max g (ground arith)
              ]
        ]

    pub Run-Q_held : (m : Manager H) → Run H idle m → Q m
    Run-Q_held = Run-Q H idle Q (IsAccounted-IsInvariant H idle always distinct)

    pub Run-IsLive : (m : Manager H) → H.max_parallel ≢ 0 → Run H idle m → IsLive m
    Run-IsLive o max (begun fuel m f e) = begun-IsLive fuel m max f e
    Run-IsLive o max (completed fuel a m n r e) =
        completed-IsLive fuel a m n (Run-Q_held m r) (Run-IsLive m max r) e
    Run-IsLive o max (crashed fuel a m n r e) =
        crashed-IsLive fuel a m n (Run-Q_held m r) (Run-IsLive m max r) e
    Run-IsLive o max (moved w m r k) = Run-IsLive m max r
