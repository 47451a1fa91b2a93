-- ===== src/Auto/Steps.antt =====
-- What every operation of orchestrator/auto_decompile_manager.cpp keeps, from what the cleaning up
-- after one crash, the start of one agent and the end of one keep.
use ida_swarm.Base.{
  ℕ, zero, suc, ◌≡◌, ◌≢◌, ◌≤◌, ◌<◌, ltb, inl, inr, refl, sym, subst, List, [], ◌∷◌, Option, none,
  some, true, false, Text, arith, Bool-cases, Option-cases, List-cases,
}
use ida_swarm.Auto.{Host, Manager, Event, given_up, finished, function_of, max_function_retries}
use ida_swarm.Auto.Ops.{
  emit, finish, spawned, agent_for, taken, add_agent, spawn_for, give_up, requeue, clean_up, bury,
  start_next, mark_completed, dead_agents, for_each, check_agent_health, spawn_next_agent,
  on_agent_crashed, on_agent_completed, spawn_batch,
}

module _ (H : Host) where
  -- What bury does where it does not return: it cleans up after a tracked agent.
  pub bury-some :
      (a : Text) (m n : Manager H)
      → bury H a m ≡ some n
      → (m.active ≡ true)
        × ((x : ℕ) × (function_of a m.agent_to_function ≡ some x)
            × (n ≡ clean_up H a x (m.function_priorities x) m))
  unfolding bury
  bury-some a m n e = elim (Bool-cases m.active) [
    | inl t ↦ elim (Option-cases (function_of a m.agent_to_function)) [
      | inl f ↦ absurd (ground arith)
      | inr (x, f) ↦ (t, (x, f, ground arith))
    ]
    | inr t ↦ absurd (ground arith)
  ]

  -- A property of the manager that the parts of the operations keep.
  pub record IsKept (Q : Manager H → Type 0) : Type 0 where
    pub emit_keeps : (e : Event) (m : Manager H) → Q m → Q (emit H e m)
    pub finish_keeps :
        (m : Manager H)
        → Q m
        → m.pending_functions ≡ []
        → m.progress.active_agents ≡ []
        → Q (record m { active = false })
    pub lost_keeps :
        (p : H.Priority) (rest : List (H.Priority)) (m : Manager H)
        → Q m
        → m.pending_functions ≡ p ∷ rest
        → agent_for H p m ≡ none
        → Q (taken H p rest m)
    pub spawned_keeps :
        (p : H.Priority) (rest : List (H.Priority)) (a : Text) (m : Manager H)
        → Q m
        → m.pending_functions ≡ p ∷ rest
        → agent_for H p m ≡ some a
        → Q (add_agent H a (H.address p) (taken H p rest m))
    pub give_up_keeps :
        (a : Text) (x : ℕ) (m : Manager H)
        → Q m
        → m.active ≡ true
        → function_of a m.agent_to_function ≡ some x
        → (m.function_priorities x ≢ none → max_function_retries ≤ m.function_retry_count x)
        → Q (give_up H a x m)
    pub requeue_keeps :
        (a : Text) (x : ℕ) (p : H.Priority) (m : Manager H)
        → Q m
        → m.active ≡ true
        → function_of a m.agent_to_function ≡ some x
        → m.function_priorities x ≡ some p
        → m.function_retry_count x < max_function_retries
        → Q (requeue H a x p m)
    pub mark_completed_keeps :
        (a : Text) (x : ℕ) (m : Manager H)
        → Q m
        → m.active ≡ true
        → function_of a m.agent_to_function ≡ some x
        → Q (mark_completed H a x m)

  abbrev Step : Type 0
  Step = Text → Manager H → Option (Manager H)

  abbrev Keeps : (Manager H → Type 0) → Step → Type 0
  Keeps Q step = (a : Text) (m n : Manager H) → Q m → step a m ≡ some n → Q n

  module _ (Q : Manager H → Type 0) (kept : IsKept Q) where
    finish-Q : (m : Manager H) → Q m → m.pending_functions ≡ [] → Q (finish H m)
    unfolding finish
    finish-Q m q e = elim (List-cases m.progress.active_agents) [
      | inl f ↦
          let ended : Manager H = record m { active = false } in
          let event : Event = finished m.progress.total_functions m.progress.completed_functions in
          let same : emit H event ended ≡ finish H m = ground arith in
          subst Q same (kept.emit_keeps event ended (kept.finish_keeps m q e f))
      | inr (a, agents, f) ↦ subst Q (ground arith) q
    ]

    spawn_for-Q :
        (p : H.Priority) (rest : List (H.Priority)) (m : Manager H)
        → Q m
        → m.pending_functions ≡ p ∷ rest
        → Q (spawn_for H p rest m)
    unfolding spawn_for spawned
    spawn_for-Q p rest m q e = elim (Option-cases (agent_for H p m)) [
      | inl f ↦
          subst (λ o. Q (spawned H (H.address p) o (taken H p rest m))) (sym f)
            (kept.lost_keeps p rest m q e f)
      | inr (a, f) ↦
          subst (λ o. Q (spawned H (H.address p) o (taken H p rest m))) (sym f)
            (kept.emit_keeps _ _ (kept.spawned_keeps p rest a m q e f))
    ]

    pub start_next-Q : (m : Manager H) → Q m → Q (start_next H m)
    unfolding start_next
    start_next-Q m q = elim (List-cases m.pending_functions) [
      | inl e ↦ subst Q (ground arith) (finish-Q m q e)
      | inr (p, rest, e) ↦ subst Q (ground arith) (spawn_for-Q p rest m q e)
    ]

    clean_up-Q :
        (a : Text) (x : ℕ) (o : Option (H.Priority)) (m : Manager H)
        → Q m
        → m.active ≡ true
        → function_of a m.agent_to_function ≡ some x
        → m.function_priorities x ≡ o
        → Q (clean_up H a x o m)
    unfolding clean_up
    clean_up-Q a x none m q t f e = kept.give_up_keeps a x m q t f (λ h. absurd (h e))
    clean_up-Q a x (some p) m q t f e =
        elim (Bool-cases (ltb (m.function_retry_count x) max_function_retries)) [
          | inl b ↦ subst Q (ground arith) (kept.requeue_keeps a x p m q t f e (ground arith))
          | inr b ↦
              let given = kept.give_up_keeps a x m q t f (λ h. ground arith) in
              subst Q (ground arith)
                (kept.emit_keeps (given_up a x (m.function_retry_count x)) _ given)
        ]

    for_each-Keeps :
        (step : Step) (agents : List Text) (m n : Manager H)
        → Keeps Q step
        → Q m
        → for_each H step agents m ≡ some n
        → Q n
    unfolding for_each
    for_each-Keeps step [] m n k q e = subst Q (ground arith) q
    for_each-Keeps step (a ∷ agents) m n k q e = elim (Option-cases (step a m)) [
      | inl f ↦ absurd (ground arith)
      | inr (l, f) ↦ for_each-Keeps step agents l n k (k a m l q f) (ground arith)
    ]

    pub check_agent_health-Keeps :
        (step : Step) (m n : Manager H)
        → Keeps Q step
        → Q m
        → check_agent_health H step m ≡ some n
        → Q n
    unfolding check_agent_health
    check_agent_health-Keeps step m n k q e = elim (Bool-cases m.active) [
      | inl t ↦
          for_each-Keeps step (dead_agents H m.world m.agent_to_function) m n k q (ground arith)
      | inr t ↦ subst Q (ground arith) q
    ]

    pub spawn_next_agent-Keeps :
        (step : Step) (m n : Manager H)
        → Keeps Q step
        → Q m
        → spawn_next_agent H step m ≡ some n
        → Q n
    unfolding spawn_next_agent
    spawn_next_agent-Keeps step m n k q e = elim (Option-cases (check_agent_health H step m)) [
      | inl f ↦ absurd (ground arith)
      | inr (l, f) ↦
          subst Q (ground arith) (start_next-Q l (check_agent_health-Keeps step m l k q f))
    ]

    pub bury-Keeps : Keeps Q (bury H)
    bury-Keeps a m n q e =
        let (t, (x, f, s)) = bury-some a m n e in subst Q (sym s) (clean_up-Q a x _ m q t f refl)

    pub on_agent_crashed-Keeps : (fuel : ℕ) → Keeps Q (on_agent_crashed H fuel)
    unfolding on_agent_crashed
    on_agent_crashed-Keeps zero a m n q e = elim (Option-cases (bury H a m)) [
      | inl f ↦ subst Q (ground arith) q
      | inr (l, f) ↦ absurd (ground arith)
    ]
    on_agent_crashed-Keeps (suc fuel) a m n q e = elim (Option-cases (bury H a m)) [
      | inl f ↦ subst Q (ground arith) q
      | inr (l, f) ↦
          spawn_next_agent-Keeps (on_agent_crashed H fuel) l n (on_agent_crashed-Keeps fuel)
            (bury-Keeps a m l q f) (ground arith)
    ]

    pub on_agent_completed-Keeps : (fuel : ℕ) → Keeps Q (on_agent_completed H fuel)
    unfolding on_agent_completed
    on_agent_completed-Keeps fuel a m n q e = elim (Bool-cases m.active) [
      | inl t ↦ elim (Option-cases (function_of a m.agent_to_function)) [
        | inl f ↦ subst Q (ground arith) q
        | inr (x, f) ↦
            spawn_next_agent-Keeps (on_agent_crashed H fuel) (mark_completed H a x m) n
              (on_agent_crashed-Keeps fuel) (kept.mark_completed_keeps a x m q t f) (ground arith)
      ]
      | inr t ↦ subst Q (ground arith) q
    ]

    pub spawn_batch-Keeps :
        (fuel rounds : ℕ) (m n : Manager H) → Q m → spawn_batch H fuel rounds m ≡ some n → Q n
    unfolding spawn_batch
    spawn_batch-Keeps fuel zero m n q e = subst Q (ground arith) q
    spawn_batch-Keeps fuel (suc rounds) m n q e = elim (List-cases m.pending_functions) [
      | inl f ↦ subst Q (ground arith) q
      | inr (p, ps, l) ↦ elim (Option-cases (spawn_next_agent H (on_agent_crashed H fuel) m)) [
        | inl f ↦ absurd (ground arith)
        | inr (k, f) ↦
            spawn_batch-Keeps fuel rounds k n
              (spawn_next_agent-Keeps (on_agent_crashed H fuel) m k (on_agent_crashed-Keeps fuel) q
                f)
              (ground arith)
      ]
    ]
