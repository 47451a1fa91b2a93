-- ===== src/Auto/Load.antt =====
-- The attempts that are left for the functions in orchestrator/auto_decompile_manager.cpp.
use ida_swarm.Base.{
  ℕ, suc, ◌+◌, ◌-◌, ◌≤◌, ◌<◌, ◌≡◌, inl, inr, refl, sym, ap, subst, List, [], ◌∷◌, Option, none,
  some, Text, arith, Bool-cases, Option-cases, List-cases, ltb, ◌==◌,
}
use ida_swarm.Auto.{weigh, Host, Manager, function_of, forget, update, set_at, max_function_retries}
use ida_swarm.Auto.Ops.{
  finish, spawned, spawn_for, taken, agent_for, add_agent, drop_agent, give_up, requeue, clean_up,
  start_next, bury, mark_completed,
}
use ida_swarm.Auto.Steps.{IsKept, bury-some}
use ida_swarm.Auto.Tracked.{
  weigh-append, weigh-forget, weigh-assign, weigh_mono, IsTracked, IsTracked-IsKept, spawned_fresh,
}
use ida_swarm.Auto.Accounted.{over_queue, over_agents}

-- The agents that a function can still get, by the retries it had.
abbrev pub attempts : (ℕ → ℕ) → ℕ → ℕ
attempts retries x = suc (max_function_retries - retries x)

attempts_less : (x y : ℕ) (r : ℕ → ℕ) → attempts (set_at x (suc (r x)) r) y ≤ attempts r y
attempts_less x y r = elim (Bool-cases (x == y)) [
  | inl t ↦ let same : r x ≡ r y = ap r (ground arith) in ground arith
  | inr t ↦ ground arith
]

attempts_used :
    (x : ℕ) (r : ℕ → ℕ)
    → r x < max_function_retries
    → suc (attempts (set_at x (suc (r x)) r) x) ≤ attempts r x
attempts_used x r h = ground arith

module _ (H : Host) where
  abbrev pub left : Manager H → ℕ → ℕ
  left m = attempts m.function_retry_count

  -- The agents that the functions in the queue and with an agent can still get.
  abbrev pub load : Manager H → ℕ
  load m = over_queue H (left m) m.pending_functions + over_agents H (left m) m.agent_to_function

  pub load_forget :
      (a : Text) (x : ℕ) (m : Manager H)
      → function_of a m.agent_to_function ≡ some x
      → over_agents H (left m) m.agent_to_function
        ≡ left m x + over_agents H (left m) (forget a m.agent_to_function)
  load_forget a x m e = weigh-forget (λ b. left m b.1) a x m.agent_to_function (λ b. refl) e

  pub load-give_up :
      (a : Text) (x : ℕ) (m : Manager H)
      → function_of a m.agent_to_function ≡ some x
      → suc (load (give_up H a x m)) ≤ load m
  unfolding give_up drop_agent
  load-give_up a x m e = let here = load_forget a x m e in omega arith

  pub load-requeue :
      (a : Text) (x : ℕ) (p : H.Priority) (m : Manager H)
      → function_of a m.agent_to_function ≡ some x
      → H.address p ≡ x
      → m.function_retry_count x < max_function_retries
      → suc (load (requeue H a x p m)) ≤ load m
  unfolding requeue drop_agent weigh
  load-requeue a x p m e s l =
      let r : ℕ → ℕ = m.function_retry_count in
      let n : ℕ → ℕ = set_at x (suc (r x)) r in
      let here = load_forget a x m e in
      let queue = weigh-append (λ o. attempts n (H.address o)) m.pending_functions (p ∷ []) in
      let same : attempts n (H.address p) ≡ attempts n x = ap (attempts n) s in
      let used = attempts_used x r l in
      let less =
        weigh_mono (λ o. attempts n (H.address o)) (λ o. attempts r (H.address o))
          m.pending_functions (λ o. attempts_less x (H.address o) r) in
      let fewer =
        weigh_mono (λ b. attempts n b.1) (λ b. attempts r b.1) (forget a m.agent_to_function)
          (λ b. attempts_less x b.1 r) in
      omega arith

  load-clean_up :
      (a : Text) (x : ℕ) (o : Option (H.Priority)) (m : Manager H)
      → IsTracked H m
      → m.function_priorities x ≡ o
      → function_of a m.agent_to_function ≡ some x
      → suc (load (clean_up H a x o m)) ≤ load m
  unfolding clean_up
  load-clean_up a x none m q s e = load-give_up a x m e
  load-clean_up a x (some p) m q s e =
      elim (Bool-cases (ltb (m.function_retry_count x) max_function_retries)) [
        | inl b ↦ rw b (load-requeue a x p m e (q.saved x p s) (ground arith))
        | inr b ↦ rw b (load-give_up a x m e)
      ]

  pub load-bury :
      (a : Text) (m n : Manager H) → IsTracked H m → bury H a m ≡ some n → suc (load n) ≤ load m
  load-bury a m n q e =
      let (t, (x, f, s)) = bury-some H a m n e in
      subst (λ k. suc (load k) ≤ load m) (sym s) (load-clean_up a x _ m q refl f)

  load_lost :
      (b : ℕ) (p : H.Priority) (rest : List (H.Priority)) (m : Manager H)
      → load m ≤ b
      → m.pending_functions ≡ p ∷ rest
      → load (taken H p rest m) ≤ b
  unfolding taken weigh
  load_lost b p rest m q e =
      let queue : over_queue H (left m) m.pending_functions
          ≡ left m (H.address p) + over_queue H (left m) rest =
        ap (over_queue H (left m)) e in
      omega arith

  load_spawned :
      (b : ℕ) (p : H.Priority) (rest : List (H.Priority)) (a : Text) (m : Manager H)
      → IsTracked H m
      → load m ≤ b
      → m.pending_functions ≡ p ∷ rest
      → agent_for H p m ≡ some a
      → load (add_agent H a (H.address p) (taken H p rest m)) ≤ b
  unfolding add_agent taken weigh
  load_spawned b p rest a m t q e f =
      let queue : over_queue H (left m) m.pending_functions
          ≡ left m (H.address p) + over_queue H (left m) rest =
        ap (over_queue H (left m)) e in
      let here =
        weigh-assign (λ b. left m b.1) a (H.address p) m.agent_to_function
          (spawned_fresh H p a m t f) in
      omega arith

  load-spawn_for :
      (p : H.Priority) (rest : List (H.Priority)) (m : Manager H)
      → IsTracked H m
      → m.pending_functions ≡ p ∷ rest
      → load (spawn_for H p rest m) ≤ load m
  unfolding spawn_for spawned
  load-spawn_for p rest m q e = elim (Option-cases (agent_for H p m)) [
    | inl f ↦ rw f (load_lost (load m) p rest m (omega arith) e)
    | inr (a, f) ↦ rw f (load_spawned (load m) p rest a m q (omega arith) e f)
  ]

  pub load-start_next : (m : Manager H) → IsTracked H m → load (start_next H m) ≤ load m
  unfolding start_next finish
  load-start_next m q = elim (List-cases m.pending_functions) [
    | inl e ↦ ground arith
    | inr (p, rest, e) ↦
        let same : spawn_for H p rest m ≡ start_next H m = ground arith in
        subst (λ k. load k ≤ load m) same (load-spawn_for p rest m q e)
  ]

  pub load_completed :
      (a : Text) (x : ℕ) (m : Manager H)
      → function_of a m.agent_to_function ≡ some x
      → load (mark_completed H a x m) ≤ load m
  unfolding mark_completed drop_agent update
  load_completed a x m e = let here = load_forget a x m e in omega arith

  -- No more than so many attempts are left.
  pub record IsLoaded (b : ℕ) (m : Manager H) : Type 0 where
    pub tracked : IsTracked H m
    pub most : load m ≤ b

  pub IsLoaded-IsKept : (b : ℕ) → IsKept H (IsLoaded b)
  unfolding taken add_agent
  IsLoaded-IsKept b = record {
    emit_keeps =
        λ e m q. record { tracked = (IsTracked-IsKept H).emit_keeps e m q.tracked; most = q.most };
    finish_keeps = λ m q e f. record {
      tracked = (IsTracked-IsKept H).finish_keeps m q.tracked e f;
      most = q.most;
    };
    lost_keeps = λ p rest m q e f. record {
      tracked = (IsTracked-IsKept H).lost_keeps p rest m q.tracked e f;
      most = load_lost b p rest m q.most e;
    };
    spawned_keeps = λ p rest a m q e f. record {
      tracked = (IsTracked-IsKept H).spawned_keeps p rest a m q.tracked e f;
      most = load_spawned b p rest a m q.tracked q.most e f;
    };
    give_up_keeps = λ a x m q t f g. record {
      tracked = (IsTracked-IsKept H).give_up_keeps a x m q.tracked t f g;
      most = omega (arith, load-give_up a x m f, q.most);
    };
    requeue_keeps = λ a x p m q t f g l. record {
      tracked = (IsTracked-IsKept H).requeue_keeps a x p m q.tracked t f g l;
      most = omega (arith, load-requeue a x p m f (q.tracked.saved x p g) l, q.most);
    };
    mark_completed_keeps = λ a x m q t f. record {
      tracked = (IsTracked-IsKept H).mark_completed_keeps a x m q.tracked t f;
      most = omega (arith, load_completed a x m f, q.most);
    };
  }
