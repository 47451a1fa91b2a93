-- ===== src/Auto/Accounted.antt =====
-- Where the functions are that orchestrator/auto_decompile_manager.cpp has analysed: in the queue,
-- with an agent, completed or failed.
use ida_swarm.Base.{
  ℕ, ◌+◌, ◌≤◌, ◌≡◌, ◌≢◌, refl, sym, ap, ◌∙◌, List, [], ◌∷◌, none, some, true, false, Text, arith,
  ◌==◌, Bool-cases, inl, inr, if◌then◌else◌,
}
use ida_swarm.Auto.{weigh, Host, Manager, function_of, forget, update, is_in, set_insert}
use ida_swarm.Auto.Ops.{
  taken, agent_for, add_agent, drop_agent, give_up, requeue, mark_completed, reset, filled,
}
use ida_swarm.Auto.Steps.{IsKept}
use ida_swarm.Auto.Runs.{IsInvariant, chosen}
use ida_swarm.Auto.Tracked.{
  weigh-append, weigh-forget, weigh-assign, IsTracked, IsTracked-IsKept, IsTracked-IsInvariant,
  spawned_fresh,
}

-- One for the function itself, nothing for another.
unfoldable pub tally : ℕ → ℕ → ℕ
tally y x = if x == y then 1 else 0

tally_self : (x : ℕ) → tally x x ≡ 1
unfolding tally
tally_self x = ground arith

is_in_counts : (x : ℕ) (s : List ℕ) → is_in x s ≡ true → 1 ≤ weigh (tally x) s
unfolding is_in weigh tally
is_in_counts x [] e = absurd (ground arith)
is_in_counts x (y ∷ s) e = ground (arith, is_in_counts x s)

module _ (H : Host) where
  -- The sum of a measure over the functions of a queue, and over all that a manager holds.
  abbrev pub over_queue : (ℕ → ℕ) → List (H.Priority) → ℕ
  over_queue f = weigh (λ p. f (H.address p))

  abbrev pub over_agents : (ℕ → ℕ) → List (Text × ℕ) → ℕ
  over_agents f = weigh (λ e. f e.1)

  abbrev pub over_all : (ℕ → ℕ) → Manager H → ℕ
  over_all f m =
      over_queue f m.pending_functions
      + over_agents f m.agent_to_function
      + weigh f m.progress.completed_function_addresses
      + weigh f m.failed_functions

  -- The orchestrator gives an agent whenever it is asked.
  abbrev pub AlwaysSpawns : Type 0
  AlwaysSpawns = (task context : Text) (w : H.World) → (H.spawn_agent_async task context w).1 ≢ none

  -- No function is twice in a queue.
  abbrev pub IsDistinct : List (H.Priority) → Type 0
  IsDistinct ps = (y : ℕ) → over_queue (tally y) ps ≤ 1

  -- By any measure, the manager holds the functions that were chosen; where it is idle, none of them
  -- is in the queue or with an agent.
  pub record IsAccounted (ps : List (H.Priority)) (m : Manager H) : Type 0 where
    pub tracked : IsTracked H m
    pub held : (f : ℕ → ℕ) → over_all f m ≡ over_queue f ps
    pub ended : m.active ≡ false → (m.pending_functions ≡ []) × (m.agent_to_function ≡ [])

  module _ (ps : List (H.Priority)) (always : AlwaysSpawns) (distinct : IsDistinct ps) where
    -- A function with an agent has not failed.
    pub not_failed :
        (a : Text) (x : ℕ) (m : Manager H)
        → IsAccounted ps m
        → function_of a m.agent_to_function ≡ some x
        → is_in x m.failed_functions ≡ false
    not_failed a x m q f = elim (Bool-cases (is_in x m.failed_functions)) [
      | inl t ↦
          let one = tally_self x in
          let here = weigh-forget (λ e. tally x e.1) a x m.agent_to_function (λ b. refl) f in
          let failed = is_in_counts x m.failed_functions t in
          let all = q.held (tally x) in let most = distinct x in absurd (omega arith)
      | inr t ↦ t
    ]

    held_forget :
        (a : Text) (x : ℕ) (f : ℕ → ℕ) (m : Manager H)
        → function_of a m.agent_to_function ≡ some x
        → over_agents f m.agent_to_function ≡ f x + over_agents f (forget a m.agent_to_function)
    held_forget a x f m e = weigh-forget (λ b. f b.1) a x m.agent_to_function (λ b. refl) e

    pub failed_inserted :
        (a : Text) (x : ℕ) (m : Manager H)
        → IsAccounted ps m
        → function_of a m.agent_to_function ≡ some x
        → set_insert x m.failed_functions ≡ x ∷ m.failed_functions
    unfolding set_insert
    failed_inserted a x m q f = rw (not_failed a x m q f) refl

    held_give_up :
        (a : Text) (x : ℕ) (m : Manager H)
        → IsAccounted ps m
        → function_of a m.agent_to_function ≡ some x
        → (f : ℕ → ℕ) → over_all f (give_up H a x m) ≡ over_queue f ps
    unfolding give_up drop_agent weigh
    held_give_up a x m q e f =
        let here = held_forget a x f m e in
        let all = q.held f in rw (failed_inserted a x m q e) (omega arith)

    held_requeue :
        (a : Text) (x : ℕ) (p : H.Priority) (m : Manager H)
        → IsAccounted ps m
        → function_of a m.agent_to_function ≡ some x
        → m.function_priorities x ≡ some p
        → (f : ℕ → ℕ) → over_all f (requeue H a x p m) ≡ over_queue f ps
    unfolding requeue drop_agent weigh
    held_requeue a x p m q e s f =
        let here = held_forget a x f m e in
        let same : f (H.address p) ≡ f x = ap f (q.tracked.saved x p s) in
        let queue = weigh-append (λ o. f (H.address o)) m.pending_functions (p ∷ []) in
        let all = q.held f in omega arith

    held_completed :
        (a : Text) (x : ℕ) (m : Manager H)
        → IsAccounted ps m
        → function_of a m.agent_to_function ≡ some x
        → (f : ℕ → ℕ) → over_all f (mark_completed H a x m) ≡ over_queue f ps
    unfolding mark_completed drop_agent weigh update
    held_completed a x m q e f =
        let here = held_forget a x f m e in
        let done = weigh-append f m.progress.completed_function_addresses (x ∷ []) in
        let all = q.held f in omega arith

    held_spawned :
        (p : H.Priority) (rest : List (H.Priority)) (a : Text) (m : Manager H)
        → IsAccounted ps m
        → m.pending_functions ≡ p ∷ rest
        → agent_for H p m ≡ some a
        → (f : ℕ → ℕ)
        → over_all f (add_agent H a (H.address p) (taken H p rest m)) ≡ over_queue f ps
    unfolding add_agent taken weigh update
    held_spawned p rest a m q e s f =
        let fresh = spawned_fresh H p a m q.tracked s in
        let here = weigh-assign (λ b. f b.1) a (H.address p) m.agent_to_function fresh in
        let queue : over_queue f m.pending_functions ≡ f (H.address p) + over_queue f rest =
          ap (over_queue f) e in
        let all = q.held f in omega arith

    -- A pending function is only where the manager is active.
    active_pending :
        (p : H.Priority) (rest : List (H.Priority)) (m : Manager H)
        → IsAccounted ps m
        → m.pending_functions ≡ p ∷ rest
        → m.active ≢ false
    active_pending p rest m q e f = let empty = (q.ended f).0 in ground arith

    pub IsAccounted-IsKept : IsKept H (IsAccounted ps)
    unfolding taken add_agent give_up requeue mark_completed drop_agent update
    IsAccounted-IsKept = record {
      emit_keeps = λ e m q. record {
        tracked = (IsTracked-IsKept H).emit_keeps e m q.tracked;
        held = q.held;
        ended = q.ended;
      };
      finish_keeps = λ m q e f. record {
        tracked = (IsTracked-IsKept H).finish_keeps m q.tracked e f;
        held = q.held;
        ended = λ h. (e, sym q.tracked.same_agents ∙ f);
      };
      lost_keeps = λ p rest m q e f. absurd (always _ _ _ f);
      spawned_keeps = λ p rest a m q e f. record {
        tracked = (IsTracked-IsKept H).spawned_keeps p rest a m q.tracked e f;
        held = held_spawned p rest a m q e f;
        ended = λ h. absurd (active_pending p rest m q e h);
      };
      give_up_keeps = λ a x m q t f g. record {
        tracked = (IsTracked-IsKept H).give_up_keeps a x m q.tracked t f g;
        held = held_give_up a x m q f;
        ended = λ h. absurd (ground arith);
      };
      requeue_keeps = λ a x p m q t f g l. record {
        tracked = (IsTracked-IsKept H).requeue_keeps a x p m q.tracked t f g l;
        held = held_requeue a x p m q f g;
        ended = λ h. absurd (ground arith);
      };
      mark_completed_keeps = λ a x m q t f. record {
        tracked = (IsTracked-IsKept H).mark_completed_keeps a x m q.tracked t f;
        held = held_completed a x m q f;
        ended = λ h. absurd (ground arith);
      };
    }

  module _ (idle : Manager H) (always : AlwaysSpawns)
      (distinct : IsDistinct (chosen H idle.world)) where
    pub IsAccounted-IsInvariant : IsInvariant H idle (IsAccounted (chosen H idle.world))
    unfolding reset filled update weigh
    IsAccounted-IsInvariant = record {
      kept = IsAccounted-IsKept (chosen H idle.world) always distinct;
      reset_has = λ e. record {
        tracked = (IsTracked-IsInvariant H idle).reset_has e;
        held = λ f. ap (over_queue f) (sym e);
        ended = λ h. (refl, refl);
      };
      filled_has = record {
        tracked = (IsTracked-IsInvariant H idle).filled_has;
        held = λ f. omega arith;
        ended = λ h. absurd (ground arith);
      };
      moved_keeps = λ w m q k. record {
        tracked = (IsTracked-IsInvariant H idle).moved_keeps w m q.tracked k;
        held = q.held;
        ended = q.ended;
      };
    }
