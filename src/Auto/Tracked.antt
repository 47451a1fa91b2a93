-- ===== src/Auto/Tracked.antt =====
-- The maps of orchestrator/auto_decompile_manager.cpp: what an assignment and an erasing do to a sum
-- over the agents, and the names of the agents.
use ida_swarm.Base.{
  ℕ, ◌+◌, ◌≤◌, ◌≡◌, inl, inr, refl, sym, ap, subst, List, [], ◌∷◌, ◌++◌, none, some, Text, arith,
  text_eq, text_eq_iff, ◌==◌, All-map, Bool-cases, All,
}
use ida_swarm.Auto.{weigh, Host, Manager, function_of, assign, forget, text_ltb, set_at, update}
use ida_swarm.Auto.Ops.{
  taken, agent_for, add_agent, drop_agent, give_up, requeue, mark_completed, reset, filled,
}
use ida_swarm.Auto.Steps.{IsKept}
use ida_swarm.Auto.Runs.{IsInvariant}

pub weigh-append {ℓ} :
    {A : Type ℓ} (f : A → ℕ) (xs ys : List A) → weigh f (xs ++ ys) ≡ weigh f xs + weigh f ys
unfolding weigh
weigh-append f [] ys = omega arith
weigh-append f (x ∷ xs) ys = omega (arith, weigh-append f xs ys)

pub weigh_mono {ℓ} :
    {A : Type ℓ} (f g : A → ℕ) (xs : List A) → ((x : A) → f x ≤ g x) → weigh f xs ≤ weigh g xs
unfolding weigh
weigh_mono f g [] h = omega arith
weigh_mono f g (x ∷ xs) h = omega (arith, weigh_mono f g xs h, h x)

pub weigh-forget :
    (f : Text × ℕ → ℕ) (a : Text) (x : ℕ) (m : List (Text × ℕ))
    → ((b : Text) → f (b, x) ≡ f (a, x))
    → function_of a m ≡ some x
    → weigh f m ≡ f (a, x) + weigh f (forget a m)
unfolding weigh forget function_of
weigh-forget f a x [] h e = absurd (ground arith)
weigh-forget f a x ((b, y) ∷ m) h e = elim (Bool-cases (text_eq b a)) [
  | inl t ↦
      let same : y ≡ x = ground arith in
      let at : f (b, y) ≡ f (a, x) = subst (λ z. f (b, z) ≡ f (a, x)) (sym same) (h b) in
      ground arith
  | inr t ↦ let rest = weigh-forget f a x m h (ground arith) in ground arith
]

pub weigh-assign :
    (f : Text × ℕ → ℕ) (a : Text) (x : ℕ) (m : List (Text × ℕ))
    → function_of a m ≡ none
    → weigh f (assign a x m) ≡ f (a, x) + weigh f m
unfolding weigh assign function_of
weigh-assign f a x [] e = refl
weigh-assign f a x ((b, y) ∷ m) e = elim (Bool-cases (text_eq b a)) [
  | inl t ↦ absurd (ground arith)
  | inr t ↦ elim (Bool-cases (text_ltb a b)) [
    | inl l ↦ ground arith
    | inr l ↦ let rest = weigh-assign f a x m (ground arith) in ground arith
  ]
]

module _ (P : Text × ℕ → Type 0) where
  pub All-forget : (a : Text) (m : List (Text × ℕ)) → All P m → All P (forget a m)
  unfolding forget
  All-forget a [] h = tt
  All-forget a ((b, y) ∷ m) (p, h) = elim (Bool-cases (text_eq b a)) [
    | inl t ↦ rw t h
    | inr t ↦ rw t (p, All-forget a m h)
  ]

  pub All-assign :
      (a : Text) (x : ℕ) (m : List (Text × ℕ))
      → ((b : Text) (y : ℕ) → b ≡ a → P (b, y) → P (b, x))
      → P (a, x)
      → All P m
      → All P (assign a x m)
  unfolding assign
  All-assign a x [] k q h = (q, tt)
  All-assign a x ((b, y) ∷ m) k q (p, h) = elim (Bool-cases (text_eq b a)) [
    | inl t ↦ rw t (k b y ((text_eq_iff b a).0 t) p, h)
    | inr t ↦ elim (Bool-cases (text_ltb a b)) [
      | inl l ↦ rw (t, l) (q, (p, h))
      | inr l ↦ rw (t, l) (p, All-assign a x m k q h)
    ]
  ]

pub All-function_of :
    (P : Text × ℕ → Type 0) (a : Text) (m : List (Text × ℕ))
    → All P m
    → ((x : ℕ) → ¬ P (a, x))
    → function_of a m ≡ none
unfolding function_of
All-function_of P a [] h n = refl
All-function_of P a ((b, y) ∷ m) (p, h) n = elim (Bool-cases (text_eq b a)) [
  | inl t ↦ let at : P (a, y) = subst (λ c. P (c, y)) ((text_eq_iff b a).0 t) p in absurd (n y at)
  | inr t ↦ rw t (All-function_of P a m h n)
]

module _ (H : Host) where
  -- The agents of both maps are the same, each was named, and a saved priority is of its function.
  pub record IsTracked (m : Manager H) : Type 0 where
    pub same_agents : m.progress.active_agents ≡ m.agent_to_function
    pub all_named : All (λ e. H.IsNamed m.world e.0) m.agent_to_function
    pub saved : (x : ℕ) (p : H.Priority) → m.function_priorities x ≡ some p → H.address p ≡ x

  saved_set :
      (p : H.Priority) (m : Manager H)
      → IsTracked m
      → (x : ℕ) (o : H.Priority) → set_at (H.address p) (some p) m.function_priorities x ≡ some o
      → H.address o ≡ x
  saved_set p m q x o h = elim (Bool-cases (H.address p == x)) [
    | inl t ↦
        let same : p ≡ o = ground arith in
        let at : H.address p ≡ x = ground arith in subst (λ z. H.address z ≡ x) same at
    | inr t ↦ q.saved x o (ground arith)
  ]

  -- No tracked agent has the name that a spawn gives.
  pub spawned_fresh :
      (p : H.Priority) (a : Text) (m : Manager H)
      → IsTracked m
      → agent_for H p m ≡ some a
      → function_of a m.agent_to_function ≡ none
  spawned_fresh p a m q e =
      All-function_of (λ e. H.IsNamed m.world e.0) a m.agent_to_function q.all_named
        (λ x n. H.spawn_fresh _ _ m.world a e n)

  pub IsTracked-IsKept : IsKept H IsTracked
  unfolding taken add_agent give_up requeue mark_completed drop_agent update
  IsTracked-IsKept = record {
    emit_keeps =
        λ e m q. record { same_agents = q.same_agents; all_named = q.all_named; saved = q.saved };
    finish_keeps =
        λ m q e f. record { same_agents = q.same_agents; all_named = q.all_named; saved = q.saved };
    lost_keeps = λ p rest m q e f. record {
      same_agents = q.same_agents;
      all_named = All-map (λ b n. H.spawn_keeps _ _ m.world b.0 n) m.agent_to_function q.all_named;
      saved = λ x o h. saved_set p m q x o h;
    };
    spawned_keeps = λ p rest a m q e f. record {
      same_agents = ap (assign a (H.address p)) q.same_agents;
      all_named =
          All-assign (λ b. H.IsNamed _ b.0) a (H.address p) m.agent_to_function (λ b y s n. n)
            (H.spawn-IsNamed _ _ m.world a f)
            (All-map (λ b n. H.spawn_keeps _ _ m.world b.0 n) m.agent_to_function q.all_named);
      saved = λ x o h. saved_set p m q x o h;
    };
    give_up_keeps = λ a x m q t f g. record {
      same_agents = ap (forget a) q.same_agents;
      all_named = All-forget (λ b. H.IsNamed m.world b.0) a m.agent_to_function q.all_named;
      saved = q.saved;
    };
    requeue_keeps = λ a x p m q t f g l. record {
      same_agents = ap (forget a) q.same_agents;
      all_named = All-forget (λ b. H.IsNamed m.world b.0) a m.agent_to_function q.all_named;
      saved = q.saved;
    };
    mark_completed_keeps = λ a x m q t f. record {
      same_agents = ap (forget a) q.same_agents;
      all_named = All-forget (λ b. H.IsNamed m.world b.0) a m.agent_to_function q.all_named;
      saved = q.saved;
    };
  }

  pub IsTracked-IsInvariant : (idle : Manager H) → IsInvariant H idle IsTracked
  unfolding reset filled update
  IsTracked-IsInvariant idle = record {
    kept = IsTracked-IsKept;
    reset_has = λ e. record { same_agents = refl; all_named = tt; saved = λ x p h. ground arith };
    filled_has = record { same_agents = refl; all_named = tt; saved = λ x p h. ground arith };
    moved_keeps = λ w m q k. record {
      same_agents = q.same_agents;
      all_named = All-map (λ b n. k b.0 n) m.agent_to_function q.all_named;
      saved = q.saved;
    };
  }
