-- ===== src/Auto/Ops.antt =====
-- The operations of orchestrator/auto_decompile_manager.cpp. Where spawn_next_agent,
-- check_agent_health and on_agent_crashed call each other, on_agent_crashed runs on fuel, one unit
-- for each crash that it cleans up; `none` is where the fuel runs out.
use ida_swarm.Base.{
  ℕ, zero, suc, List, [], ◌∷◌, ◌++◌, Option, none, some, Bool, true, false, Text, codes, length,
  add64, ltb, if◌then◌else◌,
}
use ida_swarm.Auto.{
  Host, no_progress, Event, nothing_to_do, started, progress_made, retried, given_up, finished,
  stopped, Manager, max_function_retries, update, set_insert, function_of, assign, forget, set_at,
  enumerate_non_library_functions, display_name, generate_function_analysis_prompt,
}

module _ (H : Host) where
  abbrev pub emit : Event → Manager H → Manager H
  emit e m = record m { events = e ∷ m.events }

  -- The end of an agent in both maps, and the update of the counters.
  unfoldable pub drop_agent : Text → Manager H → Manager H
  unfolding update forget
  drop_agent a m = record m {
    agent_to_function = forget a m.agent_to_function;
    progress = update (record m.progress { active_agents = forget a m.progress.active_agents });
  }

  unfoldable pub add_agent : Text → ℕ → Manager H → Manager H
  unfolding update assign
  add_agent a x m = record m {
    agent_to_function = assign a x m.agent_to_function;
    progress = update (record m.progress { active_agents = assign a x m.progress.active_agents });
  }

  abbrev pub has_agents : Manager H → Bool
  has_agents m = elim m.progress.active_agents [ [] ↦ false | a ∷ agents ↦ true ]

  -- spawn_next_agent where the queue is empty.
  unfoldable pub finish : Manager H → Manager H
  finish m =
      if has_agents m
      then m
      else emit (finished m.progress.total_functions m.progress.completed_functions)
          (record m { active = false })

  -- What follows a spawn that gave an agent, or an error.
  unfoldable pub spawned : ℕ → Option Text → Manager H → Manager H
  unfolding add_agent
  spawned x none m = m
  spawned x (some a) m = let n = add_agent a x m in emit (progress_made n.progress none) n

  abbrev pub spawn_task : ℕ → H.World → Text
  spawn_task x w = generate_function_analysis_prompt x (display_name x (H.get_name w x))

  -- The front of the queue is taken, its priority saved, and an agent asked for.
  unfoldable pub taken : H.Priority → List (H.Priority) → Manager H → Manager H
  taken p rest m = record m {
    pending_functions = rest;
    function_priorities = set_at (H.address p) (some p) m.function_priorities;
    world =
        (H.spawn_agent_async (spawn_task (H.address p) m.world) (codes "auto_decompile") m.world).0;
  }

  abbrev pub agent_for : H.Priority → Manager H → Option Text
  agent_for p m =
      (H.spawn_agent_async (spawn_task (H.address p) m.world) (codes "auto_decompile") m.world).1

  -- The function at the front of the queue gets an agent.
  unfoldable pub spawn_for : H.Priority → List (H.Priority) → Manager H → Manager H
  unfolding spawned taken
  spawn_for p rest m = spawned (H.address p) (agent_for p m) (taken p rest m)

  -- spawn_next_agent after the check of the agents' health.
  unfoldable pub start_next : Manager H → Manager H
  unfolding finish spawn_for
  start_next m = elim m.pending_functions [ [] ↦ finish m | p ∷ rest ↦ spawn_for p rest m ]

  -- The function of a crashed agent is given up.
  unfoldable pub give_up : Text → ℕ → Manager H → Manager H
  unfolding drop_agent set_insert
  give_up a x m = drop_agent a (record m {
    failed_functions = set_insert x m.failed_functions;
    progress = record m.progress { failed_functions = add64 m.progress.failed_functions 1 };
  })

  unfoldable pub requeue : Text → ℕ → H.Priority → Manager H → Manager H
  unfolding drop_agent
  requeue a x p m =
      let retry_count = suc (m.function_retry_count x) in
      emit (retried a x retry_count) (
        drop_agent a (record m {
          function_retry_count = set_at x retry_count m.function_retry_count;
          pending_functions = m.pending_functions ++ p ∷ [];
        }))

  -- A crash of the agent of a function, by the priority that was saved for it.
  unfoldable pub clean_up : Text → ℕ → Option (H.Priority) → Manager H → Manager H
  unfolding give_up requeue
  clean_up a x none m = give_up a x m
  clean_up a x (some p) m =
      if ltb (m.function_retry_count x) max_function_retries
      then requeue a x p m
      else emit (given_up a x (m.function_retry_count x)) (give_up a x m)

  -- on_agent_crashed up to its call of spawn_next_agent; `none` where it returns before.
  unfoldable pub bury : Text → Manager H → Option (Manager H)
  unfolding clean_up function_of
  bury a m =
      if m.active
      then elim (function_of a m.agent_to_function) [
        | none ↦ none
        | some x ↦ some (clean_up a x (m.function_priorities x) m)
      ]
      else none

  unfoldable pub dead_agents : H.World → List (Text × ℕ) → List Text
  dead_agents w [] = []
  dead_agents w ((a, x) ∷ agents) =
      let rest = dead_agents w agents in if H.has_crashed w a then a ∷ rest else rest

  -- Runs a step for each agent, in order.
  unfoldable pub for_each :
      (Text → Manager H → Option (Manager H)) → List Text → Manager H → Option (Manager H)
  for_each step [] m = some m
  for_each step (a ∷ agents) m = elim (step a m) [ none ↦ none | some n ↦ for_each step agents n ]

  -- check_agent_health and spawn_next_agent, by what they do about a crash.
  unfoldable pub check_agent_health :
      (Text → Manager H → Option (Manager H)) → Manager H → Option (Manager H)
  unfolding for_each dead_agents
  check_agent_health crashed m =
      if m.active then for_each crashed (dead_agents m.world m.agent_to_function) m else some m

  unfoldable pub spawn_next_agent :
      (Text → Manager H → Option (Manager H)) → Manager H → Option (Manager H)
  unfolding check_agent_health start_next
  spawn_next_agent crashed m = elim (check_agent_health crashed m) [
    | none ↦ none
    | some n ↦ some (start_next n)
  ]

  unfoldable pub on_agent_crashed : ℕ → Text → Manager H → Option (Manager H)
  unfolding bury spawn_next_agent
  on_agent_crashed zero a m = elim (bury a m) [ none ↦ some m | some n ↦ none ]
  on_agent_crashed (suc fuel) a m = elim (bury a m) [
    | none ↦ some m
    | some n ↦ spawn_next_agent (on_agent_crashed fuel) n
  ]

  -- on_agent_completed up to its call of spawn_next_agent, for a tracked agent.
  unfoldable pub mark_completed : Text → ℕ → Manager H → Manager H
  unfolding drop_agent set_insert
  mark_completed a x m =
      let n = drop_agent a (record m {
        completed_functions = set_insert x m.completed_functions;
        progress = record m.progress {
          completed_functions = add64 m.progress.completed_functions 1;
          completed_function_addresses = m.progress.completed_function_addresses ++ x ∷ [];
        };
      }) in
      emit (progress_made n.progress (some x)) n

  unfoldable pub on_agent_completed : ℕ → Text → Manager H → Option (Manager H)
  unfolding mark_completed function_of spawn_next_agent on_agent_crashed
  on_agent_completed fuel a m =
      if m.active
      then elim (function_of a m.agent_to_function) [
        | none ↦ some m
        | some x ↦ spawn_next_agent (on_agent_crashed fuel) (mark_completed a x m)
      ]
      else some m

  -- The state that a start resets.
  unfoldable pub reset : Manager H → Manager H
  reset m = record m {
    progress = no_progress;
    completed_functions = [];
    agent_to_function = [];
    pending_functions = [];
    function_priorities = λ x. none;
    function_retry_count = λ x. 0;
    failed_functions = [];
  }

  -- The queue is filled, and the manager is active.
  unfoldable pub filled : List (H.Priority) → Manager H → Manager H
  unfolding reset update
  filled ps m = emit (started (length ps)) (record (reset m) {
    active = true;
    pending_functions = ps;
    progress = update (record no_progress { total_functions = length ps });
  })

  -- The loop over the first batch, for the rounds that are left.
  unfoldable pub spawn_batch : ℕ → ℕ → Manager H → Option (Manager H)
  unfolding on_agent_crashed spawn_next_agent
  spawn_batch fuel zero m = some m
  spawn_batch fuel (suc rounds) m = elim m.pending_functions [
    | [] ↦ some m
    | p ∷ ps ↦ elim (spawn_next_agent (on_agent_crashed fuel) m) [
      | none ↦ none
      | some n ↦ spawn_batch fuel rounds n
    ]
  ]

  unfoldable pub start_auto_decompile : ℕ → Manager H → Option (Manager H)
  unfolding reset filled spawn_batch enumerate_non_library_functions
  start_auto_decompile fuel m =
      if m.active then some m else elim (enumerate_non_library_functions (H.functions m.world)) [
        | [] ↦ some (emit nothing_to_do (reset m))
        | x ∷ xs ↦ spawn_batch fuel H.max_parallel (filled (H.prioritize_functions (x ∷ xs)) m)
      ]

  unfoldable pub stop_analysis : Manager H → Manager H
  stop_analysis m =
      if m.active
      then emit (stopped m.progress.total_functions m.progress.completed_functions) (record m {
        active = false;
        pending_functions = [];
        function_priorities = λ x. none;
        function_retry_count = λ x. 0;
        failed_functions = [];
      })
      else m
