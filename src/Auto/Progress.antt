-- ===== src/Auto/Progress.antt =====
-- How far an analysis of orchestrator/auto_decompile_manager.cpp comes, where the orchestrator always
-- gives an agent.
use ida_swarm.Base.{
  ℕ, ◌+◌, ◌≤◌, ◌≡◌, ◌≢◌, ◌⊎◌, inl, inr, refl, ap, ◌∙◌, List, [], ◌∷◌, false, arith, Bool-cases,
  List-cases,
}
use ida_swarm.Auto.{weigh, Host, Manager, enumerate_non_library_functions}
use ida_swarm.Auto.Runs.{Run, chosen}
use ida_swarm.Auto.Accounted.{tally, over_queue, over_agents, AlwaysSpawns, IsDistinct}
use ida_swarm.Auto.Live.{Run-Q_held, Run-IsLive}

module _ (H : Host) where
  pub chosen_keeps :
      (f : ℕ → ℕ) (w : H.World)
      → over_queue H f (chosen H w) ≡ weigh f (enumerate_non_library_functions (H.functions w))
  unfolding chosen weigh
  chosen_keeps f w = elim (List-cases (enumerate_non_library_functions (H.functions w))) [
    | inl e ↦ rw e refl
    | inr (x, xs, e) ↦ rw e (H.prioritize_keeps f (x ∷ xs))
  ]

  -- The functions that an analysis is about, where the manager is started.
  abbrev pub targets : Manager H → List ℕ
  targets idle = enumerate_non_library_functions (H.functions idle.world)

  pub IsDistinct-chosen :
      (idle : Manager H)
      → ((y : ℕ) → weigh (tally y) (targets idle) ≤ 1)
      → IsDistinct H (chosen H idle.world)
  IsDistinct-chosen idle d y =
      let same = chosen_keeps (tally y) idle.world in let most = d y in omega arith

  -- In a run where the orchestrator always gives an agent, and no function is found twice, each
  -- function that is to be analysed is counted once in all: in the queue, with an agent, completed
  -- or failed.
  pub Run-once :
      (idle m : Manager H)
      → AlwaysSpawns H
      → ((y : ℕ) → weigh (tally y) (targets idle) ≤ 1)
      → Run H idle m
      → (y : ℕ)
      → over_queue H (tally y) m.pending_functions
          + over_agents H (tally y) m.agent_to_function
          + weigh (tally y) m.progress.completed_function_addresses
          + weigh (tally y) m.failed_functions
        ≡ weigh (tally y) (targets idle)
  Run-once idle m always d r y =
      (Run-Q_held H idle always (IsDistinct-chosen idle d) m r).held (tally y)
      ∙ chosen_keeps (tally y) idle.world

  -- In a run where the orchestrator always gives an agent, no function is found twice, and at least one
  -- may run, either some agent is at work, or the manager is idle and each function is completed or
  -- failed.
  pub Run-goes_on :
      (idle m : Manager H)
      → AlwaysSpawns H
      → ((y : ℕ) → weigh (tally y) (targets idle) ≤ 1)
      → H.max_parallel ≢ 0
      → Run H idle m
      → (m.agent_to_function ≢ [])
        ⊎ ((m.active ≡ false)
            × ((y : ℕ)
                → weigh (tally y) m.progress.completed_function_addresses
                    + weigh (tally y) m.failed_functions
                  ≡ weigh (tally y) (targets idle)))
  unfolding weigh
  Run-goes_on idle m always d max r = elim (Bool-cases m.active) [
    | inl t ↦ inl (Run-IsLive H idle always (IsDistinct-chosen idle d) m max r t)
    | inr t ↦
        let (no_queue, no_agent) =
          (Run-Q_held H idle always (IsDistinct-chosen idle d) m r).ended t in
        inr (
          t,
          λ y.
              let all = Run-once idle m always d r y in
              let queue : over_queue H (tally y) m.pending_functions ≡ 0 =
                ap (over_queue H (tally y)) no_queue in
              let agents : over_agents H (tally y) m.agent_to_function ≡ 0 =
                ap (over_agents H (tally y)) no_agent in
              omega arith,
        )
  ]
