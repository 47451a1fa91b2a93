-- ===== src/Auto/Runs.antt =====
-- The runs of the manager of orchestrator/auto_decompile_manager.cpp: a start, and then reports that
-- an agent is done or has crashed, while the agents work. Nobody stops the analysis.
use ida_swarm.Base.{ℕ, ◌≡◌, subst, List, [], ◌∷◌, some, false, Text, arith, List-cases, inl, inr}
use ida_swarm.Auto.{Host, Manager, nothing_to_do, enumerate_non_library_functions}
use ida_swarm.Auto.Ops.{
  emit, reset, filled, on_agent_crashed, on_agent_completed, start_auto_decompile,
}
use ida_swarm.Auto.Steps.{
  IsKept, on_agent_crashed-Keeps, on_agent_completed-Keeps, spawn_batch-Keeps,
}

module _ (H : Host) where
  -- The functions of the database in the order of the queue; none where there is nothing to do.
  in_order : List ℕ → List (H.Priority)
  in_order [] = []
  in_order (x ∷ xs) = H.prioritize_functions (x ∷ xs)

  unfoldable pub chosen : H.World → List (H.Priority)
  unfolding in_order
  chosen w = in_order (enumerate_non_library_functions (H.functions w))

  -- The state after a start from an idle manager and the reports and changes after it.
  pub data Run (idle : Manager H) : Manager H → Type 0 where
    begun :
        (fuel : ℕ)
        → (m : Manager H) → idle.active ≡ false
        → start_auto_decompile H fuel idle ≡ some m
        → Run idle m
    completed :
        (fuel : ℕ)
        → (a : Text) → (m n : Manager H) → Run idle m
        → on_agent_completed H fuel a m ≡ some n
        → Run idle n
    crashed :
        (fuel : ℕ)
        → (a : Text) → (m n : Manager H) → Run idle m
        → on_agent_crashed H fuel a m ≡ some n
        → Run idle n
    -- The agents and the orchestrator go on.
    moved :
        (w : H.World)
        → (m : Manager H) → Run idle m
        → ((a : Text) → H.IsNamed m.world a → H.IsNamed w a)
        → Run idle (record m { world = w })

  -- A property that a start gives, and that the parts of the operations and the agents keep.
  pub record IsInvariant (idle : Manager H) (Q : Manager H → Type 0) : Type 0 where
    pub kept : IsKept H Q
    pub reset_has : chosen idle.world ≡ [] → Q (emit H nothing_to_do (reset H idle))
    pub filled_has : Q (filled H (chosen idle.world) idle)
    pub moved_keeps :
        (w : H.World) (m : Manager H)
        → Q m
        → ((a : Text) → H.IsNamed m.world a → H.IsNamed w a)
        → Q (record m { world = w })

  module _ (idle : Manager H) (Q : Manager H → Type 0) (i : IsInvariant idle Q) where
    begun-Q :
        (fuel : ℕ) (m : Manager H)
        → idle.active ≡ false
        → start_auto_decompile H fuel idle ≡ some m
        → Q m
    unfolding start_auto_decompile chosen
    begun-Q fuel m f e =
        elim (List-cases (enumerate_non_library_functions (H.functions idle.world))) [
          | inl l ↦
              let none_chosen : chosen idle.world ≡ [] = ground arith in
              subst Q (ground arith) (i.reset_has none_chosen)
          | inr (x, xs, l) ↦
              let these : chosen idle.world ≡ H.prioritize_functions (x ∷ xs) = ground arith in
              spawn_batch-Keeps H Q i.kept fuel H.max_parallel _ m
                (subst (λ ps. Q (filled H ps idle)) these i.filled_has) (ground arith)
        ]

    pub Run-Q : (m : Manager H) → Run idle m → Q m
    Run-Q o (begun fuel m f e) = begun-Q fuel m f e
    Run-Q o (completed fuel a m n r e) =
        on_agent_completed-Keeps H Q i.kept fuel a m n (Run-Q m r) e
    Run-Q o (crashed fuel a m n r e) = on_agent_crashed-Keeps H Q i.kept fuel a m n (Run-Q m r) e
    Run-Q o (moved w m r k) = i.moved_keeps w m (Run-Q m r) k
