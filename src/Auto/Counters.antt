-- ===== src/Auto/Counters.antt =====
-- The counters that orchestrator/auto_decompile_manager.h reports against what the manager holds.
use ida_swarm.Base.{
  ℕ, sub64, sub64_small, suc, ◌+◌, ◌≤◌, ◌<◌, ◌≡◌, refl, sym, ap, ◌∙◌, List, [], ◌∷◌, some, true,
  Text, arith, length, length-append, word, add64,
}
use ida_swarm.Auto.{weigh, Host, AnalysisProgress, Manager, function_of, update, set_insert}
use ida_swarm.Auto.Ops.{
  taken, add_agent, drop_agent, give_up, requeue, mark_completed, reset, filled,
}
use ida_swarm.Auto.Steps.{IsKept}
use ida_swarm.Auto.Runs.{Run, IsInvariant, chosen, Run-Q}
use ida_swarm.Auto.Accounted.{
  tally, AlwaysSpawns, IsDistinct, IsAccounted, IsAccounted-IsKept, IsAccounted-IsInvariant,
  failed_inserted,
}
use ida_swarm.Auto.Progress.{targets, chosen_keeps, IsDistinct-chosen}

weigh_one {ℓ} : {A : Type ℓ} (xs : List A) → weigh (λ x. 1) xs ≡ length xs
unfolding weigh
weigh_one [] = refl
weigh_one (x ∷ xs) = omega (arith, weigh_one xs)

module _ (H : Host) where
  -- The counters agree with the queue, the agents and the lists.
  record IsCounted (ps : List (H.Priority)) (m : Manager H) : Type 0 where
    accounted : IsAccounted H ps m
    total : m.progress.total_functions ≡ length ps
    completed : m.progress.completed_functions ≡ length m.progress.completed_function_addresses
    failed : m.progress.failed_functions ≡ length m.failed_functions
    active : m.progress.active_functions ≡ length m.agent_to_function
    pending : m.progress.pending_functions ≡ length m.pending_functions

  module _ (ps : List (H.Priority)) (always : AlwaysSpawns H) (distinct : IsDistinct H ps)
      (small : length ps < word) where
    -- By number.
    numbers :
        (m : Manager H)
        → IsAccounted H ps m
        → length m.pending_functions
            + length m.agent_to_function
            + length m.progress.completed_function_addresses
            + length m.failed_functions
          ≡ length ps
    numbers m q =
        let all = q.held (λ x. 1) in
        let one = weigh_one m.pending_functions in
        let two = weigh_one m.agent_to_function in
        let three = weigh_one m.progress.completed_function_addresses in
        let four = weigh_one m.failed_functions in let five = weigh_one ps in omega arith

    -- After an update of the progress the counters agree, if those that it starts from do.
    updated :
        (m : Manager H)
        → m.progress ≡ update m.progress
        → IsAccounted H ps m
        → m.progress.total_functions ≡ length ps
        → m.progress.completed_functions ≡ length m.progress.completed_function_addresses
        → m.progress.failed_functions ≡ length m.failed_functions
        → IsCounted ps m
    unfolding update
    updated m e q t c f =
        let p : AnalysisProgress = m.progress in
        let work : length p.active_agents ≡ length m.agent_to_function =
          ap length q.tracked.same_agents in
        let all = numbers m q in
        let one = sub64_small p.total_functions p.completed_functions (omega arith) (omega arith) in
        let two =
          sub64_small (sub64 p.total_functions p.completed_functions) p.failed_functions
            (omega arith) (omega arith) in
        let three =
          sub64_small (sub64 (sub64 p.total_functions p.completed_functions) p.failed_functions)
            (length p.active_agents) (omega arith) (omega arith) in
        let left : p.pending_functions
            ≡ sub64 (sub64 (sub64 p.total_functions p.completed_functions) p.failed_functions)
                (length p.active_agents) =
          ap (λ o. o.pending_functions) e in
        record {
          accounted = q;
          total = t;
          completed = c;
          failed = f;
          active = ap (λ o. o.active_functions) e ∙ work;
          pending = omega arith;
        }

    IsAccounted-Kept : IsKept H (IsAccounted H ps)
    IsAccounted-Kept = IsAccounted-IsKept H ps always distinct

    IsCounted-give_up :
        (a : Text) (x : ℕ) (m : Manager H)
        → IsCounted ps m
        → m.active ≡ true
        → function_of a m.agent_to_function ≡ some x
        → IsAccounted H ps (give_up H a x m)
        → IsCounted ps (give_up H a x m)
    unfolding give_up drop_agent
    IsCounted-give_up a x m q t f k =
        let inserted = failed_inserted H ps always distinct a x m q.accounted f in
        let more : length (set_insert x m.failed_functions) ≡ suc (length m.failed_functions) =
          ap length inserted in
        let all = numbers (give_up H a x m) k in
        let known = q.failed in
        let plus : add64 m.progress.failed_functions 1 ≡ suc (length m.failed_functions) =
          unfold add64 in omega arith in
        updated (give_up H a x m) refl k q.total q.completed (omega arith)

    IsCounted-completed :
        (a : Text) (x : ℕ) (m : Manager H)
        → IsCounted ps m
        → IsAccounted H ps (mark_completed H a x m)
        → IsCounted ps (mark_completed H a x m)
    unfolding mark_completed drop_agent
    IsCounted-completed a x m q k =
        let longer = length-append m.progress.completed_function_addresses (x ∷ []) in
        let all = numbers (mark_completed H a x m) k in
        let known = q.completed in
        let plus : add64 m.progress.completed_functions 1
            ≡ suc (length m.progress.completed_function_addresses) =
          unfold add64 in omega arith in
        updated (mark_completed H a x m) refl k q.total (omega arith) q.failed

    IsCounted-IsKept : IsKept H (IsCounted ps)
    unfolding taken add_agent requeue drop_agent
    IsCounted-IsKept = record {
      emit_keeps = λ e m q. record {
        accounted = IsAccounted-Kept.emit_keeps e m q.accounted;
        total = q.total;
        completed = q.completed;
        failed = q.failed;
        active = q.active;
        pending = q.pending;
      };
      finish_keeps = λ m q e f. record {
        accounted = IsAccounted-Kept.finish_keeps m q.accounted e f;
        total = q.total;
        completed = q.completed;
        failed = q.failed;
        active = q.active;
        pending = q.pending;
      };
      lost_keeps = λ p rest m q e f. absurd (always _ _ _ f);
      spawned_keeps = λ p rest a m q e f.
          updated (add_agent H a (H.address p) (taken H p rest m)) refl
            (IsAccounted-Kept.spawned_keeps p rest a m q.accounted e f) q.total q.completed
            q.failed;
      give_up_keeps = λ a x m q t f g.
          IsCounted-give_up a x m q t f (IsAccounted-Kept.give_up_keeps a x m q.accounted t f g);
      requeue_keeps = λ a x p m q t f g l.
          updated (requeue H a x p m) refl
            (IsAccounted-Kept.requeue_keeps a x p m q.accounted t f g l) q.total q.completed
            q.failed;
      mark_completed_keeps = λ a x m q t f.
          IsCounted-completed a x m q (IsAccounted-Kept.mark_completed_keeps a x m q.accounted t f);
    }

  module _ (idle : Manager H) (always : AlwaysSpawns H)
      (distinct : IsDistinct H (chosen H idle.world))
      (small : length (chosen H idle.world) < word) where
    IsCounted-IsInvariant : IsInvariant H idle (IsCounted (chosen H idle.world))
    unfolding reset filled
    IsCounted-IsInvariant =
        let accounted = IsAccounted-IsInvariant H idle always distinct in
        record {
          kept = IsCounted-IsKept (chosen H idle.world) always distinct small;
          reset_has = λ e. record {
            accounted = accounted.reset_has e;
            total = sym (ap length e);
            completed = refl;
            failed = refl;
            active = refl;
            pending = refl;
          };
          filled_has =
              updated (chosen H idle.world) always distinct small
                (filled H (chosen H idle.world) idle) refl accounted.filled_has refl refl refl;
          moved_keeps = λ w m q k. record {
            accounted = accounted.moved_keeps w m q.accounted k;
            total = q.total;
            completed = q.completed;
            failed = q.failed;
            active = q.active;
            pending = q.pending;
          };
        }

  -- In a run where the orchestrator always gives an agent, and no function is found twice, the
  -- counters that are reported agree with the work: the total with the functions that are to be
  -- analysed, the number completed and the number failed with their lists, the number active with the
  -- agents, and the number pending, which is a difference, with the queue.
  pub Run-counters :
      (idle m : Manager H)
      → AlwaysSpawns H
      → ((y : ℕ) → weigh (tally y) (targets H idle) ≤ 1)
      → length (targets H idle) < word
      → Run H idle m
      → (m.progress.total_functions ≡ length (targets H idle))
        × (m.progress.completed_functions ≡ length m.progress.completed_function_addresses)
        × (m.progress.failed_functions ≡ length m.failed_functions)
        × (m.progress.active_functions ≡ length m.agent_to_function)
        × (m.progress.pending_functions ≡ length m.pending_functions)
  Run-counters idle m always d small r =
      let all = chosen_keeps H (λ x. 1) idle.world in
      let here = weigh_one (chosen H idle.world) in
      let there = weigh_one (targets H idle) in
      let q =
        Run-Q H idle _
          (IsCounted-IsInvariant idle always (IsDistinct-chosen H idle d) (omega arith)) m r in
      let total = q.total in (omega arith, q.completed, q.failed, q.active, q.pending)
