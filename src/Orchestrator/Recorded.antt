-- ===== src/Orchestrator/Recorded.antt =====
-- What is known of an agent once orchestrator/orchestrator.cpp has handled its result.
use ida_swarm.Base.{
  ℕ, ◌*◌, ◌≤◌, ◌≡◌, inl, inr, refl, sym, ap, subst, ◌∙◌, List, [], ◌∷◌, ◌++◌, some, true, false,
  Text, codes, drop, text_eq, text_eq_iff, lookup, insert, lookup-insert, arith, Option-cases,
  length, if◌then◌else◌,
}
use ida_swarm.Base.External.{JsonApi}
use ida_swarm.Irc.Server.{starts_with}
use ida_swarm.Auto.{Host, Manager, function_of, is_in}
use ida_swarm.Auto.Ops.{
  taken, add_agent, drop_agent, give_up, requeue, mark_completed, on_agent_completed,
  on_agent_crashed,
}
use ida_swarm.Auto.Steps.{
  IsKept, spawn_next_agent-Keeps, on_agent_crashed-Keeps, on_agent_completed-Keeps,
}
use ida_swarm.Auto.Runs.{Run}
use ida_swarm.Auto.Progress.{targets}
use ida_swarm.Auto.Returns.{Run-returns}
use ida_swarm.Orchestrator.{
  Machine, Orchestrator, irc_message, publish, has_name, name_insert, spawn_agent_async,
  with_database, spawned_process,
}
use ida_swarm.Orchestrator.Messages.{handle_irc_message, take_part, join_mark, manual_result}
use ida_swarm.Orchestrator.Debugger.{is_debug}
use ida_swarm.Orchestrator.Joining.{has_name-name_insert}
use ida_swarm.Orchestrator.Spawning.{Analysis, orchestrator_host}
use ida_swarm.Orchestrator.Results.{
  world_of, with_world, Message, result_mark, read_result, store_result, merge_agent, merge_found,
  stored, merged, accept_result, seen, receive_message,
}
use ida_swarm.Orchestrator.Served.{host, seen-Run, stored-Run}

not_debug : (channel text : Text) → channel ≡ codes "#results" → is_debug channel text ≡ false
unfolding is_debug text_eq
not_debug channel text e =
    let closed : is_debug (codes "#results") text ≡ false = refl in
    subst (λ c. is_debug c text ≡ false) (sym e) closed

is_in_last : (x : ℕ) (s : List ℕ) → is_in x (s ++ x ∷ []) ≡ true
unfolding is_in
is_in_last x [] = ground arith
is_in_last x (y ∷ s) = ground (arith, is_in_last x s)

is_in-append : (x : ℕ) (s t : List ℕ) → is_in x s ≡ true → is_in x (s ++ t) ≡ true
unfolding is_in
is_in-append x [] t e = absurd (ground arith)
is_in-append x (y ∷ s) t e = ground (arith, is_in-append x s t)

module _ (M : Machine) where
  -- A text that starts as a result does starts with no other mark.
  not_join : (t : Text) → starts_with result_mark t ≡ true → starts_with (join_mark M) t ≡ false
  unfolding starts_with
  not_join [] e = refl
  not_join (c ∷ t) e = ground arith

  not_manual :
      (t : Text) → starts_with result_mark t ≡ true → starts_with (manual_result M) t ≡ false
  unfolding starts_with
  not_manual [] e = refl
  not_manual (c ∷ t) e = ground arith

  -- A result takes no part in a conflict: it is only shown.
  handle_irc_message-result :
      (sender text : Text) (o : Orchestrator M)
      → starts_with result_mark text ≡ true
      → handle_irc_message M (codes "#results") sender text o
        ≡ publish M (irc_message (codes "#results") sender text) o
  unfolding handle_irc_message take_part starts_with
  handle_irc_message-result sender text o e = rw (not_manual text e, not_join text e) refl

  -- The results and the completed agents are those that were kept.
  abbrev pub IsRecord : List (Text × Text) → List Text → Orchestrator M → Type 0
  IsRecord results names o = (o.agent_results ≡ results) × (o.completed_agents ≡ names)

  with_database-IsRecord :
      (results : List (Text × Text)) (names : List Text) (agent task context db : Text)
      (o : Orchestrator M)
      → IsRecord results names o
      → IsRecord results names (with_database M agent task context db o).0
  unfolding with_database spawned_process
  with_database-IsRecord results names agent task context [] o r = r
  with_database-IsRecord results names agent task context (c ∷ path) o r = ground arith

  spawn-IsRecord :
      (results : List (Text × Text)) (names : List Text) (task context : Text) (o : Orchestrator M)
      → IsRecord results names o
      → IsRecord results names (spawn_agent_async M task context o).0
  unfolding spawn_agent_async
  spawn-IsRecord results names task context o r =
      with_database-IsRecord results names _ task context _ _ r

  merge_agent-IsRecord :
      (results : List (Text × Text)) (names : List Text) (agent : Text) (o : Orchestrator M)
      → IsRecord results names o
      → IsRecord results names (merge_agent M agent o)
  unfolding merge_agent merge_found
  merge_agent-IsRecord results names agent o r = elim (Option-cases (lookup agent o.agents)) [
    | inl e ↦ subst (λ i. IsRecord results names (merge_found M agent i o)) (sym e) r
    | inr (info, e) ↦ subst (λ i. IsRecord results names (merge_found M agent i o)) (sym e) r
  ]

  module _ (J : JsonApi) (A : Analysis M) (max : ℕ) where
    abbrev pub analyst : Host
    analyst = host M J A max

    abbrev pub HasRecord : List (Text × Text) → List Text → Manager analyst → Type 0
    HasRecord results names m = IsRecord results names (world_of M J A max m)

    pub HasRecord-IsKept :
        (results : List (Text × Text)) (names : List Text)
        → IsKept analyst (HasRecord results names)
    unfolding orchestrator_host world_of taken add_agent give_up requeue mark_completed drop_agent
    HasRecord-IsKept results names = record {
      emit_keeps = λ e m q. q;
      finish_keeps = λ m q e f. q;
      lost_keeps = λ p rest m q e f. spawn-IsRecord results names _ _ _ q;
      spawned_keeps = λ p rest a m q e f. spawn-IsRecord results names _ _ _ q;
      give_up_keeps = λ a x m q t e h. q;
      requeue_keeps = λ a x p m q t e l o. q;
      mark_completed_keeps = λ a x m q t e. q;
    }

    abbrev IsDone : ℕ → Manager analyst → Type 0
    IsDone x m = is_in x m.progress.completed_function_addresses ≡ true

    IsDone-IsKept : (x : ℕ) → IsKept analyst (IsDone x)
    unfolding taken add_agent give_up requeue mark_completed drop_agent
    IsDone-IsKept x = record {
      emit_keeps = λ e m q. q;
      finish_keeps = λ m q e f. q;
      lost_keeps = λ p rest m q e f. q;
      spawned_keeps = λ p rest a m q e f. q;
      give_up_keeps = λ a y m q t e h. q;
      requeue_keeps = λ a y p m q t e l o. q;
      mark_completed_keeps =
          λ a y m q t e. is_in-append x m.progress.completed_function_addresses (y ∷ []) q;
    }

    -- The function of an agent that is done is completed.
    completed-IsDone :
        (fuel : ℕ) (a : Text) (x : ℕ) (m n : Manager analyst)
        → on_agent_completed analyst fuel a m ≡ some n
        → m.active ≡ true
        → function_of a m.agent_to_function ≡ some x
        → IsDone x n
    unfolding on_agent_completed mark_completed drop_agent
    completed-IsDone fuel a x m n e t f =
        spawn_next_agent-Keeps analyst (IsDone x) (IsDone-IsKept x) (on_agent_crashed analyst fuel)
          (mark_completed analyst a x m) n
          (on_agent_crashed-Keeps analyst (IsDone x) (IsDone-IsKept x) fuel)
          (is_in_last x m.progress.completed_function_addresses) (ground arith)

    module _ (idle : Manager analyst) (fuel : ℕ)
        (enough : 4 * length (targets analyst idle) ≤ fuel) where
      -- What is known of a result, from what was known before.
      abbrev Records : Text → Text → ℕ → Manager analyst → Manager analyst → Type 0
      Records agent report x m n =
          ((b : Text)
            → lookup b (world_of M J A max n).agent_results ≡ (
                if text_eq agent b
                then some report
                else lookup b (world_of M J A max m).agent_results))
          × ((b : Text)
              → has_name b (world_of M J A max n).completed_agents ≡ (
                  if text_eq agent b
                  then true
                  else has_name b (world_of M J A max m).completed_agents))
          × (is_in x n.progress.completed_function_addresses ≡ true)

      accept_result_lem :
          (m : Manager analyst) (agent report : Text) (x : ℕ)
          → Run analyst idle m
          → m.active ≡ true
          → function_of agent m.agent_to_function ≡ some x
          → (n : Manager analyst) × (accept_result M J A max fuel (some (agent, report)) m ≡ some n)
            × Records agent report x m n
      unfolding accept_result stored store_result merged world_of with_world
      accept_result_lem m agent report x r t f =
          let kept = stored-Run M J A max idle m agent report r in
          let before : Manager analyst = stored M J A max agent report m in
          let (k, e) = (Run-returns analyst idle before fuel kept enough agent).0 in
          let results : List (Text × Text) =
            insert agent report (world_of M J A max m).agent_results in
          let names : List Text = name_insert agent (world_of M J A max m).completed_agents in
          let held : HasRecord results names k =
            on_agent_completed-Keeps analyst (HasRecord results names)
              (HasRecord-IsKept results names) fuel agent before k (refl, refl) e in
          let (same_results, same_names) =
            merge_agent-IsRecord results names agent (world_of M J A max k) held in
          (
            merged M J A max agent k,
            ground arith,
            (
              (λ b.
                  ap (lookup b) same_results
                  ∙ lookup-insert agent b report (world_of M J A max m).agent_results),
              (λ b.
                  ap (has_name b) same_names
                  ∙ has_name-name_insert agent b (world_of M J A max m).completed_agents),
              completed-IsDone fuel agent x before k e t f,
            ),
          )

      -- In a run, with the fuel that it needs: where the result of an agent that is at work on a function
      -- arrives and can be read, it is handled to the end. The report is then the result of that
      -- agent, and every other agent has the result that it had; the agent is among the completed ones,
      -- and every other agent is if it was; and the function is completed.
      pub receive_message_lem :
          (m : Manager analyst) (t : Message) (agent report : Text) (x : ℕ)
          → Run analyst idle m
          → m.active ≡ true
          → function_of agent m.agent_to_function ≡ some x
          → t.channel ≡ codes "#results"
          → starts_with result_mark t.text ≡ true
          → read_result J (J.parse (drop 13 t.text)) ≡ some (agent, report)
          → (n : Manager analyst) × (receive_message M J A max fuel t m ≡ some n)
            × ((b : Text)
                → lookup b (world_of M J A max n).agent_results ≡ (
                    if text_eq agent b
                    then some report
                    else lookup b (world_of M J A max m).agent_results))
            × ((b : Text)
                → has_name b (world_of M J A max n).completed_agents ≡ (
                    if text_eq agent b
                    then true
                    else has_name b (world_of M J A max m).completed_agents))
            × (is_in x n.progress.completed_function_addresses ≡ true)
      unfolding receive_message seen world_of with_world
      receive_message_lem m t agent report x r active f c s e =
          let shown : Orchestrator M =
            publish M (irc_message (codes "#results") t.sender t.text) (world_of M J A max m) in
          let same : handle_irc_message M t.channel t.sender t.text (world_of M J A max m) ≡ shown =
            subst (λ d. handle_irc_message M d t.sender t.text (world_of M J A max m) ≡ shown)
              (sym c) (handle_irc_message-result t.sender t.text (world_of M J A max m) s) in
          let next : Manager analyst = seen M J A max t m in
          let (n, g, (p, q, h)) =
            accept_result_lem next agent report x (seen-Run M J A max idle m t r) active f in
          let here : text_eq t.channel (codes "#results") ≡ true =
            (text_eq_iff t.channel (codes "#results")).1 c in
          (
            n,
            rw (not_debug t.channel t.text c, here, s, e) g,
            (λ b.
                p b
                ∙ ap (λ o. if text_eq agent b then some report else lookup b o.agent_results) same),
            (λ b.
                q b
                ∙ ap (λ o. if text_eq agent b then true else has_name b o.completed_agents) same),
            h,
          )
