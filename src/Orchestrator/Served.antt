-- ===== src/Orchestrator/Served.antt =====
-- The analysis of orchestrator/auto_decompile_manager.cpp while orchestrator/orchestrator.cpp handles the
-- messages of the agents.
use ida_swarm.Base.{
  All, ℕ, ◌+◌, ◌*◌, ◌≤◌, ◌≡◌, ◌≢◌, ◌⊎◌, inl, inr, refl, List, [], ◌∷◌, Option, none, some, false,
  ◌&&◌, Text, codes, drop, text_eq, arith, Bool-cases, length,
}
use ida_swarm.Base.External.{JsonApi}
use ida_swarm.Irc.Server.{starts_with}
use ida_swarm.Auto.{weigh, Host, Manager}
use ida_swarm.Auto.Runs.{Run, begun, completed, moved}
use ida_swarm.Auto.Accounted.{tally, over_queue, over_agents, AlwaysSpawns}
use ida_swarm.Auto.Progress.{targets, Run-once, Run-goes_on}
use ida_swarm.Auto.Returns.{start_returns, Run-returns}
use ida_swarm.Orchestrator.{Machine, Orchestrator}
use ida_swarm.Orchestrator.Messages.{handle_irc_message}
use ida_swarm.Orchestrator.Spawning.{Analysis, orchestrator_host}
use ida_swarm.Orchestrator.Debugger.{is_debug, IsReadable, AlwaysAnswers}
use ida_swarm.Orchestrator.Named.{
  IsNext, handle_irc_message-IsNext, merge_agent-IsNext, handle_lldb_message-Ends,
}
use ida_swarm.Orchestrator.Results.{
  world_of, with_world, gone_on, Message, result_mark, read_result, store_result, merge_agent,
  stored, merged, debugged, accept_result, seen, receive_message, receive_each, analyse,
}

module _ (M : Machine) (J : JsonApi) (A : Analysis M) (max : ℕ) where
  abbrev pub host : Host
  host = orchestrator_host M A max

  -- A change of the orchestrator that leaves the number of the next agent is a step of a run.
  pub next_moved :
      (idle m : Manager host) (o : Orchestrator M)
      → Run host idle m
      → IsNext M (world_of M J A max m) o
      → Run host idle (with_world M J A max o m)
  unfolding orchestrator_host world_of with_world
  next_moved idle m o r e = moved o m r (λ a (n, l, s). (n, omega arith, s))

  pub seen-Run :
      (idle m : Manager host) (t : Message) → Run host idle m → Run host idle (seen M J A max t m)
  unfolding seen
  seen-Run idle m t r =
      next_moved idle m (handle_irc_message M t.channel t.sender t.text (world_of M J A max m)) r
        (handle_irc_message-IsNext M t.channel t.sender t.text (world_of M J A max m))

  pub stored-Run :
      (idle m : Manager host) (agent report : Text)
      → Run host idle m
      → Run host idle (stored M J A max agent report m)
  unfolding stored store_result
  stored-Run idle m agent report r =
      next_moved idle m (store_result M agent report (world_of M J A max m)) r refl

  merged-Run :
      (idle m : Manager host) (agent : Text)
      → Run host idle m
      → Run host idle (merged M J A max agent m)
  unfolding merged
  merged-Run idle m agent r =
      next_moved idle m (merge_agent M agent (world_of M J A max m)) r
        (merge_agent-IsNext M agent (world_of M J A max m))

  gone_on-Run :
      (idle m : Manager host) (outside : M.Outside)
      → Run host idle m
      → Run host idle (gone_on M J A max outside m)
  unfolding gone_on
  gone_on-Run idle m outside r =
      next_moved idle m (record (world_of M J A max m) { outside = outside }) r refl

  -- With fuel for the whole analysis a call comes to a state of the run.
  abbrev Serves : Manager host → Option (Manager host) → Type 0
  Serves idle o = (n : Manager host) × (o ≡ some n) × Run host idle n

  module _ (idle : Manager host) (fuel : ℕ) (enough : 4 * length (targets host idle) ≤ fuel) where
    accept_result-Serves :
        (o : Option (Text × Text)) (m : Manager host)
        → Run host idle m
        → Serves idle (accept_result M J A max fuel o m)
    unfolding accept_result
    accept_result-Serves none m r = (m, refl, r)
    accept_result-Serves (some (agent, report)) m r =
        let kept = stored-Run idle m agent report r in
        let (n, e) =
          (Run-returns host idle (stored M J A max agent report m) fuel kept enough agent).0 in
        let done = completed fuel agent (stored M J A max agent report m) n kept e in
        (merged M J A max agent n, ground arith, merged-Run idle n agent done)

    receive_message-Serves :
        (t : Message) (m : Manager host)
        → IsReadable M t.channel t.text
        → AlwaysAnswers M
        → Run host idle m
        → Serves idle (receive_message M J A max fuel t m)
    unfolding receive_message debugged
    receive_message-Serves t m readable answers r =
        let kept = seen-Run idle m t r in
        let shown : Manager host = seen M J A max t m in
        elim (Bool-cases (is_debug t.channel t.text)) [
          | inl d ↦
              let (o, e, same) =
                handle_lldb_message-Ends M t.channel t.text (world_of M J A max shown) d readable
                  answers in
              (with_world M J A max o shown, rw d (rw e refl), next_moved idle shown o kept same)
          | inr d ↦
              elim (Bool-cases
                (text_eq t.channel (codes "#results") && starts_with result_mark t.text)) [
                  | inl b ↦
                      rw (d, b)
                        (accept_result-Serves (read_result J (J.parse (drop 13 t.text))) shown kept)
                  | inr b ↦ (shown, ground arith, kept)
                ]
        ]

    pub receive_each-Serves :
        (ts : List (M.Outside × Message)) (m : Manager host)
        → All (λ e. IsReadable M e.1.channel e.1.text) ts
        → AlwaysAnswers M
        → Run host idle m
        → Serves idle (receive_each M J A max fuel ts m)
    unfolding receive_each
    receive_each-Serves [] m readable answers r = (m, refl, r)
    receive_each-Serves ((outside, t) ∷ ts) m (first, rest) answers r =
        let (n, e, s) =
          receive_message-Serves t (gone_on M J A max outside m) first answers
            (gone_on-Run idle m outside r) in
        let (k, f, u) = receive_each-Serves ts n rest answers s in (k, ground arith, u)

    -- An analysis that is started from an idle manager, with the fuel that it needs, comes to a state
    -- of a run of the manager, whatever messages the orchestrator then handles, where the numbers of
    -- requests to the debugger can be read and its answers can be dumped.
    pub analyse-Run :
        (ts : List (M.Outside × Message))
        → All (λ e. IsReadable M e.1.channel e.1.text) ts
        → AlwaysAnswers M
        → idle.active ≡ false
        → (m : Manager host) × (analyse M J A max fuel ts idle ≡ some m) × Run host idle m
    unfolding analyse
    analyse-Run ts readable answers f =
        let (m, e) = start_returns host idle fuel enough in
        let (n, g, r) = receive_each-Serves ts m readable answers (begun fuel m f e) in
        (n, ground arith, r)

    -- An analysis is started from an idle manager, with the fuel that it needs, on an orchestrator that
    -- gives an agent whenever it is asked, where no function is found twice and one agent or more may
    -- run. Whatever messages are handled then, where each number of a request to the debugger can be
    -- read and each answer of the debugger can be dumped, and however the agents go on between them, the
    -- handling ends in a state where each function that is to be analysed is counted once: in the queue,
    -- with an agent, completed or failed; and where some agent is at work, or the manager is idle and
    -- each function is completed or failed.
    pub analyse_lem :
        (ts : List (M.Outside × Message))
        → All (λ e. IsReadable M e.1.channel e.1.text) ts
        → AlwaysAnswers M
        → idle.active ≡ false
        → AlwaysSpawns host
        → ((y : ℕ) → weigh (tally y) (targets host idle) ≤ 1)
        → host.max_parallel ≢ 0
        → (m : Manager host) × (analyse M J A max fuel ts idle ≡ some m)
          × ((y : ℕ)
              → over_queue host (tally y) m.pending_functions
                  + over_agents host (tally y) m.agent_to_function
                  + weigh (tally y) m.progress.completed_function_addresses
                  + weigh (tally y) m.failed_functions
                ≡ weigh (tally y) (targets host idle))
          × ((m.agent_to_function ≢ [])
              ⊎ ((m.active ≡ false)
                  × ((y : ℕ)
                      → weigh (tally y) m.progress.completed_function_addresses
                          + weigh (tally y) m.failed_functions
                        ≡ weigh (tally y) (targets host idle))))
    analyse_lem ts readable answers f always once some_agent =
        let (m, e, r) = analyse-Run ts readable answers f in
        (m, e, Run-once host idle m always once r, Run-goes_on host idle m always once some_agent r)
