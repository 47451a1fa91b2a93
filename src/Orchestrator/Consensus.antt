-- ===== src/Orchestrator/Consensus.antt =====
-- The threads of orchestrator/orchestrator.cpp that enforce a consensus, and the sessions of their
-- channels.
use ida_swarm.Base.{
  ◌≤◌, ◌≡◌, ◌≢◌, inl, inr, refl, sym, ap, subst, ◌∙◌, List, [], ◌∷◌, Option, none, some, Bool, true,
  false, ◌&&◌, Text, codes, drop, text_eq, text_eq_iff, lookup, insert, erase, lookup-insert,
  lookup-erase, keep, arith, Bool-cases, ◌==◌, if◌then◌else◌,
}
use ida_swarm.Irc.Server.{starts_with}
use ida_swarm.Orchestrator.{
  Machine, ConflictSession, Enforcement, Orchestrator, irc_message, publish,
}
use ida_swarm.Orchestrator.Messages.{
  split_pipe, is_agreed, send_message, take_part, join_conflict, is_alive, any_alive,
  clean_up_session, enforce, marked, mark_session, mark_found, mark_consensus,
  handle_manual_tool_result, join_parts, mark_parts, result_parts, enforce_if, handle_irc_message,
  monitor_channel, enforce_consensus_tool_execution, manual_result, join_mark, consensus_mark,
}
use ida_swarm.Orchestrator.Sessions.{
  flag, flag-le, threads_of, thread_ended, threads-ended, session, IsMatched, IsMatched-IsLike,
  session-insert, take_part-IsLike, join_parts-IsLike, result_parts-IsLike, monitor_channel-IsLike,
  enforce_call-IsLike,
}

module _ (M : Machine) where
  abbrev Matched : Orchestrator M → Type 0
  Matched = IsMatched M

  flag-lookup-insert :
      (channel c : Text) (s : ConflictSession) (o : Orchestrator M)
      → s.resolved ≡ true
      → flag (lookup c (insert channel s o.active_conflicts))
        ≡ (if text_eq channel c then 1 else session M c o)
  unfolding flag
  flag-lookup-insert channel c s o r =
      ap flag (lookup-insert channel c s o.active_conflicts)
      ∙ elim (Bool-cases (text_eq channel c)) [ inl t ↦ rw (t, r) refl | inr t ↦ rw t refl ]

  flag-lookup-erase :
      (channel c : Text) (m : List (Text × ConflictSession))
      → flag (lookup c (erase channel m)) ≡ (if text_eq channel c then 0 else flag (lookup c m))
  unfolding flag
  flag-lookup-erase channel c m =
      ap flag (lookup-erase channel c m)
      ∙ elim (Bool-cases (text_eq channel c)) [ inl t ↦ rw t refl | inr t ↦ rw t refl ]

  -- What is known of a channel holds of one with the same name.
  session_same :
      (channel c : Text) (o : Orchestrator M)
      → text_eq channel c ≡ true
      → session M channel o ≡ session M c o
  session_same channel c o t = ap (λ x. session M x o) ((text_eq_iff channel c).0 t)

  -- A thread is started for a session that was not resolved.
  enforce_if-IsMatched :
      (alive : Bool) (channel : Text) (s : ConflictSession) (o : Orchestrator M)
      → Matched o
      → session M channel o ≡ 0
      → s.resolved ≡ true
      → Matched (
          enforce_if M alive channel s
            (record o { active_conflicts = insert channel s o.active_conflicts }))
  unfolding enforce_if clean_up_session threads_of
  enforce_if-IsMatched true channel s o q z r c =
      let here = flag-lookup-insert channel c s o r in
      let before = q c in let same = session_same channel c o in ground arith
  enforce_if-IsMatched false channel s o q z r c =
      let here = flag-lookup-insert channel c s o r in
      let gone = flag-lookup-erase channel c (insert channel s o.active_conflicts) in
      let before = q c in let same = session_same channel c o in ground arith

  mark_session-IsMatched :
      (channel : Text) (s : ConflictSession) (o : Orchestrator M)
      → Matched o
      → flag (some s) ≡ session M channel o
      → Matched (mark_session M channel s o)
  unfolding mark_session enforce is_agreed flag
  mark_session-IsMatched channel s o q f = elim (Bool-cases (is_agreed s)) [
    | inl t ↦
        let done : ConflictSession = record s { resolved = true } in
        let next : Orchestrator M = record o {
          active_conflicts = insert channel done o.active_conflicts;
        } in
        let same : enforce M channel done next ≡ mark_session M channel s o = ground arith in
        let not_yet : session M channel o ≡ 0 = ground arith in
        subst Matched same (
          enforce_if-IsMatched (any_alive M next s.participating_agents) channel done o q not_yet
            refl)
    | inr t ↦
        let next : Orchestrator M = record o {
          active_conflicts = insert channel s o.active_conflicts;
        } in
        let same : next ≡ mark_session M channel s o = ground arith in
        subst Matched same
          (IsMatched-IsLike M o next q (refl, λ c. session-insert M channel c s o f))
  ]

  mark_found-IsMatched :
      (channel agent consensus : Text) (m : Option ConflictSession) (o : Orchestrator M)
      → Matched o
      → lookup channel o.active_conflicts ≡ m
      → Matched (mark_found M channel agent consensus m o)
  unfolding mark_found marked
  mark_found-IsMatched channel agent consensus none o q e = q
  mark_found-IsMatched channel agent consensus (some s) o q e =
      mark_session-IsMatched channel (marked M agent consensus s) o q
        (unfold flag in ap flag (sym e))

  mark_parts-IsMatched :
      (channel : Text) (parts : Option (Text × Text)) (o : Orchestrator M)
      → Matched o
      → Matched (mark_parts M channel parts o)
  unfolding mark_parts
  mark_parts-IsMatched channel none o q = q
  mark_parts-IsMatched channel (some (agent, consensus)) o q =
      mark_found-IsMatched channel agent consensus (lookup channel o.active_conflicts) o q refl

  handle_irc_message-IsMatched :
      (channel sender message : Text) (o : Orchestrator M)
      → Matched o
      → Matched (handle_irc_message M channel sender message o)
  unfolding handle_irc_message join_conflict mark_consensus handle_manual_tool_result
  handle_irc_message-IsMatched channel sender message o q =
      let seen : Orchestrator M = publish M (irc_message channel sender message) o in
      let here : Orchestrator M = take_part M channel sender seen in
      let taken = IsMatched-IsLike M seen here q (take_part-IsLike M channel sender seen) in
      elim (Bool-cases (starts_with (manual_result M) message)) [
        | inl t ↦ rw t (
            IsMatched-IsLike M seen (result_parts M (split_pipe (drop 21 message)) seen) q
              (result_parts-IsLike M (split_pipe (drop 21 message)) seen))
        | inr t ↦ elim (Bool-cases (starts_with (join_mark M) message)) [
          | inl u ↦
              rw (t, u)
                (IsMatched-IsLike M here (join_parts M (split_pipe (drop 14 message)) here) taken
                  (join_parts-IsLike M (split_pipe (drop 14 message)) here))
          | inr u ↦
              elim (Bool-cases (
                starts_with (codes "#conflict_") channel
                && starts_with (consensus_mark M) message)) [
                  | inl v ↦
                      rw (t, u, v)
                        (mark_parts-IsMatched channel (split_pipe (drop 17 message)) here taken)
                  | inr v ↦ rw (t, u, v) taken
                ]
        ]
      ]

  -- What happens: a message, a round of the monitor for a channel, and of a thread its call of the
  -- tool, its word that the consensus is complete, and its end.
  pub data Happening : Type 0 where
    message : (channel sender text : Text) → Happening
    monitored : (channel : Text) → Happening
    tool_sent : Enforcement → Happening
    announced : (channel : Text) → Happening
    ended : (channel : Text) → Happening

  unfoldable pub happens : Happening → Orchestrator M → Orchestrator M
  unfolding handle_irc_message monitor_channel enforce_consensus_tool_execution thread_ended
      threads_of clean_up_session
  happens (message channel sender text) o = handle_irc_message M channel sender text o
  happens (monitored channel) o = monitor_channel M channel o
  happens (tool_sent e) o = enforce_consensus_tool_execution M e o
  happens (announced channel) o = send_message M channel (codes "CONSENSUS_COMPLETE") o
  happens (ended channel) o =
      if threads_of channel o.enforcing == 0
      then o
      else clean_up_session M channel (record o { enforcing = thread_ended channel o.enforcing })

  unfoldable pub happen : List Happening → Orchestrator M → Orchestrator M
  unfolding happens
  happen [] o = o
  happen (h ∷ hs) o = happen hs (happens h o)

  ended-IsMatched :
      (channel : Text) (o : Orchestrator M)
      → Matched o
      → threads_of channel o.enforcing ≢ 0
      → Matched
          (clean_up_session M channel (record o { enforcing = thread_ended channel o.enforcing }))
  unfolding clean_up_session
  ended-IsMatched channel o q h c =
      let gone = flag-lookup-erase channel c o.active_conflicts in
      let fewer = threads-ended channel c o.enforcing h in
      let before = q c in
      let there = q channel in
      let same = session_same channel c o in
      let most = flag-le (lookup c o.active_conflicts) in ground arith

  happens-IsMatched : (h : Happening) (o : Orchestrator M) → Matched o → Matched (happens h o)
  unfolding happens enforce_consensus_tool_execution
  happens-IsMatched (message channel sender text) o q =
      handle_irc_message-IsMatched channel sender text o q
  happens-IsMatched (monitored channel) o q =
      IsMatched-IsLike M o (monitor_channel M channel o) q (monitor_channel-IsLike M channel o)
  happens-IsMatched (tool_sent e) o q =
      IsMatched-IsLike M o (enforce_consensus_tool_execution M e o) q (
        enforce_call-IsLike M e.channel (keep (is_alive M o) e.session.participating_agents)
          e.tool_call o)
  happens-IsMatched (announced channel) o q = q
  happens-IsMatched (ended channel) o q = elim (Bool-cases (threads_of channel o.enforcing == 0)) [
    | inl t ↦ rw t q
    | inr t ↦ rw t (ended-IsMatched channel o q (λ e. ground arith))
  ]

  happen-IsMatched : (hs : List Happening) (o : Orchestrator M) → Matched o → Matched (happen hs o)
  unfolding happen
  happen-IsMatched [] o q = q
  happen-IsMatched (h ∷ hs) o q = happen-IsMatched hs (happens h o) (happens-IsMatched h o q)

  -- From a state without conflicts and threads, whatever messages arrive and however threads and
  -- monitor go on: a channel has one thread that enforces a consensus if its session is resolved, and
  -- none otherwise; so it never has two.
  pub happen_threads :
      (hs : List Happening) (o : Orchestrator M) (c : Text)
      → o.active_conflicts ≡ []
      → o.enforcing ≡ []
      → (threads_of c (happen hs o).enforcing ≡ flag (lookup c (happen hs o).active_conflicts))
        × (threads_of c (happen hs o).enforcing ≤ 1)
  unfolding lookup flag threads_of
  happen_threads hs o c e f =
      let start : Matched o = λ d. rw (e, f) refl in
      let matched = happen-IsMatched hs o start c in
      let most = flag-le (lookup c (happen hs o).active_conflicts) in (matched, omega arith)
