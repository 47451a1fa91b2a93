-- ===== src/Orchestrator/Agreed.antt =====
-- What a thread of orchestrator/orchestrator.cpp that enforces a consensus rests on, and what becomes
-- of an agent that is asked to join a conflict.
use ida_swarm.Base.{
  suc, ◌≤◌, ◌≡◌, ◌≢◌, inl, inr, refl, sym, ap, subst, ◌∙◌, List, [], ◌∷◌, Option, none, some, Bool,
  true, false, ◌&&◌, Text, codes, drop, lookup, insert, length, All, arith, Bool-cases,
}
use ida_swarm.Irc.Server.{starts_with}
use ida_swarm.Orchestrator.{
  Machine, ConflictSession, Enforcement, Orchestrator, irc_message, publish,
}
use ida_swarm.Orchestrator.Messages.{
  split_pipe, has_statement, each_marked, is_agreed, take_part, join_conflict, is_alive, any_alive,
  clean_up_session, enforce, enforce_if, marked, mark_session, mark_found, mark_parts,
  mark_consensus, handle_manual_tool_result, handle_irc_message, manual_result, join_mark,
  consensus_mark,
}
use ida_swarm.Orchestrator.Sessions.{
  flag, session, take_part-IsLike, join_parts-IsLike, result_parts-IsLike,
}

not_longer : (e : Enforcement) (es : List Enforcement) → es ≢ e ∷ es
not_longer e es h = let same : length es ≡ suc (length es) = ap length h in absurd (omega arith)

head_or : Enforcement → List Enforcement → Enforcement
head_or d [] = d
head_or d (e ∷ es) = e

-- Every one of the agents has stated a consensus.
abbrev pub AllStated : ConflictSession → List Text → Type 0
AllStated s = All (λ a. lookup a s.consensus_statements ≢ none)

each_marked-AllStated :
    (s : ConflictSession) (agents : List Text) → each_marked s agents ≡ true → AllStated s agents
unfolding each_marked has_statement
each_marked-AllStated s [] e = tt
each_marked-AllStated s (a ∷ agents) e =
    (λ n. ground arith, each_marked-AllStated s agents (ground arith))

module _ (M : Machine) where
  -- Two agents or more take part, all have stated a consensus, and one of them runs.
  abbrev pub IsAgreed : Orchestrator M → ConflictSession → Type 0
  IsAgreed o s =
      (2 ≤ length s.participating_agents)
      × AllStated s s.participating_agents
      × (any_alive M o s.participating_agents ≡ true)

  abbrev Rests : Text → Orchestrator M → Enforcement → Type 0
  Rests channel o e = (e.channel ≡ channel) × IsAgreed o e.session × (session M channel o ≡ 0)

  any_alive_same :
      (o n : Orchestrator M) (agents : List Text)
      → n.agents ≡ o.agents
      → n.outside ≡ o.outside
      → any_alive M n agents ≡ any_alive M o agents
  unfolding any_alive is_alive
  any_alive_same o n [] e f = refl
  any_alive_same o n (a ∷ agents) e f = rw (e, f, any_alive_same o n agents e f) refl

  enforce_if_rests :
      (alive : Bool) (channel : Text) (s : ConflictSession) (o : Orchestrator M) (e : Enforcement)
      → (enforce_if M alive channel s o).enforcing ≡ e ∷ o.enforcing
      → (alive ≡ true) × (e.channel ≡ channel) × (e.session ≡ s)
  unfolding enforce_if clean_up_session head_or
  enforce_if_rests true channel s o e h =
      let same = ap (head_or e) h in
      (refl, ap (λ d. d.channel) (sym same), ap (λ d. d.session) (sym same))
  enforce_if_rests false channel s o e h = absurd (not_longer e o.enforcing h)

  mark_session-Rests :
      (channel : Text) (s : ConflictSession) (o : Orchestrator M) (e : Enforcement)
      → flag (some s) ≡ session M channel o
      → (mark_session M channel s o).enforcing ≡ e ∷ o.enforcing
      → Rests channel o e
  unfolding mark_session enforce is_agreed flag
  mark_session-Rests channel s o e f h = elim (Bool-cases (is_agreed s)) [
    | inl t ↦
        let done : ConflictSession = record s { resolved = true } in
        let next : Orchestrator M = record o {
          active_conflicts = insert channel done o.active_conflicts;
        } in
        let same : mark_session M channel s o
            ≡ enforce_if M (any_alive M next s.participating_agents) channel done next =
          ground arith in
        let (alive, named, whole) =
          enforce_if_rests (any_alive M next s.participating_agents) channel done next e
            (sym (ap (λ x. x.enforcing) same) ∙ h) in
        let not_yet : session M channel o ≡ 0 = ground arith in
        let both : IsAgreed o done = (
          ground arith,
          each_marked-AllStated s s.participating_agents (ground arith),
          sym (any_alive_same o next s.participating_agents refl refl) ∙ alive,
        ) in
        (named, subst (IsAgreed o) (sym whole) both, not_yet)
    | inr t ↦
        let same : (mark_session M channel s o).enforcing ≡ o.enforcing = rw t refl in
        absurd (not_longer e o.enforcing (sym same ∙ h))
  ]

  mark_found-Rests :
      (channel agent consensus : Text) (m : Option ConflictSession) (o : Orchestrator M)
      (e : Enforcement)
      → lookup channel o.active_conflicts ≡ m
      → (mark_found M channel agent consensus m o).enforcing ≡ e ∷ o.enforcing
      → Rests channel o e
  unfolding mark_found marked flag
  mark_found-Rests channel agent consensus none o e l h = absurd (not_longer e o.enforcing h)
  mark_found-Rests channel agent consensus (some s) o e l h =
      mark_session-Rests channel (marked M agent consensus s) o e (ap flag (sym l)) h

  mark_parts-Rests :
      (channel : Text) (parts : Option (Text × Text)) (o : Orchestrator M) (e : Enforcement)
      → (mark_parts M channel parts o).enforcing ≡ e ∷ o.enforcing
      → Rests channel o e
  unfolding mark_parts
  mark_parts-Rests channel none o e h = absurd (not_longer e o.enforcing h)
  mark_parts-Rests channel (some (agent, consensus)) o e h =
      mark_found-Rests channel agent consensus (lookup channel o.active_conflicts) o e refl h

  take_part_rest :
      (channel sender : Text) (o : Orchestrator M)
      → ((take_part M channel sender o).agents ≡ o.agents)
        × ((take_part M channel sender o).outside ≡ o.outside)
  unfolding take_part
  take_part_rest channel sender o = elim (Bool-cases (starts_with (codes "#conflict_") channel)) [
    | inl t ↦ rw t (refl, refl)
    | inr t ↦ rw t (refl, refl)
  ]

  -- Where the handling of a message starts a thread that enforces a consensus: the thread is for the
  -- channel of the message, whose session was not resolved before; two agents or more take part in the
  -- session that it holds, each of them has stated a consensus there, and one of them still runs.
  pub handle_irc_message_lem :
      (channel sender message : Text) (o : Orchestrator M) (e : Enforcement)
      → (handle_irc_message M channel sender message o).enforcing ≡ e ∷ o.enforcing
      → (e.channel ≡ channel) × IsAgreed o e.session × (session M channel o ≡ 0)
  unfolding handle_irc_message join_conflict mark_consensus handle_manual_tool_result
  handle_irc_message_lem channel sender message o e h =
      let seen : Orchestrator M = publish M (irc_message channel sender message) o in
      let here : Orchestrator M = take_part M channel sender seen in
      let taken = take_part-IsLike M channel sender seen in
      let before : here.enforcing ≡ o.enforcing = taken.0 in
      elim (Bool-cases (starts_with (manual_result M) message)) [
        | inl t ↦
            let like = result_parts-IsLike M (split_pipe (drop 21 message)) seen in
            let same : (handle_irc_message M channel sender message o).enforcing ≡ o.enforcing =
              rw t (like.0) in
            absurd (not_longer e o.enforcing (sym same ∙ h))
        | inr t ↦ elim (Bool-cases (starts_with (join_mark M) message)) [
          | inl u ↦
              let like = join_parts-IsLike M (split_pipe (drop 14 message)) here in
              let same : (handle_irc_message M channel sender message o).enforcing ≡ o.enforcing =
                rw (t, u) (like.0 ∙ before) in
              absurd (not_longer e o.enforcing (sym same ∙ h))
          | inr u ↦
              elim (Bool-cases (
                starts_with (codes "#conflict_") channel
                && starts_with (consensus_mark M) message)) [
                  | inl v ↦
                      let same : (handle_irc_message M channel sender message o).enforcing
                          ≡ (mark_parts M channel (split_pipe (drop 17 message)) here).enforcing =
                        rw (t, u, v) refl in
                      let (named, (two, stated, alive), not_yet) =
                        mark_parts-Rests channel (split_pipe (drop 17 message)) here e
                          (sym same ∙ h ∙ ap (λ es. e ∷ es) (sym before)) in
                      let (agents, outside) = take_part_rest channel sender seen in
                      let still =
                        any_alive_same o here e.session.participating_agents agents outside in
                      (named, (two, stated, sym still ∙ alive), sym (taken.1 channel) ∙ not_yet)
                  | inr v ↦
                      let same : (handle_irc_message M channel sender message o).enforcing
                          ≡ o.enforcing =
                        rw (t, u, v) before in
                      absurd (not_longer e o.enforcing (sym same ∙ h))
                ]
        ]
      ]
