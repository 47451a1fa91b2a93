-- ===== src/Orchestrator/Sessions.antt =====
-- The sessions of conflicts and the threads of enforcement of orchestrator/orchestrator.cpp, under the
-- operations that are about neither.
use ida_swarm.Base.{
  ℕ, ◌+◌, ◌≤◌, ◌≡◌, ◌≢◌, inl, inr, refl, sym, ap, ◌∙◌, List, [], ◌∷◌, Option, none, some, Bool,
  false, ◌||◌, Text, codes, text_eq, text_eq_iff, lookup, insert, lookup-insert, map, length, arith,
  Bool-cases, ◌==◌, if◌then◌else◌,
}
use ida_swarm.Irc.Server.{starts_with}
use ida_swarm.Orchestrator.{
  Machine, AgentInfo, ConflictSession, Enforcement, Orchestrator, has_name,
}
use ida_swarm.Orchestrator.Messages.{
  split_pipe, or_new, take_part, resurrect, join_agent, answered, join_parts, status_parts,
  result_parts, enforce_call, session_parts, monitor_session, session_of, monitor_channel,
  send_each,
}

-- One for a session that is resolved.
unfoldable pub flag : Option ConflictSession → ℕ
flag none = 0
flag (some s) = if s.resolved then 1 else 0

pub flag-le : (m : Option ConflictSession) → flag m ≤ 1
unfolding flag
flag-le none = omega arith
flag-le (some s) = ground arith

unfoldable pub threads_of : Text → List Enforcement → ℕ
threads_of c [] = 0
threads_of c (e ∷ es) = (if text_eq e.channel c then 1 else 0) + threads_of c es

-- The first thread of a channel ends.
unfoldable pub thread_ended : Text → List Enforcement → List Enforcement
thread_ended c [] = []
thread_ended c (e ∷ es) = if text_eq e.channel c then es else e ∷ thread_ended c es

pub threads-ended :
    (c d : Text) (es : List Enforcement)
    → threads_of c es ≢ 0
    → (if text_eq c d then 1 else 0) + threads_of d (thread_ended c es) ≡ threads_of d es
unfolding threads_of thread_ended
threads-ended c d [] h = absurd (h refl)
threads-ended c d (e ∷ es) h = elim (Bool-cases (text_eq e.channel c)) [
  | inl t ↦
      let same : e.channel ≡ c = (text_eq_iff e.channel c).0 t in
      let here : text_eq e.channel d ≡ text_eq c d = ap (λ x. text_eq x d) same in
      rw (t, here) (omega arith)
  | inr t ↦ let rest = threads-ended c d es (λ z. h (rw t (omega arith))) in rw t (omega arith)
]

module _ (M : Machine) where
  abbrev pub session : Text → Orchestrator M → ℕ
  session c o = flag (lookup c o.active_conflicts)

  -- A channel has one thread if its session is resolved, and none otherwise.
  abbrev pub IsMatched : Orchestrator M → Type 0
  IsMatched o = (c : Text) → threads_of c o.enforcing ≡ session c o

  -- Neither the threads nor what is resolved has changed.
  abbrev pub IsLike : Orchestrator M → Orchestrator M → Type 0
  IsLike o n = (n.enforcing ≡ o.enforcing) × ((c : Text) → session c n ≡ session c o)

  pub IsMatched-IsLike : (o n : Orchestrator M) → IsMatched o → IsLike o n → IsMatched n
  IsMatched-IsLike o n q (same, sessions) c = ap (threads_of c) same ∙ (q c ∙ sym (sessions c))

  -- A session is put in the table with the flag that it had.
  pub session-insert :
      (c d : Text) (s : ConflictSession) (o : Orchestrator M)
      → flag (some s) ≡ session c o
      → flag (lookup d (insert c s o.active_conflicts)) ≡ session d o
  session-insert c d s o e =
      ap flag (lookup-insert c d s o.active_conflicts) ∙ elim (Bool-cases (text_eq c d)) [
        | inl t ↦
            let same : session c o ≡ session d o = ap (λ x. session x o) ((text_eq_iff c d).0 t) in
            rw t (e ∙ same)
        | inr t ↦ rw t refl
      ]

  flag-or_new :
      (m : Option ConflictSession) (agents : List Text)
      → flag (some (record (or_new m) { participating_agents = agents })) ≡ flag m
  unfolding flag or_new
  flag-or_new none agents = refl
  flag-or_new (some s) agents = refl

  pub take_part-IsLike :
      (channel sender : Text) (o : Orchestrator M) → IsLike o (take_part M channel sender o)
  unfolding take_part
  take_part-IsLike channel sender o = elim (Bool-cases (starts_with (codes "#conflict_") channel)) [
    | inl t ↦ rw t (
      refl,
      λ c. session-insert channel c _ o (flag-or_new (lookup channel o.active_conflicts) _),
    )
    | inr t ↦ rw t (refl, λ c. refl)
  ]

  pub join_agent-IsLike :
      (target channel : Text) (i : Option AgentInfo) (o : Orchestrator M)
      → IsLike o (join_agent M target channel i o)
  unfolding join_agent resurrect
  join_agent-IsLike target channel none o = (refl, λ c. refl)
  join_agent-IsLike target channel (some info) o =
      elim (Bool-cases (has_name target o.completed_agents)) [
        | inl t ↦
            elim (Bool-cases
              ((M.resurrect_agent target info.database_path channel o.outside).1 == 0)) [
                | inl z ↦ rw (t, z) (refl, λ c. refl)
                | inr z ↦ rw (t, z) (refl, λ c. refl)
              ]
        | inr t ↦ rw t (refl, λ c. refl)
      ]

  pub join_parts-IsLike :
      (parts : Option (Text × Text)) (o : Orchestrator M) → IsLike o (join_parts M parts o)
  unfolding join_parts
  join_parts-IsLike none o = (refl, λ c. refl)
  join_parts-IsLike (some (target, channel)) o =
      join_agent-IsLike target channel (lookup target o.agents) o

  pub answered-IsLike :
      (agent : Text) (b : Option Bool) (o : Orchestrator M) → IsLike o (answered M agent b o)
  unfolding answered
  answered-IsLike agent none o = (refl, λ c. refl)
  answered-IsLike agent (some b) o = (refl, λ c. refl)

  pub status_parts-IsLike :
      (agent : Text) (parts : Option (Text × Text)) (o : Orchestrator M)
      → IsLike o (status_parts M agent parts o)
  unfolding status_parts
  status_parts-IsLike agent none o = (refl, λ c. refl)
  status_parts-IsLike agent (some (status, json)) o =
      answered-IsLike agent (lookup agent o.manual_tool_responses) o

  pub result_parts-IsLike :
      (parts : Option (Text × Text)) (o : Orchestrator M) → IsLike o (result_parts M parts o)
  unfolding result_parts
  result_parts-IsLike none o = (refl, λ c. refl)
  result_parts-IsLike (some (agent, rest)) o = status_parts-IsLike agent (split_pipe rest) o

  flag-session_parts : (parts : Option (Text × Text)) → flag (some (session_parts M parts)) ≡ 0
  unfolding flag session_parts
  flag-session_parts none = refl
  flag-session_parts (some (address, tool)) = refl

  pub monitor_session-IsLike :
      (channel : Text) (m : Option ConflictSession) (o : Orchestrator M)
      → lookup channel o.active_conflicts ≡ m
      → IsLike o (monitor_session M channel m o)
  unfolding monitor_session session_of flag
  monitor_session-IsLike channel none o e =
      (refl, λ c. session-insert channel c _ o (flag-session_parts _ ∙ ap flag (sym e)))
  monitor_session-IsLike channel (some s) o e = (refl, λ c. refl)

  pub monitor_channel-IsLike :
      (channel : Text) (o : Orchestrator M) → IsLike o (monitor_channel M channel o)
  unfolding monitor_channel
  monitor_channel-IsLike channel o = elim (Bool-cases (starts_with (codes "#conflict_") channel)) [
    | inl t ↦ rw t (monitor_session-IsLike channel (lookup channel o.active_conflicts) o refl)
    | inr t ↦ rw t (refl, λ c. refl)
  ]

  pub send_each-IsLike :
      (channel tool params : Text) (agents : List Text) (o : Orchestrator M)
      → IsLike o (send_each M channel tool params agents o)
  unfolding send_each
  send_each-IsLike channel tool params [] o = (refl, λ c. refl)
  send_each-IsLike channel tool params (a ∷ agents) o =
      send_each-IsLike channel tool params agents _

  pub enforce_call-IsLike :
      (channel : Text) (alive : List Text) (call : Option (Text × Text)) (o : Orchestrator M)
      → IsLike o (enforce_call M channel alive call o)
  unfolding enforce_call
  enforce_call-IsLike channel alive none o = (refl, λ c. refl)
  enforce_call-IsLike channel alive (some (tool, params)) o =
      elim (Bool-cases (text_eq tool (codes "unknown") || length alive == 0)) [
        | inl t ↦ rw t (refl, λ c. refl)
        | inr t ↦ rw t (
            send_each-IsLike channel tool params alive
              (record o { manual_tool_responses = map (λ a. (a, false)) alive }))
      ]
