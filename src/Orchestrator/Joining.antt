-- ===== src/Orchestrator/Joining.antt =====
-- What becomes of an agent that orchestrator/orchestrator.cpp is asked to let join a conflict.
use ida_swarm.Base.{
  ℕ, ◌≡◌, ◌≢◌, ◌⊎◌, inl, inr, refl, sym, ap, ◌∙◌, List, [], ◌∷◌, some, true, false, Text, codes,
  text_eq, text_eq_iff, lookup, lookup-insert, arith, Bool-cases, ◌==◌, if◌then◌else◌,
}
use ida_swarm.Orchestrator.{Machine, AgentInfo, Orchestrator, has_name, name_insert, name_erase}
use ida_swarm.Orchestrator.Messages.{join_agent, resurrect}

has_name-name_erase :
    (a b : Text) (s : List Text)
    → has_name b (name_erase a s) ≡ (if text_eq a b then false else has_name b s)
unfolding has_name name_erase
has_name-name_erase a b [] = ground arith
has_name-name_erase a b (c ∷ s) =
    ground (arith, text_eq_iff a b, text_eq_iff c a, text_eq_iff c b, has_name-name_erase a b s)

pub has_name-name_insert :
    (a b : Text) (s : List Text)
    → has_name b (name_insert a s) ≡ (if text_eq a b then true else has_name b s)
unfolding has_name name_insert
has_name-name_insert a b s = elim (Bool-cases (text_eq a b)) [
  | inl t ↦
      let same : a ≡ b = (text_eq_iff a b).0 t in
      elim (Bool-cases (has_name a s)) [
        | inl h ↦ rw (t, h) (let there = h in cc)
        | inr h ↦ rw (t, h) (rw t refl)
      ]
  | inr t ↦ ground arith
]

module _ (M : Machine) where
  completed_again :
      (target b : Text) (o : Orchestrator M)
      → has_name target o.completed_agents ≡ true
      → (if text_eq target b then true else has_name b (name_erase target o.completed_agents))
        ≡ has_name b o.completed_agents
  completed_again target b o h = elim (Bool-cases (text_eq target b)) [
    | inl t ↦
        let same : has_name target o.completed_agents ≡ has_name b o.completed_agents =
          ap (λ x. has_name x o.completed_agents) ((text_eq_iff target b).0 t) in
        rw t (sym h ∙ same)
    | inr t ↦
        let erased = has_name-name_erase target b o.completed_agents in rw t (erased ∙ rw t refl)
  ]

  -- What the spawner says when a completed agent is to start again for a channel.
  abbrev pub restart : Text → Text → AgentInfo → Orchestrator M → M.Outside × ℕ
  restart target channel info o = M.resurrect_agent target info.database_path channel o.outside

  -- Let a completed agent be asked to join a conflict. The spawner is asked to start it again on its
  -- database for that channel. Where that gives a process, the agent has that very process and the task
  -- of the conflict, and is no longer among the completed ones, while every other agent is as before.
  -- Where it gives none, the table of agents is as before, and the same agents are completed.
  pub join_agent_lem :
      (target channel : Text) (info : AgentInfo) (o : Orchestrator M)
      → has_name target o.completed_agents ≡ true
      → ((join_agent M target channel (some info) o).outside ≡ (restart target channel info o).0)
        × ((((restart target channel info o).1 ≢ 0)
              × ((b : Text)
                  → (lookup b (join_agent M target channel (some info) o).agents ≡ (
                      if text_eq target b
                      then some (record info {
                        process_id = (restart target channel info o).1;
                        task = codes "Conflict Resolution";
                      })
                      else lookup b o.agents))
                    × (has_name b (join_agent M target channel (some info) o).completed_agents
                        ≡ (if text_eq target b then false else has_name b o.completed_agents))))
            ⊎ (((restart target channel info o).1 ≡ 0)
                × ((join_agent M target channel (some info) o).agents ≡ o.agents)
                × ((b : Text)
                    → has_name b (join_agent M target channel (some info) o).completed_agents
                      ≡ has_name b o.completed_agents)))
  unfolding join_agent resurrect
  join_agent_lem target channel info o h =
      let pid : ℕ = (restart target channel info o).1 in
      let again : AgentInfo = record info {
        process_id = pid;
        task = codes "Conflict Resolution";
      } in
      elim (Bool-cases (pid == 0)) [
        | inl t ↦
            rw (h, t)
              (
                refl,
                inr (
                  ground arith,
                  refl,
                  λ b.
                      has_name-name_insert target b (name_erase target o.completed_agents)
                      ∙ completed_again target b o h,
                ),
              )
        | inr t ↦
            rw (h, t)
              (
                refl,
                inl (
                  (λ e. ground arith),
                  λ b. (
                    lookup-insert target b again o.agents,
                    has_name-name_erase target b o.completed_agents,
                  ),
                ),
              )
      ]
