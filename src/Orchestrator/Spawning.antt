-- ===== src/Orchestrator/Spawning.antt =====
-- Orchestrator::spawn_agent_async of orchestrator/orchestrator.cpp as the manager of
-- orchestrator/auto_decompile_manager.cpp uses it: what it asks of the orchestrator is filled in here.
use ida_swarm.Base.{
  ℕ, suc, ◌<◌, ◌≡◌, ◌≢◌, ◌⊎◌, refl, sym, ◌∙◌, List, [], ◌∷◌, Option, none, some, Bool, false, not,
  ◌&&◌, Text, text_eq, lookup, arith, ◌==◌, if◌then◌else◌,
}
use ida_swarm.Base.Numbers.RoundTrip.{print_number_injective}
use ida_swarm.Auto.{weigh, Function, Host}
use ida_swarm.Orchestrator.{
  Machine, AgentInfo, Orchestrator, SpawnResult, spawn_error, spawn_success, agent_name, has_name,
  spawned_process, with_database, spawn_agent_async,
}

-- The names of agents with different numbers differ.
pub agent_name_injective : (n k : ℕ) → agent_name n ≡ agent_name k → n ≡ k
unfolding agent_name
agent_name_injective n k e =
    print_number_injective 10 (omega arith) (omega arith) n k (ground arith)

unfoldable pub agent_of : SpawnResult → Option Text
agent_of (spawn_error t) = none
agent_of (spawn_success a pid db) = some a

module _ (M : Machine) where
  with_database_next :
      (agent task context db : Text) (o : Orchestrator M)
      → ((with_database M agent task context db o).0).next_agent_id ≡ o.next_agent_id
  unfolding with_database spawned_process
  with_database_next agent task context [] o = refl
  with_database_next agent task context (c ∷ path) o = ground arith

  -- Each spawn takes the next number, whether it succeeds or not.
  pub next-spawn :
      (task context : Text) (o : Orchestrator M)
      → ((spawn_agent_async M task context o).0).next_agent_id ≡ suc o.next_agent_id
  unfolding spawn_agent_async
  next-spawn task context o = with_database_next _ task context _ _

  spawned_name :
      (agent task context db : Text) (o : Orchestrator M) (a : Text)
      → agent_of (with_database M agent task context db o).1 ≡ some a
      → a ≡ agent
  unfolding with_database spawned_process agent_of
  spawned_name agent task context [] o a e = absurd (ground arith)
  spawned_name agent task context (c ∷ path) o a e = ground arith

  pub name-spawn :
      (task context : Text) (o : Orchestrator M) (a : Text)
      → agent_of (spawn_agent_async M task context o).1 ≡ some a
      → a ≡ agent_name o.next_agent_id
  unfolding spawn_agent_async
  name-spawn task context o a e = spawned_name _ task context _ _ a e

  -- The name was given by a spawn.
  abbrev pub IsNamed : Orchestrator M → Text → Type 0
  IsNamed o a = (n : ℕ) × (n < o.next_agent_id) × (a ≡ agent_name n)

  -- The test of check_agent_health.
  unfoldable pub process_exited : Orchestrator M → Option AgentInfo → Bool
  process_exited o none = false
  process_exited o (some info) =
      not (info.process_id == 0) && not (M.is_agent_running info.process_id o.outside)

  unfoldable pub has_crashed : Orchestrator M → Text → Bool
  unfolding process_exited has_name
  has_crashed o a = process_exited o (lookup a o.agents) && not (has_name a o.completed_agents)

  -- What IDA and the prioritizer give: the functions of the database, their names and their order.
  pub record Analysis : Type 1 where
    pub Priority : Type 0
    pub address : Priority → ℕ
    pub prioritize_functions : List ℕ → List Priority
    pub prioritize_keeps :
        (f : ℕ → ℕ) (xs : List ℕ)
        → weigh (λ p. f (address p)) (prioritize_functions xs) ≡ weigh f xs
    pub functions : M.Outside → List (Option Function)
    pub get_name : M.Outside → ℕ → Option Text

  -- The orchestrator as the manager of the analysis uses it.
  unfoldable pub orchestrator_host : Analysis → ℕ → Host
  unfolding agent_of has_crashed
  orchestrator_host A max = record {
    World = Orchestrator M;
    Priority = A.Priority;
    address = A.address;
    prioritize_functions = A.prioritize_functions;
    prioritize_keeps = A.prioritize_keeps;
    functions = λ o. A.functions o.outside;
    get_name = λ o. A.get_name o.outside;
    max_parallel = max;
    spawn_agent_async = λ task context o.
        let (next, result) = spawn_agent_async M task context o in (next, agent_of result);
    has_crashed = has_crashed;
    IsNamed = IsNamed;
    spawn_fresh = λ task context o a e (n, l, same).
        let name = name-spawn task context o a e in
        let number = agent_name_injective n o.next_agent_id (sym same ∙ name) in omega arith;
    spawn-IsNamed = λ task context o a e.
        let next = next-spawn task context o in
        (o.next_agent_id, omega arith, name-spawn task context o a e);
    spawn_keeps = λ task context o a (n, l, same).
        let next = next-spawn task context o in (n, omega arith, same);
  }

  -- What a spawn says, and what becomes of the table of agents: it has the new agent with its task and
  -- a process, and else what it had, or it is as it was.
  abbrev pub Spawns : Text → Text → Orchestrator M → Orchestrator M × SpawnResult → Type 0
  Spawns agent task o (n, result) =
      ((pid : ℕ) × (db : Text) × (result ≡ spawn_success agent pid db)
        × (pid ≢ 0)
        × (db ≢ [])
        × ((b : Text)
            → lookup b n.agents ≡ (
                if text_eq agent b
                then some
                    record { agent_id = agent; task = task; database_path = db; process_id = pid }
                else lookup b o.agents)))
      ⊎ ((error : Text) × (result ≡ spawn_error error) × (n.agents ≡ o.agents))
