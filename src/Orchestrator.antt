-- ===== src/Orchestrator.antt =====
-- orchestrator/orchestrator.h and .cpp: the tables of agents, of their results and of the conflicts
-- under discussion, and what the orchestrator does about a message. The files of agents and their
-- processes (orchestrator/database_manager.cpp, orchestrator/agent_spawner.cpp) are a parameter.
pub mod Spawning
pub mod Messages
pub mod Sessions
pub mod Consensus
pub mod Agreed
pub mod Joining
pub mod Named
pub mod Debugger
pub mod Requests
pub mod Results
pub mod Served
pub mod Recorded
use ida_swarm.Base.{
  ℕ, suc, ◌≡◌, ◌≢◌, List, [], ◌∷◌, ◌++◌, Option, none, some, Bool, true, false, Text, codes,
  text_eq, insert, ◌||◌, ◌==◌, if◌then◌else◌,
}
use ida_swarm.Base.Numbers.{print_number}

-- The JSON of agent_config.
pub record AgentConfig : Type 0 where
  pub agent_id : Text
  pub binary_name : Text
  pub task : Text
  pub prompt : Text
  pub database : Text
  pub agent_binary_path : Text
  pub irc_server : Text
  pub irc_port : ℕ
  pub memory_directory : Text
  pub context : Text
  pub lldb_validated : Bool

-- A request to the debugger. A number is its sign (true if it is negative) and its size.
pub data LldbRequest : Type 0 where
  start_session : (agent request : Text) → (timeout_ms : Bool × ℕ) → LldbRequest
  send_command : (session agent command request : Text) → LldbRequest
  convert_address : (session agent : Text) → (ida_address : ℕ) → (request : Text) → LldbRequest
  stop_session : (session agent request : Text) → LldbRequest

-- The files and the processes of agents. A process id that is not positive is 0.
pub record Machine : Type 1 where
  pub Outside : Type 0
  pub create_agent_database : Text → Outside → Outside × Text
  pub get_agent_binary : Text → Outside → Text
  pub create_directories : Text → Outside → Outside
  pub spawn_agent : Text → Text → AgentConfig → Outside → Outside × ℕ
  -- AgentSpawner::resurrect_agent for a conflict channel
  pub resurrect_agent : Text → Text → Text → Outside → Outside × ℕ
  pub is_agent_running : ℕ → Outside → Bool
  -- ConsensusExecutor::execute_consensus for a tool, an address and the statements: the tool and its
  -- parameters as JSON; `none` where there is no call
  pub execute_consensus : Text → Text → List (Text × Text) → Option (Text × Text)
  -- merge_database for an agent, by orchestrator/merge_manager.cpp, and the removal of the directory of
  -- an agent that has written nothing
  pub merge_database : Text → Outside → Outside
  pub cleanup_agent_directory_if_no_writes : Text → Outside → Outside
  -- whether there is a debugger, and what orchestrator/lldb_manager.cpp answers, as dump() gives it;
  -- `none` where that throws
  pub has_lldb : Bool
  pub handle_lldb : LldbRequest → Outside → Outside × Option Text
  -- the text of generate_agent_prompt
  pub agent_prompt : Text → Text → Text

pub record AgentInfo : Type 0 where
  pub agent_id : Text
  pub task : Text
  pub database_path : Text
  pub process_id : ℕ

pub data BusEvent : Type 0 where
  agent_spawning : (agent task : Text) → BusEvent
  agent_spawn_failed : (agent error : Text) → BusEvent
  agent_spawn_complete : (agent : Text) → BusEvent
  irc_message : (channel sender message : Text) → BusEvent
  swarm_result : (agent report : Text) → BusEvent
  task_complete : (agent : Text) → BusEvent

-- What is said of a conflict in its channel; the tool and the address that it is about, as text.
pub record ConflictSession : Type 0 where
  pub original_tool : Text
  pub original_address : Text
  pub participating_agents : List Text
  pub consensus_statements : List (Text × Text)
  pub resolved : Bool

-- What a thread of enforcement holds: the session as it was resolved, and the call that is agreed on.
pub record Enforcement : Type 0 where
  pub channel : Text
  pub session : ConflictSession
  pub tool_call : Option (Text × Text)

pub record Orchestrator (M : Machine) : Type 0 where
  pub binary_name : Text
  pub irc_server : Text
  pub allocated_irc_port : ℕ
  pub lldb_validation_passed : Bool
  pub next_agent_id : ℕ
  pub agents : List (Text × AgentInfo)
  pub completed_agents : List Text
  pub agent_results : List (Text × Text)
  pub active_conflicts : List (Text × ConflictSession)
  pub manual_tool_responses : List (Text × Bool)
  -- the threads of enforcement that have not ended
  pub enforcing : List Enforcement
  -- the events of the bus and the messages sent to channels, newest first
  pub bus : List BusEvent
  pub sent : List (Text × Text)
  pub outside : M.Outside

unfoldable pub agent_name : ℕ → Text
agent_name n = codes "agent_" ++ print_number 10 n

-- A set of names: count, insert and erase.
unfoldable pub has_name : Text → List Text → Bool
has_name a [] = false
has_name a (b ∷ s) = text_eq b a || has_name a s

unfoldable pub name_insert : Text → List Text → List Text
name_insert a s = if has_name a s then s else a ∷ s

unfoldable pub name_erase : Text → List Text → List Text
name_erase a [] = []
name_erase a (b ∷ s) = if text_eq b a then name_erase a s else b ∷ name_erase a s

-- The JSON that a spawn returns.
pub data SpawnResult : Type 0 where
  spawn_error : (error : Text) → SpawnResult
  spawn_success : (agent : Text) → (pid : ℕ) → (database : Text) → SpawnResult

module _ (M : Machine) where
  abbrev pub publish : BusEvent → Orchestrator M → Orchestrator M
  publish e o = record o { bus = e ∷ o.bus }

  abbrev memory_dir : Text → Text → Text
  memory_dir binary agent =
      codes "/tmp/ida_swarm_workspace/"
      ++ (binary ++ (codes "/agents/" ++ (agent ++ codes "/memories")))

  unfoldable pub config_for : Text → Text → Text → Text → Orchestrator M → AgentConfig
  config_for agent task context db o = record {
    agent_id = agent;
    binary_name = o.binary_name;
    task = task;
    prompt = M.agent_prompt task context;
    database = db;
    agent_binary_path = M.get_agent_binary agent o.outside;
    irc_server = o.irc_server;
    irc_port = o.allocated_irc_port;
    memory_directory = memory_dir o.binary_name agent;
    context = context;
    lldb_validated = o.lldb_validation_passed;
  }

  -- After the process was asked for: its id, or 0.
  unfoldable pub spawned_process :
      Text → Text → Text → ℕ → Orchestrator M → Orchestrator M × SpawnResult
  spawned_process agent task db pid o =
      if pid == 0
      then (
        publish (agent_spawn_failed agent (codes "Failed to spawn agent process")) o,
        spawn_error (codes "Failed to spawn agent process"),
      )
      else (
        record (publish (agent_spawn_complete agent) o) {
          agents =
              insert agent
                record { agent_id = agent; task = task; database_path = db; process_id = pid }
                o.agents;
        },
        spawn_success agent pid db,
      )

  -- After the database of the agent was made: its path, empty where that failed.
  unfoldable pub with_database :
      Text → Text → Text → Text → Orchestrator M → Orchestrator M × SpawnResult
  unfolding config_for spawned_process
  with_database agent task context [] o = (o, spawn_error (codes "Failed to create agent database"))
  with_database agent task context (c ∷ path) o =
      let made : M.Outside = M.create_directories (memory_dir o.binary_name agent) o.outside in
      let (outside, pid) =
        M.spawn_agent agent (c ∷ path) (config_for agent task context (c ∷ path) o) made in
      spawned_process agent task (c ∷ path) pid (record o { outside = outside })

  unfoldable pub spawn_agent_async : Text → Text → Orchestrator M → Orchestrator M × SpawnResult
  unfolding agent_name with_database
  spawn_agent_async task context o =
      let agent : Text = agent_name o.next_agent_id in
      let (outside, db) = M.create_agent_database agent o.outside in
      with_database agent task context db (record (publish (agent_spawning agent task) o) {
        next_agent_id = suc o.next_agent_id;
        outside = outside;
      })
