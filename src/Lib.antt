-- ===== src/Lib.antt =====
-- IDA Swarm: agents that analyse and patch one binary side by side, coordinated by an orchestrator.
--
-- Parts and files.
-- - NoGo: orchestrator/nogo_zone_manager.h and .cpp. Agents announce the parts of the address space
--   that they use as zones, over IRC; the manager keeps the zones and finds free ranges. NoGo.antt
--   holds its state (the zones and the index map) and operations, NoGo/Search the search loop,
--   NoGo/Allocation what the search promises, NoGo/Tracking the two views of the zones, NoGo/Wire
--   the text form of a zone.
-- - Tracker: orchestrator/tool_call_tracker.h and .cpp and agent/conflict_detector.h and .cpp. The
--   table of tool calls that all agents share. Tracker.antt holds the table and the insertion,
--   Tracker/Queries the queries and the check for conflicts, Tracker/Conflicts what that check
--   reports, Tracker/Detection the insertion and the check together, Tracker/Detector the view that
--   one agent has of the table, Tracker/Monitor the rounds that publish new calls, and
--   Tracker/Published what they publish.
-- - Swarm: the gate of agent/swarm_agent.cpp (process_tool_calls) that lets the tool calls of one
--   message through, which uses the tracker.
-- - Accounts: sdk/auth/oauth_account_pool.h and .cpp and sdk/auth/oauth_credentials.h. The OAuth
--   accounts and their file. Accounts.antt holds the pool, Accounts/Ops its operations,
--   Accounts/Disk the file, Accounts/Order the choice of an account, Accounts/Sharing what other
--   processes see.
-- - Merge: orchestrator/merge_manager.h and .cpp. The replay of an agent's write calls on the main
--   database, and its report; Merge/Replay holds what is replayed and reported.
-- - Injection: patching/code_injection_manager.h and .cpp. Code is written in a temporary segment,
--   previewed, and moved to a code cave or a new segment. Injection.antt holds its state and helpers,
--   Injection/Caves the search for caves, Injection/Stages the allocation and the preview,
--   Injection/Finalize the finalization and the no-go zones, Injection/Space what a cave is worth,
--   Injection/Previews and Injection/Runs what a finalization rests on, Injection/Workspaces where
--   the workspaces lie, Injection/Total that a preview ends. IDA and the patch manager are the record `Ida`.
-- - Irc: irc/irc_server.h and .cpp, irc/irc_client.h and .cpp. The channels over which agents and
--   orchestrator talk. Irc.antt holds messages and their text, Irc/Wire what parsing gives back,
--   Irc/Lines the lines of a connection, Irc/Escape the line breaks in a message, Irc/Server and
--   Irc/Client the two ends, Irc/Delivery a message from one client to the others, Irc/Informed what
--   the clients of a channel have been sent.
-- - Patch: patching/patch_manager.h and .cpp. Patches of the binary, each with the bytes it took the
--   place of. Patch.antt holds the state and the reading and writing of bytes, Patch/Hex their
--   hexadecimal text, Patch/Ops the operations, Patch/Effect what a write changes, Patch/Table the
--   table of patches, Patch/Applied what a byte patch has done, Patch/Undo what undoing rests on,
--   Patch/Restore runs of the operations and the undoing of all, Patch/Padding and Patch/Assembly
--   patches by an instruction, Patch/Assembled what these have done. What IDA does is the record `Ida`,
--   what it and the assembler say of instructions the record `Assembler`.
-- - Auto: orchestrator/auto_decompile_manager.h and .cpp. Every function of the binary is analysed by
--   an agent, a bounded number at a time, and again after a crash up to a limit. Auto.antt holds the
--   state and what is asked of the orchestrator and of IDA (the record `Host`), Auto/Ops the
--   operations, Auto/Steps and Auto/Runs what a run of reports keeps, Auto/Tracked the agents at work,
--   Auto/Accounted and Auto/Progress where each function is, Auto/Live the agents at work,
--   Auto/Counters the counters, Auto/Retries the retries, Auto/Parallel the number of agents,
--   Auto/Load and Auto/Returns how the operations end.
-- - Orchestrator: orchestrator/orchestrator.h and .cpp. Orchestrator.antt holds the tables of agents and
--   the spawning of an agent, Orchestrator/Spawning what that does and the `Host` that it is for the
--   analysis, Orchestrator/Messages the messages of conflicts, Orchestrator/Sessions and
--   Orchestrator/Consensus the threads that enforce a consensus, Orchestrator/Agreed when one starts,
--   Orchestrator/Joining the agents that are brought back, Orchestrator/Results what is done about the
--   result of an agent, Orchestrator/Named the names given meanwhile, Orchestrator/Served the analysis
--   while messages are handled, Orchestrator/Recorded what is known after a result,
--   Orchestrator/Debugger the routing of requests to the debugger, Orchestrator/Requests the messages
--   of agent/agent_lldb_tools.h that ask for it. The files and processes of agents and the debugger
--   itself are the record `Machine`. The wait for the agents of a task, the messages of tokens and the
--   conversation with the user are not modelled.
-- - Base: Boolean tests, lists, byte strings, association lists, numbers as text, and the interfaces
--   of the libraries that the source calls.
--
-- Numbers are natural numbers with the wrap-around of 64 bits written out; `BADADDR` is 2^64 - 1. A
-- std::string is the list of its bytes. A call that throws gives `none`. The clock, the answers of
-- the database and of nlohmann::json are arguments; a record of operations in Base/External states
-- what is relied on. Loops over a container are recursions on it; the search for a free range runs
-- on fuel, one round more than there are zones, which is proved to be enough. The scans for caves and
-- for instructions run on fuel, one round more than there are bytes to scan, since each round goes on
-- by a byte or more; that is proved to be enough too, for the scan of a segment where nothing wraps
-- at the top of the address space. The loops over the lines of a connection and over the parameters of
-- a message run on the length of the text, since each round takes a byte or more. The cleaning up after
-- crashed agents, which spawns agents and so cleans up again, runs on fuel, one unit for each crash;
-- four units for each function are enough, since a function gets four agents at most.
--
-- Not modelled: the user interface, the IDA, LIEF and Keystone calls (parameters where the code relies
-- on them), HTTP, the opening of sockets, the processes, the logging, and the parts of the repository
-- that are not listed above.
mod Base
pub mod NoGo
pub mod Tracker
pub mod Swarm
pub mod Accounts
pub mod Auto
pub mod Orchestrator
pub mod Merge
pub mod Injection
pub mod Irc
pub mod Patch
mod Examples
