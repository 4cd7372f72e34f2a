-- ===== src/Lib.antt =====
-- openjarvis routes messages of chat channels to an agent and keeps each conversation as a thread.
-- The router (src/router.rs) takes messages from the channels, resolves each to a thread through the
-- session manager (src/session.rs), runs slash commands (src/command.rs), and hands the rest to the
-- agent, one message of a thread at a time. The agent's worker runs a turn on the thread aggregate
-- (src/thread.rs) and commits it through the session manager, which saves to a store under optimistic
-- concurrency control; in a turn the agent's loop (src/agent/agent_loop.rs) asks the model in rounds
-- and runs the tools that it calls (src/agent/tool/mod.rs). What the agent says goes out through the
-- router, which reads the attachment markers in it (src/attachment_syntax.rs). Long histories are rewritten (src/compact).
--
-- Files and what they model:
--   Base and its children: text as a list of code points, dictionaries, results, sorting and binary
--     search as the standard library does them.
--   Context: src/context/mod.rs and src/context/token_kind.rs. Model: src/model.rs.
--   Thread: src/thread.rs. Thread/Turn has the turn's operations (begin_turn, record_tool_event,
--     buffer_turn_event, the finalizations), Thread/Messages the messages, Thread/Toolsets the loaded
--     toolsets. A method that changes the thread takes it and answers the new one.
--   Session: the keys, locators and the trait of src/session/store/mod.rs; Session/Memory:
--     src/session/store/memory.rs; Session/Cache and Session/Manager: src/session.rs over any store.
--   Attachment: src/attachment_syntax.rs. Command: src/command.rs.
--   Compact: src/compact/provider.rs and src/compact/manager.rs; Compact/Budget: src/compact/budget.rs.
--   Router: src/router.rs. Router/Pending has the pending marks and queues, Router/Outgoing what goes
--     out, Router/Incoming the handlers and the loop.
--   Agent: src/agent. Agent/Worker: src/agent/worker.rs. Agent/Events and Agent/Loop with its children:
--     src/agent/agent_loop.rs; Agent/Loop/Compaction has the request's budget and the compactions,
--     Agent/Loop/Round one round, Agent/Loop/Live the whole run_live_thread. Agent/Tools and
--     Agent/Tools/Calls: src/agent/tool/mod.rs. Agent/Features: src/agent/feature/mod.rs. Agent/Hooks:
--     src/agent/hook.rs. Agent/Memory: the checks of paths and keywords in
--     src/agent/memory/repository.rs. The children named Keeps, Calm, Advance, Commits and Steps have
--     lemmas only.
--   Llm: the messages of a request in src/llm.rs.
--   Examples: concrete data and tests.
--
-- Choices. An identifier is its number and an instant its distance from an origin; identifiers and
-- times that the code draws are arguments. An operation that can fail answers a result beside the
-- state, and what it wrote before it failed stays written. The manager handles one call at a time, and
-- the router one event at a time; the lock of a thread appears as who writes the cached thread. A send
-- fails exactly when its receiver is closed. A run of the agent works on a world: the locked thread,
-- the session manager, the sender to the router, the tools, the variables of the run, and a state of
-- all that is outside of the program, on which the clock, identifiers, hooks and tools act. What the
-- model answers is a list, one function of the request for each round; a run whose list ends waits for
-- the model, so the loop needs no fuel. Revisions are natural numbers, that is, fewer than 2 ^ 64
-- saves of a thread. Lengths of text count characters; positions are what remains of a text. The loop
-- over markers takes the length of the text as fuel, the binary search the length of the list, and the loop
-- over the messages of a request their number.
--
-- Parameters: the uuid crate (UuidCrate), with the law that a printed identifier is parsed back; the
-- floating-point type of the budget report (Floats); the serializer of tool calls and the parser of
-- JSON; the provider of summaries (CompactProvider); the handler of /context; the store behind the
-- session manager (SessionStore), which the theorems on the manager fill with the store in memory; for
-- the agent (Outside, Runtime, Peripherals, Features) the clock, identifiers, handlers of tools and
-- hooks, MCP servers, the catalogs of memories and skills, and the printing of JSON and errors.
--
-- Not modelled: the SQLite store, the network clients of models, channels, browsers and MCP servers,
-- processes and files, configuration, logging and the command line, which are input and output; the
-- command sessions, and the files, front matter and search of the memory notes; in the modelled
-- files, the report of /context, the prompt of the summarizer, the builders and constructors, the
-- probe of the loop's tests, the management of MCP servers and skills, and the Windows command
-- line of a hook.
pub mod Base
pub mod Context
pub mod Thread
pub mod Model
pub mod Session
pub mod Attachment
pub mod Command
pub mod Compact
pub mod Router
pub mod Agent
pub mod Llm
pub mod Examples
