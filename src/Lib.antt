-- ===== src/Lib.antt =====
-- Verification library of nu-agent, an agent that runs language models from pipelines, a terminal
-- interface and an agent-to-agent (A2A) server.
--
-- What is modelled, and where. A turn asks a model; its tool calls pass the permission policy and the
-- guards, its failures the retry loop. The terminal interface queues prompts for turns and shows the
-- transcript, and the A2A server keeps the tasks of other agents.
--
-- A2a models the task store. A2a.TaskState is crates/agnt-a2a/src/types/task_state.rs with
-- is_valid_transition of crates/agnt-a2a/src/task_store/memory.rs; A2a.Types are the data types of
-- crates/agnt-a2a/src/types; A2a.TaskStore is InMemoryTaskStore: its state and notifications (State),
-- its operations (Crud) and its lists (Listing). Each operation takes the store and returns the next
-- one; a mutex held over an operation makes it one step. The maps are association lists, a channel is
-- the list of what waits in it, a webhook delivery is recorded and not sent. Fresh identifiers and the
-- time come from an environment. A JSON value is a type argument.
--
-- Authz models crates/agnt-core/src/tools/authz.rs: the matching of patterns (Glob), the rules and
-- their evaluation (Policy), overlays (Overlay) and session grants (Grants). The loop of glob_match runs
-- on fuel; the bound is proved to be enough in Authz.Glob.Loop. Hash maps are lists in the order in
-- which they are walked.
--
-- Guards models crates/agnt-core/src/hook/doom_loop.rs (DoomLoop, Canonical),
-- crates/agnt-core/src/hook/output_repetition.rs (Repetition), and the circuit breaker of
-- crates/agnt-core/src/tools/mcp/circuit_breaker.rs with its use in
-- crates/agnt-core/src/hook/circuit_breaker_guard.rs (CircuitBreaker). The JSON library and the
-- Unicode tables of to_lowercase are arguments.
--
-- Turn models crates/agnt-core/src/conversation/turn: the kinds of failures (executor/error_kind.rs),
-- the texts that steer the model (feedback.rs) and the retry loop (executor/retry.rs). An attempt is
-- an argument, a function of its number, its tokens and its prompt; sleeping, persisting and
-- publishing are recorded as effects. The loop runs on fuel, one unit for each attempt; as many as all
-- budgets together and one more are proved to be enough.
--
-- Session.Repair models crates/agnt-core/src/session/repair.rs, the repair of a turn's messages before
-- they are saved, over rig's messages as far as the code looks into them.
--
-- Hooks models crates/agnt-core/src/hook/chain.rs, the hooks that a turn runs through: State is the chain
-- with what it is handed, Chain the hooks at a call of the model and around a tool, Responses those at
-- streamed text and at the end of a response, Completion the usage of a call. Its concerns are the cap
-- on the calls of a response (subturn_cap.rs, SubturnCap), the log of a turn's calls (turn_tools.rs,
-- TurnTools), the sums of usage (turn_usage.rs, TurnUsage) and the registry of MCP tools
-- (crates/agnt-core/src/tools/handler/types.rs, Registry); the guards on repetition and the circuit
-- breaker are those of Guards. The permission resolver, the renderers and the pricing are arguments. A
-- hook takes the chain and returns the next one, what it published and its answer.
--
-- Transcript models the transcript: its entries (crates/agnt-core/src/transcript, Entry), the layout
-- planner (crates/agnt-render/src/planner.rs, Planner), and the store of the terminal interface with its
-- height index (crates/agnt-tui/src/state/transcript_store.rs, Store and Index). The rows that a
-- backend measures for an entry are an argument. Rows are added up without a bound.
--
-- Files models the edit tool: Replace is the text search of crates/agnt-core/src/tools/fs/core.rs, Plan
-- and Edit its plans and edits, Arguments and Handler are
-- crates/agnt-core/src/tools/handler/edit.rs. A path holds a text, nothing, or something unreadable;
-- what it holds at each
-- read and when a new file is renamed to it are arguments, since others may write in between. The regex
-- library, SHA-256 and the length in bytes are arguments too.
--
-- Tui models the prompt queue (crates/agnt-tui/src/state/prompt_queue.rs), scrolling and selection
-- (crates/agnt-tui/src/state/scroll.rs and selection.rs), the walk over the input history
-- (crates/agnt-tui/src/state/input_history.rs), and the pickers (crates/agnt-tui/src/state/picker.rs:
-- Picker is one picker, Picker.Container all of them, Picker.Keys what a key does).
--
-- Examples holds the theorems at concrete inputs. Prelude has the helpers that all parts share.
--
-- Not modelled: the network, the terminal, databases and processes, and the code that connects them; files
-- but for the edits of one path; the parsing of policies; the jitter of a backoff and a provider's own delay; the classification
-- of errors by the types of other libraries; the decision to compact a conversation; entries that change
-- in place behind the transcript store; sums of usage beyond 64 bits.
mod Prelude
pub mod Protocol
pub mod Guards
pub mod Hooks
pub mod A2a
pub mod Authz
pub mod Tui
pub mod Transcript
pub mod Turn
pub mod Session
pub mod Files
mod Examples
