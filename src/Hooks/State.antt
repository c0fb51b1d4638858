-- ===== src/Hooks/State.antt =====
-- The state of the hook chain and what it is handed (HookChain in
-- crates/agnt-core/src/hook/chain.rs). The permission resolver, the renderers, the JSON and Unicode
-- libraries are arguments.
use nu_agent.Prelude.{ℕ, Bool, true, false, List, [], ◌∷◌, Option, none, some, String}
use nu_agent.Protocol.{SystemMessage, SystemKind, CallLine}
use nu_agent.Transcript.Entry.{Display}
use nu_agent.Guards.DoomLoop.{DoomLoopState}
use nu_agent.Guards.CircuitBreaker.{McpCircuitBreaker, ResultClass}
use nu_agent.Guards.Repetition.{RepetitionState}
use nu_agent.Hooks.Events.{ToolStatus, ToolOutcome}
use nu_agent.Hooks.SubturnCap.{SubTurnCap}
use nu_agent.Hooks.TurnTools.{TurnToolLog}
use nu_agent.Hooks.Registry.{McpToolRegistry}

-- What waits in the cancel channel: a request, or the news that requests were missed.
pub data CancelSignal : Type 0 where
  requested lagged : CancelSignal

pub data PermissionDecision : Type 0 where
  allow : PermissionDecision
  deny : String → PermissionDecision

-- `AsyncPermissionResolver` over a state `R`, with the events that it publishes.
pub record Resolver (R Permission : Type 0) : Type 0 where
  pub resolve : R → String → String → Option String → R × List Permission × PermissionDecision
  pub take_previewed : R → String → String → R × Bool

-- The functions that the chain calls: `ToolName::new` of a name, the call line, the preview from the
-- arguments, the canonical form of arguments, and `to_lowercase`.
pub record Env : Type 0 where
  pub is_tool_name : String → Bool
  pub render : String → String → CallLine
  pub preview_of : String → String → Option Display
  pub canonicalize_args : String → String
  pub to_lowercase : List ℕ → List ℕ
  pub closures : List String

pub record HookChain (R : Type 0) : Type 0 where
  pub cancel : List CancelSignal
  pub subturn : SubTurnCap
  pub doom : DoomLoopState
  pub output_repetition : RepetitionState
  pub repetition_guard : Bool
  pub breaker : McpCircuitBreaker
  pub registry : McpToolRegistry
  pub turn_tools : TurnToolLog
  pub permission : R

abbrev pub cancelled_dispatch_message : String
cancelled_dispatch_message = "Interrupted: the turn stopped before this call ran"

-- `is_cancelled`: takes one signal from the channel.
unfoldable pub is_cancelled : List CancelSignal → List CancelSignal × Bool
is_cancelled [] = ([], false)
is_cancelled (_ ∷ signals) = (signals, true)

-- A tool's status and its error kind, as a call that never ran reports them.
abbrev pub not_run_outcome : String → String → ToolOutcome
not_run_outcome error_kind message = record {
  success = false;
  status = ToolStatus.cancelled;
  result = "";
  display = none;
  error_kind = some error_kind;
  message = some message;
}

abbrev pub warning : String → SystemMessage
warning text = record { kind = SystemKind.warning; text = text }

-- What a tool's result carries: its text, its disposition, the kind of its error, and how the circuit
-- breaker's guard classifies it.
pub record ToolResult : Type 0 where
  pub text : String
  pub success : Bool
  pub status : ToolStatus
  pub error_kind : Option String
  pub display : Option Display
  pub class : ResultClass
