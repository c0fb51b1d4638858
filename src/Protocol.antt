-- ===== src/Protocol.antt =====
-- What the guards hand over: the dispatch action of a tool call and the messages on the UI bus
-- (crates/agnt-core/src/protocol/events.rs).
use nu_agent.Prelude.{String}

-- `SystemKind`.
pub data SystemKind : Type 0 where
  warning turn_error : SystemKind

-- `SystemEvent::SystemMessage`.
pub record SystemMessage : Type 0 where
  pub kind : SystemKind
  pub text : String

-- What is answered for a tool call: the call goes on, or is skipped with a message to the model, or
-- the run is stopped. A guard that lets the call pass answers nothing.
pub data DispatchAction : Type 0 where
  proceed : DispatchAction
  skip : String → DispatchAction
  stop : String → DispatchAction

-- The line of a call in the transcript, rendered by the tool.
pub record CallLine : Type 0 where
  pub summary : String

-- `ToolCall`; its identity is a text built from the name and the arguments.
pub record ToolCall : Type 0 where
  pub id : String
  pub name : String
  pub source : String
  pub arguments : String
  pub call_line : CallLine
