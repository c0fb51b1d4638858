-- ===== src/Hooks/Events.antt =====
-- What the hook chain publishes on the UI bus (crates/agnt-core/src/protocol/events.rs), and the
-- status of a tool call (crates/agnt-core/src/session/tool_status.rs).
use nu_agent.Prelude.{ℕ, Bool, List, Option, String, concat, [], ◌∷◌}
use nu_agent.Protocol.{SystemMessage, ToolCall, CallLine}
use nu_agent.Transcript.Entry.{Display}

pub data ToolStatus : Type 0 where
  success failed cancelled : ToolStatus

-- The display has the shape of the transcript's.
pub record ToolOutcome : Type 0 where
  pub success : Bool
  pub status : ToolStatus
  pub result : String
  pub display : Option Display
  pub error_kind : Option String
  pub message : Option String

-- `Cost` stands for the floating point number of a charge.
pub record Usage (Cost : Type 0) : Type 0 where
  pub response_chars : ℕ
  pub tool_calls : ℕ
  pub input_tokens : ℕ
  pub output_tokens : ℕ
  pub total_tokens : Option ℕ
  pub cost : Option Cost
  pub cost_complete : Bool

-- The events that the chain sends, but for the usage of a completion; `Permission` are those of the
-- permission resolver.
pub data SystemEvent (Permission : Type 0) : Type 0 where
  inference_started : SystemEvent Permission
  inference_chunk : List ℕ → List ℕ → SystemEvent Permission
  tool_started : ToolCall → SystemEvent Permission
  preview_requested : ToolCall → Display → SystemEvent Permission
  tool_completed : ToolCall → ToolOutcome → SystemEvent Permission
  system_message : SystemMessage → SystemEvent Permission
  permission : Permission → SystemEvent Permission

-- `ToolCall::new`: the identity of a call comes from its name and its raw arguments.
unfoldable pub new_call : String → String → String → CallLine → ToolCall
new_call name source arguments call_line = record {
  id = concat (name ∷ "\n" ∷ arguments ∷ []);
  name = name;
  source = source;
  arguments = arguments;
  call_line = call_line;
}
