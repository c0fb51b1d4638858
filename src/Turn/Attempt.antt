-- ===== src/Turn/Attempt.antt =====
-- What the retry loop reads of its configuration, and what an attempt comes to
-- (crates/agnt-core/src/conversation/turn/error.rs and the types of the retry loop).
use nu_agent.Prelude.{ℕ, Bool, List, Option, String}
use nu_agent.Turn.ErrorKind.{CompletionErrorKind}

-- The settings of `Config` that the loop reads.
pub record Config : Type 0 where
  pub max_retries : Option ℕ
  pub retry_base_delay_ms : Option ℕ
  pub max_tokens : Option ℕ
  pub max_output_tokens : Option ℕ
  pub output_budget_raise_enabled : Option Bool
  pub output_budget_raise_cap : Option ℕ
  pub output_budget_empty_remedy : Option String
  pub output_budget_remedy_mode : Option String

-- M is a message, R a record of a tool call.
pub record TurnContext (M R : Type 0) : Type 0 where
  pub last_known_history : List M
  pub pre_turn_message_count : ℕ
  pub tool_records : List R

pub data TurnError (M : Type 0) : Type 0 where
  cancelled : String → List M → TurnError M
  max_turns_exceeded : String → ℕ → List M → TurnError M
  unknown_tool : String → String → List M → TurnError M
  completion_failed : String → CompletionErrorKind → TurnError M
  tool_execution_failed : String → TurnError M

-- The fields of a result that the loop reads.
pub record TurnResult (M R : Type 0) : Type 0 where
  pub is_cancelled : Bool
  pub cancel_reason : Option String
  pub messages : Option (List M)
  pub last_known_history : List M
  pub pre_turn_message_count : ℕ
  pub tool_records : List R

pub data Outcome (M R : Type 0) : Type 0 where
  finished : TurnResult M R → Outcome M R
  failed : TurnError M → TurnContext M R → Outcome M R
