-- ===== src/Turn/Feedback.antt =====
-- The messages that steer the model after a failure
-- (crates/agnt-core/src/conversation/turn/feedback.rs).
pub mod Cut
use Prim.Native.String
use Prim.Native.Char.{code}
use nu_agent.Prelude.{
  ℕ, zero, suc, ◌+◌, ◌-◌, Bool, true, false, List, [], ◌∷◌, Option, none, some, String, ◌==◌,
  string_eq, ltb, leb, unwrap_or, if◌then◌else◌, concat, decimal,
}
use nu_agent.Turn.ErrorKind.{
  CompletionErrorKind, rate_limit, overloaded, server_error, network, request_too_large,
  context_overflow, output_budget, tool_structure, auth, quota, credits_exhausted, refusal,
  endpoint_not_found, unknown,
}

pub data FeedbackPhase : Type 0 where
  first backoff : FeedbackPhase

abbrev pub feedback_prefix : String
feedback_prefix = "The previous turn attempt failed at the provider."

abbrev pub max_turns_feedback_prefix : String
max_turns_feedback_prefix = "The previous turn attempt used all its tool-call turns."

abbrev pub feedback_raw_msg_max_bytes : ℕ
feedback_raw_msg_max_bytes = 500

abbrev pub default_output_budget_empty_remedy : String
default_output_budget_empty_remedy =
    "the response hit the output token limit before any answer; produce your answer immediately without extended reasoning"

abbrev pub default_output_budget_remedy_mode : String
default_output_budget_remedy_mode = "empty_output"

unfoldable pub output_budget_remedy : FeedbackPhase → Option String → Option String → String
output_budget_remedy phase empty_remedy remedy_mode =
    if unwrap_or remedy_mode default_output_budget_remedy_mode == "shorter_response"
    then (elim phase [
      | first ↦ "the response hit the output token limit; continue with a shorter response"
      | backoff ↦
          "the response is still hitting the output token limit; shorten the response further or split the work across turns"
    ])
    else (elim phase [
      | first ↦ unwrap_or empty_remedy default_output_budget_empty_remedy
      | backoff ↦
          "the response is still hitting the output token limit; shorten the response or split the work across turns"
    ])

-- The bytes of a character in UTF-8.
unfoldable pub utf8_bytes : ℕ → ℕ
utf8_bytes c = if ltb c 0x80 then 1 else if ltb c 0x800 then 2 else if ltb c 0x10000 then 3 else 4

-- The longest prefix of whole characters that fits: a text that fits is kept whole, and a cut
-- inside a character backs off to its start.
unfoldable pub cut_at_char_boundary : String → ℕ → String
unfolding utf8_bytes
cut_at_char_boundary String.[] max_bytes = String.[]
cut_at_char_boundary (String.◌∷◌ c s) max_bytes =
    let rest = cut_at_char_boundary s (max_bytes - utf8_bytes (code c)) in
    if leb (utf8_bytes (code c)) max_bytes then String.◌∷◌ c rest else String.[]

unfoldable pub remedy : CompletionErrorKind → FeedbackPhase → Option String → Option String → String
unfolding output_budget_remedy
remedy tool_structure first empty_remedy mode = "ensure every tool call has a matching tool result"
remedy tool_structure backoff empty_remedy mode =
    "the tool sequence is still malformed; re-check that every tool call has a matching tool result and that the arguments match the tool schema"
remedy output_budget phase empty_remedy mode = output_budget_remedy phase empty_remedy mode
remedy request_too_large first empty_remedy mode =
    "the request was too large; reduce the size of attached tool results"
remedy request_too_large backoff empty_remedy mode =
    "the request is still too large; split the work across turns or drop non-essential tool results before continuing"
remedy _ _ _ _ = "wait for the operator to resolve the underlying issue"

unfoldable pub build_feedback_message :
    CompletionErrorKind → FeedbackPhase → String → Option String → Option String → String
unfolding remedy cut_at_char_boundary
build_feedback_message kind phase raw_provider_msg empty_remedy mode =
    if raw_provider_msg == ""
    then concat (feedback_prefix ∷ " Remedy: " ∷ remedy kind phase empty_remedy mode ∷ "." ∷ [])
    else concat (
        feedback_prefix
        ∷ " Remedy: "
        ∷ remedy kind phase empty_remedy mode
        ∷ ". Raw provider message: "
        ∷ cut_at_char_boundary raw_provider_msg feedback_raw_msg_max_bytes
        ∷ [])

unfoldable pub build_max_turns_feedback_message : ℕ → String
unfolding decimal
build_max_turns_feedback_message max_turns = concat (
    max_turns_feedback_prefix
    ∷ " The budget was "
    ∷ decimal max_turns
    ∷ " tool-call turns. Question whether the task truly needs that many tool calls. Reconsider your approach and aim to accomplish the goal with fewer, larger steps. If you change course, a fresh budget of "
    ∷ decimal max_turns
    ∷ " turns is available."
    ∷ [])
