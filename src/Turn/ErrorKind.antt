-- ===== src/Turn/ErrorKind.antt =====
-- What a failed completion is (crates/agnt-core/src/conversation/turn/executor/error_kind.rs).
use nu_agent.Prelude.{Bool, true, false}

pub data CompletionErrorKind : Type 0 where
  rate_limit overloaded server_error network request_too_large context_overflow output_budget
        tool_structure auth quota credits_exhausted refusal endpoint_not_found unknown :
      CompletionErrorKind

pub data CompletionErrorCategory : Type 0 where
  retryable steerable hard_stop : CompletionErrorCategory

unfoldable pub category : CompletionErrorKind → CompletionErrorCategory
category rate_limit = retryable
category overloaded = retryable
category server_error = retryable
category network = retryable
category output_budget = steerable
category tool_structure = steerable
category request_too_large = steerable
category context_overflow = hard_stop
category auth = hard_stop
category quota = hard_stop
category credits_exhausted = hard_stop
category refusal = hard_stop
category endpoint_not_found = hard_stop
category unknown = hard_stop

abbrev is_retryable_category : CompletionErrorCategory → Bool
is_retryable_category retryable = true
is_retryable_category _ = false

abbrev is_steerable_category : CompletionErrorCategory → Bool
is_steerable_category steerable = true
is_steerable_category _ = false

unfoldable pub is_retryable : CompletionErrorKind → Bool
unfolding category
is_retryable kind = is_retryable_category (category kind)

-- In crates/agnt-core/src/conversation/turn/feedback.rs.
unfoldable pub is_model_correctable : CompletionErrorKind → Bool
unfolding category
is_model_correctable kind = is_steerable_category (category kind)

-- `*kind == CompletionErrorKind::OutputBudget`.
abbrev pub is_output_budget : CompletionErrorKind → Bool
is_output_budget output_budget = true
is_output_budget _ = false
