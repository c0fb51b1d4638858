-- ===== src/Turn/Retry.antt =====
-- The retry loop of a turn (crates/agnt-core/src/conversation/turn/executor/retry.rs): what a round
-- does with the outcome of an attempt. An attempt itself, the sleeping and the persisting are outside:
-- the outcome is what a round is given, the others are the effects of a round. The `f64`
-- multiplication of a raise is the argument `scale`.
pub mod Budgets
use text.Mathlib.Text.{starts_with}
use nu_agent.Prelude.{
  ℕ, zero, suc, ◌+◌, ◌-◌, ◌*◌, ◌^◌, ◌%◌, min, Bool, true, false, not, ◌&&◌, ◌||◌, List, [], ◌∷◌,
  ◌++◌, Option, none, some, String, ltb, nat_beq, if◌then◌else◌, unwrap_or, concat, decimal,
}
use nu_agent.Protocol.{SystemMessage, SystemKind}
use nu_agent.Turn.Attempt.{
  Config, TurnContext, TurnError, TurnResult, Outcome, cancelled, max_turns_exceeded, unknown_tool,
  completion_failed, tool_execution_failed, finished, failed,
}
use nu_agent.Turn.ErrorKind.{
  CompletionErrorKind, is_retryable, is_model_correctable, is_output_budget,
}
use nu_agent.Turn.Feedback.{FeedbackPhase, build_feedback_message, build_max_turns_feedback_message}

abbrev pub default_max_retries : ℕ
default_max_retries = 3

abbrev pub max_provider_feedback_retries : ℕ
max_provider_feedback_retries = 3

abbrev pub max_turns_feedback_retries : ℕ
max_turns_feedback_retries = 1

abbrev pub max_repetition_stop_retries : ℕ
max_repetition_stop_retries = 3

abbrev pub default_retry_base_delay_ms : ℕ
default_retry_base_delay_ms = 1000

abbrev pub default_output_budget_raise_enabled : Bool
default_output_budget_raise_enabled = false

abbrev pub default_output_budget_raise_cap : ℕ
default_output_budget_raise_cap = 32768

abbrev pub output_repetition_stop_prefix : String
output_repetition_stop_prefix = "Output repetition stopped:"

abbrev pub output_repetition_backoff_message : String
output_repetition_backoff_message =
    "Output repetition persisted: your responses repeated the same content again after steering. Change your approach now: write different content, call a tool, or ask the user for guidance."

abbrev pub repetition_steering_notice : String
repetition_steering_notice = "Repetition guard steering the model to try a different approach..."

-- What a round does outside the loop's own variables.
pub data Effect (M R : Type 0) : Type 0 where
  persist_turn_delta : List M → ℕ → List R → Effect M R
  -- The delay before the jitter, and before a rate limit's own delay takes its place.
  sleep : CompletionErrorKind → String → ℕ → Effect M R
  publish : SystemMessage → Effect M R
  reset_ladder : Effect M R

-- The variables of the loop; `attempt_max_tokens` is the override of `attempt_config`.
pub record LoopState : Type 0 where
  pub attempt : ℕ
  pub feedback_retries : ℕ
  pub turns_retries : ℕ
  pub rep_stop_retries : ℕ
  pub steering : Option String
  pub attempt_max_tokens : Option ℕ

abbrev pub start : LoopState
start = record {
  attempt = 0;
  feedback_retries = 0;
  turns_retries = 0;
  rep_stop_retries = 0;
  steering = none;
  attempt_max_tokens = none;
}

pub data Round (M R : Type 0) : Type 0 where
  again : LoopState → List (Effect M R) → Round M R
  break_with : Outcome M R → Round M R

-- The prompt of the next attempt.
unfoldable pub attempt_prompt : LoopState → String → String
attempt_prompt s prompt = elim s.steering [
  | none ↦ prompt
  | some message ↦ concat (message ∷ "\n\n" ∷ prompt ∷ [])
]

abbrev pub or_else {ℓ} : {A : Type ℓ} → Option A → Option A → Option A
or_else none b = b
or_else (some a) b = some a

abbrev pub raise_cap : Config → ℕ
raise_cap c = unwrap_or c.output_budget_raise_cap default_output_budget_raise_cap

-- The tokens of the effective configuration of the attempt.
abbrev pub effective_max_tokens : Config → LoopState → Option ℕ
effective_max_tokens c s = or_else (or_else s.attempt_max_tokens c.max_tokens) c.max_output_tokens

-- The override for the next attempt; the raised value is cut to 32 bits.
unfoldable pub raised_max_tokens : (ℕ → ℕ) → Config → LoopState → CompletionErrorKind → Option ℕ
raised_max_tokens scale c s kind = elim (effective_max_tokens c s) [
  | none ↦ none
  | some base ↦
      if is_output_budget kind
        && unwrap_or c.output_budget_raise_enabled default_output_budget_raise_enabled
        && ltb base (raise_cap c)
      then some (min (scale base) (raise_cap c) % 2 ^ 32)
      else none
]

-- The exponential delay, at most half a minute; the product saturates.
unfoldable pub base_delay : Config → ℕ → ℕ
base_delay c attempt =
    min
      (min (unwrap_or c.retry_base_delay_ms default_retry_base_delay_ms * 2 ^ min attempt 5)
        (2 ^ 64 - 1))
      30000

unfoldable pub is_empty {ℓ} : {A : Type ℓ} → List A → Bool
is_empty [] = true
is_empty (x ∷ xs) = false

-- A cancelled turn that the repetition guard stopped.
unfoldable pub is_repetition_stop : {M R : Type 0} → TurnResult M R → Bool
is_repetition_stop r = elim r.cancel_reason [
  | none ↦ false
  | some reason ↦ r.is_cancelled && starts_with reason output_repetition_stop_prefix
]

module _ {M R : Type 0} where
  abbrev persist : TurnContext M R → List M → Effect M R
  persist ctx history =
      Effect.persist_turn_delta history ctx.pre_turn_message_count ctx.tool_records

  unfoldable pub completion_round :
      (ℕ → ℕ) → Config → LoopState → CompletionErrorKind → String → TurnContext M R → Round M R
  unfolding raised_max_tokens base_delay is_empty
  completion_round scale c s kind msg ctx =
      if is_model_correctable kind
        && ltb s.feedback_retries max_provider_feedback_retries
        && not (is_empty ctx.last_known_history)
      then again
          (record s {
            feedback_retries = s.feedback_retries + 1;
            attempt_max_tokens = raised_max_tokens scale c s kind;
            steering = some (
                build_feedback_message kind
                  (if nat_beq (s.feedback_retries + 1) 1
                    then FeedbackPhase.first
                    else FeedbackPhase.backoff)
                  msg c.output_budget_empty_remedy c.output_budget_remedy_mode);
          })
          (persist ctx ctx.last_known_history ∷ [])
      else if is_retryable kind
          && ltb s.attempt (unwrap_or c.max_retries default_max_retries)
          && not (is_empty ctx.last_known_history)
      then again (record s { attempt = s.attempt + 1 })
          (Effect.sleep kind msg (base_delay c (s.attempt + 1))
            ∷ persist ctx ctx.last_known_history
            ∷ [])
      else if ltb 0 s.attempt
      then break_with (
          failed
            (completion_failed
              (concat ("Turn failed after " ∷ decimal s.attempt ∷ " retries. " ∷ msg ∷ [])) kind)
            ctx)
      else if is_model_correctable kind
          && not (ltb s.feedback_retries max_provider_feedback_retries)
      then break_with
          (failed (completion_failed (concat (msg ∷ " No output was produced." ∷ [])) kind) ctx)
      else break_with (failed (completion_failed msg kind) ctx)

  unfoldable pub max_turns_round : LoopState → String → ℕ → List M → TurnContext M R → Round M R
  max_turns_round s msg max_turns messages ctx =
      if ltb s.turns_retries max_turns_feedback_retries
      then again
          (record s {
            turns_retries = s.turns_retries + 1;
            steering = some (build_max_turns_feedback_message max_turns);
          })
          (persist ctx messages ∷ [])
      else break_with
          (failed (max_turns_exceeded (concat ("Turn failed: " ∷ msg ∷ [])) max_turns messages) ctx)

  unfoldable pub finished_round : LoopState → TurnResult M R → Round M R
  unfolding is_repetition_stop
  finished_round s r =
      if is_repetition_stop r && ltb s.rep_stop_retries max_repetition_stop_retries
      then again
          (record s {
            rep_stop_retries = s.rep_stop_retries + 1;
            steering = some output_repetition_backoff_message;
          })
          (Effect.publish (record { kind = SystemKind.warning; text = repetition_steering_notice })
            ∷ Effect.reset_ladder
            ∷ Effect.persist_turn_delta (unwrap_or r.messages r.last_known_history)
                r.pre_turn_message_count r.tool_records
            ∷ [])
      else break_with (finished r)

  unfoldable pub round : (ℕ → ℕ) → Config → LoopState → Outcome M R → Round M R
  unfolding completion_round max_turns_round finished_round
  round scale c s (finished r) = finished_round s r
  round scale c s (failed (completion_failed msg kind) ctx) =
      completion_round scale c s kind msg ctx
  round scale c s (failed (max_turns_exceeded msg max_turns messages) ctx) =
      max_turns_round s msg max_turns messages ctx
  round scale c s (failed e ctx) = break_with (failed e ctx)

  -- The loop, on fuel: what an attempt comes to is `execute` of its number, of the override of its
  -- tokens and of its prompt. The effects of all rounds come with the final outcome.
  unfoldable pub run_retry_loop :
      (ℕ → Option ℕ → String → Outcome M R)
      → (ℕ → ℕ)
      → Config
      → String
      → ℕ
      → ℕ
      → LoopState
      → Option (Outcome M R × List (Effect M R))
  unfolding round attempt_prompt
  run_retry_loop execute scale c prompt zero n s = none
  run_retry_loop execute scale c prompt (suc fuel) n s =
      elim (round scale c s (execute n s.attempt_max_tokens (attempt_prompt s prompt))) [
        | break_with o ↦ some (o, [])
        | again t effects ↦ elim (run_retry_loop execute scale c prompt fuel (n + 1) t) [
          | none ↦ none
          | some (o, later) ↦ some (o, effects ++ later)
        ]
      ]
