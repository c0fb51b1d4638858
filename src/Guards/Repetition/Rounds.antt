-- ===== src/Guards/Repetition/Rounds.antt =====
-- The guard over a session: the ladder of a repeated response, and the flag of the stream.
use nu_agent.Prelude.{
  ℕ, zero, suc, ◌-◌, ◌≡◌, refl, sym, ap, ◌∙◌, Bool, true, false, List, [], ◌∷◌, none, some, ltb,
  leb, if◌then◌else◌, arith,
}
use nu_agent.Guards.Repetition.{
  RepetitionState, default_repetition, first, backoff, stopped, warn, AssistantContent, text_of,
  count_tool_calls, reset_ladder, ladder, escalate, bytes_eq, is_empty, normalize, count_segment,
  record_response, record_turn_content, finish_turn, check_aggregated, output_repetition_message,
  stop_message,
}
use nu_agent.Turn.Retry.{output_repetition_backoff_message}

bytes_eq_refl : (xs : List ℕ) → bytes_eq xs xs ≡ true
unfolding bytes_eq
bytes_eq_refl [] = refl
bytes_eq_refl (x ∷ xs) = ground (arith, bytes_eq_refl xs)

module _ (to_lowercase : List ℕ → List ℕ) where
  pub data RepetitionOp : Type 0 where
    streamed : List ℕ → RepetitionOp
    turn_finished : List AssistantContent → RepetitionOp
    steered : RepetitionOp

  unfoldable pub repetition_step : RepetitionState → RepetitionOp → RepetitionState
  unfolding check_aggregated finish_turn reset_ladder
  repetition_step s (streamed aggregated) = (check_aggregated to_lowercase s aggregated).0
  repetition_step s (turn_finished content) = (finish_turn to_lowercase s content).0
  repetition_step s steered = reset_ladder s

  unfoldable pub repetition_run : RepetitionState → List RepetitionOp → RepetitionState
  repetition_run s [] = s
  repetition_run s (op ∷ ops) = repetition_run (repetition_step s op) ops

  abbrev IsQuiet : RepetitionState → Type 0
  IsQuiet s = s.intra_stream_detected ≡ false

  record_response-IsQuiet :
      (s : RepetitionState) (response : List ℕ) (calls : Bool)
      → IsQuiet s
      → IsQuiet (record_response to_lowercase s response calls).0
  unfolding record_response count_segment escalate reset_ladder
  record_response-IsQuiet s response calls h = ground arith

  repetition_step-IsQuiet :
      (s : RepetitionState) (op : RepetitionOp) → IsQuiet s → IsQuiet (repetition_step s op)
  unfolding repetition_step check_aggregated finish_turn reset_ladder record_turn_content escalate
  repetition_step-IsQuiet s (streamed aggregated) h = ground arith
  repetition_step-IsQuiet s (turn_finished content) h =
      rw (h, finish_turn)
        (record_response-IsQuiet (record s { intra_stream_detected = false }) (text_of content)
          (ltb 0 (count_tool_calls content)) refl)
  repetition_step-IsQuiet s steered h = h

  repetition_run-IsQuiet :
      (s : RepetitionState) (ops : List RepetitionOp) → IsQuiet s → IsQuiet (repetition_run s ops)
  unfolding repetition_run
  repetition_run-IsQuiet s [] h = h
  repetition_run-IsQuiet s (op ∷ ops) h =
      repetition_run-IsQuiet (repetition_step s op) ops (repetition_step-IsQuiet s op h)

  finish_turn-quiet :
      (s : RepetitionState) (content : List AssistantContent)
      → IsQuiet s
      → finish_turn to_lowercase s content ≡ record_turn_content to_lowercase s content
  unfolding finish_turn
  finish_turn-quiet s content h =
      let down : s ≡ record s { intra_stream_detected = false } =
        ap (λ b. record s { intra_stream_detected = b }) h in
      ap (λ (t : RepetitionState). finish_turn to_lowercase t content) down
      ∙ sym (ap (λ (t : RepetitionState). record_turn_content to_lowercase t content) down)

  check_aggregated-no_warning :
      (s : RepetitionState) (aggregated : List ℕ)
      → ¬ ((check_aggregated to_lowercase s aggregated).1 ≡ some warn)
  unfolding check_aggregated
  check_aggregated-no_warning s aggregated h = ground (arith, h)

  -- After any use of the guard the flag of the stream is down, so the end of a turn is always judged
  -- by comparing whole responses; and a check of the stream never warns.
  finish_turn-repetition_run :
      (ops : List RepetitionOp) (content : List AssistantContent) (aggregated : List ℕ)
      → (finish_turn to_lowercase (repetition_run default_repetition ops) content
          ≡ record_turn_content to_lowercase (repetition_run default_repetition ops) content)
        × ¬ (
            (check_aggregated to_lowercase (repetition_run default_repetition ops) aggregated).1
            ≡ some warn)
  finish_turn-repetition_run ops content aggregated = (
    finish_turn-quiet (repetition_run default_repetition ops) content
        (repetition_run-IsQuiet default_repetition ops refl),
    check_aggregated-no_warning (repetition_run default_repetition ops) aggregated,
  )

  module _ (response : List ℕ) (full : is_empty (normalize to_lowercase response) ≡ false) where
    -- The state after a response was recorded a number of times in a row, without tool calls.
    unfoldable pub repeat_response : ℕ → RepetitionState
    repeat_response zero = default_repetition
    repeat_response (suc n) = (record_response to_lowercase (repeat_response n) response false).0

    abbrev said : ℕ → RepetitionState
    said zero = default_repetition
    said (suc n) = record default_repetition {
      last_segment = some (normalize to_lowercase response);
      consecutive = suc n;
      escalation_count = suc n - 4;
    }

    record_response-said :
        (n : ℕ)
        → record_response to_lowercase (said n) response false
          ≡ (said (suc n), (if leb 4 n then some (ladder (n - 3)) else none))
    unfolding record_response count_segment escalate reset_ladder ladder
    record_response-said zero = rw full refl
    record_response-said (suc n) =
        rw full (rw (bytes_eq_refl (normalize to_lowercase response), count_segment) (ground arith))

    repeat_response_lem : (n : ℕ) → repeat_response n ≡ said n
    unfolding repeat_response
    repeat_response_lem zero = refl
    repeat_response_lem (suc n) =
        ap (λ s. (record_response to_lowercase s response false).0) (repeat_response_lem n)
        ∙ ap (λ r. r.0) (record_response-said n)

    -- From the start of a session, a response that is not blank passes four times in a row; the fifth
    -- time the model is steered, the sixth and the seventh more strongly, and from the eighth on the
    -- run is stopped.
    repeat_response-ladder :
        (n : ℕ)
        → (record_response to_lowercase (repeat_response n) response false).1 ≡ (
            if leb n 3
            then none
            else if leb n 4
            then some (first output_repetition_message)
            else if leb n 6
            then some (backoff output_repetition_backoff_message)
            else some (stopped stop_message))
    unfolding ladder
    repeat_response-ladder n = rw (repeat_response_lem n, record_response-said n) (ground arith)
