-- ===== src/Hooks/Responses.antt =====
-- What the hook chain (crates/agnt-core/src/hook/chain.rs) does at each piece of streamed text, at the
-- end of a response, and at a call of a tool that is not there.
use nu_agent.Prelude.{ℕ, List, [], ◌∷◌, Option, none, some, String, concat, is_some, if◌then◌else◌}
use nu_agent.Protocol.{SystemMessage}
use nu_agent.Guards.Repetition.{
  RepetitionDetection, AssistantContent, check_aggregated, finish_turn,
}
use nu_agent.Turn.Retry.{output_repetition_stop_prefix}
use nu_agent.Hooks.Events.{SystemEvent}
use nu_agent.Hooks.State.{Env, HookChain, is_cancelled, warning}

abbrev pub output_repetition_stopped : String
output_repetition_stopped = concat (
    output_repetition_stop_prefix
    ∷ " the assistant kept repeating the same output after repeated steering. The run was stopped."
    ∷ [])

-- What a response ends in: the run goes on, the model is asked again with a message, or it stops.
pub data ModelTurnAction : Type 0 where
  continue_run : ModelTurnAction
  retry_with_feedback stop_run : String → ModelTurnAction

module _ {Permission : Type 0} where
  abbrev pub turn_action :
      Option RepetitionDetection → List (SystemEvent Permission) × ModelTurnAction
  turn_action none = ([], continue_run)
  turn_action (some (RepetitionDetection.first message)) =
      (SystemEvent.system_message (warning message) ∷ [], retry_with_feedback message)
  turn_action (some (RepetitionDetection.backoff message)) =
      (SystemEvent.system_message (warning message) ∷ [], retry_with_feedback message)
  turn_action (some (RepetitionDetection.stopped message)) = ([], stop_run message)

module _ {R Permission : Type 0} (env : Env) where
  -- `on_text_delta`: the chain, what it published, and the reason where the stream is stopped.
  unfoldable pub on_text_delta :
      HookChain R → List ℕ → List ℕ → HookChain R × List (SystemEvent Permission) × Option String
  unfolding is_cancelled
  on_text_delta c delta aggregated =
      let (cancel, cancelled) = is_cancelled c.cancel in
      let (repetition, repeats) =
        if c.repetition_guard
        then check_aggregated env.to_lowercase c.output_repetition aggregated
        else (c.output_repetition, none) in
      let checked : HookChain R = record c { cancel = cancel; output_repetition = repetition } in
      if cancelled
      then (checked, [], some "Cancelled by user")
      else if is_some repeats
      then (checked, [], some output_repetition_stopped)
      else (checked, SystemEvent.inference_chunk delta aggregated ∷ [], none)

  -- `on_model_turn_finished`.
  unfoldable pub on_model_turn_finished :
      HookChain R
      → List AssistantContent
      → HookChain R × List (SystemEvent Permission) × ModelTurnAction
  on_model_turn_finished c content =
      let (repetition, detection) =
        if c.repetition_guard
        then finish_turn env.to_lowercase c.output_repetition content
        else (c.output_repetition, none) in
      let (events, action) = turn_action detection in
      (record c { output_repetition = repetition }, events, action)

unfoldable pub join_names : List String → String
join_names [] = ""
join_names (n ∷ []) = n
join_names (n ∷ m ∷ ns) = concat (n ∷ ", " ∷ join_names (m ∷ ns) ∷ [])

-- `on_invalid_tool_call`: the message to the model, which is also a warning.
unfoldable pub on_invalid_tool_call : String → List String → SystemMessage × String
unfolding join_names
on_invalid_tool_call tool_name available_tools =
    let feedback = concat (
      "Tool '"
      ∷ tool_name
      ∷ "' is not available. Available tools: ["
      ∷ join_names available_tools
      ∷ "]"
      ∷ []) in
    (warning feedback, feedback)
