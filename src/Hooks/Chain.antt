-- ===== src/Hooks/Chain.antt =====
-- What the hook chain (crates/agnt-core/src/hook/chain.rs) does at a call of the model, and before and
-- after a tool runs. Whether to compact, and the usage of a completion, are decided elsewhere.
pub mod Gates
pub mod Published
pub mod Capped
pub mod Tripped
use nu_agent.Prelude.{
  ℕ, zero, suc, ◌+◌, Bool, true, false, not, ◌&&◌, ◌||◌, List, [], ◌∷◌, ◌++◌, Option, none, some,
  String, concat, is_some, unwrap_or, if◌then◌else◌, length,
}
use nu_agent.Protocol.{
  SystemMessage, SystemKind, DispatchAction, proceed, skip, stop, CallLine, ToolCall,
}
use nu_agent.Transcript.Entry.{Display}
use nu_agent.Guards.DoomLoop.{DoomLoopState, detector_check}
use nu_agent.Guards.CircuitBreaker.{McpCircuitBreaker, ResultClass}
use nu_agent.Guards.CircuitBreaker as Breaker
use nu_agent.Guards.Repetition.{
  RepetitionState, RepetitionDetection, RepetitionAction, AssistantContent, check_aggregated,
  finish_turn,
}
use nu_agent.Turn.Retry.{output_repetition_stop_prefix}
use nu_agent.Hooks.Events.{ToolStatus, ToolOutcome, SystemEvent, new_call}
use nu_agent.Hooks.SubturnCap.{SubTurnCap, check_and_increment, reset}
use nu_agent.Hooks.TurnTools.{TurnToolLog, SettledToolCall, record_call, record_result}
use nu_agent.Hooks.Registry.{
  McpToolRegistry, server_name_for, set_server_enabled, source_name, resolve_tool_source,
  check_server_enabled,
}
use nu_agent.Hooks.State.{
  CancelSignal, PermissionDecision, allow, deny, Resolver, Env, HookChain,
  cancelled_dispatch_message, is_cancelled, not_run_outcome, warning, ToolResult,
}

-- The server that tripped, where one did, is switched off.
abbrev pub disable : Option String → McpToolRegistry → McpToolRegistry
disable none r = r
disable (some server) r = set_server_enabled r server false

module _ (env : Env) where
  -- A call is recorded under its identifier before any gate.
  unfoldable pub record_dispatch : Option String → String → String → TurnToolLog → TurnToolLog
  record_dispatch none name args log = log
  record_dispatch (some id) name args log =
      if env.is_tool_name name then record_call id name args log else log

  abbrev pub call_of : McpToolRegistry → String → String → ToolCall
  call_of registry name args =
      new_call name (source_name (resolve_tool_source name env.closures registry)) args
        (env.render name args)

module _ {Permission : Type 0} where
  abbrev pub preview_event : ToolCall → Option Display → List (SystemEvent Permission)
  preview_event call none = []
  preview_event call (some display) = SystemEvent.preview_requested call display ∷ []

  abbrev pub asked_events : List Permission → List (SystemEvent Permission)
  asked_events [] = []
  asked_events (p ∷ ps) = SystemEvent.permission p ∷ asked_events ps

  abbrev pub messages : List SystemMessage → List (SystemEvent Permission)
  messages [] = []
  messages (m ∷ ms) = SystemEvent.system_message m ∷ messages ms

  -- `emit_not_run_dispatch`: the events of a call that never ran.
  unfoldable pub not_run :
      Env → ToolCall → Bool → String → String → Bool → List (SystemEvent Permission)
  not_run env call publish_start error_kind message preview =
      (if publish_start then SystemEvent.tool_started call ∷ [] else [])
      ++ (if preview then preview_event call (env.preview_of call.name call.arguments) else [])
      ++ SystemEvent.tool_completed call (not_run_outcome error_kind message) ∷ []

module _ {R Permission : Type 0} (env : Env) (resolver : Resolver R Permission) where
  -- The chain after a hook, what it published, and its answer.
  abbrev pub Answer : Type 0
  Answer = HookChain R × List (SystemEvent Permission) × DispatchAction

  -- The resolver's answer. A denial publishes the sequence of a call that did not run, with its
  -- preview unless the user saw it.
  unfoldable pub decided : HookChain R → ToolCall → R → PermissionDecision → Answer
  unfolding not_run
  decided c call state allow = (record c { permission = state }, [], proceed)
  decided c call state (deny reason) =
      let (state', previewed) = resolver.take_previewed state call.name call.arguments in
      (
        record c { permission = state' },
        not_run env call false "denied" reason (not previewed),
        skip reason,
      )

  -- Behind the guards: the call starts, and the resolver is asked.
  unfoldable pub ask_permission : HookChain R → ToolCall → Option String → Answer
  unfolding decided
  ask_permission c call call_id =
      let (state, asked, decision) =
        resolver.resolve c.permission call.name call.arguments call_id in
      let (c', events, action) = decided c call state decision in
      (c', SystemEvent.tool_started call ∷ asked_events asked ++ events, action)

  -- The guard on the tool's server; its check was made before the others.
  abbrev pub circuit_gate : HookChain R → ToolCall → Option String → Option DispatchAction → Answer
  circuit_gate c call call_id (some action) = (c, [], action)
  circuit_gate c call call_id none = ask_permission c call call_id

  abbrev pub doom_gate :
      HookChain R
      → ToolCall
      → Option String
      → Option DispatchAction
      → Option DispatchAction × List SystemMessage
      → Answer
  doom_gate c call call_id circuit_action (some action, sent) = (c, messages sent, action)
  doom_gate c call call_id circuit_action (none, sent) =
      let (c', events, action) = circuit_gate c call call_id circuit_action in
      (c', messages sent ++ events, action)

  -- The doom loop guard, unless the guards on repetition are off.
  unfoldable pub check_doom :
      HookChain R → ToolCall → Option String → Option DispatchAction → Answer
  unfolding ask_permission
  check_doom c call call_id circuit_action =
      if c.repetition_guard
      then (let (doom, action, sent) =
            detector_check env.canonicalize_args c.doom call.name call.arguments in
          doom_gate (record c { doom = doom }) call call_id circuit_action (action, sent))
      else doom_gate c call call_id circuit_action (none, [])

  abbrev pub subturn_gate :
      HookChain R
      → ToolCall
      → Option String
      → Option DispatchAction
      → Option DispatchAction
      → Answer
  subturn_gate c call call_id circuit_action (some action) = (c, [], action)
  subturn_gate c call call_id circuit_action none = check_doom c call call_id circuit_action

  -- The call is recorded, one signal is taken from the cancel channel, and the cap counts the call,
  -- before the first of the gates answers.
  abbrev pub counted : HookChain R → String → String → Option String → HookChain R
  counted c name args call_id = record c {
    cancel = (is_cancelled c.cancel).0;
    subturn = (check_and_increment c.subturn).0;
    turn_tools = record_dispatch env call_id name args c.turn_tools;
  }

  -- `on_dispatch` for a call of a tool.
  unfoldable pub on_dispatch : HookChain R → String → String → Option String → Answer
  unfolding record_dispatch is_cancelled not_run check_doom
  on_dispatch c name args call_id =
      let call = call_of env c.registry name args in
      if (is_cancelled c.cancel).1
      then (
        counted c name args call_id,
        not_run env call true "cancelled" cancelled_dispatch_message true,
        stop "Cancelled by user",
      )
      else subturn_gate (counted c name args call_id) call call_id
          (check_server_enabled c.registry name) (check_and_increment c.subturn).1

  -- `suppress_previewed_display`.
  abbrev pub kept_display : Bool → Option Display → Option Display
  kept_display true display = none
  kept_display false display = display

  abbrev pub record_settled :
      Option String → String → String → SettledToolCall → TurnToolLog → TurnToolLog
  record_settled none name args settled log = log
  record_settled (some id) name args settled log =
      if env.is_tool_name name then record_result id name args settled log else log

  -- `on_outcome` for the result of a tool.
  unfoldable pub on_tool_result :
      HookChain R
      → String
      → String
      → Option String
      → ToolResult
      → HookChain R × List (SystemEvent Permission)
  on_tool_result c name args call_id result =
      let (state, previewed) = resolver.take_previewed c.permission name args in
      let settled : SettledToolCall = record {
        result = result.text;
        success = result.success;
        status = result.status;
        error_kind = result.error_kind;
      } in
      let outcome : ToolOutcome = record {
        success = result.success;
        status = result.status;
        result = result.text;
        display = kept_display previewed result.display;
        error_kind = result.error_kind;
        message = none;
      } in
      let (breaker, tripped, sent) =
        Breaker.record_result c.breaker (server_name_for c.registry name) result.class in
      (
        record c {
          breaker = breaker;
          registry = disable tripped c.registry;
          turn_tools = record_settled call_id name args settled c.turn_tools;
          permission = state;
        },
        SystemEvent.tool_completed (call_of env c.registry name args) outcome ∷ messages sent,
      )

  -- `on_completion_call`: a new response is under way, with a fresh cap; whether it is stopped.
  unfoldable pub on_completion_call :
      HookChain R → HookChain R × List (SystemEvent Permission) × Option String
  unfolding is_cancelled reset
  on_completion_call c =
      let (cancel, cancelled) = is_cancelled c.cancel in
      let fresh : HookChain R = record c { cancel = cancel; subturn = reset c.subturn } in
      if cancelled
      then (fresh, [], some "Cancelled by user")
      else (fresh, SystemEvent.inference_started ∷ [], none)
