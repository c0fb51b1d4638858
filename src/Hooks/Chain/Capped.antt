-- ===== src/Hooks/Chain/Capped.antt =====
-- How many calls of one response go on, and what is recorded of each.
use nu_agent.Prelude.{
  ℕ, ◌+◌, ◌-◌, ◌++◌, ◌≤◌, ◌<◌, Bool, List, [], ◌∷◌, Option, none, some, String, ◌≡◌, inl, inr, refl,
  arith, Bool-cases,
}
use nu_agent.Protocol.{SystemMessage, DispatchAction, proceed, skip, stop, ToolCall}
use nu_agent.Hooks.SubturnCap.{SubTurnCap, check_and_increment}
use nu_agent.Hooks.Registry.{check_server_enabled, set_server_enabled}
use nu_agent.Hooks.State.{
  CancelSignal, PermissionDecision, allow, deny, Resolver, Env, HookChain, is_cancelled, ToolResult,
}
use nu_agent.Hooks.Chain.{
  decided, ask_permission, circuit_gate, doom_gate, check_doom, subturn_gate, on_dispatch, call_of,
  record_dispatch, counted, on_tool_result,
}
use nu_agent.Hooks.Chain.Gates.{on_dispatch-proceed_iff}

-- What happens between two calls of the model: calls and results of tools, cancels that arrive,
-- and servers that the user switches.
pub data TurnStep : Type 0 where
  dispatch : String → String → Option String → TurnStep
  result_of : String → String → Option String → ToolResult → TurnStep
  signal : CancelSignal → TurnStep
  switch_server : String → Bool → TurnStep

abbrev count_if : DispatchAction → ℕ
count_if proceed = 1
count_if (skip _) = 0
count_if (stop _) = 0

-- The room that is left under the cap.
abbrev room : SubTurnCap → ℕ
room cap = cap.max - cap.count

counted_room :
    (cap : SubTurnCap)
    → 0 < cap.max
    → ((check_and_increment cap).0.max ≡ cap.max)
      × (room (check_and_increment cap).0 ≤ room cap)
      × (cap.count < cap.max → room (check_and_increment cap).0 + 1 ≤ room cap)
unfolding check_and_increment
counted_room cap h = ground arith

module _ {R Permission : Type 0} (env : Env) (resolver : Resolver R Permission) where
  kept-decided :
      (c : HookChain R) (call : ToolCall) (state : R) (d : PermissionDecision)
      → ((decided env resolver c call state d).0.subturn ≡ c.subturn)
        × ((decided env resolver c call state d).0.turn_tools ≡ c.turn_tools)
        × ((decided env resolver c call state d).0.registry ≡ c.registry)
  unfolding decided
  kept-decided c call state allow = (refl, refl, refl)
  kept-decided c call state (deny reason) = (refl, refl, refl)

  kept-circuit_gate :
      (c : HookChain R) (call : ToolCall) (call_id : Option String) (o : Option DispatchAction)
      → ((circuit_gate env resolver c call call_id o).0.subturn ≡ c.subturn)
        × ((circuit_gate env resolver c call call_id o).0.turn_tools ≡ c.turn_tools)
        × ((circuit_gate env resolver c call call_id o).0.registry ≡ c.registry)
  unfolding ask_permission
  kept-circuit_gate c call call_id none = kept-decided c call _ _
  kept-circuit_gate c call call_id (some action) = (refl, refl, refl)

  kept-doom_gate :
      (c : HookChain R) (call : ToolCall) (call_id : Option String) (o d : Option DispatchAction)
      (sent : List SystemMessage)
      → ((doom_gate env resolver c call call_id o (d, sent)).0.subturn ≡ c.subturn)
        × ((doom_gate env resolver c call call_id o (d, sent)).0.turn_tools ≡ c.turn_tools)
        × ((doom_gate env resolver c call call_id o (d, sent)).0.registry ≡ c.registry)
  kept-doom_gate c call call_id o none sent = kept-circuit_gate c call call_id o
  kept-doom_gate c call call_id o (some action) sent = (refl, refl, refl)

  kept-check_doom :
      (c : HookChain R) (call : ToolCall) (call_id : Option String) (o : Option DispatchAction)
      → ((check_doom env resolver c call call_id o).0.subturn ≡ c.subturn)
        × ((check_doom env resolver c call call_id o).0.turn_tools ≡ c.turn_tools)
        × ((check_doom env resolver c call call_id o).0.registry ≡ c.registry)
  unfolding check_doom
  kept-check_doom c call call_id o = elim (Bool-cases c.repetition_guard) [
    | inl on ↦ rw on (kept-doom_gate _ call call_id o _ _)
    | inr off ↦ rw off (kept-doom_gate _ call call_id o none [])
  ]

  kept-subturn_gate :
      (c : HookChain R) (call : ToolCall) (call_id : Option String) (o s : Option DispatchAction)
      → ((subturn_gate env resolver c call call_id o s).0.subturn ≡ c.subturn)
        × ((subturn_gate env resolver c call call_id o s).0.turn_tools ≡ c.turn_tools)
        × ((subturn_gate env resolver c call call_id o s).0.registry ≡ c.registry)
  kept-subturn_gate c call call_id o none = kept-check_doom c call call_id o
  kept-subturn_gate c call call_id o (some action) = (refl, refl, refl)

  -- Whatever a dispatch answers, the cap has counted the call, the log has it, and the
  -- registry is as it was.
  pub kept-on_dispatch :
      (c : HookChain R) (name args : String) (call_id : Option String)
      → ((on_dispatch env resolver c name args call_id).0.subturn
          ≡ (check_and_increment c.subturn).0)
        × ((on_dispatch env resolver c name args call_id).0.turn_tools
            ≡ record_dispatch env call_id name args c.turn_tools)
        × ((on_dispatch env resolver c name args call_id).0.registry ≡ c.registry)
  unfolding on_dispatch
  kept-on_dispatch c name args call_id = elim (Bool-cases (is_cancelled c.cancel).1) [
    | inl stopped ↦ rw stopped (refl, refl, refl)
    | inr runs ↦ rw runs (
        kept-subturn_gate (counted env resolver c name args call_id)
          (call_of env c.registry name args) call_id (check_server_enabled c.registry name)
          (check_and_increment c.subturn).1)
  ]

  -- The chain after a step, and whether it let a call go on.
  unfoldable pub turn_step : HookChain R → TurnStep → HookChain R × ℕ
  unfolding on_dispatch on_tool_result
  turn_step c (dispatch name args call_id) =
      let (c', _, action) = on_dispatch env resolver c name args call_id in (c', count_if action)
  turn_step c (result_of name args call_id r) =
      ((on_tool_result env resolver c name args call_id r).0, 0)
  turn_step c (signal s) = (record c { cancel = c.cancel ++ s ∷ [] }, 0)
  turn_step c (switch_server server enabled) =
      (record c { registry = set_server_enabled c.registry server enabled }, 0)

  -- The chain after the steps, and how many calls it let go on.
  unfoldable pub turn_run : HookChain R → List TurnStep → HookChain R × ℕ
  unfolding turn_step
  turn_run c [] = (c, 0)
  turn_run c (st ∷ sts) =
      let (c', n) = turn_step c st in let (c'', m) = turn_run c' sts in (c'', n + m)

  dispatch_room :
      (c : HookChain R) (name args : String) (call_id : Option String) (action : DispatchAction)
      → 0 < c.subturn.max
      → (on_dispatch env resolver c name args call_id).2 ≡ action
      → count_if action + room (check_and_increment c.subturn).0 ≤ room c.subturn
  dispatch_room c name args call_id (skip _) h e = omega (arith, counted_room c.subturn h)
  dispatch_room c name args call_id (stop _) h e = omega (arith, counted_room c.subturn h)
  dispatch_room c name args call_id proceed h e =
      let passes = (on_dispatch-proceed_iff env resolver c name args call_id).0 e in
      elim (passes.1) [
        | inl unlimited ↦ absurd (omega arith)
        | inr under ↦ omega (arith, (counted_room c.subturn h).2 under)
      ]

  step_room :
      (c : HookChain R) (st : TurnStep)
      → 0 < c.subturn.max
      → ((turn_step c st).0.subturn.max ≡ c.subturn.max)
        × ((turn_step c st).1 + room (turn_step c st).0.subturn ≤ room c.subturn)
  unfolding turn_step on_tool_result
  step_room c (dispatch name args call_id) h =
      let (cap, _, _) = kept-on_dispatch c name args call_id in
      rw cap ((counted_room c.subturn h).0, dispatch_room c name args call_id _ h refl)
  step_room c (result_of name args call_id r) h = (refl, omega arith)
  step_room c (signal s) h = (refl, omega arith)
  step_room c (switch_server server enabled) h = (refl, omega arith)

  -- Between two calls of the model no more calls of tools go on than the cap has room for, whatever
  -- else happens: results, cancels, and servers that are switched on and off. A cap of 0 is no cap.
  pub turn_run-le_room :
      (c : HookChain R) (steps : List TurnStep)
      → 0 < c.subturn.max
      → (turn_run c steps).1 ≤ c.subturn.max - c.subturn.count
  unfolding turn_run
  turn_run-le_room c [] h = omega arith
  turn_run-le_room c (st ∷ sts) h =
      let (same, fits) = step_room c st h in
      omega (arith, turn_run-le_room (turn_step c st).0 sts (rw same h), same, fits)
