-- ===== src/Hooks/Chain/Tripped.antt =====
-- A server that the circuit breaker disabled.
use nu_agent.Prelude.{
  true, false, List, [], ◌∷◌, Option, none, some, String, ◌==◌, string_eq, ◌≡◌, ◌≢◌, ◌⊎◌, inl, refl,
  subst, All,
}
use nu_agent.Protocol.{proceed}
use nu_agent.Guards.CircuitBreaker as Breaker
use nu_agent.Hooks.Registry.{McpToolRegistry, server_name_for, contains_name, set_server_enabled}
use nu_agent.Hooks.Registry.Mappings.{contains_name-disabled, contains_name-switched}
use nu_agent.Hooks.State.{Resolver, Env, HookChain, ToolResult}
use nu_agent.Hooks.Chain.{on_dispatch, on_tool_result, disable}
use nu_agent.Hooks.Chain.Gates.{OwnerEnabled, on_dispatch-proceed_iff}
use nu_agent.Hooks.Chain.Capped.{
  TurnStep, dispatch, result_of, signal, switch_server, turn_step, turn_run, kept-on_dispatch,
}

-- The step does not switch the server on.
abbrev pub LeavesOff : String → TurnStep → Type 0
LeavesOff server (switch_server other enabled) = (enabled ≡ false) ⊎ ((other == server) ≡ false)
LeavesOff server (dispatch _ _ _) = Unit
LeavesOff server (result_of _ _ _ _) = Unit
LeavesOff server (signal _) = Unit

-- The server owns the tool, and is off.
abbrev Off : String → String → McpToolRegistry → Type 0
Off server tool r =
    (server_name_for r tool ≡ some server) × (contains_name r.enabled_servers server ≡ false)

disable-Off :
    (server tool : String) (o : Option String) (r : McpToolRegistry)
    → Off server tool r
    → Off server tool (disable o r)
unfolding server_name_for set_server_enabled
disable-Off server tool none r h = h
disable-Off server tool (some other) r (owns, off) =
    (owns, contains_name-switched r other server false off (inl refl))

module _ {R Permission : Type 0} (env : Env) (resolver : Resolver R Permission) where
  tripped-Off :
      (c : HookChain R) (name args : String) (call_id : Option String) (r : ToolResult)
      (server tool : String)
      → (Breaker.record_result c.breaker (server_name_for c.registry name) r.class).1 ≡ some server
      → server_name_for c.registry tool ≡ some server
      → Off server tool (on_tool_result env resolver c name args call_id r).0.registry
  unfolding on_tool_result server_name_for set_server_enabled
  tripped-Off c name args call_id r server tool trips owns =
      rw trips (owns, contains_name-disabled c.registry server)

  step-Off :
      (server tool : String) (c : HookChain R) (st : TurnStep)
      → LeavesOff server st
      → Off server tool c.registry
      → Off server tool (turn_step env resolver c st).0.registry
  unfolding turn_step on_tool_result set_server_enabled server_name_for
  step-Off server tool c (dispatch name args call_id) l h =
      let (_, _, same) = kept-on_dispatch env resolver c name args call_id in rw same h
  step-Off server tool c (result_of name args call_id r) l h =
      disable-Off server tool _ c.registry h
  step-Off server tool c (signal s) l h = h
  step-Off server tool c (switch_server other true) l (owns, off) =
      (owns, contains_name-switched c.registry other server true off l)
  step-Off server tool c (switch_server other false) l (owns, off) =
      (owns, contains_name-switched c.registry other server false off l)

  run-Off :
      (server tool : String) (c : HookChain R) (sts : List TurnStep)
      → All (LeavesOff server) sts
      → Off server tool c.registry
      → Off server tool (turn_run env resolver c sts).0.registry
  unfolding turn_run
  run-Off server tool c [] l h = h
  run-Off server tool c (st ∷ sts) l h =
      run-Off server tool (turn_step env resolver c st).0 sts l.1 (step-Off server tool c st l.0 h)

  -- When a result trips the circuit breaker of a server, then after any steps that do not switch
  -- the server on again, no call of a tool of the server goes on, whatever the policy says.
  pub turn_run-tripped :
      (c : HookChain R) (name args : String) (call_id : Option String) (r : ToolResult)
      (server : String)
      → (Breaker.record_result c.breaker (server_name_for c.registry name) r.class).1 ≡ some server
      → (sts : List TurnStep) → All (LeavesOff server) sts
      → (tool args' : String) (call_id' : Option String)
      → server_name_for c.registry tool ≡ some server
      → (on_dispatch env resolver
          (turn_run env resolver (on_tool_result env resolver c name args call_id r).0 sts).0
          tool
          args'
          call_id').2
        ≢ proceed
  turn_run-tripped c name args call_id r server trips sts l tool args' call_id' owns goes =
      let tripped = (on_tool_result env resolver c name args call_id r).0 in
      let (owns', off) =
        run-Off server tool tripped sts l
          (tripped-Off c name args call_id r server tool trips owns) in
      let passes =
        (on_dispatch-proceed_iff env resolver (turn_run env resolver tripped sts).0 tool args'
            call_id').0
          goes in
      let on = subst (OwnerEnabled (turn_run env resolver tripped sts).0.registry) owns' passes.3 in
      cc (off, on)
