-- ===== src/Hooks/Chain/Gates.antt =====
-- When a call of a tool goes on: every guard lets it pass, and the permission resolver allows it.
use nu_agent.Prelude.{
  ◌<◌, Bool, true, false, List, [], ◌∷◌, Option, none, some, String, ◌≡◌, ◌≢◌, ◌↔◌, ◌⊎◌, inl, inr,
  refl, arith, Bool-cases, nat_beq, leb,
}
use nu_agent.Protocol.{SystemMessage, DispatchAction, proceed, ToolCall}
use nu_agent.Guards.DoomLoop.{DoomLoopDetection, check_and_record, answer, detector_check}
use nu_agent.Hooks.SubturnCap.{SubTurnCap, check_and_increment}
use nu_agent.Hooks.Registry.{
  McpToolRegistry, server_name_for, contains_name, server_check, check_server_enabled,
}
use nu_agent.Hooks.Events.{new_call}
use nu_agent.Hooks.State.{
  CancelSignal, PermissionDecision, allow, deny, Resolver, Env, HookChain, is_cancelled,
}
use nu_agent.Hooks.Chain.{
  decided, ask_permission, circuit_gate, doom_gate, check_doom, subturn_gate, on_dispatch, call_of,
  record_dispatch,
}

-- A guard that answers does not let the call go on.
abbrev pub Refuses : Option DispatchAction → Type 0
Refuses none = Unit
Refuses (some action) = action ≢ proceed

-- The cap lets a call pass.
abbrev pub UnderCap : SubTurnCap → Type 0
UnderCap cap = (cap.max ≡ 0) ⊎ (cap.count < cap.max)

pub check_and_increment-Refuses : (cap : SubTurnCap) → Refuses (check_and_increment cap).1
unfolding check_and_increment
check_and_increment-Refuses cap = elim (Bool-cases (nat_beq cap.max 0)) [
  | inl unlimited ↦ rw unlimited tt
  | inr limited ↦ rw limited (elim (Bool-cases (leb cap.max cap.count)) [
    | inl full ↦ rw full (λ e. cc e)
    | inr free ↦ rw free tt
  ])
]

check_and_increment_iff : (cap : SubTurnCap) → ((check_and_increment cap).1 ≡ none) ↔ UnderCap cap
unfolding check_and_increment
check_and_increment_iff cap = elim (Bool-cases (nat_beq cap.max 0)) [
  | inl unlimited ↦ rw unlimited ((λ _. inl (ground arith)), (λ _. refl))
  | inr limited ↦ rw limited (elim (Bool-cases (leb cap.max cap.count)) [
    | inl full ↦ rw full ((λ e. cc e), (λ u. absurd (ground arith)))
    | inr free ↦ rw free ((λ _. inr (ground arith)), (λ _. refl))
  ])
]

-- The tool has no server, or its server is enabled.
abbrev pub OwnerEnabled : McpToolRegistry → Option String → Type 0
OwnerEnabled r none = Unit
OwnerEnabled r (some server) = contains_name r.enabled_servers server ≡ true

abbrev pub ServerEnabled : McpToolRegistry → String → Type 0
ServerEnabled r name = OwnerEnabled r (server_name_for r name)

server_check-Refuses : (r : McpToolRegistry) (o : Option String) → Refuses (server_check r o)
server_check-Refuses r none = tt
server_check-Refuses r (some server) = elim (Bool-cases (contains_name r.enabled_servers server)) [
  | inl on ↦ rw on tt
  | inr off ↦ rw off (λ e. cc e)
]

pub check_server_enabled-Refuses :
    (r : McpToolRegistry) (name : String) → Refuses (check_server_enabled r name)
unfolding check_server_enabled
check_server_enabled-Refuses r name = server_check-Refuses r (server_name_for r name)

server_check_iff :
    (r : McpToolRegistry) (o : Option String) → (server_check r o ≡ none) ↔ OwnerEnabled r o
server_check_iff r none = ((λ _. tt), (λ _. refl))
server_check_iff r (some server) = elim (Bool-cases (contains_name r.enabled_servers server)) [
  | inl on ↦ rw on ((λ _. refl), (λ _. refl))
  | inr off ↦ rw off ((λ e. cc e), (λ e. cc e))
]

pub answer-Refuses : (d : Option DoomLoopDetection) → Refuses (answer d).0
unfolding answer
answer-Refuses none = tt
answer-Refuses (some (DoomLoopDetection.first _)) = λ e. cc e
answer-Refuses (some (DoomLoopDetection.backoff _)) = λ e. cc e
answer-Refuses (some (DoomLoopDetection.stopped _)) = λ e. cc e

answer_iff : (d : Option DoomLoopDetection) → ((answer d).0 ≡ none) ↔ (d ≡ none)
unfolding answer
answer_iff none = ((λ _. refl), (λ _. refl))
answer_iff (some (DoomLoopDetection.first _)) = ((λ e. cc e), (λ e. cc e))
answer_iff (some (DoomLoopDetection.backoff _)) = ((λ e. cc e), (λ e. cc e))
answer_iff (some (DoomLoopDetection.stopped _)) = ((λ e. cc e), (λ e. cc e))

module _ {R Permission : Type 0} (env : Env) (resolver : Resolver R Permission) where
  -- The resolver's decision on a call.
  abbrev pub decision_on : R → String → String → Option String → PermissionDecision
  decision_on state name args call_id = (resolver.resolve state name args call_id).2

  -- The doom loop guard is off, or detects nothing at this call.
  abbrev pub IsQuiet : HookChain R → String → String → Type 0
  IsQuiet c name args =
      (c.repetition_guard ≡ false)
      ⊎ ((check_and_record env.canonicalize_args c.doom name args).1 ≡ none)

  -- What lets a call of a tool go on.
  abbrev pub Passes : HookChain R → String → String → Option String → Type 0
  Passes c name args call_id =
      (c.cancel ≡ [])
      × UnderCap c.subturn
      × IsQuiet c name args
      × ServerEnabled c.registry name
      × (decision_on c.permission name args call_id ≡ allow)

  decided_iff :
      (c : HookChain R) (call : ToolCall) (state : R) (d : PermissionDecision)
      → ((decided env resolver c call state d).2 ≡ proceed) ↔ (d ≡ allow)
  unfolding decided
  decided_iff c call state allow = ((λ _. refl), (λ _. refl))
  decided_iff c call state (deny reason) = ((λ e. cc e), (λ e. cc e))

  circuit_gate_iff :
      (c : HookChain R) (call : ToolCall) (call_id : Option String) (o : Option DispatchAction)
      → Refuses o
      → ((circuit_gate env resolver c call call_id o).2 ≡ proceed)
        ↔ ((o ≡ none) × (decision_on c.permission call.name call.arguments call_id ≡ allow))
  unfolding ask_permission
  circuit_gate_iff c call call_id none h =
      let d = decided_iff c call _ (decision_on c.permission call.name call.arguments call_id) in
      ((λ e. (refl, d.0 e)), (λ p. d.1 p.1))
  circuit_gate_iff c call call_id (some action) h = ((λ e. absurd (h e)), (λ p. cc (p.0)))

  doom_gate_iff :
      (c : HookChain R) (call : ToolCall) (call_id : Option String) (o d : Option DispatchAction)
      (sent : List SystemMessage)
      → Refuses o
      → Refuses d
      → ((doom_gate env resolver c call call_id o (d, sent)).2 ≡ proceed) ↔ (
          (d ≡ none)
          × (o ≡ none)
          × (decision_on c.permission call.name call.arguments call_id ≡ allow))
  doom_gate_iff c call call_id o none sent h k =
      let g = circuit_gate_iff c call call_id o h in
      ((λ e. let (p, q) = g.0 e in (refl, p, q)), (λ p. g.1 (p.1, p.2)))
  doom_gate_iff c call call_id o (some action) sent h k = ((λ e. absurd (k e)), (λ p. cc (p.0)))

  -- The doom loop guard switched off, and on.
  check_doom_at_iff :
      (c : HookChain R) (guard : Bool) (call : ToolCall) (call_id : Option String)
      (o : Option DispatchAction)
      → Refuses o
      → ((check_doom env resolver (record c { repetition_guard = guard }) call call_id o).2
          ≡ proceed)
        ↔ (IsQuiet (record c { repetition_guard = guard }) call.name call.arguments
            × (o ≡ none)
            × (decision_on c.permission call.name call.arguments call_id ≡ allow))
  unfolding check_doom detector_check
  check_doom_at_iff c false call call_id o h =
      let g = doom_gate_iff (record c { repetition_guard = false }) call call_id o none [] h tt in
      ((λ e. let (_, p, q) = g.0 e in (inl refl, p, q)), (λ p. g.1 (refl, p.1, p.2)))
  check_doom_at_iff c true call call_id o h =
      let (doom, found) = check_and_record env.canonicalize_args c.doom call.name call.arguments in
      let g =
        doom_gate_iff (record c { repetition_guard = true; doom = doom }) call call_id o
          (answer found).0 (answer found).1 h (answer-Refuses found) in
      (
        (λ e. let (d, p, q) = g.0 e in (inr ((answer_iff found).0 d), p, q)),
        (λ p. g.1 (found_quiet found p.0, p.1, p.2)),
      )
    where
      found_quiet :
          (found : Option DoomLoopDetection)
          → (true ≡ false) ⊎ (found ≡ none)
          → (answer found).0 ≡ none
      found_quiet found (inl e) = cc e
      found_quiet found (inr e) = (answer_iff found).1 e

  subturn_gate_iff :
      (c : HookChain R) (call : ToolCall) (call_id : Option String) (o s : Option DispatchAction)
      → Refuses o
      → Refuses s
      → ((subturn_gate env resolver c call call_id o s).2 ≡ proceed) ↔ (
          (s ≡ none)
          × IsQuiet c call.name call.arguments
          × (o ≡ none)
          × (decision_on c.permission call.name call.arguments call_id ≡ allow))
  subturn_gate_iff c call call_id o none h k =
      let g = check_doom_at_iff c c.repetition_guard call call_id o h in
      ((λ e. let (q, p, d) = g.0 e in (refl, q, p, d)), (λ p. g.1 (p.1, p.2, p.3)))
  subturn_gate_iff c call call_id o (some action) h k = ((λ e. absurd (k e)), (λ p. cc (p.0)))

  on_dispatch_at_iff :
      (c : HookChain R) (signals : List CancelSignal) (name args : String) (call_id : Option String)
      → ((on_dispatch env resolver (record c { cancel = signals }) name args call_id).2 ≡ proceed)
        ↔ Passes (record c { cancel = signals }) name args call_id
  unfolding on_dispatch is_cancelled check_server_enabled new_call
  on_dispatch_at_iff c (signal ∷ signals) name args call_id =
      ((λ e. cc e), (λ p. absurd (not_nil p.0)))
    where
      not_nil : signal ∷ signals ≡ [] → ⊥
      not_nil e = cc e
  on_dispatch_at_iff c [] name args call_id =
      let g =
        subturn_gate_iff
          (record c {
            cancel = [];
            subturn = (check_and_increment c.subturn).0;
            turn_tools = record_dispatch env call_id name args c.turn_tools;
          })
          (call_of env c.registry name args) call_id (check_server_enabled c.registry name)
          (check_and_increment c.subturn).1
          (server_check-Refuses c.registry (server_name_for c.registry name))
          (check_and_increment-Refuses c.subturn) in
      let cap = check_and_increment_iff c.subturn in
      let server = server_check_iff c.registry (server_name_for c.registry name) in
      (
        (λ e. let (s, q, o, d) = g.0 e in (refl, cap.0 s, q, server.0 o, d)),
        (λ p. g.1 (cap.1 p.1, p.2, server.1 p.3, p.4)),
      )

  -- A call of a tool goes on just when no cancel waits, the cap on the response's calls is not
  -- reached, the doom loop guard detects nothing, the server of the tool is enabled, and the
  -- permission resolver allows the call.
  pub on_dispatch-proceed_iff :
      (c : HookChain R) (name args : String) (call_id : Option String)
      → ((on_dispatch env resolver c name args call_id).2 ≡ proceed) ↔ Passes c name args call_id
  on_dispatch-proceed_iff c name args call_id = on_dispatch_at_iff c c.cancel name args call_id
