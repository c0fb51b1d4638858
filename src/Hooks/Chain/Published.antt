-- ===== src/Hooks/Chain/Published.antt =====
-- What the interface is told of the start and the end of a call at its dispatch: that it started, and
-- that it is over when it never ran.
use nu_agent.Prelude.{
  Bool, true, false, List, [], ◌∷◌, ◌++◌, Option, none, some, String, ◌≡◌, ◌≢◌, ◌⊎◌, inl, inr, refl,
  ap, ◌∙◌, Bool-cases,
}
use nu_agent.Protocol.{SystemMessage, DispatchAction, proceed, skip, stop, ToolCall}
use nu_agent.Hooks.Events.{SystemEvent}
use nu_agent.Hooks.State.{
  PermissionDecision, allow, deny, Resolver, Env, HookChain, is_cancelled, not_run_outcome,
  cancelled_dispatch_message,
}
use nu_agent.Hooks.SubturnCap.{check_and_increment}
use nu_agent.Hooks.Registry.{check_server_enabled}
use nu_agent.Hooks.Chain.{
  preview_event, asked_events, messages, not_run, decided, ask_permission, circuit_gate, doom_gate,
  check_doom, subturn_gate, on_dispatch, call_of, counted, Answer,
}
use nu_agent.Transcript.Entry.{Display}
use nu_agent.Guards.DoomLoop.{check_and_record, answer, detector_check}
use nu_agent.Hooks.Chain.Gates.{
  Refuses, answer-Refuses, check_and_increment-Refuses, check_server_enabled-Refuses,
}

-- The events that start or end a call.
abbrev pub marks : {P : Type 0} → List (SystemEvent P) → List (SystemEvent P)
marks [] = []
marks (SystemEvent.tool_started call ∷ es) = SystemEvent.tool_started call ∷ marks es
marks (SystemEvent.tool_completed call outcome ∷ es) =
    SystemEvent.tool_completed call outcome ∷ marks es
marks (SystemEvent.inference_started ∷ es) = marks es
marks (SystemEvent.inference_chunk _ _ ∷ es) = marks es
marks (SystemEvent.preview_requested _ _ ∷ es) = marks es
marks (SystemEvent.system_message _ ∷ es) = marks es
marks (SystemEvent.permission _ ∷ es) = marks es

-- A call that goes on was started. One that does not was neither started nor ended, or was started and
-- then ended as a call that never ran.
abbrev pub IsTold : (P : Type 0) → ToolCall → List (SystemEvent P) → DispatchAction → Type 0
IsTold P call events proceed = marks events ≡ SystemEvent.tool_started call ∷ []
IsTold P call events (skip reason) =
    (marks events ≡ [])
    ⊎ (marks events
        ≡ SystemEvent.tool_started call
          ∷ SystemEvent.tool_completed call (not_run_outcome "denied" reason)
          ∷ [])
IsTold P call events (stop reason) =
    (marks events ≡ [])
    ⊎ (marks events
        ≡ SystemEvent.tool_started call
          ∷ SystemEvent.tool_completed call (not_run_outcome "cancelled" cancelled_dispatch_message)
          ∷ [])

module _ {P : Type 0} where
  marks-messages :
      (ms : List SystemMessage) (es : List (SystemEvent P)) → marks (messages ms ++ es) ≡ marks es
  marks-messages [] es = refl
  marks-messages (m ∷ ms) es = marks-messages ms es

  marks-messages_alone : (ms : List SystemMessage) → marks (messages {Permission = P} ms) ≡ []
  marks-messages_alone [] = refl
  marks-messages_alone (m ∷ ms) = marks-messages_alone ms

  marks-asked : (ps : List P) (es : List (SystemEvent P)) → marks (asked_events ps ++ es) ≡ marks es
  marks-asked [] es = refl
  marks-asked (p ∷ ps) es = marks-asked ps es

  marks-not_run :
      (env : Env) (call : ToolCall) (kind message : String) (preview : Bool)
      → marks (not_run {Permission = P} env call false kind message preview)
        ≡ SystemEvent.tool_completed call (not_run_outcome kind message) ∷ []
  unfolding not_run
  marks-not_run env call kind message true = end (env.preview_of call.name call.arguments)
    where
      end :
          (display : Option Display)
          → marks (
              preview_event {Permission = P} call display
              ++ SystemEvent.tool_completed call (not_run_outcome kind message) ∷ [])
            ≡ SystemEvent.tool_completed call (not_run_outcome kind message) ∷ []
      end none = refl
      end (some display) = refl
  marks-not_run env call kind message false = refl

  marks-started :
      (env : Env) (call : ToolCall) (kind message : String)
      → marks (not_run {Permission = P} env call true kind message true)
        ≡ SystemEvent.tool_started call
          ∷ SystemEvent.tool_completed call (not_run_outcome kind message)
          ∷ []
  unfolding not_run
  marks-started env call kind message =
      ap (◌∷◌ (SystemEvent.tool_started call)) (marks-not_run env call kind message true)

  IsTold-nothing :
      (call : ToolCall) (events : List (SystemEvent P)) (action : DispatchAction)
      → action ≢ proceed
      → marks events ≡ []
      → IsTold P call events action
  IsTold-nothing call events proceed h e = absurd (h refl)
  IsTold-nothing call events (skip reason) h e = inl e
  IsTold-nothing call events (stop reason) h e = inl e

  IsTold-later :
      (call : ToolCall) (before after : List (SystemEvent P)) (action : DispatchAction)
      → marks (before ++ after) ≡ marks after
      → IsTold P call after action
      → IsTold P call (before ++ after) action
  IsTold-later call before after proceed e h = e ∙ h
  IsTold-later call before after (skip reason) e (inl h) = inl (e ∙ h)
  IsTold-later call before after (skip reason) e (inr h) = inr (e ∙ h)
  IsTold-later call before after (stop reason) e (inl h) = inl (e ∙ h)
  IsTold-later call before after (stop reason) e (inr h) = inr (e ∙ h)

module _ {R P : Type 0} (env : Env) (resolver : Resolver R P) where
  -- The events and the action of an answer tell of the call.
  abbrev Told : ToolCall → Answer env resolver → Type 0
  Told call a = IsTold P call a.1 a.2

  decided-Told :
      (c : HookChain R) (call : ToolCall) (asked : List P) (state : R) (d : PermissionDecision)
      → IsTold P call
          (SystemEvent.tool_started call ∷ asked_events asked
            ++ (decided env resolver c call state d).1)
          (decided env resolver c call state d).2
  unfolding decided
  decided-Told c call asked state allow =
      ap (◌∷◌ (SystemEvent.tool_started call)) (marks-asked asked [])
  decided-Told c call asked state (deny reason) = inr (
      ap (◌∷◌ (SystemEvent.tool_started call))
        (marks-asked asked _ ∙ marks-not_run env call "denied" reason _))

  circuit_gate-Told :
      (c : HookChain R) (call : ToolCall) (call_id : Option String) (o : Option DispatchAction)
      → Refuses o
      → Told call (circuit_gate env resolver c call call_id o)
  unfolding ask_permission
  circuit_gate-Told c call call_id none h =
      let (state, asked, decision) =
        resolver.resolve c.permission call.name call.arguments call_id in
      decided-Told c call asked state decision
  circuit_gate-Told c call call_id (some action) h = IsTold-nothing call [] action h refl

  doom_gate-Told :
      (c : HookChain R) (call : ToolCall) (call_id : Option String) (o d : Option DispatchAction)
      (sent : List SystemMessage)
      → Refuses o
      → Refuses d
      → Told call (doom_gate env resolver c call call_id o (d, sent))
  doom_gate-Told c call call_id o none sent h k =
      let (_, events, action) = circuit_gate env resolver c call call_id o in
      IsTold-later call (messages sent) events action (marks-messages sent events)
        (circuit_gate-Told c call call_id o h)
  doom_gate-Told c call call_id o (some action) sent h k =
      IsTold-nothing call (messages sent) action k (marks-messages_alone sent)

  check_doom-Told :
      (c : HookChain R) (guard : Bool) (call : ToolCall) (call_id : Option String)
      (o : Option DispatchAction)
      → Refuses o
      → Told call (check_doom env resolver (record c { repetition_guard = guard }) call call_id o)
  unfolding check_doom detector_check
  check_doom-Told c false call call_id o h =
      doom_gate-Told (record c { repetition_guard = false }) call call_id o none [] h tt
  check_doom-Told c true call call_id o h =
      let found = (check_and_record env.canonicalize_args c.doom call.name call.arguments).1 in
      let (doom, _) = check_and_record env.canonicalize_args c.doom call.name call.arguments in
      doom_gate-Told (record c { repetition_guard = true; doom = doom }) call call_id o
        (answer found).0 (answer found).1 h (answer-Refuses found)

  subturn_gate-Told :
      (c : HookChain R) (call : ToolCall) (call_id : Option String) (o s : Option DispatchAction)
      → Refuses o
      → Refuses s
      → Told call (subturn_gate env resolver c call call_id o s)
  subturn_gate-Told c call call_id o none h k =
      check_doom-Told c c.repetition_guard call call_id o h
  subturn_gate-Told c call call_id o (some action) h k = IsTold-nothing call [] action k refl

  -- Of the events that a dispatch publishes, those that start or end a call (other than system
  -- messages, permission events and previews, of which nothing is stated) are these: for a call that
  -- goes on, that it started, once; for one that is skipped or stopped, either none, or that it
  -- started and next that it is over without having run. So no call is left started by a dispatch
  -- that refuses it, and none is ended that was not started.
  pub on_dispatch-IsTold :
      (c : HookChain R) (name args : String) (call_id : Option String)
      → IsTold P
          (call_of env c.registry name args)
          (on_dispatch env resolver c name args call_id).1
          (on_dispatch env resolver c name args call_id).2
  unfolding on_dispatch
  on_dispatch-IsTold c name args call_id = elim (Bool-cases (is_cancelled c.cancel).1) [
    | inl stopped ↦ rw stopped (
        inr (
          marks-started env (call_of env c.registry name args) "cancelled"
            cancelled_dispatch_message))
    | inr runs ↦ rw runs (
        subturn_gate-Told (counted env resolver c name args call_id)
          (call_of env c.registry name args) call_id (check_server_enabled c.registry name)
          (check_and_increment c.subturn).1 (check_server_enabled-Refuses c.registry name)
          (check_and_increment-Refuses c.subturn))
  ]
