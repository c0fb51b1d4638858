-- ===== src/A2a/TaskStore/Lifecycle.antt =====
-- What happens to a task over any sequence of operations.
use nu_agent.Prelude.{
  ◌≡◌, refl, subst, ◌∙◌, ap, true, false, List, [], ◌∷◌, ◌++◌, Option, some, String, ◌==◌,
  string_eq, ==_iff, Bool-cases, Option-cases, unwrap_or, ◌⊎◌, inl, inr, lookup, insert,
  lookup-insert, arith,
}
use nu_agent.A2a.TaskState.{TaskState, is_valid_transition, is_terminal, completed}
use nu_agent.A2a.Types.{Task, TaskStatus, TaskEvent, Artifact, Message}
use nu_agent.A2a.TaskStore.State.{
  Store, notify_status_change, notify_artifact_added, notify_subscribers, notify_push_configs,
  prune_subscriptions, put_senders, send_all, add_subscriber, subscribe,
}
use nu_agent.A2a.TaskStore.Crud.{
  Env, Metadata, new_task, create_task, create_task_with_idempotency, create_task_subscribed,
  put_status, update_status, add_artifact, complete_task, append_history, is_finished,
  result_artifact, agent_message,
}

module _ {J : Type 0} where
  tasks-prune : (s : Store J) (id : String) → (prune_subscriptions s id).tasks ≡ s.tasks
  unfolding prune_subscriptions put_senders
  tasks-prune s id = ground arith

  tasks-notify_subscribers :
      (s : Store J) (id : String) (e : TaskEvent J) → (notify_subscribers s id e).tasks ≡ s.tasks
  unfolding notify_subscribers
  tasks-notify_subscribers s id e = elim (Option-cases (lookup id s.subscriptions)) [
    | inl missing ↦ rw (missing, notify_subscribers) refl
    | inr (senders, found) ↦
        rw (found, notify_subscribers)
          (ground (
            arith,
            tasks-prune
                (record s { subscriptions = insert id (send_all e senders).0 s.subscriptions }) id,
          ))
  ]

  tasks-notify_push_configs :
      (s : Store J) (e : TaskEvent J) → (notify_push_configs s e).tasks ≡ s.tasks
  unfolding notify_push_configs
  tasks-notify_push_configs s e = ground arith

  pub tasks-notify_status_change :
      (s : Store J) (id : String) (st : TaskStatus J)
      → (notify_status_change s id st).tasks ≡ s.tasks
  unfolding notify_status_change
  tasks-notify_status_change s id st =
      tasks-notify_push_configs _ _ ∙ tasks-notify_subscribers s id _

  pub tasks-notify_artifact_added :
      (s : Store J) (id : String) (a : Artifact J) → (notify_artifact_added s id a).tasks ≡ s.tasks
  unfolding notify_artifact_added
  tasks-notify_artifact_added s id a =
      tasks-notify_push_configs _ _ ∙ tasks-notify_subscribers s id _

  -- How a task may change in one operation: its identity stays, its status stays or makes a
  -- transition, and once it is terminal its status and its history stay.
  pub record Evolves (t u : Task J) : Type 0 where
    pub same_id : u.id ≡ t.id
    pub moved : (u.status ≡ t.status) ⊎ (is_valid_transition t.status.state u.status.state ≡ true)
    pub frozen : is_terminal t.status.state ≡ true → (u.status ≡ t.status) × (u.history ≡ t.history)

  pub Evolves-refl : (t : Task J) → Evolves t t
  Evolves-refl t = record { same_id = refl; moved = inl refl; frozen = λ h. (refl, refl) }

  -- The task under `id` is still there, changed as a task may change.
  abbrev pub Kept : List (String × Task J) → List (String × Task J) → String → Type 0
  Kept m m' id =
      (t : Task J) → lookup id m ≡ some t → (u : Task J) × (lookup id m' ≡ some u) × Evolves t u

  module _ (id : String) where
    pub Kept-same : {m m' : List (String × Task J)} → m' ≡ m → Kept m m' id
    Kept-same e t h = (t, ap (lookup id) e ∙ h, Evolves-refl t)

    pub Kept-insert :
        (m : List (String × Task J)) {m' : List (String × Task J)} (j : String) (v w : Task J)
        → m' ≡ insert j w m
        → lookup j m ≡ some v
        → Evolves v w
        → Kept m m' id
    Kept-insert m j v w e h ev t ht = elim (Bool-cases (j == id)) [
      | inl same ↦
          let je : j ≡ id = (==_iff j id).0 same in
          let vt : v ≡ t = cc (h, ht, ap (λ (k : String). lookup k m) je) in
          (w, ap (lookup id) e ∙ lookup-insert j id w m ∙ rw same, subst (λ x. Evolves x w) vt ev)
      | inr other ↦ (t, ap (lookup id) e ∙ lookup-insert j id w m ∙ rw other ht, Evolves-refl t)
    ]

-- A terminal state has no transition to any state.
terminal-closed : (a b : TaskState) → is_valid_transition a b ≡ true → is_terminal a ≡ true → ⊥
unfolding is_valid_transition is_terminal
terminal-closed a b v h = ground arith

finished-terminal : (a : TaskState) → is_finished a ≡ is_terminal a
unfolding is_finished is_terminal
finished-terminal a = ground arith

-- The operations, each with what it draws from the system.
pub data Op (J : Type 0) : Type 0 where
  create : Env → Option String → Option String → Metadata J → Op J
  create_keyed : Env → String → Option String → Option String → Metadata J → Op J
  update : Env → String → TaskState → Option (Message J) → Op J
  attach : String → Artifact J → Op J
  complete : Env → String → String → Op J
  append : String → Message J → Op J
  listen : String → Op J

module _ {J : Type 0} where
  unfoldable pub step : Store J → Op J → Store J
  step s (create env c p m) = (create_task s env c p m).0
  step s (create_keyed env key c p m) = (create_task_subscribed s env key c p m).0
  step s (update env id st msg) = (update_status s env id st msg).0
  step s (attach id a) = (add_artifact s id a).0
  step s (complete env id result) = (complete_task s env id result).0
  step s (append id msg) = (append_history s id msg).0
  step s (listen id) = (subscribe s id).0

  -- A created task does not take the identifier of the task in question.
  abbrev pub IsFresh : String → Op J → Type 0
  IsFresh id (create env c p m) = (env.uuid == id) ≡ false
  IsFresh id (create_keyed env key c p m) = (env.uuid == id) ≡ false
  IsFresh id _ = Unit

  pub Kept-create :
      (s : Store J) (env : Env) (c p : Option String) (m : Metadata J) (id : String)
      → (env.uuid == id) ≡ false
      → Kept s.tasks (create_task s env c p m).0.tasks id
  unfolding create_task
  Kept-create s env c p m id fresh t h =
      (t, lookup-insert env.uuid id (new_task env c p m) s.tasks ∙ rw fresh h, Evolves-refl t)

  tasks-create_keyed :
      (s : Store J) (env : Env) (key : String) (c p : Option String) (m : Metadata J)
      → let s' = (create_task_subscribed s env key c p m).0 in
        (s'.tasks ≡ s.tasks) ⊎ (s'.tasks ≡ (create_task s env c p m).0.tasks)
  unfolding create_task_subscribed create_task_with_idempotency add_subscriber
  tasks-create_keyed s env key c p m = ground arith

  pub Kept-create_keyed :
      (s : Store J) (env : Env) (key : String) (c p : Option String) (m : Metadata J) (id : String)
      → (env.uuid == id) ≡ false
      → Kept s.tasks (create_task_subscribed s env key c p m).0.tasks id
  Kept-create_keyed s env key c p m id fresh = elim (tasks-create_keyed s env key c p m) [
    | inl e ↦ Kept-same id e
    | inr e ↦ rw e (Kept-create s env c p m id fresh)
  ]

  abbrev completed_task : Env → String → Task J → Task J
  completed_task env result v = record v {
    artifacts = v.artifacts ++ result_artifact env result ∷ [];
    status = record {
      state = completed;
      timestamp = env.now;
      message = some (agent_message env "Task completed successfully");
    };
  }

  module _ (s : Store J) (j : String) (id : String) where
    pub Kept-update :
        (env : Env) (st : TaskState) (msg : Option (Message J))
        → Kept s.tasks (update_status s env j st msg).0.tasks id
    unfolding put_status update_status
    Kept-update env st msg = elim (Option-cases (lookup j s.tasks)) [
      | inl missing ↦ Kept-same id (rw (missing, update_status))
      | inr (v, found) ↦ elim (Bool-cases (is_valid_transition v.status.state st)) [
        | inl valid ↦
            Kept-insert id s.tasks j v
              (record v { status = record { state = st; timestamp = env.now; message = msg } })
              (rw (found, update_status) (rw valid (tasks-notify_status_change _ _ _))) found
              (record {
                same_id = refl;
                moved = inr valid;
                frozen = λ h. absurd (terminal-closed v.status.state st valid h);
              })
        | inr invalid ↦ Kept-same id (rw (found, update_status) (rw invalid))
      ]
    ]

    pub Kept-attach : (a : Artifact J) → Kept s.tasks (add_artifact s j a).0.tasks id
    unfolding add_artifact
    Kept-attach a = elim (Option-cases (lookup j s.tasks)) [
      | inl missing ↦ Kept-same id (rw (missing, add_artifact))
      | inr (v, found) ↦
          Kept-insert id s.tasks j v (record v { artifacts = v.artifacts ++ a ∷ [] })
            (rw (found, add_artifact) (tasks-notify_artifact_added _ _ _)) found
            (record { same_id = refl; moved = inl refl; frozen = λ h. (refl, refl) })
    ]

    pub Kept-complete :
        (env : Env) (result : String) → Kept s.tasks (complete_task s env j result).0.tasks id
    unfolding complete_task
    Kept-complete env result = elim (Option-cases (lookup j s.tasks)) [
      | inl missing ↦ Kept-same id (rw (missing, complete_task))
      | inr (v, found) ↦ elim (Bool-cases (is_valid_transition v.status.state completed)) [
        | inl valid ↦
            Kept-insert id s.tasks j v (completed_task env result v)
              (rw (found, complete_task)
                (rw valid (tasks-notify_status_change _ _ _ ∙ tasks-notify_artifact_added _ _ _)))
              found
              (record {
                same_id = refl;
                moved = inr valid;
                frozen = λ h. absurd (terminal-closed v.status.state completed valid h);
              })
        | inr invalid ↦ Kept-same id (rw (found, complete_task) (rw invalid))
      ]
    ]

    pub Kept-append : (msg : Message J) → Kept s.tasks (append_history s j msg).0.tasks id
    unfolding append_history
    Kept-append msg = elim (Option-cases (lookup j s.tasks)) [
      | inl missing ↦ Kept-same id (rw (missing, append_history))
      | inr (v, found) ↦ elim (Bool-cases (is_finished v.status.state)) [
        | inl done ↦ Kept-same id (rw (found, append_history) (rw done))
        | inr more ↦
            Kept-insert id s.tasks j v
              (record v { history = some (unwrap_or v.history [] ++ msg ∷ []) })
              (rw (found, append_history) (rw more)) found
              (record {
                same_id = refl;
                moved = inl refl;
                frozen = λ h. cc (finished-terminal v.status.state, more);
              })
      ]
    ]
