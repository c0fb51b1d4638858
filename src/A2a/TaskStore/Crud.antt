-- ===== src/A2a/TaskStore/Crud.antt =====
-- The operations on tasks (crates/agnt-a2a/src/task_store/memory.rs).
use nu_agent.Prelude.{
  ℕ, ◌+◌, ◌%◌, ◌^◌, Bool, true, false, List, [], ◌∷◌, ◌++◌, Option, none, some, String, string_eq,
  if◌then◌else◌, lookup, insert, unwrap_or,
}
use nu_agent.A2a.TaskState.{
  TaskState, is_valid_transition, submitted, completed, failed, canceled, rejected,
}
use nu_agent.A2a.Types.{
  Task, TaskStatus, Artifact, Message, Part, Role, task_not_found, invalid_state_transition, Result,
  ok, err,
}
use nu_agent.A2a.TaskStore.State.{
  Store, add_subscriber, fresh_sender, notify_status_change, notify_artifact_added,
}

-- What the operation draws from the system: fresh identifiers and the time.
pub record Env : Type 0 where
  pub uuid : String
  pub other_uuid : String
  pub now : ℕ

abbrev pub Metadata : Type 0 → Type 0
Metadata J = Option (List (String × J))

-- The test that `append_history` writes out.
unfoldable pub is_finished : TaskState → Bool
is_finished completed = true
is_finished failed = true
is_finished canceled = true
is_finished rejected = true
is_finished _ = false

module _ {J : Type 0} where
  -- `fetch_add` on an `AtomicU64`, which wraps.
  unfoldable pub assign_update_seq : Store J → String → Store J
  assign_update_seq s id = record s {
    next_seq = (s.next_seq + 1) % 2 ^ 64;
    update_seq = insert id s.next_seq s.update_seq;
  }

  unfoldable pub new_task : Env → Option String → Option String → Metadata J → Task J
  new_task env context_id parent_task_id metadata = record {
    id = env.uuid;
    context_id = context_id;
    parent_task_id = parent_task_id;
    status = record { state = submitted; timestamp = env.now; message = none };
    history = none;
    artifacts = [];
    created_at = some env.now;
    metadata = metadata;
  }

  unfoldable pub create_task :
      Store J → Env → Option String → Option String → Metadata J → Store J × Task J
  unfolding assign_update_seq
  create_task s env context_id parent_task_id metadata =
      let task = new_task env context_id parent_task_id metadata in
      (assign_update_seq (record s { tasks = insert env.uuid task s.tasks }) env.uuid, task)

  unfoldable pub get_task : Store J → String → Result J (Task J)
  get_task s id = elim (lookup id s.tasks) [ none ↦ err (task_not_found id) | some t ↦ ok t ]

  -- The existing task, if the key has one, and `true`; or the new task and `false`.
  unfoldable pub create_task_with_idempotency :
      Store J → Env → String → Option String → Option String → Metadata J → Store J × Task J × Bool
  create_task_with_idempotency s env key context_id parent_task_id metadata =
      let existing : Result J (Task J) = elim (lookup key s.idempotency_keys) [
        | none ↦ err (task_not_found key)
        | some id ↦ get_task s id
      ] in
      elim existing [
        | ok task ↦ (s, task, true)
        | err _ ↦
            let (s', task) = create_task s env context_id parent_task_id metadata in
            (record s' { idempotency_keys = insert key task.id s'.idempotency_keys }, task, false)
      ]

  -- The trait's version subscribes a channel to the task either way. It is closed from the start:
  -- the receiving end, `_rx`, goes out of scope as the method returns.
  unfoldable pub create_task_subscribed :
      Store J → Env → String → Option String → Option String → Metadata J → Store J × Task J × Bool
  create_task_subscribed s env key context_id parent_task_id metadata =
      let (s', task, existed) =
        create_task_with_idempotency s env key context_id parent_task_id metadata in
      (add_subscriber s' task.id (record fresh_sender { is_closed = true }), task, existed)

  -- The write of `update_status`, before the notification.
  unfoldable pub put_status : Store J → String → Task J → TaskStatus J → Store J
  unfolding assign_update_seq
  put_status s id task status =
      assign_update_seq (record s { tasks = insert id (record task { status = status }) s.tasks })
        id

  unfoldable pub update_status :
      Store J → Env → String → TaskState → Option (Message J) → Store J × Result J (Task J)
  update_status s env id new_state message = elim (lookup id s.tasks) [
    | none ↦ (s, err (task_not_found id))
    | some task ↦
        if is_valid_transition task.status.state new_state
        then (let status : TaskStatus J = record {
          state = new_state;
          timestamp = env.now;
          message = message;
        } in
            (
              notify_status_change (put_status s id task status) id status,
              ok (record task { status = status }),
            ))
        else (s, err (invalid_state_transition task.status.state new_state))
  ]

  unfoldable pub add_artifact : Store J → String → Artifact J → Store J × Result J (Task J)
  add_artifact s id artifact = elim (lookup id s.tasks) [
    | none ↦ (s, err (task_not_found id))
    | some task ↦
        let task' : Task J = record task { artifacts = task.artifacts ++ artifact ∷ [] } in
        (notify_artifact_added (record s { tasks = insert id task' s.tasks }) id artifact, ok task')
  ]

  abbrev pub agent_message : Env → String → Message J
  agent_message env text = record {
    role = Role.agent;
    parts = Part.text text ∷ [];
    message_id = env.uuid;
    extensions = none;
    metadata = none;
  }

  unfoldable pub cancel_task : Store J → Env → String → Store J × Result J (Task J)
  cancel_task s env id = update_status s env id canceled none

  unfoldable pub fail_task : Store J → Env → String → String → Store J × Result J (Task J)
  fail_task s env id reason = update_status s env id failed (some (agent_message env reason))

  unfoldable pub reject_task : Store J → Env → String → String → Store J × Result J (Task J)
  reject_task s env id reason = update_status s env id rejected (some (agent_message env reason))

  abbrev pub result_artifact : Env → String → Artifact J
  result_artifact env result = record {
    artifact_id = env.other_uuid;
    name = some "result";
    parts = Part.text result ∷ [];
    metadata = none;
  }

  unfoldable pub complete_task : Store J → Env → String → String → Store J × Result J (Task J)
  complete_task s env id result = elim (lookup id s.tasks) [
    | none ↦ (s, err (task_not_found id))
    | some task ↦
        if is_valid_transition task.status.state completed
        then (let status : TaskStatus J = record {
          state = completed;
          timestamp = env.now;
          message = some (agent_message env "Task completed successfully");
        } in
            let task' : Task J = record task {
              artifacts = task.artifacts ++ result_artifact env result ∷ [];
              status = status;
            } in
            (
              notify_status_change
                  (notify_artifact_added (record s { tasks = insert id task' s.tasks }) id
                    (result_artifact env result))
                  id status,
              ok task',
            ))
        else (s, err (invalid_state_transition task.status.state completed))
  ]

  unfoldable pub append_history : Store J → String → Message J → Store J × Result J (Task J)
  unfolding is_finished
  append_history s id message = elim (lookup id s.tasks) [
    | none ↦ (s, err (task_not_found id))
    | some task ↦
        if is_finished task.status.state
        then (s, err (invalid_state_transition task.status.state task.status.state))
        else let task' : Task J = record task {
          history = some (unwrap_or task.history [] ++ message ∷ []);
        } in
          (record s { tasks = insert id task' s.tasks }, ok task')
  ]
