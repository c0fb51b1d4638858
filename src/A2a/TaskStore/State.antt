-- ===== src/A2a/TaskStore/State.antt =====
-- The store's state, its subscribers and its webhooks
-- (crates/agnt-a2a/src/task_store/memory.rs).
use nu_agent.Prelude.{
  ℕ, Bool, true, false, not, ◌||◌, List, [], ◌∷◌, ◌++◌, map, Option, none, some, String, ◌==◌,
  string_eq, ltb, if◌then◌else◌, length, retain, find, lookup, insert, remove, unwrap_or, is_some,
}
use nu_agent.A2a.Types.{
  Task, TaskStatus, TaskEvent, status_changed, artifact_added, Artifact, PushNotificationConfig,
  PushAuthenticationInfo,
}

abbrev pub channel_capacity : ℕ
channel_capacity = 64

-- One end of a bounded channel: what waits in it, and whether its receiver was dropped.
pub record Sender (J : Type 0) : Type 0 where
  pub queue : List (TaskEvent J)
  pub is_closed : Bool

-- A webhook delivery that was spawned, with the context of its task.
pub record Delivery (J : Type 0) : Type 0 where
  pub config : PushNotificationConfig J
  pub event : TaskEvent J
  pub context_id : Option String

pub record Store (J : Type 0) : Type 0 where
  pub tasks : List (String × Task J)
  pub subscriptions : List (String × List (Sender J))
  pub push_configs : List (String × List (PushNotificationConfig J))
  pub idempotency_keys : List (String × String)
  pub update_seq : List (String × ℕ)
  pub next_seq : ℕ
  pub deliveries : List (Delivery J)

module _ {J : Type 0} where
  abbrev pub empty : Store J
  empty = record {
    tasks = [];
    subscriptions = [];
    push_configs = [];
    idempotency_keys = [];
    update_seq = [];
    next_seq = 0;
    deliveries = [];
  }

  abbrev pub fresh_sender : Sender J
  fresh_sender = record { queue = []; is_closed = false }

  -- `entry(id).or_default().push(tx)`.
  unfoldable pub add_subscriber : Store J → String → Sender J → Store J
  add_subscriber s id tx = record s {
    subscriptions = insert id (unwrap_or (lookup id s.subscriptions) [] ++ tx ∷ []) s.subscriptions;
  }

  -- The store after `subscribe`, and whether the task exists.
  unfoldable pub subscribe : Store J → String → Store J × Bool
  subscribe s id = (add_subscriber s id fresh_sender, is_some (lookup id s.tasks))

  unfoldable pub put_senders : Store J → String → List (Sender J) → Store J
  put_senders s id [] = record s { subscriptions = remove id s.subscriptions }
  put_senders s id (tx ∷ rest) = record s { subscriptions = insert id (tx ∷ rest) s.subscriptions }

  -- `retain(|tx| !tx.is_closed())`, and the entry goes when no sender is left.
  unfoldable pub prune_subscriptions : Store J → String → Store J
  prune_subscriptions s id = elim (lookup id s.subscriptions) [
    | none ↦ s
    | some senders ↦ put_senders s id (retain (λ tx. not tx.is_closed) senders)
  ]

  -- `try_send`: an event is refused by a closed channel and by a full one.
  unfoldable pub try_send : TaskEvent J → Sender J → Sender J × Bool
  try_send event tx =
      if tx.is_closed || not (ltb (length tx.queue) channel_capacity)
      then (tx, false)
      else (record tx { queue = tx.queue ++ event ∷ [] }, true)

  unfoldable pub send_all : TaskEvent J → List (Sender J) → List (Sender J) × Bool
  send_all event [] = ([], false)
  send_all event (tx ∷ rest) =
      let (tx', sent) = try_send event tx in
      let (rest', failed) = send_all event rest in (tx' ∷ rest', not sent || failed)

  -- The channels of a task get the event; a failed send prunes.
  unfoldable pub notify_subscribers : Store J → String → TaskEvent J → Store J
  notify_subscribers s id event = elim (lookup id s.subscriptions) [
    | none ↦ s
    | some senders ↦
        let (sent, failed) = send_all event senders in
        let s' : Store J = record s { subscriptions = insert id sent s.subscriptions } in
        if failed then prune_subscriptions s' id else s'
  ]

  unfoldable pub event_task : TaskEvent J → String
  event_task (status_changed id _) = id
  event_task (artifact_added id _) = id

  -- One delivery is spawned for each webhook of the event's task.
  unfoldable pub notify_push_configs : Store J → TaskEvent J → Store J
  notify_push_configs s event = elim (lookup (event_task event) s.push_configs) [
    | none ↦ s
    | some entries ↦
        let context : Option String = elim (lookup (event_task event) s.tasks) [
          | none ↦ none
          | some t ↦ t.context_id
        ] in
        record s {
          deliveries =
              s.deliveries
              ++ map (λ c. record { config = c; event = event; context_id = context }) entries;
        }
  ]

  unfoldable pub notify_status_change : Store J → String → TaskStatus J → Store J
  notify_status_change s id status =
      let event : TaskEvent J = status_changed id status in
      notify_push_configs (notify_subscribers s id event) event

  unfoldable pub notify_artifact_added : Store J → String → Artifact J → Store J
  notify_artifact_added s id artifact =
      let event : TaskEvent J = artifact_added id artifact in
      notify_push_configs (notify_subscribers s id event) event

  unfoldable pub create_push_config :
      Store J
      → (uuid : String) (now : ℕ) (task_id url : String) → Option (PushAuthenticationInfo J)
      → Store J × PushNotificationConfig J
  create_push_config s uuid now task_id url authentication =
      let config : PushNotificationConfig J = record {
        id = uuid;
        url = url;
        task_id = task_id;
        authentication = authentication;
        created_at = now;
      } in
      (
        record s {
          push_configs =
              insert task_id (unwrap_or (lookup task_id s.push_configs) [] ++ config ∷ [])
                s.push_configs;
        },
        config,
      )

  unfoldable pub get_push_config : Store J → String → String → Option (PushNotificationConfig J)
  get_push_config s task_id config_id = elim (lookup task_id s.push_configs) [
    | none ↦ none
    | some configs ↦ find (λ c. c.id == config_id) configs
  ]

  unfoldable pub list_push_configs : Store J → String → List (PushNotificationConfig J)
  list_push_configs s task_id = unwrap_or (lookup task_id s.push_configs) []

  unfoldable pub delete_push_config : Store J → String → String → Store J
  delete_push_config s task_id config_id = elim (lookup task_id s.push_configs) [
    | none ↦ s
    | some entry ↦ record s {
      push_configs = insert task_id (retain (λ c. not (c.id == config_id)) entry) s.push_configs;
    }
  ]
