-- ===== src/A2a/TaskStore/Sequence.antt =====
-- The update sequence that orders the lists (task_store/memory.rs).
use nu_agent.Prelude.{
  ℕ, ◌+◌, ◌%◌, ◌^◌, ◌≡◌, refl, ◌∙◌, true, List, Option, none, some, String, string_eq, Option-cases,
  inl, inr, lookup, insert, arith,
}
use nu_agent.A2a.TaskState.{TaskState, is_valid_transition, completed}
use nu_agent.A2a.Types.{Task, TaskStatus, TaskEvent, Artifact, Message}
use nu_agent.A2a.TaskStore.State.{
  Store, send_all, put_senders, prune_subscriptions, notify_subscribers, notify_push_configs,
  notify_status_change, notify_artifact_added,
}
use nu_agent.A2a.TaskStore.Crud.{Env, update_status, put_status, complete_task}

module _ {J : Type 0} where
  -- What the lists are ordered by besides the timestamps.
  abbrev pub sequence : Store J → List (String × ℕ) × ℕ
  sequence s = (s.update_seq, s.next_seq)

  sequence-prune : (s : Store J) (id : String) → sequence (prune_subscriptions s id) ≡ sequence s
  unfolding prune_subscriptions put_senders
  sequence-prune s id = ground arith

  sequence-notify_subscribers :
      (s : Store J) (id : String) (e : TaskEvent J)
      → sequence (notify_subscribers s id e) ≡ sequence s
  unfolding notify_subscribers
  sequence-notify_subscribers s id e = elim (Option-cases (lookup id s.subscriptions)) [
    | inl missing ↦ rw (missing, notify_subscribers) refl
    | inr (senders, found) ↦
        rw (found, notify_subscribers)
          (ground (
            arith,
            sequence-prune
                (record s { subscriptions = insert id (send_all e senders).0 s.subscriptions }) id,
          ))
  ]

  sequence-notify_push_configs :
      (s : Store J) (e : TaskEvent J) → sequence (notify_push_configs s e) ≡ sequence s
  unfolding notify_push_configs
  sequence-notify_push_configs s e = ground arith

  sequence-notify_status_change :
      (s : Store J) (id : String) (st : TaskStatus J)
      → sequence (notify_status_change s id st) ≡ sequence s
  unfolding notify_status_change
  sequence-notify_status_change s id st =
      sequence-notify_push_configs _ _ ∙ sequence-notify_subscribers s id _

  sequence-notify_artifact_added :
      (s : Store J) (id : String) (a : Artifact J)
      → sequence (notify_artifact_added s id a) ≡ sequence s
  unfolding notify_artifact_added
  sequence-notify_artifact_added s id a =
      sequence-notify_push_configs _ _ ∙ sequence-notify_subscribers s id _

  module _ (s : Store J) (env : Env) (id : String) (t : Task J)
      (found : lookup id s.tasks ≡ some t) where
    -- A status that is updated moves the task to the newest place of the sequence.
    pub update_status-newest :
        (st : TaskState) (msg : Option (Message J))
        → is_valid_transition t.status.state st ≡ true
        → sequence (update_status s env id st msg).0
          ≡ (insert id s.next_seq s.update_seq, (s.next_seq + 1) % 2 ^ 64)
    unfolding update_status put_status
    update_status-newest st msg valid =
        rw (found, update_status) (rw valid (sequence-notify_status_change _ _ _))

    -- When its transition to completed is valid, a task that is completed leaves the update
    -- sequence as it is, where the same change by `update_status` moves the task to the newest
    -- place.
    pub complete_task-stale :
        (result : String)
        → is_valid_transition t.status.state completed ≡ true
        → (sequence (complete_task s env id result).0 ≡ sequence s)
          × (sequence (update_status s env id completed none).0
              ≡ (insert id s.next_seq s.update_seq, (s.next_seq + 1) % 2 ^ 64))
    unfolding complete_task
    complete_task-stale result valid = (
      rw (found, complete_task)
          (rw valid (sequence-notify_status_change _ _ _ ∙ sequence-notify_artifact_added _ _ _)),
      update_status-newest completed none valid,
    )
