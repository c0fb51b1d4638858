-- ===== src/A2a/TaskStore/Cancel.antt =====
-- Canceling a task of the store (task_store/memory.rs).
use nu_agent.Prelude.{
  ◌≡◌, ◌≢◌, refl, subst, ◌⊎◌, inl, inr, true, false, List, some, none, String, string_eq, ==_refl,
  All, Bool-cases, lookup, lookup-insert, insert,
}
use nu_agent.A2a.TaskState.{
  TaskState, is_terminal, is_valid_transition, unspecified, submitted, working, input_required,
  completed, failed, canceled, rejected, auth_required,
}
use nu_agent.A2a.TaskState.Transitions.{◌⟶*◌, submitted-reached}
use nu_agent.A2a.Types.{Task, invalid_state_transition, ok, err}
use nu_agent.A2a.TaskStore.State.{Store}
use nu_agent.A2a.TaskStore.Crud.{Env, update_status, put_status, cancel_task}
use nu_agent.A2a.TaskStore.Lifecycle.{tasks-notify_status_change, Op, IsFresh}
use nu_agent.A2a.TaskStore.Runs.{run, run-⟶*}

open_cancelable :
    (s : TaskState)
    → s ≢ unspecified
    → s ≢ auth_required
    → is_terminal s ≡ false
    → is_valid_transition s canceled ≡ true
unfolding is_terminal is_valid_transition
open_cancelable unspecified a b e = absurd (a refl)
open_cancelable auth_required a b e = absurd (b refl)
open_cancelable submitted a b e = refl
open_cancelable working a b e = refl
open_cancelable input_required a b e = refl
open_cancelable completed a b e = cc
open_cancelable failed a b e = cc
open_cancelable canceled a b e = cc
open_cancelable rejected a b e = cc

terminal_closed : (s : TaskState) → is_terminal s ≡ true → is_valid_transition s canceled ≡ false
unfolding is_terminal is_valid_transition
terminal_closed unspecified e = cc
terminal_closed auth_required e = cc
terminal_closed submitted e = cc
terminal_closed working e = cc
terminal_closed input_required e = cc
terminal_closed completed e = refl
terminal_closed failed e = refl
terminal_closed canceled e = refl
terminal_closed rejected e = refl

module _ {J : Type 0} where
  -- The task with the status of a cancellation.
  abbrev pub canceled_at : Env → Task J → Task J
  canceled_at env u = record u {
    status = record { state = canceled; timestamp = env.now; message = none };
  }

  -- Canceling a task that has ended is refused and changes nothing; one that has not is canceled, in the
  -- answer and in the store.
  abbrev pub IsCanceled : Store J → Env → String → Task J → Type 0
  IsCanceled s env id u =
      ((is_terminal u.status.state ≡ true)
        × (cancel_task s env id ≡ (s, err (invalid_state_transition u.status.state canceled))))
      ⊎ ((is_terminal u.status.state ≡ false)
          × ((cancel_task s env id).1 ≡ ok (canceled_at env u))
          × (lookup id (cancel_task s env id).0.tasks ≡ some (canceled_at env u)))

  module _ (s : Store J) (env : Env) (id : String) (u : Task J)
      (found : lookup id s.tasks ≡ some u) where
    cancel_task-refused :
        is_valid_transition u.status.state canceled ≡ false
        → cancel_task s env id ≡ (s, err (invalid_state_transition u.status.state canceled))
    unfolding cancel_task update_status
    cancel_task-refused closed = rw (found, update_status) (rw closed refl)

    cancel_task-answer :
        is_valid_transition u.status.state canceled ≡ true
        → (cancel_task s env id).1 ≡ ok (canceled_at env u)
    unfolding cancel_task update_status
    cancel_task-answer valid = rw (found, update_status) (rw valid refl)

    cancel_task-tasks :
        is_valid_transition u.status.state canceled ≡ true
        → (cancel_task s env id).0.tasks ≡ insert id (canceled_at env u) s.tasks
    unfolding cancel_task update_status put_status
    cancel_task-tasks valid =
        rw (found, update_status) (rw valid (tasks-notify_status_change _ _ _))

    cancel_task-stored :
        is_valid_transition u.status.state canceled ≡ true
        → lookup id (cancel_task s env id).0.tasks ≡ some (canceled_at env u)
    cancel_task-stored valid =
        rw (cancel_task-tasks valid)
          (rw (lookup-insert id id (canceled_at env u) s.tasks) (rw (==_refl id) refl))

    reached-IsCanceled : submitted ⟶* u.status.state → IsCanceled s env id u
    reached-IsCanceled path =
        let (a, b) = submitted-reached path in
        elim (Bool-cases (is_terminal u.status.state)) [
          | inl ended ↦ inl (ended, cancel_task-refused (terminal_closed u.status.state ended))
          | inr open_task ↦
              let valid = open_cancelable u.status.state a b open_task in
              inr (open_task, cancel_task-answer valid, cancel_task-stored valid)
        ]

  -- Whatever operations follow on a task that is submitted, as long as no new task takes its
  -- identifier, it can be canceled until it has ended: `cancel_task` then answers with the task as it
  -- is, but canceled now and without a message, and the store holds that; once the task has
  -- ended, `cancel_task` refuses and changes nothing.
  pub run-IsCanceled :
      (s : Store J) (ops : List (Op J)) (id : String) (t : Task J) (env : Env)
      → All (IsFresh id) ops
      → lookup id s.tasks ≡ some t
      → t.status.state ≡ submitted
      → (u : Task J) × (lookup id (run s ops).tasks ≡ some u) × IsCanceled (run s ops) env id u
  run-IsCanceled s ops id t env f h e =
      let (u, hu, path) = run-⟶* s ops id t f h in
      (u, hu, reached-IsCanceled (run s ops) env id u hu (subst (λ x. x ⟶* u.status.state) e path))
