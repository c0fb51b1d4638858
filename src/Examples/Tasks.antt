-- ===== src/Examples/Tasks.antt =====
-- The theorems on tasks at concrete tasks.
use nu_agent.Prelude.{
  ℕ, ◌≡◌, refl, true, false, List, [], ◌∷◌, none, some, String, string_eq, lookup, insert, inl, ◌+◌,
  ◌%◌, ◌^◌,
}
use nu_agent.A2a.TaskState.{
  TaskState, submitted, working, completed, is_terminal, is_valid_transition,
}
use nu_agent.A2a.TaskState.Transitions.{◌⟶*◌}
use nu_agent.A2a.Types.{Task, TaskEvent, status_changed, Message, Role}
use nu_agent.A2a.TaskStore.State.{Store, Sender, empty}
use nu_agent.A2a.TaskStore.Crud.{Env, create_task_with_idempotency, update_status, complete_task}
use nu_agent.A2a.TaskStore.Lifecycle.{Op, create, update, complete, append, Kept, step}
use nu_agent.A2a.TaskStore.Cancel.{IsCanceled, run-IsCanceled}
use nu_agent.A2a.TaskStore.Runs.{run, step-Kept, run-⟶*, run-terminal}
use nu_agent.A2a.TaskStore.Idempotency.{create_task_with_idempotency-twice}
use nu_agent.A2a.TaskStore.Sequence.{sequence, complete_task-stale}
use nu_agent.A2a.TaskStore.Pages.{walk, walk_all}

abbrev task_in : String → TaskState → Task ℕ
task_in id st = record {
  id = id;
  context_id = none;
  parent_task_id = none;
  status = record { state = st; timestamp = 7; message = none };
  history = none;
  artifacts = [];
  created_at = some 7;
  metadata = none;
}

abbrev store_with : TaskState → Store ℕ
store_with st = record empty { tasks = ("t1", task_in "t1" st) ∷ []; next_seq = 3 }

abbrev env_of : String → Env
env_of id = record { uuid = id; other_uuid = "m1"; now = 9 }

abbrev hello : Message ℕ
hello = record {
  role = Role.user;
  parts = [];
  message_id = "m0";
  extensions = none;
  metadata = none;
}

abbrev busy_run : List (Op ℕ)
busy_run =
    create (env_of "t2") none none none
    ∷ update (env_of "e1") "t1" working none
    ∷ append "t1" hello
    ∷ complete (env_of "e2") "t1" "done"
    ∷ []

run-terminal_example :
    (u : Task ℕ) × (lookup "t1" (run (store_with completed) busy_run).tasks ≡ some u)
    × (u.status ≡ (task_in "t1" completed).status)
    × (u.history ≡ none)
unfolding lookup is_terminal
run-terminal_example =
    run-terminal (store_with completed) busy_run "t1" (task_in "t1" completed)
      (refl, (tt, (tt, (tt, tt)))) refl refl

run-⟶*_example :
    (u : Task ℕ) × (lookup "t1" (run (store_with submitted) busy_run).tasks ≡ some u)
    × (submitted ⟶* u.status.state)
unfolding lookup
run-⟶*_example =
    run-⟶* (store_with submitted) busy_run "t1" (task_in "t1" submitted)
      (refl, (tt, (tt, (tt, tt)))) refl

step-Kept_example :
    Kept
      (store_with submitted).tasks
      (step (store_with submitted) (update (env_of "e1") "t1" working none)).tasks
      "t1"
step-Kept_example =
    step-Kept (store_with submitted) (update (env_of "e1") "t1" working none) "t1" tt

create_task_with_idempotency-twice_example :
    let (s', task, _) =
      create_task_with_idempotency (store_with submitted) (env_of "t2") "key" none none none in
    create_task_with_idempotency s' (env_of "t3") "key" (some "ctx") none none ≡ (s', task, true)
unfolding lookup
create_task_with_idempotency-twice_example =
    create_task_with_idempotency-twice (store_with submitted) "key" (env_of "t2") (env_of "t3") none
      (some "ctx") none none none none (inl refl)

abbrev three_tasks : List (Task ℕ)
three_tasks = task_in "a" working ∷ task_in "b" completed ∷ task_in "c" submitted ∷ []

walk_all_example : walk 4 2 none three_tasks ≡ three_tasks
walk_all_example = walk_all 1 three_tasks ((refl, (refl, tt)), ((refl, tt), (tt, tt)))

complete_task-stale_example :
    (sequence (complete_task (store_with working) (env_of "e1") "t1" "done").0 ≡ ([], 3))
    × (sequence (update_status (store_with working) (env_of "e1") "t1" completed none).0
        ≡ (insert "t1" 3 [], (3 + 1) % 2 ^ 64))
unfolding lookup is_valid_transition
complete_task-stale_example =
    complete_task-stale (store_with working) (env_of "e1") "t1" (task_in "t1" working) refl "done"
      refl

abbrev changed : TaskEvent ℕ
changed = status_changed "t1" (task_in "t1" working).status

abbrev listened : Store ℕ
listened = record empty {
  subscriptions =
      (
        "t1",
        record { queue = []; is_closed = true } ∷ record { queue = []; is_closed = false } ∷ [],
      )
      ∷ [];
}

abbrev senders : List (Sender ℕ)
senders =
    record { queue = []; is_closed = true }
    ∷ record { queue = changed ∷ []; is_closed = false }
    ∷ []

run-IsCanceled_example :
    (u : Task ℕ) × (lookup "t1" (run (store_with submitted) busy_run).tasks ≡ some u)
    × IsCanceled (run (store_with submitted) busy_run) (env_of "e4") "t1" u
unfolding lookup
run-IsCanceled_example =
    run-IsCanceled (store_with submitted) busy_run "t1" (task_in "t1" submitted) (env_of "e4")
      (refl, (tt, (tt, (tt, tt)))) refl refl
