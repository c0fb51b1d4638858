-- ===== src/A2a/TaskState/Codec.antt =====
-- The wire names of the task states are read back, and nothing else is read.
use text.Mathlib.TextEquality.{eq_iff}
use nu_agent.Prelude.{◌≡◌, refl, arith, String, ◌↔◌, string_eq}
use nu_agent.A2a.TaskState.{
  TaskState, to_string, ok, try_from, unspecified, submitted, working, input_required, completed,
  failed, canceled, rejected, auth_required,
}

reads : (t : TaskState) → try_from (to_string t) ≡ ok t
unfolding try_from to_string
reads unspecified = refl
reads submitted = refl
reads working = refl
reads input_required = refl
reads completed = refl
reads failed = refl
reads canceled = refl
reads rejected = refl
reads auth_required = refl

read_only : (s : String) (t : TaskState) → try_from s ≡ ok t → s ≡ to_string t
unfolding try_from to_string
read_only s t h = ground (
  arith,
  eq_iff s "TASK_STATE_UNSPECIFIED",
  eq_iff s "TASK_STATE_SUBMITTED",
  eq_iff s "TASK_STATE_WORKING",
  eq_iff s "TASK_STATE_INPUT_REQUIRED",
  eq_iff s "TASK_STATE_COMPLETED",
  eq_iff s "TASK_STATE_FAILED",
  eq_iff s "TASK_STATE_CANCELED",
  eq_iff s "TASK_STATE_REJECTED",
  eq_iff s "TASK_STATE_AUTH_REQUIRED",
)

-- A text is read as a task state exactly when it is the text that the state is printed as.
try_from-to_string_iff : (s : String) (t : TaskState) → (try_from s ≡ ok t) ↔ (s ≡ to_string t)
try_from-to_string_iff s t = (read_only s t, λ e. rw e (reads t))
