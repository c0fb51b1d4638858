-- ===== src/A2a/TaskState.antt =====
-- The state of a task, its texts, and the transition table
-- (crates/agnt-a2a/src/types/task_state.rs; `is_valid_transition` of task_store/memory.rs).
pub mod Codec
pub mod Transitions
use nu_agent.Prelude.{
  Bool, true, false, List, [], ◌∷◌, String, ◌==◌, string_eq, if◌then◌else◌, concat,
}

pub data TaskState : Type 0 where
  unspecified submitted working input_required completed failed canceled rejected auth_required :
      TaskState

pub TaskState-discrete : Discrete TaskState
TaskState-discrete = hlevel

unfoldable pub is_terminal : TaskState → Bool
is_terminal completed = true
is_terminal failed = true
is_terminal canceled = true
is_terminal rejected = true
is_terminal _ = false

unfoldable pub label : TaskState → String
label unspecified = "unspecified"
label submitted = "submitted"
label working = "working"
label input_required = "input-required"
label completed = "completed"
label failed = "failed"
label canceled = "canceled"
label rejected = "rejected"
label auth_required = "auth-required"

-- `Display`.
unfoldable pub to_string : TaskState → String
to_string unspecified = "TASK_STATE_UNSPECIFIED"
to_string submitted = "TASK_STATE_SUBMITTED"
to_string working = "TASK_STATE_WORKING"
to_string input_required = "TASK_STATE_INPUT_REQUIRED"
to_string completed = "TASK_STATE_COMPLETED"
to_string failed = "TASK_STATE_FAILED"
to_string canceled = "TASK_STATE_CANCELED"
to_string rejected = "TASK_STATE_REJECTED"
to_string auth_required = "TASK_STATE_AUTH_REQUIRED"

pub data Parsed : Type 0 where
  ok : TaskState → Parsed
  err : String → Parsed

-- `TryFrom<&str>`.
unfoldable pub try_from : String → Parsed
try_from s =
    if s == "TASK_STATE_UNSPECIFIED"
    then ok unspecified
    else if s == "TASK_STATE_SUBMITTED"
    then ok submitted
    else if s == "TASK_STATE_WORKING"
    then ok working
    else if s == "TASK_STATE_INPUT_REQUIRED"
    then ok input_required
    else if s == "TASK_STATE_COMPLETED"
    then ok completed
    else if s == "TASK_STATE_FAILED"
    then ok failed
    else if s == "TASK_STATE_CANCELED"
    then ok canceled
    else if s == "TASK_STATE_REJECTED"
    then ok rejected
    else if s == "TASK_STATE_AUTH_REQUIRED"
    then ok auth_required
    else err (concat ("unknown task state: " ∷ s ∷ []))

unfoldable pub is_valid_transition : TaskState → TaskState → Bool
is_valid_transition submitted working = true
is_valid_transition submitted canceled = true
is_valid_transition submitted rejected = true
is_valid_transition working input_required = true
is_valid_transition working completed = true
is_valid_transition working failed = true
is_valid_transition working canceled = true
is_valid_transition working rejected = true
is_valid_transition input_required working = true
is_valid_transition input_required canceled = true
is_valid_transition _ _ = false
