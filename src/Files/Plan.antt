-- ===== src/Files/Plan.antt =====
-- Plans of an edit of a file under a version (crates/agnt-core/src/tools/fs/core.rs). What a read of the
-- path finds is an argument. `version` stands for SHA-256 in hexadecimal, `bytes` for the length in
-- UTF-8.
use nu_agent.Prelude.{
  ℕ, Bool, true, false, not, [], ◌∷◌, Option, none, some, String, ◌==◌, string_eq, nat_beq, length,
  if◌then◌else◌,
}
use nu_agent.Files.Replace.{
  Text, EditOperation, RegexEngine, EditResult, edited, invalid_pattern, compute_edit_result,
  split_lines_preserving_terminators,
}

-- An error of the file system, by its kind.
pub data IoError : Type 0 where
  not_found permission_denied invalid_data other : IoError

-- What a path holds: no file, one that cannot be read as text, or a text.
pub data OnDisk : Type 0 where
  missing : OnDisk
  unreadable : IoError → OnDisk
  holds : Text → OnDisk

pub data MutateError : Type 0 where
  missing_expected_version : MutateError
  conflict_error : String → String → MutateError
  io : IoError → MutateError
  invalid_regex_pattern : Text → Text → MutateError

pub data Result (A : Type 0) : Type 0 where
  ok : A → Result A
  err : MutateError → Result A

pub record EditPlan : Type 0 where
  pub replacements : ℕ
  pub would_change : Bool
  pub noop : Bool
  pub conflict : Bool
  pub expected_version : String
  pub previous_version : String
  pub new_version : String
  pub previous_bytes : ℕ
  pub new_bytes : ℕ
  pub previous_lines : ℕ
  pub new_lines : ℕ
  pub previous_content : Text
  pub new_content : Text

abbrev pub same_text : Text → Text → Bool
same_text [] [] = true
same_text [] (_ ∷ _) = false
same_text (_ ∷ _) [] = false
same_text (a ∷ rest_a) (b ∷ rest_b) =
    let rest = same_text rest_a rest_b in if nat_beq a b then rest else false

abbrev pub line_count : Text → ℕ
line_count content = length (split_lines_preserving_terminators content)

module _ (engine : RegexEngine) (version : Text → String) (bytes : Text → ℕ) where
  -- The plan on a version that is not the current one.
  abbrev pub conflict_plan : Text → String → EditPlan
  conflict_plan content expected = record {
    replacements = 0;
    would_change = false;
    noop = false;
    conflict = true;
    expected_version = expected;
    previous_version = version content;
    new_version = version content;
    previous_bytes = bytes content;
    new_bytes = bytes content;
    previous_lines = line_count content;
    new_lines = line_count content;
    previous_content = content;
    new_content = content;
  }

  -- The plan of an edit, and whether it would change the content.
  abbrev pub edit_plan : Text → String → Text → ℕ → Bool → EditPlan
  edit_plan content expected new_content replacements would_change = record {
    replacements = replacements;
    would_change = would_change;
    noop = not would_change;
    conflict = false;
    expected_version = expected;
    previous_version = version content;
    new_version = if would_change then version new_content else version content;
    previous_bytes = bytes content;
    new_bytes = bytes new_content;
    previous_lines = line_count content;
    new_lines = line_count new_content;
    previous_content = content;
    new_content = new_content;
  }

  abbrev pub planned_edit : Text → Text → String → EditResult → Result EditPlan
  planned_edit pattern content expected (invalid_pattern message) =
      err (invalid_regex_pattern pattern message)
  planned_edit pattern content expected (edited new_content replacements) =
      ok (edit_plan content expected new_content replacements (not (same_text new_content content)))

  unfoldable pub plan_search_replace_from_content : Text → String → EditOperation → Result EditPlan
  unfolding compute_edit_result
  plan_search_replace_from_content content expected op =
      if expected == version content
      then planned_edit op.search content expected (compute_edit_result engine content op)
      else ok (conflict_plan content expected)

  abbrev pub plan_on : OnDisk → String → EditOperation → Result EditPlan
  plan_on missing expected op = err (io not_found)
  plan_on (unreadable e) expected op = err (io e)
  plan_on (holds content) expected op = plan_search_replace_from_content content expected op

  unfoldable pub plan_search_replace_edit : OnDisk → Option String → EditOperation → Result EditPlan
  unfolding plan_search_replace_from_content
  plan_search_replace_edit disk none op = err missing_expected_version
  plan_search_replace_edit disk (some expected) op = plan_on disk expected op

  -- `plan_create_from_content`, without and with a file that is there.
  unfoldable pub plan_create_from_content : Text → Option Text → EditPlan
  plan_create_from_content content (some current) = conflict_plan current ""
  plan_create_from_content content none = record {
    replacements = 0;
    would_change = true;
    noop = false;
    conflict = false;
    expected_version = "";
    previous_version = version [];
    new_version = version content;
    previous_bytes = 0;
    new_bytes = bytes content;
    previous_lines = 0;
    new_lines = line_count content;
    previous_content = [];
    new_content = content;
  }

  unfoldable pub plan_create_file : OnDisk → Text → Result EditPlan
  unfolding plan_create_from_content
  plan_create_file missing content = ok (plan_create_from_content content none)
  plan_create_file (unreadable e) content = err (io e)
  plan_create_file (holds current) content = ok (plan_create_from_content content (some current))
