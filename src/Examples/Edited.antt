-- ===== src/Examples/Edited.antt =====
-- The theorems on edits at a small file.
use nu_agent.Prelude.{◌≡◌, refl, true, false, [], ◌∷◌, none, some, String, codes, length}
use nu_agent.Files.Replace.{Text, EditOperation, RegexEngine, compute_edit_result}
use nu_agent.Files.Replace.Pieces.{IsReplacedAll, replace_all_of, compute_edit_result-IsReplacedAll}
use nu_agent.Files.Plan.{
  OnDisk, holds, MutateError, plan_search_replace_edit, plan_search_replace_from_content,
}
use nu_agent.Files.Edit.{succeeds, apply_search_replace_edit}
use nu_agent.Files.Edit.Checked.{IsChecked, apply_search_replace_edit-IsChecked}
use nu_agent.Files.Edit.Preview.{GoesAsPlanned, apply_search_replace_edit-GoesAsPlanned}
use nu_agent.Files.Arguments.{
  EditArgs, parse_edit_mode, resolve_edit_operation, parse_edit_match_mode, parse_edit_occurrence,
}
use nu_agent.Files.Handler.{Disks, execute, noop_or_conflict_error}
use nu_agent.Files.Handler.Honest.{execute-untouched}

-- A regex library that no pattern compiles in.
abbrev no_regex : RegexEngine
no_regex = record {
  compile_error = λ pattern. some (codes "unsupported");
  is_match = λ pattern text. false;
  count_matches = λ pattern text. 0;
  replace_one = λ pattern text replacement. text;
  replace_every = λ pattern text replacement. text;
}

compute_edit_result-IsReplacedAll_example :
    IsReplacedAll
      (codes "a-b-c")
      (replace_all_of (codes "-") (codes ", "))
      (compute_edit_result no_regex (codes "a-b-c") (replace_all_of (codes "-") (codes ", ")))
compute_edit_result-IsReplacedAll_example =
    compute_edit_result-IsReplacedAll no_regex (codes "a-b-c") (codes "-") (codes ", ") (λ e. cc e)

-- A version that tells the empty text from the others.
abbrev short_version : Text → String
short_version [] = "0"
short_version (c ∷ text) = "1"

abbrev a_file : OnDisk
a_file = holds (codes "a-b")

-- What another writes to the path between the check and the rename.
abbrev another_file : OnDisk
another_file = holds (codes "c-d")

abbrev dashes : EditOperation
dashes = replace_all_of (codes "-") (codes "+")

apply_search_replace_edit-IsChecked_example :
    IsChecked no_regex short_version length a_file another_file "1" dashes (
      apply_search_replace_edit no_regex short_version length succeeds a_file a_file another_file
        (some "1")
        dashes)
apply_search_replace_edit-IsChecked_example =
    apply_search_replace_edit-IsChecked no_regex short_version length succeeds a_file a_file
      another_file "1" dashes (λ a b first second _. cc (first, second))

apply_search_replace_edit-GoesAsPlanned_example :
    GoesAsPlanned
      (plan_search_replace_edit no_regex short_version length a_file (some "1") dashes)
      (apply_search_replace_edit no_regex short_version length succeeds a_file a_file a_file
        (some "1")
        dashes)
      a_file
apply_search_replace_edit-GoesAsPlanned_example =
    apply_search_replace_edit-GoesAsPlanned no_regex short_version length a_file (some "1") dashes

abbrev quiet_disks : Disks
quiet_disks = record {
  at_plan = a_file;
  at_apply = a_file;
  at_check = a_file;
  at_rename = a_file;
  at_refresh = a_file;
}

-- An edit under a version that is not the file's.
abbrev stale_edit : EditArgs
stale_edit = record {
  path = "notes.txt";
  expected_version = some "0";
  mode = none;
  operation = record {
    operation_type = none;
    search = some (codes "-");
    replacement = some (codes "+");
    match_mode = none;
    occurrence = some "all";
    content = none;
  };
}

abbrev no_message : MutateError → String
no_message e = ""

execute-untouched_example :
    (execute no_regex short_version length no_message succeeds quiet_disks stale_edit true).1
    ≡ a_file
unfolding execute parse_edit_mode resolve_edit_operation parse_edit_match_mode parse_edit_occurrence
    plan_search_replace_edit plan_search_replace_from_content noop_or_conflict_error
execute-untouched_example =
    execute-untouched no_regex short_version length no_message succeeds quiet_disks stale_edit true
      tt refl
