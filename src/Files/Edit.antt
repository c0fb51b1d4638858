-- ===== src/Files/Edit.antt =====
-- Edits of a file under a version, and creations (crates/agnt-core/src/tools/fs/core.rs). Others may
-- write to the path at any time, so that what the path holds at each read and at the rename is an
-- argument, and so is how the write goes. The contents that are returned are those behind the rename,
-- or at the time of it where nothing is renamed.
pub mod Checked
pub mod Preview
use nu_agent.Prelude.{
  ℕ, Bool, true, false, not, List, [], ◌∷◌, Option, none, some, String, Eq, ◌==◌, string_eq,
  nat_beq, length, if◌then◌else◌,
}
use nu_agent.Files.Replace.{Text, EditOperation, RegexEngine}
use nu_agent.Files.Plan.{
  IoError, OnDisk, MutateError, Result, EditPlan, same_text, line_count, conflict_plan, edit_plan,
  planned_edit, plan_search_replace_from_content, plan_on, plan_search_replace_edit,
  plan_create_from_content, plan_create_file, not_found, permission_denied, invalid_data, other,
  missing, unreadable, holds, missing_expected_version, conflict_error, io, invalid_regex_pattern,
  ok, err,
}

pub record ApplyMutationSummary : Type 0 where
  pub wrote : Bool
  pub changed : Bool
  pub previous_version : String
  pub new_version : String
  pub previous_bytes : ℕ
  pub new_bytes : ℕ
  pub previous_lines : ℕ
  pub new_lines : ℕ

pub record EditSummary : Type 0 where
  pub replacements : ℕ
  pub wrote : Bool
  pub changed : Bool
  pub noop : Bool
  pub conflict : Bool
  pub expected_version : String
  pub previous_version : String
  pub new_version : String

-- `check_conflict`: the error, where the versions differ.
unfoldable pub check_conflict : Option String → String → Option MutateError
check_conflict none current = none
check_conflict (some expected) current =
    if expected == current then none else some (conflict_error expected current)

-- How an overwrite goes: the new file is renamed to the path, it fails before that, or the directory
-- cannot be synced behind it.
pub data Write : Type 0 where
  succeeds : Write
  fails_before : IoError → Write
  fails_after : IoError → Write

-- The error, where there is one, and what the path holds, which held `at_rename` when the new file
-- took its place.
abbrev pub atomic_overwrite : Write → OnDisk → Text → Option MutateError × OnDisk
atomic_overwrite succeeds at_rename content = (none, holds content)
atomic_overwrite (fails_before e) at_rename content = (some (io e), at_rename)
atomic_overwrite (fails_after e) at_rename content = (some (io e), holds content)

module _ (engine : RegexEngine) (version : Text → String) (bytes : Text → ℕ) where
  -- The summary of an overwrite of one content with another, and what the path holds then.
  abbrev pub overwritten :
      Text → Text → Option MutateError × OnDisk → Result ApplyMutationSummary × OnDisk
  overwritten current new_content (some e, disk) = (err e, disk)
  overwritten current new_content (none, disk) = (
    ok (record {
      wrote = true;
      changed = true;
      previous_version = version current;
      new_version = version new_content;
      previous_bytes = bytes current;
      new_bytes = bytes new_content;
      previous_lines = line_count current;
      new_lines = line_count new_content;
    }),
    disk,
  )

  abbrev pub unchanged : Text → Text → ApplyMutationSummary
  unchanged current new_content = record {
    wrote = false;
    changed = false;
    previous_version = version current;
    new_version = version current;
    previous_bytes = bytes current;
    new_bytes = bytes new_content;
    previous_lines = line_count current;
    new_lines = line_count new_content;
  }

  abbrev pub checked_mutation :
      Write → Option MutateError → Text → OnDisk → Text → Result ApplyMutationSummary × OnDisk
  checked_mutation write (some e) current at_rename new_content = (err e, at_rename)
  checked_mutation write none current at_rename new_content =
      if same_text current new_content
      then (ok (unchanged current new_content), at_rename)
      else overwritten current new_content (atomic_overwrite write at_rename new_content)

  -- The path is read for the check of the version, and the new file takes its place later.
  abbrev pub mutate_disk :
      Write → OnDisk → OnDisk → String → Text → Result ApplyMutationSummary × OnDisk
  mutate_disk write missing at_rename expected new_content = (err (io not_found), at_rename)
  mutate_disk write (unreadable e) at_rename expected new_content = (err (io e), at_rename)
  mutate_disk write (holds current) at_rename expected new_content =
      checked_mutation write (check_conflict (some expected) (version current)) current at_rename
        new_content

  -- `apply_full_content_mutation`, with what the path holds at the check and at the rename.
  unfoldable pub apply_full_content_mutation :
      Write → OnDisk → OnDisk → Option String → Text → Result ApplyMutationSummary × OnDisk
  unfolding check_conflict
  apply_full_content_mutation write at_check at_rename none new_content =
      (err missing_expected_version, at_rename)
  apply_full_content_mutation write at_check at_rename (some expected) new_content =
      mutate_disk write at_check at_rename expected new_content

  abbrev pub summary_of : EditPlan → Bool → EditSummary
  summary_of plan noop = record {
    replacements = plan.replacements;
    wrote = false;
    changed = false;
    noop = noop;
    conflict = plan.conflict;
    expected_version = plan.expected_version;
    previous_version = plan.previous_version;
    new_version = plan.new_version;
  }

  abbrev pub applied_summary : EditPlan → Result ApplyMutationSummary → Result EditSummary
  applied_summary plan (err e) = err e
  applied_summary plan (ok applied) = ok (record {
    replacements = plan.replacements;
    wrote = applied.wrote;
    changed = applied.changed;
    noop = not applied.changed;
    conflict = false;
    expected_version = plan.expected_version;
    previous_version = applied.previous_version;
    new_version = applied.new_version;
  })

  abbrev pub carry_out : Write → OnDisk → OnDisk → Result EditPlan → Result EditSummary × OnDisk
  carry_out write at_check at_rename (err e) = (err e, at_rename)
  carry_out write at_check at_rename (ok plan) =
      if plan.conflict
      then (ok (summary_of (record plan { replacements = 0 }) false), at_rename)
      else if not plan.would_change
      then (ok (summary_of plan true), at_rename)
      else (let (applied, after) =
            apply_full_content_mutation write at_check at_rename (some plan.expected_version)
              plan.new_content in
          (applied_summary plan applied, after))

  -- `apply_search_replace_edit`: the path is read for the plan and again for the check of the
  -- version, and the new file takes its place later.
  unfoldable pub apply_search_replace_edit :
      Write → OnDisk → OnDisk → OnDisk → Option String → EditOperation → Result EditSummary × OnDisk
  unfolding plan_search_replace_edit apply_full_content_mutation
  apply_search_replace_edit write at_plan at_check at_rename expected op =
      carry_out write at_check at_rename
        (plan_search_replace_edit engine version bytes at_plan expected op)

  abbrev created : Text → Option MutateError × OnDisk → Result EditSummary × OnDisk
  created content (some e, disk) = (err e, disk)
  created content (none, disk) = (
    ok (record {
      replacements = 0;
      wrote = true;
      changed = true;
      noop = false;
      conflict = false;
      expected_version = "";
      previous_version = version [];
      new_version = version content;
    }),
    disk,
  )

  -- `apply_create_file`: the path is looked at, and written when no file was there.
  unfoldable pub apply_create_file : Write → OnDisk → OnDisk → Text → Result EditSummary × OnDisk
  apply_create_file write (holds current) at_rename content =
      (ok (summary_of (conflict_plan engine version bytes current "") false), at_rename)
  apply_create_file write (unreadable e) at_rename content = (err (io e), at_rename)
  apply_create_file write missing at_rename content =
      created content (atomic_overwrite write at_rename content)
