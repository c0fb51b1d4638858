-- ===== src/Files/Handler.antt =====
-- The edit tool (EditTool::execute in crates/agnt-core/src/tools/handler/edit.rs): what it answers and
-- what the path holds afterwards. The contract of an answer is kept as the plan and the summary that its
-- JSON is built from; the display of the diff is not modelled.
pub mod Honest
use nu_agent.Prelude.{
  ℕ, Bool, true, false, not, ◌||◌, List, Option, none, some, String, concat, [], ◌∷◌, nat_beq,
  if◌then◌else◌,
}
use nu_agent.Files.Replace.{Text, EditOperation, RegexEngine}
use nu_agent.Files.Plan.{
  IoError, permission_denied, OnDisk, MutateError, missing_expected_version, conflict_error, io,
  invalid_regex_pattern, Result, ok, err, EditPlan, plan_search_replace_edit, plan_create_file,
}
use nu_agent.Files.Edit.{Write, EditSummary, apply_search_replace_edit, apply_create_file}
use nu_agent.Files.Arguments.{
  EditToolMode, preview, apply, EditArgs, ResolvedEditOperation, search_replace, create, Parsed,
  parsed, invalid, parse_edit_mode, resolve_edit_operation,
}

-- What the path holds at the plan, when it is planned again to be applied, when the version is checked,
-- when the new file takes its place, and at the plan behind a conflict.
pub record Disks : Type 0 where
  pub at_plan : OnDisk
  pub at_apply : OnDisk
  pub at_check : OnDisk
  pub at_rename : OnDisk
  pub at_refresh : OnDisk

-- The answer of the tool: a contract, an error contract with its class, or a handler error.
pub data Answer : Type 0 where
  contract : EditToolMode → EditPlan → Bool → Option EditSummary → Answer
  error_contract : EditToolMode → String → String → Answer
  handler_error : String → EditPlan → Answer

unfoldable pub noop_or_conflict_error : String → EditPlan → Answer
noop_or_conflict_error path plan =
    handler_error
      (if plan.conflict
        then concat (
            "edit conflict: '" ∷ path ∷ "' was modified since it was read (expected version '"
            ∷ plan.expected_version ∷ "', current '" ∷ plan.previous_version ∷ "')" ∷ [])
        else if nat_beq plan.replacements 0
        then concat ("edit no change: search string not found in '" ∷ path ∷ "'" ∷ [])
        else concat (
            "edit no change: replacement is identical to the search string in '" ∷ path ∷ "'" ∷ []))
      plan

unfoldable pub create_conflict_error : String → EditPlan → Answer
create_conflict_error path plan =
    handler_error (concat ("edit conflict: file already exists: '" ∷ path ∷ "'" ∷ [])) plan

-- The class of a diagnostic for an error (`map_mutate_error` with `map_edit_contract_error`).
unfoldable pub error_class : MutateError → String
error_class (io permission_denied) = "permission"
error_class (io _) = "internal"
error_class (conflict_error _ _) = "stale"
error_class missing_expected_version = "validation"
error_class (invalid_regex_pattern _ _) = "validation"

module _ (engine : RegexEngine) (version : Text → String) (bytes : Text → ℕ)
    (message_of : MutateError → String) where
  abbrev pub failed : EditToolMode → MutateError → Answer
  failed mode e = error_contract mode (error_class e) (message_of e)

  -- The answer behind a conflict that appeared after the plan, from a new plan.
  abbrev pub refreshed : (EditPlan → Answer) → Result EditPlan → Answer
  refreshed refuse (err e) = failed apply e
  refreshed refuse (ok plan) = refuse plan

  abbrev pub after_summary : (EditPlan → Answer) → EditPlan → Result EditPlan → EditSummary → Answer
  after_summary refuse plan again summary =
      if summary.conflict then refreshed refuse again else contract apply plan true (some summary)

  -- The answer to an edit that was carried out.
  abbrev pub after_edit :
      (EditPlan → Answer) → EditPlan → Result EditPlan → Result EditSummary → Answer
  after_edit refuse plan again (ok summary) = after_summary refuse plan again summary
  after_edit refuse plan again (err (conflict_error _ _)) = refreshed refuse again
  after_edit refuse plan again (err (io e)) = failed apply (io e)
  after_edit refuse plan again (err missing_expected_version) =
      failed apply missing_expected_version
  after_edit refuse plan again (err (invalid_regex_pattern pattern message)) =
      failed apply (invalid_regex_pattern pattern message)

  abbrev pub after_create :
      (EditPlan → Answer) → EditPlan → Result EditPlan → Result EditSummary → Answer
  after_create refuse plan again (ok summary) = after_summary refuse plan again summary
  after_create refuse plan again (err e) = failed apply e

  module _ (write : Write) (disks : Disks) (args : EditArgs) where
    abbrev pub run_edit : EditOperation → EditToolMode → Result EditPlan → Answer × OnDisk
    run_edit op mode (err e) = (failed mode e, disks.at_rename)
    run_edit op preview (ok plan) = (contract preview plan false none, disks.at_rename)
    run_edit op apply (ok plan) =
        if plan.conflict || not plan.would_change
        then (noop_or_conflict_error args.path plan, disks.at_rename)
        else (let (result, after) =
              apply_search_replace_edit engine version bytes write disks.at_apply disks.at_check
                disks.at_rename args.expected_version op in
            (
              after_edit (noop_or_conflict_error args.path) plan
                  (plan_search_replace_edit engine version bytes disks.at_refresh
                    args.expected_version op)
                  result,
              after,
            ))

    abbrev pub run_create : Text → EditToolMode → Result EditPlan → Answer × OnDisk
    run_create content mode (err e) = (failed mode e, disks.at_rename)
    run_create content preview (ok plan) = (contract preview plan false none, disks.at_rename)
    run_create content apply (ok plan) =
        if plan.conflict
        then (create_conflict_error args.path plan, disks.at_rename)
        else (let (result, after) =
              apply_create_file engine version bytes write disks.at_apply disks.at_rename content in
            (
              after_create (create_conflict_error args.path) plan
                  (plan_create_file engine version bytes disks.at_refresh content) result,
              after,
            ))

    abbrev pub run_operation : Bool → EditToolMode → Parsed ResolvedEditOperation → Answer × OnDisk
    run_operation parent_exists mode (invalid message) =
        (error_contract mode "validation" message, disks.at_rename)
    run_operation parent_exists mode (parsed (search_replace op)) =
        run_edit op mode
          (plan_search_replace_edit engine version bytes disks.at_plan args.expected_version op)
    run_operation parent_exists mode (parsed (create content)) =
        if parent_exists
        then run_create content mode (plan_create_file engine version bytes disks.at_plan content)
        else (
          error_contract mode "internal"
              (concat ("Parent directory does not exist for '" ∷ args.path ∷ "'" ∷ [])),
          disks.at_rename,
        )

    abbrev pub run_mode : Bool → Parsed EditToolMode → Answer × OnDisk
    run_mode parent_exists (invalid message) =
        (error_contract apply "validation" message, disks.at_rename)
    run_mode parent_exists (parsed mode) =
        run_operation parent_exists mode (resolve_edit_operation args)

    -- `execute`, with whether the directory of the path exists.
    unfoldable pub execute : Bool → Answer × OnDisk
    unfolding noop_or_conflict_error create_conflict_error error_class parse_edit_mode
        resolve_edit_operation plan_search_replace_edit apply_search_replace_edit plan_create_file
        apply_create_file
    execute parent_exists = run_mode parent_exists (parse_edit_mode args.mode)
