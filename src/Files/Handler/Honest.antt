-- ===== src/Files/Handler/Honest.antt =====
-- The edit tool leaves the path alone unless it answers that the edit was applied.
use nu_agent.Prelude.{
  ℕ, Bool, true, false, not, ◌||◌, Option, none, some, String, string_eq, ◌≡◌, refl, inl, inr,
  Bool-cases,
}
use nu_agent.Files.Replace.{Text, EditOperation, RegexEngine}
use nu_agent.Files.Plan.{
  OnDisk, missing, unreadable, holds, MutateError, Result, ok, err, EditPlan, same_text,
}
use nu_agent.Files.Edit.{
  Write, succeeds, fails_before, fails_after, EditSummary, check_conflict, atomic_overwrite,
  checked_mutation, mutate_disk, overwritten, apply_full_content_mutation, applied_summary,
  carry_out, apply_search_replace_edit, apply_create_file,
}
use nu_agent.Files.Arguments.{
  preview, apply, EditToolMode, EditArgs, ResolvedEditOperation, search_replace, create, Parsed,
  parsed, invalid, parse_edit_mode, resolve_edit_operation,
}
use nu_agent.Files.Handler.{
  Disks, Answer, contract, error_contract, handler_error, noop_or_conflict_error,
  create_conflict_error, after_summary, after_edit, after_create, run_edit, run_create,
  run_operation, run_mode, execute,
}

-- Whether the answer says that the edit was applied.
abbrev pub applied : Answer → Bool
applied (contract mode plan b summary) = b
applied (error_contract mode class message) = false
applied (handler_error message plan) = false

-- The write does not fail once the new file is in place.
abbrev pub IsClean : Write → Type 0
IsClean succeeds = Unit
IsClean (fails_before e) = Unit
IsClean (fails_after e) = ⊥

-- An error or a conflict leaves the path as it was.
abbrev Quiet : OnDisk → Result EditSummary × OnDisk → Type 0
Quiet at_rename (err e, after) = after ≡ at_rename
Quiet at_rename (ok summary, after) = summary.conflict ≡ true → after ≡ at_rename

-- The answer is that the edit was applied, or the path is as it was.
abbrev IsUntouched : OnDisk → Answer × OnDisk → Type 0
IsUntouched at_rename (answer, after) = applied answer ≡ false → after ≡ at_rename

module _ (engine : RegexEngine) (version : Text → String) (bytes : Text → ℕ) where
  overwritten-Quiet :
      (write : Write) (at_rename : OnDisk) (current new_content : Text) (plan : EditPlan)
      → IsClean write
      → Quiet at_rename (
        applied_summary engine version bytes plan
            (overwritten engine version bytes current new_content
              (atomic_overwrite write at_rename new_content)).0,
        (overwritten engine version bytes current new_content
            (atomic_overwrite write at_rename new_content)).1,
      )
  overwritten-Quiet succeeds at_rename current new_content plan w = λ h. cc h
  overwritten-Quiet (fails_before e) at_rename current new_content plan w = refl
  overwritten-Quiet (fails_after e) at_rename current new_content plan w = absurd w

  checked-Quiet :
      (write : Write) (found : Option MutateError) (at_rename : OnDisk) (current new_content : Text)
      (plan : EditPlan)
      → IsClean write
      → Quiet at_rename (
        applied_summary engine version bytes plan
            (checked_mutation engine version bytes write found current at_rename new_content).0,
        (checked_mutation engine version bytes write found current at_rename new_content).1,
      )
  checked-Quiet write (some e) at_rename current new_content plan w = refl
  checked-Quiet write none at_rename current new_content plan w =
      elim (Bool-cases (same_text current new_content)) [
        | inl same ↦ rw same (λ h. refl)
        | inr other ↦ rw other (overwritten-Quiet write at_rename current new_content plan w)
      ]

  mutate-Quiet :
      (write : Write) (at_check at_rename : OnDisk) (expected : String) (new_content : Text)
      (plan : EditPlan)
      → IsClean write
      → Quiet at_rename (
        applied_summary engine version bytes plan
            (mutate_disk engine version bytes write at_check at_rename expected new_content).0,
        (mutate_disk engine version bytes write at_check at_rename expected new_content).1,
      )
  mutate-Quiet write missing at_rename expected new_content plan w = refl
  mutate-Quiet write (unreadable e) at_rename expected new_content plan w = refl
  mutate-Quiet write (holds current) at_rename expected new_content plan w =
      checked-Quiet write (check_conflict (some expected) (version current)) at_rename current
        new_content plan w

  carry_out-Quiet :
      (write : Write) (at_check at_rename : OnDisk) (planned : Result EditPlan)
      → IsClean write
      → Quiet at_rename (carry_out engine version bytes write at_check at_rename planned)
  unfolding apply_full_content_mutation
  carry_out-Quiet write at_check at_rename (err e) w = refl
  carry_out-Quiet write at_check at_rename (ok plan) w = elim (Bool-cases plan.conflict) [
    | inl stale ↦ simp stale (λ h. refl)
    | inr fresh ↦ elim (Bool-cases plan.would_change) [
      | inr same ↦ simp (fresh, same) (λ h. refl)
      | inl changes ↦
          simp (fresh, changes)
            (mutate-Quiet write at_check at_rename plan.expected_version plan.new_content plan w)
    ]
  ]

  create-Quiet :
      (write : Write) (at_apply at_rename : OnDisk) (content : Text)
      → IsClean write
      → Quiet at_rename (apply_create_file engine version bytes write at_apply at_rename content)
  unfolding apply_create_file
  create-Quiet write (holds current) at_rename content w = λ h. refl
  create-Quiet write (unreadable e) at_rename content w = refl
  create-Quiet succeeds missing at_rename content w = λ h. cc h
  create-Quiet (fails_before e) missing at_rename content w = refl
  create-Quiet (fails_after e) missing at_rename content w = absurd w

  module _ (message_of : MutateError → String) where
    after_summary-IsUntouched :
        (at_rename after : OnDisk) (refuse : EditPlan → Answer) (plan : EditPlan)
        (again : Result EditPlan) (summary : EditSummary)
        → Quiet at_rename (ok summary, after)
        → IsUntouched at_rename
            (after_summary engine version bytes message_of refuse plan again summary, after)
    after_summary-IsUntouched at_rename after refuse plan again summary q =
        elim (Bool-cases summary.conflict) [
          | inl stale ↦ λ h. q stale
          | inr fresh ↦ simp fresh (λ h. cc h)
        ]

    after_edit-IsUntouched :
        (at_rename : OnDisk) (refuse : EditPlan → Answer) (plan : EditPlan)
        (again : Result EditPlan) (result : Result EditSummary × OnDisk)
        → Quiet at_rename result
        → IsUntouched at_rename
            (after_edit engine version bytes message_of refuse plan again result.0, result.1)
    after_edit-IsUntouched at_rename refuse plan again (ok summary, after) q =
        after_summary-IsUntouched at_rename after refuse plan again summary q
    after_edit-IsUntouched at_rename refuse plan again (err e, after) q = λ h. q

    after_create-IsUntouched :
        (at_rename : OnDisk) (refuse : EditPlan → Answer) (plan : EditPlan)
        (again : Result EditPlan) (result : Result EditSummary × OnDisk)
        → Quiet at_rename result
        → IsUntouched at_rename
            (after_create engine version bytes message_of refuse plan again result.0, result.1)
    after_create-IsUntouched at_rename refuse plan again (ok summary, after) q =
        after_summary-IsUntouched at_rename after refuse plan again summary q
    after_create-IsUntouched at_rename refuse plan again (err e, after) q = λ h. q

    module _ (write : Write) (clean : IsClean write) (disks : Disks) (args : EditArgs) where
      run_edit-IsUntouched :
          (op : EditOperation) (mode : EditToolMode) (planned : Result EditPlan)
          → IsUntouched disks.at_rename
              (run_edit engine version bytes message_of write disks args op mode planned)
      unfolding apply_search_replace_edit
      run_edit-IsUntouched op mode (err e) = λ h. refl
      run_edit-IsUntouched op preview (ok plan) = λ h. refl
      run_edit-IsUntouched op apply (ok plan) =
          elim (Bool-cases (plan.conflict || not plan.would_change)) [
            | inl refused ↦ rw refused (λ h. refl)
            | inr goes ↦ rw goes (
                after_edit-IsUntouched disks.at_rename (noop_or_conflict_error args.path) plan _ _
                  (carry_out-Quiet write disks.at_check disks.at_rename _ clean))
          ]

      run_create-IsUntouched :
          (content : Text) (mode : EditToolMode) (planned : Result EditPlan)
          → IsUntouched disks.at_rename
              (run_create engine version bytes message_of write disks args content mode planned)
      run_create-IsUntouched content mode (err e) = λ h. refl
      run_create-IsUntouched content preview (ok plan) = λ h. refl
      run_create-IsUntouched content apply (ok plan) = elim (Bool-cases plan.conflict) [
        | inl there ↦ simp there (λ h. refl)
        | inr free ↦ simp free (
            after_create-IsUntouched disks.at_rename (create_conflict_error args.path) plan _ _
              (create-Quiet write disks.at_apply disks.at_rename content clean))
      ]

      run_operation-IsUntouched :
          (parent_exists : Bool) (mode : EditToolMode) (operation : Parsed ResolvedEditOperation)
          → IsUntouched disks.at_rename (
              run_operation engine version bytes message_of write disks args parent_exists mode
                operation)
      run_operation-IsUntouched parent_exists mode (invalid message) = λ h. refl
      run_operation-IsUntouched parent_exists mode (parsed (search_replace op)) =
          run_edit-IsUntouched op mode _
      run_operation-IsUntouched true mode (parsed (create content)) =
          run_create-IsUntouched content mode _
      run_operation-IsUntouched false mode (parsed (create content)) = λ h. refl

      run_mode-IsUntouched :
          (parent_exists : Bool) (mode : Parsed EditToolMode)
          → IsUntouched disks.at_rename
              (run_mode engine version bytes message_of write disks args parent_exists mode)
      run_mode-IsUntouched parent_exists (invalid message) = λ h. refl
      run_mode-IsUntouched parent_exists (parsed mode) =
          run_operation-IsUntouched parent_exists mode (resolve_edit_operation args)

    -- Whatever others write to the path in the meantime, and unless the directory fails to sync once
    -- the new file is in place: when the edit tool does not answer that it applied the edit, be it a
    -- preview, an error, a conflict or a creation that was refused, the path is as it was when
    -- the new file would have taken its place.
    pub execute-untouched :
        (write : Write) (disks : Disks) (args : EditArgs) (parent_exists : Bool)
        → IsClean write
        → applied (execute engine version bytes message_of write disks args parent_exists).0 ≡ false
        → (execute engine version bytes message_of write disks args parent_exists).1
          ≡ disks.at_rename
    unfolding execute
    execute-untouched write disks args parent_exists clean =
        run_mode-IsUntouched write clean disks args parent_exists (parse_edit_mode args.mode)
