-- ===== src/Files/Edit/Preview.antt =====
-- What a preview says of the edit that follows it.
use nu_agent.Prelude.{
  ℕ, false, Option, none, some, String, ◌==◌, string_eq, ==_refl, ==_iff, ◌≡◌, refl, sym, ap, subst,
  inl, inr, Bool-cases,
}
use nu_agent.Files.Replace.{
  Text, EditOperation, RegexEngine, EditResult, edited, invalid_pattern, compute_edit_result,
}
use nu_agent.Files.Plan.{
  OnDisk, missing, unreadable, holds, Result, ok, err, EditPlan, same_text, planned_edit,
  plan_search_replace_from_content, plan_search_replace_edit,
}
use nu_agent.Files.Edit.{
  succeeds, EditSummary, check_conflict, apply_full_content_mutation, carry_out,
  apply_search_replace_edit,
}
use nu_agent.Files.Edit.Checked.{same_text-eq}

-- The edit ends as the plan says: with its numbers and versions, and its new content on the disk.
abbrev pub GoesAsPlanned : Result EditPlan → Result EditSummary × OnDisk → OnDisk → Type 0
GoesAsPlanned (err e) result before = (result.0 ≡ err e) × (result.1 ≡ before)
GoesAsPlanned (ok plan) result before =
    (summary : EditSummary) × (result.0 ≡ ok summary)
    × (result.1 ≡ holds plan.new_content)
    × (summary.replacements ≡ plan.replacements)
    × (summary.changed ≡ plan.would_change)
    × (summary.noop ≡ plan.noop)
    × (summary.conflict ≡ plan.conflict)
    × (summary.previous_version ≡ plan.previous_version)
    × (summary.new_version ≡ plan.new_version)

module _ (engine : RegexEngine) (version : Text → String) (bytes : Text → ℕ) where
  same_text-sym : (a b : Text) → same_text a b ≡ false → same_text b a ≡ false
  same_text-sym a b h = elim (Bool-cases (same_text b a)) [
    | inr other ↦ other
    | inl same ↦ cc (h, same_text-eq engine version bytes b a same)
  ]

  planned-GoesAsPlanned :
      (content pattern : Text) (result : EditResult)
      → GoesAsPlanned
          (planned_edit engine version bytes pattern content (version content) result)
          (carry_out engine version bytes succeeds
            (holds content)
            (holds content)
            (planned_edit engine version bytes pattern content (version content) result))
          (holds content)
  unfolding apply_full_content_mutation check_conflict
  planned-GoesAsPlanned content pattern (invalid_pattern message) = (refl, refl)
  planned-GoesAsPlanned content pattern (edited new_content n) =
      elim (Bool-cases (same_text new_content content)) [
        | inl same ↦ rw same (
          _,
          refl,
          ap holds (sym (same_text-eq engine version bytes new_content content same)),
          refl,
          refl,
          refl,
          refl,
          refl,
          refl,
        )
        | inr other ↦
            rw (other, ==_refl (version content), same_text-sym new_content content other)
              (_, refl, refl, refl, refl, refl, refl, refl, refl)
      ]

  content-GoesAsPlanned :
      (content : Text) (expected : String) (op : EditOperation)
      → GoesAsPlanned
          (plan_search_replace_from_content engine version bytes content expected op)
          (carry_out engine version bytes succeeds
            (holds content)
            (holds content)
            (plan_search_replace_from_content engine version bytes content expected op))
          (holds content)
  unfolding plan_search_replace_from_content
  content-GoesAsPlanned content expected op = elim (Bool-cases (expected == version content)) [
    | inr stale ↦ rw stale (_, refl, refl, refl, refl, refl, refl, refl, refl)
    | inl fresh ↦ rw fresh (
        subst
          (λ v.
            GoesAsPlanned
              (planned_edit engine version bytes op.search content v
                (compute_edit_result engine content op))
              (carry_out engine version bytes succeeds (holds content) (holds content) (
                planned_edit engine version bytes op.search content v
                  (compute_edit_result engine content op)))
              (holds content))
          (sym ((==_iff expected (version content)).0 fresh))
          (planned-GoesAsPlanned content op.search (compute_edit_result engine content op)))
  ]

  -- When nobody writes to the path between and the write succeeds, an edit ends as its plan says, which
  -- is what a preview shows: the same error, or a summary with the plan's number of replacements,
  -- verdicts and versions, and the plan's new content on the path.
  pub apply_search_replace_edit-GoesAsPlanned :
      (disk : OnDisk) (expected : Option String) (op : EditOperation)
      → GoesAsPlanned
          (plan_search_replace_edit engine version bytes disk expected op)
          (apply_search_replace_edit engine version bytes succeeds disk disk disk expected op)
          disk
  unfolding apply_search_replace_edit plan_search_replace_edit
  apply_search_replace_edit-GoesAsPlanned disk none op = (refl, refl)
  apply_search_replace_edit-GoesAsPlanned missing (some expected) op = (refl, refl)
  apply_search_replace_edit-GoesAsPlanned (unreadable e) (some expected) op = (refl, refl)
  apply_search_replace_edit-GoesAsPlanned (holds content) (some expected) op =
      content-GoesAsPlanned content expected op
