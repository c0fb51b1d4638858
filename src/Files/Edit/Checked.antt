-- ===== src/Files/Edit/Checked.antt =====
-- What an edit leaves on the path, whatever others write to it between the plan, the check of the version
-- and the rename.
use nu_agent.Prelude.{
  ℕ, true, false, [], ◌∷◌, none, some, String, ◌==◌, string_eq, ==_iff, ◌≡◌, refl, sym, ◌∙◌, ◌⊎◌,
  inl, inr, arith, Bool-cases, subst, nat_beq,
}
use nu_agent.Files.Replace.{
  Text, EditOperation, RegexEngine, EditResult, edited, invalid_pattern, compute_edit_result,
}
use nu_agent.Files.Plan.{
  OnDisk, missing, unreadable, holds, Result, ok, err, EditPlan, same_text, edit_plan, planned_edit,
  plan_search_replace_from_content, plan_search_replace_edit,
}
use nu_agent.Files.Edit.{
  Write, succeeds, fails_before, fails_after, EditSummary, check_conflict, atomic_overwrite,
  overwritten, checked_mutation, mutate_disk, apply_full_content_mutation, applied_summary,
  carry_out, apply_search_replace_edit,
}

-- The path is as it was at the rename, and the edit does not report that it wrote.
abbrev pub LeavesDisk : OnDisk → Result EditSummary × OnDisk → Type 0
LeavesDisk at_rename (ok summary, after) = (after ≡ at_rename) × (summary.wrote ≡ false)
LeavesDisk at_rename (err e, after) = after ≡ at_rename

-- What a summary reports of an edit with so many replacements, and a version behind it; an error
-- reports nothing.
abbrev pub Reports : ℕ → String → Result EditSummary → Type 0
Reports replacements new_version (err e) = Unit
Reports replacements new_version (ok summary) =
    (summary.wrote ≡ true)
    × (summary.conflict ≡ false)
    × (summary.replacements ≡ replacements)
    × (summary.new_version ≡ new_version)

module _ (engine : RegexEngine) (version : Text → String) (bytes : Text → ℕ) where
  -- At the check the path held a text of the expected version, and after the edit it holds what the
  -- edit makes of that text.
  abbrev pub Edits : OnDisk → String → EditOperation → Result EditSummary × OnDisk → Type 0
  Edits at_check expected op result =
      (current : Text) × (new_content : Text) × (replacements : ℕ) × (at_check ≡ holds current)
      × (version current ≡ expected)
      × (compute_edit_result engine current op ≡ edited new_content replacements)
      × (result.1 ≡ holds new_content)
      × Reports replacements (version new_content) result.0

  abbrev pub IsChecked :
      OnDisk → OnDisk → String → EditOperation → Result EditSummary × OnDisk → Type 0
  IsChecked at_check at_rename expected op result =
      LeavesDisk at_rename result ⊎ Edits at_check expected op result

  pub same_text-eq : (a b : Text) → same_text a b ≡ true → a ≡ b
  same_text-eq [] [] h = refl
  same_text-eq [] (b ∷ bs) h = cc
  same_text-eq (a ∷ as_) [] h = cc
  same_text-eq (a ∷ as_) (b ∷ bs) h = elim (Bool-cases (nat_beq a b)) [
    | inl same ↦
        let here : a ≡ b = ground (arith, same) in
        let rest : same_text as_ bs ≡ true = ground (arith, same, h) in
        cc (here, same_text-eq as_ bs rest)
    | inr other ↦ absurd (ground (arith, other, h))
  ]

  -- A write over a text whose version was checked.
  over-IsChecked :
      (write : Write) (at_rename : OnDisk) (current : Text) (expected : String) (op : EditOperation)
      (plan : EditPlan) (new_content : Text) (replacements : ℕ)
      → version current ≡ expected
      → compute_edit_result engine current op ≡ edited new_content replacements
      → plan.replacements ≡ replacements
      → IsChecked (holds current) at_rename expected op (
        applied_summary engine version bytes plan
            (overwritten engine version bytes current new_content
              (atomic_overwrite write at_rename new_content)).0,
        (overwritten engine version bytes current new_content
            (atomic_overwrite write at_rename new_content)).1,
      )
  over-IsChecked succeeds at_rename current expected op plan new_content n v r c =
      inr (current, new_content, n, refl, v, r, refl, (refl, refl, c, refl))
  over-IsChecked (fails_before e) at_rename current expected op plan new_content n v r c = inl refl
  over-IsChecked (fails_after e) at_rename current expected op plan new_content n v r c =
      inr (current, new_content, n, refl, v, r, refl, tt)

  mutation-IsChecked :
      (write : Write) (at_rename : OnDisk) (current : Text) (expected : String) (op : EditOperation)
      (plan : EditPlan) (new_content : Text) (replacements : ℕ)
      → version current ≡ expected
      → compute_edit_result engine current op ≡ edited new_content replacements
      → plan.replacements ≡ replacements
      → IsChecked (holds current) at_rename expected op (
        applied_summary engine version bytes plan
            (checked_mutation engine version bytes write none current at_rename new_content).0,
        (checked_mutation engine version bytes write none current at_rename new_content).1,
      )
  mutation-IsChecked write at_rename current expected op plan new_content n v r c =
      elim (Bool-cases (same_text current new_content)) [
        | inl same ↦ rw same (inl (refl, refl))
        | inr other ↦
            rw other (over-IsChecked write at_rename current expected op plan new_content n v r c)
      ]

  module _ (at_plan at_check at_rename : OnDisk)
      (no_collision : (a b : Text)
        → at_plan ≡ holds a
        → at_check ≡ holds b
        → version a ≡ version b
        → a ≡ b) where
    -- The write, for a plan that was made from a text of the expected version.
    write-IsChecked :
        (write : Write) (found : OnDisk) (planned : Text) (expected : String) (op : EditOperation)
        (plan : EditPlan) (new_content : Text) (replacements : ℕ)
        → at_check ≡ found
        → at_plan ≡ holds planned
        → version planned ≡ expected
        → compute_edit_result engine planned op ≡ edited new_content replacements
        → plan.replacements ≡ replacements
        → IsChecked found at_rename expected op (
          applied_summary engine version bytes plan
              (mutate_disk engine version bytes write found at_rename expected new_content).0,
          (mutate_disk engine version bytes write found at_rename expected new_content).1,
        )
    unfolding check_conflict
    write-IsChecked write missing planned expected op plan new_content n f g v r c = inl refl
    write-IsChecked write (unreadable e) planned expected op plan new_content n f g v r c = inl refl
    write-IsChecked write (holds current) planned expected op plan new_content n f g v r c =
        elim (Bool-cases (expected == version current)) [
          | inr stale ↦ rw stale (inl refl)
          | inl fresh ↦
              let current_version : version current ≡ expected =
                sym ((==_iff expected (version current)).0 fresh) in
              let same : planned ≡ current =
                no_collision planned current g f (v ∙ sym current_version) in
              let r' : compute_edit_result engine current op ≡ edited new_content n =
                subst (λ t. compute_edit_result engine t op ≡ edited new_content n) same r in
              rw fresh (
                mutation-IsChecked write at_rename current expected op plan new_content n
                  current_version r' c)
        ]

    -- A plan made from a text of the expected version, carried out.
    planned-IsChecked :
        (write : Write) (planned : Text) (expected : String) (op : EditOperation)
        (result : EditResult)
        → at_plan ≡ holds planned
        → version planned ≡ expected
        → compute_edit_result engine planned op ≡ result
        → IsChecked at_check at_rename expected op (
            carry_out engine version bytes write at_check at_rename
              (planned_edit engine version bytes op.search planned expected result))
    unfolding apply_full_content_mutation
    planned-IsChecked write planned expected op (invalid_pattern message) g v r = inl refl
    planned-IsChecked write planned expected op (edited new_content n) g v r =
        elim (Bool-cases (same_text new_content planned)) [
          | inl same ↦ rw same (inl (refl, refl))
          | inr other ↦ rw other (
              write-IsChecked write at_check planned expected op
                (edit_plan engine version bytes planned expected new_content n true) new_content n
                refl g v r refl)
        ]

    content-IsChecked :
        (write : Write) (planned : Text) (expected : String) (op : EditOperation)
        → at_plan ≡ holds planned
        → IsChecked at_check at_rename expected op (
            carry_out engine version bytes write at_check at_rename
              (plan_search_replace_from_content engine version bytes planned expected op))
    unfolding plan_search_replace_from_content
    content-IsChecked write planned expected op g =
        elim (Bool-cases (expected == version planned)) [
          | inr stale ↦ rw stale (inl (refl, refl))
          | inl fresh ↦ rw fresh (
              planned-IsChecked write planned expected op _ g
                (sym ((==_iff expected (version planned)).0 fresh)) refl)
        ]

    at_plan-IsChecked :
        (write : Write) (found : OnDisk) (expected : String) (op : EditOperation)
        → at_plan ≡ found
        → IsChecked at_check at_rename expected op (
            apply_search_replace_edit engine version bytes write found at_check at_rename
              (some expected)
              op)
    unfolding apply_search_replace_edit plan_search_replace_edit
    at_plan-IsChecked write missing expected op g = inl refl
    at_plan-IsChecked write (unreadable e) expected op g = inl refl
    at_plan-IsChecked write (holds planned) expected op g =
        content-IsChecked write planned expected op g

  -- Whatever others write to the path between the plan, the check of the version and the rename, as
  -- long as the texts at the plan and at the check have the same version only when they are the same:
  -- either an edit under a version leaves the path as it was at the rename and does not report that it
  -- wrote, or the text that the path held at the check has the expected version, and the path now holds
  -- what the edit makes of that text, which is what a summary reports. What others wrote between
  -- the check and the rename is then gone.
  pub apply_search_replace_edit-IsChecked :
      (write : Write) (at_plan at_check at_rename : OnDisk) (expected : String) (op : EditOperation)
      → ((a b : Text) → at_plan ≡ holds a → at_check ≡ holds b → version a ≡ version b → a ≡ b)
      → IsChecked at_check at_rename expected op (
          apply_search_replace_edit engine version bytes write at_plan at_check at_rename
            (some expected)
            op)
  apply_search_replace_edit-IsChecked write at_plan at_check at_rename expected op no_collision =
      at_plan-IsChecked at_plan at_check at_rename no_collision write at_plan expected op refl
