-- ===== src/Authz/Evaluation.antt =====
-- What a policy says of a call: the last field of the tool that speaks decides.
use nu_agent.Prelude.{
  ◌≡◌, refl, sym, ◌∙◌, ap, List, [], ◌∷◌, none, some, String, string_eq, ==_refl, lookup,
  Option-cases, inl, inr,
}
use nu_agent.Authz.Policy.{
  PermissionAction, PermissionRuleMatch, PermissionDiagnostic, Rules, FieldRules, PermissionsConfig,
  Args, tool_match, arg_text, nested_match, field_rule, walk_field, walk_fields, evaluate,
}

module _ (tool_name : String) (args : Args) where
  -- The rules of the fields that speak of the call, in the order of the walk.
  unfoldable pub verdicts : FieldRules → List PermissionRuleMatch
  verdicts [] = []
  verdicts (entry ∷ fields) = elim (field_rule args entry) [
    | none ↦ verdicts fields
    | some rule ↦ nested_match tool_name entry.0 rule ∷ verdicts fields
  ]

  abbrev pub last_or : PermissionRuleMatch → List PermissionRuleMatch → PermissionRuleMatch
  last_or rule [] = rule
  last_or rule (r ∷ rules) = last_or r rules

  field_rule-no_text :
      (entry : String × Rules) → arg_text args entry.0 ≡ none → field_rule args entry ≡ none
  unfolding field_rule
  field_rule-no_text entry h = rw (h, field_rule) refl

  module _ (inherited : PermissionAction) where
    walk_field-silent :
        (rule : PermissionRuleMatch) (d : List PermissionDiagnostic) (entry : String × Rules)
        → field_rule args entry ≡ none
        → (walk_field tool_name inherited args (rule, d) entry).0 ≡ rule
    unfolding walk_field
    walk_field-silent rule d entry h = elim (Option-cases (arg_text args entry.0)) [
      | inl missing ↦ rw (missing, walk_field) refl
      | inr (s, found) ↦ rw (found, walk_field) (rw (h, walk_field) refl)
    ]

    walk_field-speaks :
        (rule : PermissionRuleMatch) (d : List PermissionDiagnostic) (entry : String × Rules)
        (r : String × PermissionAction)
        → field_rule args entry ≡ some r
        → (walk_field tool_name inherited args (rule, d) entry).0 ≡ nested_match tool_name entry.0 r
    unfolding walk_field
    walk_field-speaks rule d entry r h = elim (Option-cases (arg_text args entry.0)) [
      | inl missing ↦ absurd (cc (field_rule-no_text entry missing))
      | inr (s, found) ↦ rw (found, walk_field) (rw (h, walk_field) refl)
    ]

    walk_fields-last :
        (acc : PermissionRuleMatch × List PermissionDiagnostic) (fields : FieldRules)
        → (walk_fields tool_name inherited args acc fields).0 ≡ last_or acc.0 (verdicts fields)
    unfolding walk_fields verdicts
    walk_fields-last acc [] = refl
    walk_fields-last acc (entry ∷ fields) =
        let step = walk_field tool_name inherited args acc entry in
        let later = walk_fields-last step fields in
        elim (Option-cases (field_rule args entry)) [
          | inl silent ↦
              later
              ∙ ap (λ r. last_or r (verdicts fields)) (walk_field-silent acc.0 acc.1 entry silent)
              ∙ sym (rw (silent, verdicts) refl)
          | inr (r, speaks) ↦
              later
              ∙ ap (λ x. last_or x (verdicts fields)) (walk_field-speaks acc.0 acc.1 entry r speaks)
              ∙ sym (rw (speaks, verdicts) refl)
        ]

  -- For a tool with rules on its fields, the rule of a decision is that of the last field, in the
  -- order of the walk, with a rule for the text of its argument; when none has one it is the
  -- tool's own rule, or the global one. The action of the decision is its rule's.
  pub evaluate-last :
      (c : PermissionsConfig) (fields : FieldRules)
      → lookup tool_name c.nested_field_rules ≡ some fields
      → ((evaluate c tool_name args).matched_rule
          ≡ last_or (tool_match c tool_name) (verdicts fields))
        × ((evaluate c tool_name args).action
            ≡ (last_or (tool_match c tool_name) (verdicts fields)).action)
  unfolding evaluate
  evaluate-last c fields h =
      let e =
        walk_fields-last (tool_match c tool_name).action (tool_match c tool_name, c.diagnostics)
          fields in
      rw (h, evaluate) (e, ap (λ (r : PermissionRuleMatch). r.action) e)

verdicts-two :
    (tool_name : String) (args : Args) (f g : String × Rules) (a b : String × PermissionAction)
    → field_rule args f ≡ some a
    → field_rule args g ≡ some b
    → verdicts tool_name args (f ∷ g ∷ [])
      ≡ nested_match tool_name f.0 a ∷ nested_match tool_name g.0 b ∷ []
unfolding verdicts
verdicts-two tool_name args f g a b ha hb = rw (ha, verdicts) (rw (hb, verdicts) refl)

with_fields : PermissionsConfig → String → FieldRules → PermissionsConfig
with_fields c tool_name fields = record c { nested_field_rules = (tool_name, fields) ∷ [] }

evaluate-two :
    (c : PermissionsConfig) (tool_name : String) (args : Args) (f g : String × Rules)
    (a b : String × PermissionAction)
    → field_rule args f ≡ some a
    → field_rule args g ≡ some b
    → (evaluate (with_fields c tool_name (f ∷ g ∷ [])) tool_name args).action ≡ b.1
unfolding with_fields lookup nested_match
evaluate-two c tool_name args f g a b ha hb =
    let d = with_fields c tool_name (f ∷ g ∷ []) in
    let e = evaluate-last tool_name args d (f ∷ g ∷ []) (rw (==_refl tool_name) refl) in
    e.1
    ∙ ap (λ l. (last_or tool_name args (tool_match d tool_name) l).action)
        (verdicts-two tool_name args f g a b ha hb)

-- When two fields of a tool have a rule for a call, the one that the map gives last decides: walked
-- in the other order, the same rules give the other field's action.
evaluate-swapped :
    (c : PermissionsConfig) (tool_name : String) (args : Args) (f g : String × Rules)
    (a b : String × PermissionAction)
    → field_rule args f ≡ some a
    → field_rule args g ≡ some b
    → ((evaluate
          (record c { nested_field_rules = (tool_name, f ∷ g ∷ []) ∷ [] })
          tool_name
          args).action
        ≡ b.1)
      × ((evaluate
            (record c { nested_field_rules = (tool_name, g ∷ f ∷ []) ∷ [] })
            tool_name
            args).action
          ≡ a.1)
unfolding with_fields
evaluate-swapped c tool_name args f g a b ha hb =
    (evaluate-two c tool_name args f g a b ha hb, evaluate-two c tool_name args g f b a hb ha)
