-- ===== src/Authz/Overlay.antt =====
-- Overlays of the permission policy and their resolution (crates/agnt-core/src/tools/authz.rs).
pub mod Merge
use nu_agent.Prelude.{
  ℕ, ◌+◌, Bool, true, false, ◌&&◌, ◌||◌, List, [], ◌∷◌, Option, none, some, String, string_eq,
  if◌then◌else◌, length, lookup, insert, unwrap_or, is_some, btree_insert, btree_extend, ◌==◌,
}
use nu_agent.Authz.Policy.{PermissionAction, PermissionsConfig, Rules, FieldRules}

pub record PermissionsOverlay : Type 0 where
  pub default_action : Option PermissionAction
  pub tool_rules : Rules
  pub nested_field_rules : List (String × FieldRules)

abbrev is_nil {ℓ} : {A : Type ℓ} → List A → Bool
is_nil [] = true
is_nil (x ∷ xs) = false

unfoldable pub is_empty : PermissionsOverlay → Bool
is_empty o = elim o.default_action [
  | none ↦ is_nil o.tool_rules && is_nil o.nested_field_rules
  | some _ ↦ false
]

-- The overlay's rules of one field over the rules that the base has for it.
unfoldable pub merge_rules : Option Rules → Rules → Rules
merge_rules base overlay = btree_extend (btree_extend [] (unwrap_or base [])) overlay

unfoldable pub merge_fields : FieldRules → FieldRules → FieldRules
unfolding merge_rules
merge_fields entry [] = entry
merge_fields entry ((field, rules) ∷ fields) =
    merge_fields (insert field (merge_rules (lookup field entry) rules) entry) fields

unfoldable pub merge_nested :
    List (String × FieldRules) → List (String × FieldRules) → List (String × FieldRules)
unfolding merge_fields
merge_nested base [] = base
merge_nested base ((tool, fields) ∷ rest) =
    merge_nested (insert tool (merge_fields (unwrap_or (lookup tool base) []) fields) base) rest

unfoldable pub with_overlay : PermissionsConfig → PermissionsOverlay → PermissionsConfig
unfolding merge_nested
with_overlay c o = record c {
  default_action = unwrap_or o.default_action c.default_action;
  tool_rules = btree_extend (btree_extend [] c.tool_rules) o.tool_rules;
  nested_field_rules = merge_nested c.nested_field_rules o.nested_field_rules;
}

unfoldable pub with_decision_timeout : PermissionsConfig → Option ℕ → PermissionsConfig
with_decision_timeout c timeout = record c { decision_timeout = timeout }

pub record PermissionsSummary : Type 0 where
  pub default_action : PermissionAction
  pub tool_rule_count : ℕ
  pub nested_field_rule_count : ℕ

abbrev count_rules : FieldRules → ℕ
count_rules [] = 0
count_rules ((field, rules) ∷ fields) = length rules + count_rules fields

abbrev count_nested : List (String × FieldRules) → ℕ
count_nested [] = 0
count_nested ((tool, fields) ∷ rest) = count_rules fields + count_nested rest

unfoldable pub summary : PermissionsConfig → PermissionsSummary
summary c = record {
  default_action = c.default_action;
  tool_rule_count = length c.tool_rules;
  nested_field_rule_count = count_nested c.nested_field_rules;
}

abbrev overlaid : PermissionsConfig → Option PermissionsOverlay → PermissionsConfig
overlaid c none = c
overlaid c (some o) = with_overlay c o

-- `base → agent_overlay → cli_overlay`.
unfoldable pub effective_permissions :
    PermissionsConfig → Option PermissionsOverlay → Option PermissionsOverlay → PermissionsConfig
effective_permissions base agent_overlay cli_overlay =
    overlaid (overlaid base agent_overlay) cli_overlay
