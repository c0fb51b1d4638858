-- ===== src/Authz/Policy.antt =====
-- The permission policy: its data, the choice of a rule, and the evaluation of a tool call
-- (crates/agnt-core/src/tools/authz.rs).
use nu_agent.Prelude.{
  ℕ, suc, Bool, true, false, not, ◌&&◌, List, [], ◌∷◌, ◌++◌, Option, none, some, String, ◌==◌,
  string_eq, nat_beq, leb, if◌then◌else◌, lookup, codes, concat, split_whitespace, join_space,
}
use nu_agent.Authz.Glob.{star, glob_match}

pub data PermissionAction : Type 0 where
  allow ask deny : PermissionAction

unfoldable pub as_str : PermissionAction → String
as_str allow = "allow"
as_str ask = "ask"
as_str deny = "deny"

unfoldable pub from_str : String → Option PermissionAction
from_str value =
    if value == "allow"
    then some allow
    else if value == "ask"
    then some ask
    else if value == "deny"
    then some deny
    else none

-- `action == inherited`.
unfoldable pub same_action : PermissionAction → PermissionAction → Bool
same_action allow allow = true
same_action ask ask = true
same_action deny deny = true
same_action _ _ = false

pub record PermissionDiagnostic : Type 0 where
  pub code : String
  pub message : String

pub data Scope : Type 0 where
  global tool nested : Scope

pub record PermissionRuleMatch : Type 0 where
  pub identity : String
  pub scope : Scope
  pub target_field : Option String
  pub pattern : String
  pub action : PermissionAction

pub record PermissionDecision : Type 0 where
  pub action : PermissionAction
  pub matched_rule : PermissionRuleMatch
  pub diagnostics : List PermissionDiagnostic

abbrev pub Rules : Type 0
Rules = List (String × PermissionAction)

-- The fields of a tool with their rules, in the order in which the map is walked.
abbrev pub FieldRules : Type 0
FieldRules = List (String × Rules)

pub record PermissionsConfig : Type 0 where
  pub default_action : PermissionAction
  pub tool_rules : Rules
  pub nested_field_rules : List (String × FieldRules)
  pub diagnostics : List PermissionDiagnostic
  pub decision_timeout : Option ℕ

-- An argument of a call, as far as the policy looks: a text, or something else.
pub data ArgValue : Type 0 where
  text : String → ArgValue
  other : ArgValue

abbrev pub Args : Type 0
Args = List (String × ArgValue)

count_literals : List ℕ → ℕ
count_literals [] = 0
count_literals (c ∷ p) = let rest = count_literals p in if nat_beq c star then rest else suc rest

-- The number of characters that are not `*`.
unfoldable pub pattern_specificity : String → ℕ
unfolding count_literals
pattern_specificity pattern = count_literals (codes pattern)

-- `max_by_key`: of several greatest entries the last one.
unfoldable pub most_specific :
    Option (String × PermissionAction) → Rules → Option (String × PermissionAction)
most_specific best [] = best
most_specific none (r ∷ rules) = most_specific (some r) rules
most_specific (some b) (r ∷ rules) =
    most_specific (some (if leb (pattern_specificity b.0) (pattern_specificity r.0) then r else b))
      rules

unfoldable pub matching : List ℕ → Rules → Rules
matching candidate [] = []
matching candidate (r ∷ rules) =
    let rest = matching candidate rules in if glob_match r.0 candidate then r ∷ rest else rest

unfoldable pub match_pattern : List ℕ → Rules → Option (String × PermissionAction)
unfolding most_specific matching
match_pattern candidate rules = most_specific none (matching candidate rules)

unfoldable pub global_match : PermissionsConfig → PermissionRuleMatch
global_match c = record {
  identity = "global:*";
  scope = Scope.global;
  target_field = none;
  pattern = "*";
  action = c.default_action;
}

unfoldable pub tool_match : PermissionsConfig → String → PermissionRuleMatch
unfolding global_match
tool_match c tool_name = elim (match_pattern (codes tool_name) c.tool_rules) [
  | none ↦ global_match c
  | some (pattern, action) ↦ record {
    identity = concat ("tool:" ∷ pattern ∷ []);
    scope = Scope.tool;
    target_field = none;
    pattern = pattern;
    action = action;
  }
]

-- The text of a field of the call: `args.get(field).and_then(as_str)`.
unfoldable pub arg_text : Args → String → Option String
arg_text args field = elim (lookup field args) [
  | none ↦ none
  | some v ↦ elim v [ text s ↦ some s | other ↦ none ]
]

missing_diagnostic : String → String → PermissionDiagnostic
missing_diagnostic tool_name field = record {
  code = "permissions.nested_field.missing";
  message = concat (
      "nested field '" ∷ field ∷ "' for tool '" ∷ tool_name
      ∷ "' missing or unreadable; using inherited decision" ∷ []);
}

noop_diagnostic : String → String → PermissionDiagnostic
noop_diagnostic tool_name field = record {
  code = "permissions.noop.nested_field.star";
  message =
      concat (tool_name ∷ "." ∷ field ∷ " '*' matched but inherited decision is unchanged" ∷ []);
}

unfoldable pub nested_match : String → String → String × PermissionAction → PermissionRuleMatch
nested_match tool_name field (pattern, action) = record {
  identity = concat ("nested:" ∷ tool_name ∷ "." ∷ field ∷ ":" ∷ pattern ∷ []);
  scope = Scope.nested;
  target_field = some field;
  pattern = pattern;
  action = action;
}

-- What the rules of one field say of a call: a text that no rule matches, or that is not there,
-- says nothing.
unfoldable pub field_rule : Args → String × Rules → Option (String × PermissionAction)
field_rule args (field, rules) = elim (arg_text args field) [
  | none ↦ none
  | some raw ↦ match_pattern (join_space (split_whitespace (codes raw))) rules
]

abbrev Walked : Type 0
Walked = PermissionRuleMatch × List PermissionDiagnostic

-- One round of the walk over a tool's fields.
unfoldable pub walk_field : String → PermissionAction → Args → Walked → String × Rules → Walked
unfolding field_rule missing_diagnostic noop_diagnostic
walk_field tool_name inherited args (rule, diagnostics) entry = elim (arg_text args entry.0) [
  | none ↦ (rule, diagnostics ++ missing_diagnostic tool_name entry.0 ∷ [])
  | some _ ↦ elim (field_rule args entry) [
    | none ↦ (rule, diagnostics)
    | some (pattern, action) ↦ (
      nested_match tool_name entry.0 (pattern, action),
      if pattern == "*" && same_action action inherited
          then diagnostics ++ noop_diagnostic tool_name entry.0 ∷ []
          else diagnostics,
    )
  ]
]

unfoldable pub walk_fields : String → PermissionAction → Args → Walked → FieldRules → Walked
walk_fields tool_name inherited args acc [] = acc
walk_fields tool_name inherited args acc (entry ∷ fields) =
    walk_fields tool_name inherited args (walk_field tool_name inherited args acc entry) fields

unfoldable pub evaluate : PermissionsConfig → String → Args → PermissionDecision
unfolding tool_match walk_fields
evaluate c tool_name args =
    let base = tool_match c tool_name in
    let walked : Walked = elim (lookup tool_name c.nested_field_rules) [
      | none ↦ (base, c.diagnostics)
      | some fields ↦ walk_fields tool_name base.action args (base, c.diagnostics) fields
    ] in
    record { action = walked.0.action; matched_rule = walked.0; diagnostics = walked.1 }

unfoldable pub is_tool_visible : PermissionsConfig → String → Bool
unfolding evaluate same_action
is_tool_visible c tool_name = not (same_action (evaluate c tool_name []).action deny)
