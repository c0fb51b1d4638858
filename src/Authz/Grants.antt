-- ===== src/Authz/Grants.antt =====
-- Session grants, and what an answer to a permission card does
-- (crates/agnt-core/src/tools/authz.rs).
pub mod Scoping
use text.Mathlib.Text.{starts_with}
use nu_agent.Prelude.{
  Bool, true, false, not, ◌&&◌, List, [], ◌∷◌, Option, none, some, String, Eq, ◌==◌, string_eq,
  if◌then◌else◌, concat, ◌≡◌, refl, ◌↔◌, arith, ==_iff,
}
use nu_agent.Authz.Policy.{PermissionAction, allow, deny, PermissionDecision}

pub data AskChoice : Type 0 where
  allow_once allow_always deny_call : AskChoice

-- The arguments of the call are not part of the key.
pub record SessionGrantScopedKey : Type 0 where
  pub matched_rule_identity : String
  pub tool_name : String
  pub source : String
  pub target_field : Option String

abbrev pub same_field : Option String → Option String → Bool
same_field none none = true
same_field (some a) (some b) = a == b
same_field _ _ = false

unfoldable pub same_key : SessionGrantScopedKey → SessionGrantScopedKey → Bool
same_key a b =
    a.matched_rule_identity == b.matched_rule_identity
    && a.tool_name == b.tool_name
    && a.source == b.source
    && same_field a.target_field b.target_field

-- `grants_by_scope`, with its keys compared field by field.
abbrev pub SessionGrantCache : Type 0
SessionGrantCache = List (SessionGrantScopedKey × PermissionAction)

unfoldable pub from_request : PermissionDecision → String → String → SessionGrantScopedKey
from_request decision tool_name source = record {
  matched_rule_identity = decision.matched_rule.identity;
  tool_name = tool_name;
  source = source;
  target_field = decision.matched_rule.target_field;
}

unfoldable pub grant_lookup : SessionGrantScopedKey → SessionGrantCache → Option PermissionAction
grant_lookup key [] = none
grant_lookup key ((k, action) ∷ cache) =
    if same_key k key then some action else grant_lookup key cache

unfoldable pub grant_insert :
    SessionGrantScopedKey → PermissionAction → SessionGrantCache → SessionGrantCache
grant_insert key action [] = (key, action) ∷ []
grant_insert key action ((k, old) ∷ cache) =
    if same_key k key then (key, action) ∷ cache else (k, old) ∷ grant_insert key action cache

unfoldable pub get :
    SessionGrantCache → PermissionDecision → String → String → Option PermissionAction
unfolding grant_lookup from_request
get cache decision tool_name source = grant_lookup (from_request decision tool_name source) cache

unfoldable pub insert_allow_always :
    SessionGrantCache → PermissionDecision → String → String → SessionGrantCache
unfolding grant_insert from_request
insert_allow_always cache decision tool_name source =
    grant_insert (from_request decision tool_name source) allow cache

unfoldable pub clear : SessionGrantCache → SessionGrantCache
clear cache = []

-- Whether a tool belongs to an MCP server: its name begins with the server's and two underscores.
unfoldable pub is_server_tool : String → String → Bool
is_server_tool server_name tool_name = starts_with tool_name (concat (server_name ∷ "__" ∷ []))

unfoldable pub clear_for_server : String → SessionGrantCache → SessionGrantCache
clear_for_server server_name [] = []
clear_for_server server_name ((k, action) ∷ cache) =
    let rest = clear_for_server server_name cache in
    if is_server_tool server_name k.tool_name then rest else (k, action) ∷ rest

unfoldable pub apply_ask_choice :
    PermissionDecision
    → AskChoice
    → SessionGrantCache
    → String
    → String
    → PermissionDecision × SessionGrantCache
unfolding insert_allow_always
apply_ask_choice decision allow_once cache tool_name source =
    (record decision { action = allow }, cache)
apply_ask_choice decision allow_always cache tool_name source =
    (record decision { action = allow }, insert_allow_always cache decision tool_name source)
apply_ask_choice decision deny_call cache tool_name source =
    (record decision { action = deny }, cache)

unfoldable pub apply_session_grant_override :
    PermissionDecision → SessionGrantCache → String → String → PermissionDecision
apply_session_grant_override decision cache tool_name source =
    elim (get cache decision tool_name source) [
      | none ↦ decision
      | some action ↦ record decision { action = action }
    ]
