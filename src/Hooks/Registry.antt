-- ===== src/Hooks/Registry.antt =====
-- The registry of MCP tools (McpToolRegistry in crates/agnt-core/src/tools/handler/types.rs), the
-- source of a tool (crates/agnt-core/src/hook/permission_resolver.rs), and the check of a tool's
-- server (crates/agnt-core/src/hook/circuit_breaker_guard.rs). Sets are lists.
pub mod Mappings
pub mod Register
use nu_agent.Prelude.{
  ℕ, Bool, true, false, not, ◌&&◌, ◌||◌, List, [], ◌∷◌, ◌++◌, Option, none, some, String, Eq, ◌==◌,
  string_eq, lookup, insert, is_some, if◌then◌else◌, concat,
}
use nu_agent.Protocol.{DispatchAction, skip}

abbrev pub contains_name : List String → String → Bool
contains_name [] name = false
contains_name (n ∷ ns) name = n == name || contains_name ns name

abbrev pub set_insert : String → List String → List String
set_insert name names = if contains_name names name then names else name ∷ names

unfoldable pub set_remove : String → List String → List String
set_remove name [] = []
set_remove name (n ∷ ns) = let rest = set_remove name ns in if n == name then rest else n ∷ rest

pub record McpToolRegistry : Type 0 where
  pub names : List String
  pub raw_name_by_exposed_name : List (String × String)
  pub server_by_exposed_name : List (String × String)
  pub enabled_servers : List String

abbrev pub empty_registry : McpToolRegistry
empty_registry = record {
  names = [];
  raw_name_by_exposed_name = [];
  server_by_exposed_name = [];
  enabled_servers = [];
}

unfoldable pub server_name_for : McpToolRegistry → String → Option String
server_name_for r exposed_name = lookup exposed_name r.server_by_exposed_name

unfoldable pub is_server_enabled : McpToolRegistry → String → Bool
is_server_enabled r server = contains_name r.enabled_servers server

abbrev enabled_owner : McpToolRegistry → Option String → Bool
enabled_owner r none = false
enabled_owner r (some server) = contains_name r.enabled_servers server

unfoldable pub is_tool_enabled : McpToolRegistry → String → Bool
is_tool_enabled r exposed_name = enabled_owner r (lookup exposed_name r.server_by_exposed_name)

unfoldable pub contains : McpToolRegistry → String → Bool
unfolding is_tool_enabled
contains r name = contains_name r.names name && is_tool_enabled r name

unfoldable pub set_server_enabled : McpToolRegistry → String → Bool → McpToolRegistry
unfolding set_remove
set_server_enabled r server true = record r {
  enabled_servers = set_insert server r.enabled_servers;
}
set_server_enabled r server false = record r {
  enabled_servers = set_remove server r.enabled_servers;
}

pub data ToolSource : Type 0 where
  closure mcp builtin unknown : ToolSource

unfoldable pub source_name : ToolSource → String
source_name ToolSource.closure = "closure"
source_name ToolSource.mcp = "mcp"
source_name ToolSource.builtin = "builtin"
source_name ToolSource.unknown = "unknown"

-- The names that `BuiltinKind::from_str` reads.
abbrev pub builtin_names : List String
builtin_names =
    "read" ∷ "edit" ∷ "skill" ∷ "spawn_agent" ∷ "terminate_agent" ∷ "send_message" ∷ "list_agents"
    ∷ "http" ∷ "grep" ∷ "glob" ∷ "nu" ∷ "tmux_session" ∷ "tmux_window" ∷ "tmux_pane" ∷ "tmux_layout"
    ∷ "ast_query" ∷ "ast_nodes" ∷ "ast_refs" ∷ "ast_tree" ∷ []

unfoldable pub resolve_tool_source : String → List String → McpToolRegistry → ToolSource
unfolding contains
resolve_tool_source name closures r =
    if contains_name closures name
    then ToolSource.closure
    else if contains_name builtin_names name
    then ToolSource.builtin
    else if contains r name
    then ToolSource.mcp
    else ToolSource.unknown

abbrev disabled_message : String → String
disabled_message server = concat (
    "MCP server '" ∷ server ∷ "' is disabled (circuit breaker tripped). Re-enable via MCP panel."
    ∷ [])

abbrev pub server_check : McpToolRegistry → Option String → Option DispatchAction
server_check r none = none
server_check r (some server) =
    if contains_name r.enabled_servers server then none else some (skip (disabled_message server))

-- A tool of a server that is disabled is skipped.
unfoldable pub check_server_enabled : McpToolRegistry → String → Option DispatchAction
unfolding server_name_for
check_server_enabled r tool_name = server_check r (server_name_for r tool_name)
