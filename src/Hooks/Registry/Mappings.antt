-- ===== src/Hooks/Registry/Mappings.antt =====
-- Switching the servers of the registry.
use nu_agent.Prelude.{
  Bool, true, false, List, [], ◌∷◌, String, ◌==◌, string_eq, ==_refl, ==_iff, Bool-cases, ◌≡◌, ◌⊎◌,
  inl, inr, arith, if◌then◌else◌,
}
use nu_agent.Hooks.Registry.{
  McpToolRegistry, contains_name, set_insert, set_remove, set_server_enabled,
}

contains_name-set_remove :
    (s name : String) (names : List String)
    → contains_name (set_remove s names) name
      ≡ (if s == name then false else contains_name names name)
unfolding set_remove
contains_name-set_remove s name [] = ground arith
contains_name-set_remove s name (n ∷ ns) =
    ground (arith, contains_name-set_remove s name ns, ==_iff n s, ==_iff s name, ==_iff n name)

contains_name-set_insert :
    (s name : String) (names : List String)
    → (s == name) ≡ false
    → contains_name (set_insert s names) name ≡ contains_name names name
contains_name-set_insert s name names h = elim (Bool-cases (contains_name names s)) [
  | inl there ↦ rw there
  | inr fresh ↦ rw (fresh, h)
]

-- A server that is switched off is off, and switching others does not switch it on.
pub contains_name-disabled :
    (r : McpToolRegistry) (server : String)
    → contains_name (set_server_enabled r server false).enabled_servers server ≡ false
unfolding set_server_enabled
contains_name-disabled r server =
    rw (contains_name-set_remove server server r.enabled_servers, ==_refl server)

pub contains_name-switched :
    (r : McpToolRegistry) (other server : String) (enabled : Bool)
    → contains_name r.enabled_servers server ≡ false
    → (enabled ≡ false) ⊎ ((other == server) ≡ false)
    → contains_name (set_server_enabled r other enabled).enabled_servers server ≡ false
unfolding set_server_enabled
contains_name-switched r other server true off (inl e) = cc e
contains_name-switched r other server true off (inr e) =
    rw (contains_name-set_insert other server r.enabled_servers e) off
contains_name-switched r other server false off h =
    rw (contains_name-set_remove other server r.enabled_servers) (ground arith)
