-- ===== src/Authz/Grants/Scoping.antt =====
-- A grant reaches the calls of its scope and no others.
use nu_agent.Prelude.{
  ◌≡◌, refl, ap, ◌↔◌, true, List, [], ◌∷◌, Option, none, some, String, string_eq, ==_iff,
  if◌then◌else◌, All, arith, inl, inr, ◌⊎◌,
}
use nu_agent.Authz.Policy.{allow, PermissionDecision}
use nu_agent.Authz.Grants.{
  AskChoice, allow_once, allow_always, deny_call, SessionGrantScopedKey, SessionGrantCache,
  same_field, same_key, from_request, grant_lookup, grant_insert, get, insert_allow_always,
  is_server_tool, clear_for_server, apply_ask_choice, apply_session_grant_override,
}

same_field_iff : (a b : Option String) → (same_field a b ≡ true) ↔ (a ≡ b)
same_field_iff none none = (λ h. refl, λ e. refl)
same_field_iff none (some b) = (λ h. cc, λ e. cc)
same_field_iff (some a) none = (λ h. cc, λ e. cc)
same_field_iff (some a) (some b) = (λ h. ap some ((==_iff a b).0 h), λ e. (==_iff a b).1 (cc))

same_key_iff : (a b : SessionGrantScopedKey) → (same_key a b ≡ true) ↔ (a ≡ b)
unfolding same_key
same_key_iff a b = ground (
  arith,
  ==_iff a.matched_rule_identity b.matched_rule_identity,
  ==_iff a.tool_name b.tool_name,
  ==_iff a.source b.source,
  same_field_iff a.target_field b.target_field,
)

-- A call is in the scope of a grant when the rules that matched have one identity and one target
-- field, and it is the same tool from the same source.
abbrev pub IsInScope :
    PermissionDecision → String → String → PermissionDecision → String → String → Type 0
IsInScope granted tool source decision tool' source' =
    (granted.matched_rule.identity ≡ decision.matched_rule.identity)
    × (granted.matched_rule.target_field ≡ decision.matched_rule.target_field)
    × (tool ≡ tool')
    × (source ≡ source')

-- Every grant of the cache allows.
abbrev pub GrantsAllow : SessionGrantCache → Type 0
GrantsAllow cache = All (λ e. e.1 ≡ allow) cache

grant_insert-GrantsAllow :
    (k : SessionGrantScopedKey) (cache : SessionGrantCache)
    → GrantsAllow cache
    → GrantsAllow (grant_insert k allow cache)
unfolding grant_insert
grant_insert-GrantsAllow k [] h = (refl, tt)
grant_insert-GrantsAllow k ((j, old) ∷ cache) h = ground (arith, grant_insert-GrantsAllow k cache)

pub data CacheOp : Type 0 where
  answer_card : PermissionDecision → AskChoice → String → String → CacheOp
  drop_server : String → CacheOp

unfoldable pub cache_step : SessionGrantCache → CacheOp → SessionGrantCache
unfolding apply_ask_choice clear_for_server
cache_step cache (answer_card decision choice tool source) =
    (apply_ask_choice decision choice cache tool source).1
cache_step cache (drop_server server) = clear_for_server server cache

unfoldable pub cache_run : SessionGrantCache → List CacheOp → SessionGrantCache
cache_run cache [] = cache
cache_run cache (op ∷ ops) = cache_run (cache_step cache op) ops

clear_for_server-GrantsAllow :
    (server : String) (cache : SessionGrantCache)
    → GrantsAllow cache
    → GrantsAllow (clear_for_server server cache)
unfolding clear_for_server
clear_for_server-GrantsAllow server [] h = tt
clear_for_server-GrantsAllow server (e ∷ cache) h =
    ground (arith, clear_for_server-GrantsAllow server cache)

cache_step-GrantsAllow :
    (cache : SessionGrantCache) (op : CacheOp)
    → GrantsAllow cache
    → GrantsAllow (cache_step cache op)
unfolding cache_step apply_ask_choice insert_allow_always
cache_step-GrantsAllow cache (answer_card d allow_once t s) h = h
cache_step-GrantsAllow cache (answer_card d allow_always t s) h =
    grant_insert-GrantsAllow (from_request d t s) cache h
cache_step-GrantsAllow cache (answer_card d deny_call t s) h = h
cache_step-GrantsAllow cache (drop_server server) h = clear_for_server-GrantsAllow server cache h

cache_run-GrantsAllow :
    (cache : SessionGrantCache) (ops : List CacheOp)
    → GrantsAllow cache
    → GrantsAllow (cache_run cache ops)
unfolding cache_run
cache_run-GrantsAllow cache [] h = h
cache_run-GrantsAllow cache (op ∷ ops) h =
    cache_run-GrantsAllow (cache_step cache op) ops (cache_step-GrantsAllow cache op h)

grant_lookup-allow :
    (k : SessionGrantScopedKey) (cache : SessionGrantCache)
    → GrantsAllow cache
    → (grant_lookup k cache ≡ none) ⊎ (grant_lookup k cache ≡ some allow)
unfolding grant_lookup
grant_lookup-allow k [] h = inl refl
grant_lookup-allow k (e ∷ cache) h = ground (arith, grant_lookup-allow k cache)

-- Whatever cards were answered and servers dropped since the cache was empty, the override leaves
-- a decision as it is or turns it into `allow`: a denial is never remembered.
pub apply_session_grant_override-cases :
    (ops : List CacheOp) (decision : PermissionDecision) (tool source : String)
    → (apply_session_grant_override decision (cache_run [] ops) tool source ≡ decision)
      ⊎ (apply_session_grant_override decision (cache_run [] ops) tool source
          ≡ record decision { action = allow })
unfolding apply_session_grant_override get
apply_session_grant_override-cases ops decision tool source =
    elim (grant_lookup-allow (from_request decision tool source) (cache_run [] ops)
      (cache_run-GrantsAllow [] ops tt)) [
        | inl e ↦ inl (rw (e, apply_session_grant_override) refl)
        | inr e ↦ inr (rw (e, apply_session_grant_override) refl)
      ]

grant_lookup-clear_for_server :
    (server : String) (k : SessionGrantScopedKey) (cache : SessionGrantCache)
    → grant_lookup k (clear_for_server server cache)
      ≡ (if is_server_tool server k.tool_name then none else grant_lookup k cache)
unfolding grant_lookup clear_for_server
grant_lookup-clear_for_server server k [] = ground arith
grant_lookup-clear_for_server server k (e ∷ cache) =
    let tools : same_key e.0 k ≡ true
        → is_server_tool server e.0.tool_name ≡ is_server_tool server k.tool_name =
      λ h. ap (λ j. is_server_tool server j.tool_name) ((same_key_iff e.0 k).0 h) in
    ground (arith, tools, grant_lookup-clear_for_server server k cache)

-- Dropping a server forgets the grants of its tools and of no others.
apply_session_grant_override-clear_for_server :
    (server : String) (decision : PermissionDecision) (cache : SessionGrantCache)
    (tool source : String)
    → apply_session_grant_override decision (clear_for_server server cache) tool source ≡ (
        if is_server_tool server tool
        then decision
        else apply_session_grant_override decision cache tool source)
unfolding apply_session_grant_override get from_request
apply_session_grant_override-clear_for_server server decision cache tool source =
    rw
      (
        grant_lookup-clear_for_server server (from_request decision tool source) cache,
        apply_session_grant_override,
      )
      (ground arith)
