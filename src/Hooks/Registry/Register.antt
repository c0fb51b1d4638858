-- ===== src/Hooks/Registry/Register.antt =====
-- How tools enter the registry of MCP tools (from_tools and register_tools in
-- crates/agnt-core/src/tools/handler/types.rs).
use nu_agent.Prelude.{
  Bool, true, false, not, ◌&&◌, List, [], ◌∷◌, Option, none, some, String, ◌==◌, string_eq, ==_iff,
  lookup, insert, lookup-insert, subst, is_some, if◌then◌else◌, concat, ◌≡◌, refl, ◌∙◌, inl, inr,
  arith, Bool-cases, All,
}
use nu_agent.Hooks.Registry.{McpToolRegistry, empty_registry, contains_name, set_insert}

pub record McpToolDefinition : Type 0 where
  pub name : String
  pub raw_name : String
  pub server : String

pub record PendingTool : Type 0 where
  pub exposed_name : String
  pub raw_name : String
  pub server_name : String
  pub is_new_mapping : Bool

-- What the registering of tools gives, or the message of its refusal.
pub data Outcome (A : Type 0) : Type 0 where
  accepted : A → Outcome A
  refused : String → Outcome A

-- The entries of a new mapping.
abbrev pub add_mapping : String → String → String → McpToolRegistry → McpToolRegistry
add_mapping name raw_name server r = record r {
  names = set_insert name r.names;
  raw_name_by_exposed_name = insert name raw_name r.raw_name_by_exposed_name;
  server_by_exposed_name = insert name server r.server_by_exposed_name;
}

abbrev pub enable : String → McpToolRegistry → McpToolRegistry
enable server r = record r { enabled_servers = set_insert server r.enabled_servers }

unfoldable pub build_from : McpToolRegistry → List McpToolDefinition → Outcome McpToolRegistry
build_from r [] = accepted r
build_from r (t ∷ ts) =
    let rest = build_from (enable t.server (add_mapping t.name t.raw_name t.server r)) ts in
    if contains_name r.names t.name
    then refused (
        concat
          ("duplicate exposed MCP tool name '" ∷ t.name ∷ "' while building MCP registry" ∷ []))
    else rest

unfoldable pub from_tools : List McpToolDefinition → Outcome McpToolRegistry
unfolding build_from
from_tools tools = build_from empty_registry tools

abbrev conflict : String → String → String → String → String
conflict what name existing new = concat (
    "conflicting " ∷ what ∷ " for '" ∷ name ∷ "': existing='" ∷ existing ∷ "' new='" ∷ new ∷ "'"
    ∷ [])

-- The refusal of a tool whose name is taken by another raw name or another server.
abbrev pub check_same : String → Option String → Option String → McpToolDefinition → Option String
check_same name none server t = none
check_same name (some raw) server t =
    if raw == t.raw_name
    then check_owner server
    else some (conflict "raw MCP tool mapping" name raw t.raw_name)
  where
    check_owner : Option String → Option String
    check_owner none = none
    check_owner (some s) =
        if s == t.server then none else some (conflict "MCP tool owner" name s t.server)

-- A raw name and a server.
abbrev pub Mapping : Type 0
Mapping = String × String

abbrev first_of : Option Mapping → Option String
first_of none = none
first_of (some p) = some p.0

abbrev second_of : Option Mapping → Option String
second_of none = none
second_of (some p) = some p.1

abbrev pub remember :
    Option Mapping → McpToolDefinition → List (String × Mapping) → List (String × Mapping)
remember none t seen = insert t.name (t.raw_name, t.server) seen
remember (some _) t seen = seen

abbrev pub cons_pending : PendingTool → Outcome (List PendingTool) → Outcome (List PendingTool)
cons_pending p (accepted ps) = accepted (p ∷ ps)
cons_pending p (refused message) = refused message

abbrev pub refuse_or : Option String → Outcome (List PendingTool) → Outcome (List PendingTool)
refuse_or none rest = rest
refuse_or (some message) rest = refused message

-- The refusals of a tool, for those before it and for those in the registry.
abbrev pub seen_conflict : List (String × Mapping) → McpToolDefinition → Option String
seen_conflict seen t =
    let before = lookup t.name seen in check_same t.name (first_of before) (second_of before) t

abbrev pub known_conflict : McpToolRegistry → McpToolDefinition → Option String
known_conflict r t =
    check_same t.name (lookup t.name r.raw_name_by_exposed_name)
      (lookup t.name r.server_by_exposed_name) t

abbrev pub pending_of : McpToolRegistry → List String → McpToolDefinition → PendingTool
pending_of r fresh t = record {
  exposed_name = t.name;
  raw_name = t.raw_name;
  server_name = t.server;
  is_new_mapping =
      not (is_some (lookup t.name r.raw_name_by_exposed_name)) && not (contains_name fresh t.name);
}

abbrev pub fresh_after : McpToolRegistry → List String → McpToolDefinition → List String
fresh_after r fresh t =
    if is_some (lookup t.name r.raw_name_by_exposed_name) then fresh else set_insert t.name fresh

-- The first loop of `register_tools`: what was seen of the incoming tools, and the names that are new.
unfoldable pub gather :
    McpToolRegistry
    → List (String × Mapping)
    → List String
    → List McpToolDefinition
    → Outcome (List PendingTool)
gather r seen fresh [] = accepted []
gather r seen fresh (t ∷ ts) =
    let rest = gather r (remember (lookup t.name seen) t seen) (fresh_after r fresh t) ts in
    refuse_or (seen_conflict seen t)
      (refuse_or (known_conflict r t) (cons_pending (pending_of r fresh t) rest))

-- The second loop.
unfoldable pub commit : List PendingTool → McpToolRegistry → McpToolRegistry
commit [] r = r
commit (p ∷ ps) r = commit ps (
    enable p.server_name
      (if p.is_new_mapping then add_mapping p.exposed_name p.raw_name p.server_name r else r))

abbrev pub committed : McpToolRegistry → Outcome (List PendingTool) → Outcome McpToolRegistry
committed r (accepted ps) = accepted (commit ps r)
committed r (refused message) = refused message

unfoldable pub register_tools : List McpToolDefinition → McpToolRegistry → Outcome McpToolRegistry
unfolding gather commit
register_tools tools r = committed r (gather r [] [] tools)

-- The pending tool makes no new mapping for the name.
abbrev Spares : String → PendingTool → Type 0
Spares name p = (p.is_new_mapping && (p.exposed_name == name)) ≡ false

-- The name stands for the same raw tool of the same server.
abbrev pub KeepsMapping : String → McpToolRegistry → McpToolRegistry → Type 0
KeepsMapping name r r' =
    (lookup name r'.raw_name_by_exposed_name ≡ lookup name r.raw_name_by_exposed_name)
    × (lookup name r'.server_by_exposed_name ≡ lookup name r.server_by_exposed_name)

step-KeepsMapping :
    (name : String) (p : PendingTool) (is_new : Bool) (r : McpToolRegistry)
    → (is_new && (p.exposed_name == name)) ≡ false
    → KeepsMapping name r
        (if is_new then add_mapping p.exposed_name p.raw_name p.server_name r else r)
step-KeepsMapping name p true r other = (
  lookup-insert p.exposed_name name p.raw_name r.raw_name_by_exposed_name ∙ rw other refl,
  lookup-insert p.exposed_name name p.server_name r.server_by_exposed_name ∙ rw other refl,
)
step-KeepsMapping name p false r other = (refl, refl)

commit-KeepsMapping :
    (name : String) (ps : List PendingTool) (r : McpToolRegistry)
    → All (Spares name) ps
    → KeepsMapping name r (commit ps r)
unfolding commit
commit-KeepsMapping name [] r a = (refl, refl)
commit-KeepsMapping name (p ∷ ps) r a =
    let stepped =
      if p.is_new_mapping then add_mapping p.exposed_name p.raw_name p.server_name r else r in
    let (raw, server) = step-KeepsMapping name p p.is_new_mapping r a.0 in
    let (raw', server') = commit-KeepsMapping name ps (enable p.server_name stepped) a.1 in
    (raw' ∙ raw, server' ∙ server)

-- The pending tools of an outcome spare the name.
abbrev Spared : String → Outcome (List PendingTool) → Type 0
Spared name (accepted ps) = All (Spares name) ps
Spared name (refused message) = Unit

refuse_or-Spared :
    (name : String) (o : Option String) (rest : Outcome (List PendingTool))
    → Spared name rest
    → Spared name (refuse_or o rest)
refuse_or-Spared name none rest h = h
refuse_or-Spared name (some message) rest h = tt

cons_pending-Spared :
    (name : String) (p : PendingTool) (rest : Outcome (List PendingTool))
    → Spares name p
    → Spared name rest
    → Spared name (cons_pending p rest)
cons_pending-Spared name p (accepted ps) h a = (h, a)
cons_pending-Spared name p (refused message) h a = tt

-- A tool whose name is in the registry makes no new mapping.
known-Spares :
    (name new : String) (entries : List (String × String)) (seen_new : Bool)
    → is_some (lookup name entries) ≡ true
    → ((not (is_some (lookup new entries)) && seen_new) && (new == name)) ≡ false
known-Spares name new entries seen_new known = elim (Bool-cases (new == name)) [
  | inl same ↦ let e : new ≡ name = (==_iff new name).0 same in rw (same, e, known) (ground arith)
  | inr other ↦ rw other (ground arith)
]

gather-Spared :
    (name : String) (r : McpToolRegistry) (seen : List (String × Mapping)) (fresh : List String)
    (ts : List McpToolDefinition)
    → is_some (lookup name r.raw_name_by_exposed_name) ≡ true
    → Spared name (gather r seen fresh ts)
unfolding gather
gather-Spared name r seen fresh [] known = tt
gather-Spared name r seen fresh (t ∷ ts) known =
    let seen' = remember (lookup t.name seen) t seen in
    let rest = gather r seen' (fresh_after r fresh t) ts in
    let pending = cons_pending (pending_of r fresh t) rest in
    let new_spares =
      known-Spares name t.name r.raw_name_by_exposed_name (not (contains_name fresh t.name))
        known in
    refuse_or-Spared name (seen_conflict seen t) (refuse_or (known_conflict r t) pending) (
      refuse_or-Spared name (known_conflict r t) pending (
        cons_pending-Spared name (pending_of r fresh t) rest new_spares
          (gather-Spared name r seen' (fresh_after r fresh t) ts known)))

-- Tools that are registered, whatever they are called, never turn a name that the registry has into
-- another raw tool or one of another server.
pub register_tools-KeepsMapping :
    (tools : List McpToolDefinition) (r r' : McpToolRegistry) (name : String)
    → register_tools tools r ≡ accepted r'
    → is_some (lookup name r.raw_name_by_exposed_name) ≡ true
    → KeepsMapping name r r'
unfolding register_tools
register_tools-KeepsMapping tools r r' name e known =
    of_outcome (gather r [] [] tools) (gather-Spared name r [] [] tools known) e
  where
    of_outcome :
        (o : Outcome (List PendingTool))
        → Spared name o
        → committed r o ≡ accepted r'
        → KeepsMapping name r r'
    of_outcome (accepted ps) a e =
        let same : commit ps r ≡ r' = cc e in
        subst (KeepsMapping name r) same (commit-KeepsMapping name ps r a)
    of_outcome (refused message) a e = cc e
