-- ===== src/Examples/Policy.antt =====
-- The theorems on permissions at concrete policies.
use nu_agent.Prelude.{
  ◌≡◌, ◌↔◌, ◌⊎◌, refl, true, List, [], ◌∷◌, none, some, String, string_eq, codes, lookup,
}
use nu_agent.Authz.Glob.{glob_match}
use nu_agent.Authz.Glob.Matches.{Matches}
use nu_agent.Authz.Glob.Loop.{glob_match_iff}
use nu_agent.Authz.Policy.{
  allow, ask, deny, Rules, PermissionsConfig, PermissionDecision, Scope, text, Args, match_pattern,
  tool_match, evaluate,
}
use nu_agent.Authz.Choice.{Decided, match_pattern-Decided}
use nu_agent.Authz.Evaluation.{verdicts, last_or, evaluate-last}
use nu_agent.Authz.Overlay.{PermissionsOverlay}
use nu_agent.Authz.Grants.{allow_always, deny_call, apply_session_grant_override}
use nu_agent.Authz.Grants.Scoping.{
  CacheOp, answer_card, drop_server, cache_run, apply_session_grant_override-cases,
}

glob_match_iff_example :
    (glob_match "a*c" (codes "abbc") ≡ true) ↔ Matches (codes "a*c") (codes "abbc")
glob_match_iff_example = glob_match_iff "a*c" (codes "abbc")

abbrev rules : Rules
rules = ("*", ask) ∷ ("git *", allow) ∷ ("git push*", deny) ∷ []

match_pattern-Decided_example :
    Decided (codes "git push") rules (match_pattern (codes "git push") rules)
match_pattern-Decided_example = match_pattern-Decided (codes "git push") rules

abbrev config : PermissionsConfig
config = record {
  default_action = ask;
  tool_rules = ("read*", allow) ∷ [];
  nested_field_rules = ("run", ("command", rules) ∷ []) ∷ [];
  diagnostics = [];
  decision_timeout = some 120;
}

abbrev call : Args
call = ("command", text "git push") ∷ []

evaluate-last_example :
    ((evaluate config "run" call).matched_rule
      ≡ last_or "run" call
          (tool_match config "run")
          (verdicts "run" call (("command", rules) ∷ [])))
    × ((evaluate config "run" call).action
        ≡ (last_or "run" call
            (tool_match config "run")
            (verdicts "run" call (("command", rules) ∷ []))).action)
unfolding lookup
evaluate-last_example = evaluate-last "run" call config (("command", rules) ∷ []) refl

abbrev two_args : Args
two_args = ("command", text "ls") ∷ ("cwd", text "tmp") ∷ []

abbrev commands : String × Rules
commands = ("command", ("*", allow) ∷ [])

abbrev folders : String × Rules
folders = ("cwd", ("*", deny) ∷ [])

abbrev overlay : PermissionsOverlay
overlay = record {
  default_action = some deny;
  tool_rules = ("read*", ask) ∷ ("write", deny) ∷ [];
  nested_field_rules = [];
}

abbrev decision : PermissionDecision
decision = record {
  action = ask;
  matched_rule = record {
    identity = "tool:fs__*";
    scope = Scope.tool;
    target_field = none;
    pattern = "fs__*";
    action = ask;
  };
  diagnostics = [];
}

-- The same rule for another field.
abbrev of_path : PermissionDecision
of_path = record decision {
  matched_rule = record decision.matched_rule { target_field = some "path" };
}

abbrev session : List CacheOp
session =
    answer_card decision allow_always "fs__write" "mcp"
    ∷ answer_card decision deny_call "run" "closure"
    ∷ drop_server "git"
    ∷ []

apply_session_grant_override-cases_example :
    (apply_session_grant_override decision (cache_run [] session) "fs__write" "mcp" ≡ decision)
    ⊎ (apply_session_grant_override decision (cache_run [] session) "fs__write" "mcp"
        ≡ record decision { action = allow })
apply_session_grant_override-cases_example =
    apply_session_grant_override-cases session decision "fs__write" "mcp"
