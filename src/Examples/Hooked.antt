-- ===== src/Examples/Hooked.antt =====
-- The theorems on the hook chain at a chain with one tool of one server.
use nu_agent.Prelude.{
  insert, ℕ, suc, ◌+◌, ◌-◌, ◌≤◌, ◌↔◌, ◌≡◌, ◌≢◌, refl, List, [], ◌∷◌, none, some, String, true,
  false, arith, inr, lookup,
}
use nu_agent.Protocol.{proceed}
use nu_agent.Guards.DoomLoop as DoomLoop
use nu_agent.Guards.Repetition.{default_repetition}
use nu_agent.Guards.CircuitBreaker.{ResultClass, McpCircuitBreaker, new_breaker}
use nu_agent.Guards.CircuitBreaker as Breaker
use nu_agent.Hooks.Events.{ToolStatus}
use nu_agent.Hooks.SubturnCap.{new_cap}
use nu_agent.Hooks.TurnTools.{
  SettledToolCall, TurnToolLog, is_recorded, record_result, settle, dispatched,
}
use nu_agent.Hooks.TurnTools.Log.{
  LogOp, log_run, IsDistinct, HasSettled, find_record, log_run-HasSettled,
}
use nu_agent.Hooks.TurnUsage.{no_usage}
use nu_agent.Hooks.TurnUsage.Sums.{CallUsage, IsSum}
use nu_agent.Hooks.Completion.{CallReport, UsageCells, completions}
use nu_agent.Hooks.Registry.{McpToolRegistry, server_name_for}
use nu_agent.Hooks.Registry.Register.{
  McpToolDefinition, KeepsMapping, gather, commit, register_tools, register_tools-KeepsMapping,
}
use nu_agent.Hooks.State.{requested, allow, Resolver, Env, HookChain, ToolResult}
use nu_agent.Hooks.Chain.{on_dispatch, on_tool_result, call_of}
use nu_agent.Hooks.Chain.Gates.{Passes, on_dispatch-proceed_iff}
use nu_agent.Hooks.Completion.Counted.{AreCounted, completions-IsSum}
use nu_agent.Hooks.Chain.Published.{IsTold, on_dispatch-IsTold}
use nu_agent.Hooks.Chain.Capped.{
  TurnStep, dispatch, result_of, signal, switch_server, turn_run, turn_run-le_room,
}
use nu_agent.Hooks.Chain.Tripped.{turn_run-tripped}

-- A resolver that counts what it is asked, and denies one tool.
abbrev counting : Resolver ℕ String
counting = record {
  resolve = λ n name args call_id. (suc n, name ∷ [], allow);
  take_previewed = λ n name args. (n, false);
}

abbrev plain_env : Env
plain_env = record {
  is_tool_name = λ name. true;
  render = λ name args. record { summary = name };
  preview_of = λ name args. none;
  canonicalize_args = λ args. args;
  to_lowercase = λ text. text;
  closures = [];
}

abbrev git_registry : McpToolRegistry
git_registry = record {
  names = "git__log" ∷ [];
  raw_name_by_exposed_name = ("git__log", "log") ∷ [];
  server_by_exposed_name = ("git__log", "git") ∷ [];
  enabled_servers = "git" ∷ [];
}

abbrev new_chain : HookChain ℕ
new_chain = record {
  cancel = [];
  subturn = new_cap 25;
  doom = DoomLoop.new;
  output_repetition = default_repetition;
  repetition_guard = true;
  breaker = record { failure_counts = []; threshold = 1 };
  registry = git_registry;
  turn_tools = [];
  permission = 0;
}

on_dispatch-proceed_iff_example :
    ((on_dispatch plain_env counting new_chain "git__log" "{}" none).2 ≡ proceed)
    ↔ Passes plain_env counting new_chain "git__log" "{}" none
on_dispatch-proceed_iff_example =
    on_dispatch-proceed_iff plain_env counting new_chain "git__log" "{}" none

on_dispatch-IsTold_example :
    IsTold String
      (call_of plain_env git_registry "git__log" "{}")
      (on_dispatch plain_env counting new_chain "git__log" "{}" none).1
      (on_dispatch plain_env counting new_chain "git__log" "{}" none).2
on_dispatch-IsTold_example = on_dispatch-IsTold plain_env counting new_chain "git__log" "{}" none

abbrev lost : ToolResult
lost = record {
  text = "connection closed";
  success = false;
  status = ToolStatus.failed;
  error_kind = some "mcp";
  display = none;
  class = Breaker.transport_failure;
}

abbrev some_steps : List TurnStep
some_steps =
    dispatch "git__log" "{}" (some "a")
    ∷ result_of "git__log" "{}" (some "a") lost
    ∷ signal requested
    ∷ switch_server "jira" true
    ∷ []

turn_run-le_room_example : (turn_run plain_env counting new_chain some_steps).1 ≤ 25 - 0
unfolding new_cap
turn_run-le_room_example = turn_run-le_room plain_env counting new_chain some_steps (omega arith)

turn_run-tripped_example :
    (on_dispatch plain_env counting
      (turn_run plain_env counting
        (on_tool_result plain_env counting new_chain "git__log" "{}" none lost).0
        some_steps).0
      "git__log"
      "{}"
      none).2
    ≢ proceed
unfolding Breaker.record_result server_name_for lookup
turn_run-tripped_example =
    turn_run-tripped plain_env counting new_chain "git__log" "{}" none lost "git" refl some_steps
      (tt, (tt, (tt, (inr refl, tt)))) "git__log" "{}" none refl

abbrev done_well : SettledToolCall
done_well = record { result = "ok"; success = true; status = ToolStatus.success; error_kind = none }

abbrev settled_log : TurnToolLog
settled_log = record_result "a" "read" "{}" done_well []

abbrev later_ops : List LogOp
later_ops = LogOp.call "a" "read" "{}" ∷ LogOp.result "b" "read" "{}" done_well ∷ []

log_run-HasSettled_example :
    IsDistinct (log_run settled_log later_ops)
    × HasSettled "a" done_well (log_run settled_log later_ops)
unfolding IsDistinct record_result find_record is_recorded
log_run-HasSettled_example =
    log_run-HasSettled settled_log "a" done_well later_ops (refl, tt)
      (
        settle done_well (dispatched "a" "read" "{}"),
        refl,
        record { result = refl; success = refl; status = refl; error_kind = refl },
      )
      (tt, (refl, tt))

-- A call whose wire reports no total and no cost, and that the pricing skips.
abbrev unpriced : CallReport ℕ
unpriced = record {
  input_tokens = some 10;
  output_tokens = some 5;
  total_tokens = none;
  cost = none;
  choice = [];
}

abbrev new_cells : UsageCells ℕ
new_cells = record { last_total_tokens = none; turn_usage = no_usage; session_usage = no_usage }

completions-IsSum_example :
    (calls : List (CallUsage ℕ)) × AreCounted ((unpriced, none) ∷ []) calls
    × IsSum 0 ◌+◌ calls no_usage (completions 0 ◌+◌ ((unpriced, none) ∷ []) new_cells).0.turn_usage
    × IsSum 0 ◌+◌ calls no_usage
        (completions 0 ◌+◌ ((unpriced, none) ∷ []) new_cells).0.session_usage
completions-IsSum_example = completions-IsSum 0 ◌+◌ ((unpriced, none) ∷ []) new_cells

abbrev show_tool : McpToolDefinition
show_tool = record { name = "git__show"; raw_name = "show"; server = "git" }

abbrev grown_registry : McpToolRegistry
grown_registry = record {
  names = "git__show" ∷ "git__log" ∷ [];
  raw_name_by_exposed_name = ("git__log", "log") ∷ ("git__show", "show") ∷ [];
  server_by_exposed_name = ("git__log", "git") ∷ ("git__show", "git") ∷ [];
  enabled_servers = "git" ∷ [];
}

register_tools-KeepsMapping_example : KeepsMapping "git__log" git_registry grown_registry
unfolding register_tools gather commit lookup insert
register_tools-KeepsMapping_example =
    register_tools-KeepsMapping (show_tool ∷ []) git_registry grown_registry "git__log" refl refl
