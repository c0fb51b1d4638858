-- ===== src/Examples/Guarded.antt =====
-- The theorems on the guards and the retries at concrete sessions.
use nu_agent.Prelude.{
  ℕ, ◌+◌, ◌≤◌, ◌*◌, ◌≡◌, ◌≢◌, ◌↔◌, refl, true, false, List, [], ◌∷◌, ◌++◌, Option, none, some,
  String, string_eq, if◌then◌else◌, leb, nat_beq, length, codes, ==_iff, split_whitespace,
  join_space,
}
use nu_agent.Guards.DoomLoop.{DoomLoopState, level, check_and_record}
use nu_agent.Guards.DoomLoop.Window.{trailing, calls, check_and_record_lem}
use nu_agent.Guards.Repetition.{text, is_empty, normalize, is_repeating}
use nu_agent.Guards.Repetition.Suffix.{repeated, is_repeating_iff}
use nu_agent.Guards.Repetition.Rounds.{RepetitionOp, streamed, turn_finished, steered}
use nu_agent.Guards.CircuitBreaker.{new_breaker, record_result, transport_failure, plain}
use nu_agent.Guards.CircuitBreaker.Streaks.{Result, breaker_run, streak, record_result-streak}
use nu_agent.Turn.ErrorKind.{overloaded}
use nu_agent.Turn.Retry.{start, run_retry_loop}
use nu_agent.Turn.Attempt.{Config, completion_failed, Outcome, failed}
use nu_agent.Turn.Retry.Budgets.{budget, Ends, run_retry_loop-Ends}

abbrev same_args : String → String
same_args args = args

abbrev four_calls : DoomLoopState
four_calls = record {
  recent_signatures = ("ls", "{}") ∷ ("ls", "{}") ∷ ("ls", "{}") ∷ ("ls", "{}") ∷ [];
  escalation_count = 0;
}

check_and_record_lem_example : check_and_record same_args four_calls "ls" "{}" ≡ (
    if leb 5 (trailing ("ls", "{}") (calls same_args four_calls "ls" "{}"))
    then (
      record { recent_signatures = calls same_args four_calls "ls" "{}"; escalation_count = 0 + 1 },
      some (level (0 + 1) "ls"),
    )
    else (record four_calls { recent_signatures = calls same_args four_calls "ls" "{}" }, none))
check_and_record_lem_example = check_and_record_lem same_args four_calls "ls" "{}"

abbrev window : List ℕ
window = codes "ok abcdefghabcdefghabcdefghabcdefghabcdefgh"

is_repeating_iff_example :
    (is_repeating window ≡ true)
    ↔ ((front : List ℕ) × (unit : List ℕ) × (8 ≤ length unit) × (window ≡ front ++ repeated 5 unit))
is_repeating_iff_example = is_repeating_iff window

abbrev same_case : List ℕ → List ℕ
same_case s = s

hello_full : is_empty (normalize same_case (codes "hello")) ≡ false
unfolding normalize split_whitespace join_space
hello_full = refl

abbrev used_guard : List (RepetitionOp same_case)
used_guard = streamed window ∷ turn_finished (text (codes "hello") ∷ []) ∷ steered ∷ []

b_is_not_a : ◌≢◌ {A = String} "b" "a"
b_is_not_a e = cc ((==_iff {A = String} "b" "a").1 e)

abbrev results : List Result
results =
    (some "fs", transport_failure) ∷ (some "git", plain true) ∷ (some "fs", transport_failure) ∷ []

record_result-streak_example :
    (record_result (breaker_run (new_breaker 3) results) (some "fs") transport_failure).1
    ≡ (if leb (if nat_beq 3 0 then 10 else 3) (streak "fs" 0 results + 1) then some "fs" else none)
record_result-streak_example = record_result-streak 3 results "fs"

abbrev settings : Config
settings = record {
  max_retries = some 2;
  retry_base_delay_ms = none;
  max_tokens = some 4096;
  max_output_tokens = none;
  output_budget_raise_enabled = some true;
  output_budget_raise_cap = none;
  output_budget_empty_remedy = none;
  output_budget_remedy_mode = none;
}

abbrev overload : ℕ → Option ℕ → String → Outcome ℕ ℕ
overload n tokens prompt =
    failed (completion_failed "busy" overloaded)
      (record { last_known_history = 1 ∷ []; pre_turn_message_count = 0; tool_records = [] })

abbrev double : ℕ → ℕ
double n = 2 * n + 1

run_retry_loop-Ends_example :
    Ends overload double settings "hi" 0
      (budget settings)
      (run_retry_loop overload double settings "hi" (budget settings + 1) 0 start)
run_retry_loop-Ends_example = run_retry_loop-Ends overload double settings "hi"
