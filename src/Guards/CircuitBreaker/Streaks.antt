-- ===== src/Guards/CircuitBreaker/Streaks.antt =====
-- The breaker counts the failures of each server since its last success.
use nu_agent.Prelude.{
  ℕ, ◌+◌, ◌≡◌, refl, ◌∙◌, ap, true, false, List, [], ◌∷◌, Option, none, some, String, ◌==◌,
  string_eq, ==_iff, leb, nat_beq, if◌then◌else◌, lookup, lookup-insert, lookup-remove, arith,
}
use nu_agent.Guards.CircuitBreaker.{
  McpCircuitBreaker, failure_count, new_breaker, record_failure, record_success, ResultClass,
  auth_error, transport_failure, plain, record_result,
}

abbrev pub Result : Type 0
Result = Option String × ResultClass

unfoldable pub breaker_run : McpCircuitBreaker → List Result → McpCircuitBreaker
unfolding record_result
breaker_run b [] = b
breaker_run b ((server, result) ∷ results) = breaker_run (record_result b server result).0 results

-- What a result makes of the failures in a row of one server.
unfoldable pub streak_step : String → ℕ → Result → ℕ
streak_step server n (none, result) = n
streak_step server n (some s, auth_error) = n
streak_step server n (some s, transport_failure) = if s == server then n + 1 else n
streak_step server n (some s, plain true) = if s == server then 0 else n
streak_step server n (some s, plain false) = n

-- The failures in a row of one server, the results of the others left out.
unfoldable pub streak : String → ℕ → List Result → ℕ
streak server n [] = n
streak server n (r ∷ results) = streak server (streak_step server n r) results

failure_count-record_result :
    (server : String) (b : McpCircuitBreaker) (r : Result)
    → failure_count (record_result b r.0 r.1).0 server
      ≡ streak_step server (failure_count b server) r
unfolding failure_count record_result record_success streak_step
failure_count-record_result server b (none, result) = refl
failure_count-record_result server b (some s, auth_error) = refl
failure_count-record_result server b (some s, transport_failure) =
    ground (arith, ==_iff s server, lookup-insert s server (failure_count b s + 1) b.failure_counts)
failure_count-record_result server b (some s, plain true) =
    ground (arith, ==_iff s server, lookup-remove s server b.failure_counts)
failure_count-record_result server b (some s, plain false) = refl

threshold-record_result :
    (b : McpCircuitBreaker) (r : Result) → (record_result b r.0 r.1).0.threshold ≡ b.threshold
unfolding record_result
threshold-record_result b (none, result) = refl
threshold-record_result b (some s, auth_error) = refl
threshold-record_result b (some s, transport_failure) = ground arith
threshold-record_result b (some s, plain true) = refl
threshold-record_result b (some s, plain false) = refl

failure_count-breaker_run :
    (server : String) (b : McpCircuitBreaker) (results : List Result)
    → failure_count (breaker_run b results) server ≡ streak server (failure_count b server) results
unfolding breaker_run streak
failure_count-breaker_run server b [] = refl
failure_count-breaker_run server b (r ∷ results) =
    failure_count-breaker_run server (record_result b r.0 r.1).0 results
    ∙ ap (λ n. streak server n results) (failure_count-record_result server b r)

threshold-breaker_run :
    (b : McpCircuitBreaker) (results : List Result)
    → (breaker_run b results).threshold ≡ b.threshold
unfolding breaker_run
threshold-breaker_run b [] = refl
threshold-breaker_run b (r ∷ results) =
    threshold-breaker_run (record_result b r.0 r.1).0 results ∙ threshold-record_result b r

record_result-tripped :
    (b : McpCircuitBreaker) (server : String) (limit count : ℕ)
    → failure_count b server ≡ count
    → b.threshold ≡ limit
    → (record_result b (some server) transport_failure).1
      ≡ (if leb limit (count + 1) then some server else none)
unfolding record_result record_failure
record_result-tripped b server limit count c l = ground (arith, c, l)

fresh : (n : ℕ) (server : String) → failure_count (new_breaker n) server ≡ 0
unfolding failure_count new_breaker lookup
fresh n server = refl

-- After any results, a failure of the transport disables its server just when its failures in a row,
-- this one among them, reach the threshold (ten when none was set). Results of other servers, auth
-- errors and plain failures count for nothing; a success starts the count again.
pub record_result-streak :
    (n : ℕ) (results : List Result) (server : String)
    → (record_result (breaker_run (new_breaker n) results) (some server) transport_failure).1 ≡ (
        if leb (if nat_beq n 0 then 10 else n) (streak server 0 results + 1)
        then some server
        else none)
unfolding new_breaker
record_result-streak n results server =
    let count =
      failure_count-breaker_run server (new_breaker n) results
      ∙ ap (λ k. streak server k results) (fresh n server) in
    let limit = threshold-breaker_run (new_breaker n) results in
    record_result-tripped (breaker_run (new_breaker n) results) server
      (if nat_beq n 0 then 10 else n) (streak server 0 results) count limit
