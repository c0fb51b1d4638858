-- ===== src/Guards/CircuitBreaker.antt =====
-- The circuit breaker of MCP servers (crates/agnt-core/src/tools/mcp/circuit_breaker.rs), and what a
-- tool's result does to it (record_result in crates/agnt-core/src/hook/circuit_breaker_guard.rs).
pub mod Streaks
use nu_agent.Prelude.{
  ℕ, ◌+◌, Bool, true, false, List, [], ◌∷◌, Option, none, some, String, string_eq, nat_beq, leb,
  if◌then◌else◌, lookup, insert, remove, unwrap_or, concat,
}
use nu_agent.Protocol.{SystemMessage, SystemKind}

abbrev pub default_threshold : ℕ
default_threshold = 10

pub record McpCircuitBreaker : Type 0 where
  pub failure_counts : List (String × ℕ)
  pub threshold : ℕ

unfoldable pub new_breaker : ℕ → McpCircuitBreaker
new_breaker threshold = record {
  failure_counts = [];
  threshold = if nat_beq threshold 0 then default_threshold else threshold;
}

-- `entry(server).or_default()`.
unfoldable pub failure_count : McpCircuitBreaker → String → ℕ
failure_count b server = unwrap_or (lookup server b.failure_counts) 0

unfoldable pub record_failure : McpCircuitBreaker → String → McpCircuitBreaker × Bool
unfolding failure_count
record_failure b server =
    let count = failure_count b server + 1 in
    (record b { failure_counts = insert server count b.failure_counts }, leb b.threshold count)

unfoldable pub record_success : McpCircuitBreaker → String → McpCircuitBreaker
record_success b server = record b { failure_counts = remove server b.failure_counts }

-- How the guard classifies a result: an auth error by its HTTP status, a failure of the transport by
-- its source, or neither; `success` is the caller's.
pub data ResultClass : Type 0 where
  auth_error transport_failure : ResultClass
  plain : Bool → ResultClass

abbrev disconnected_message : String → String
disconnected_message server =
    concat
      ("MCP server '" ∷ server ∷ "' disconnected — tools disabled. Re-enable via MCP panel." ∷ [])

-- The new breaker, the server to be disabled, and what is sent on the bus; the tool belongs to the
-- server, and to none of them nothing is recorded.
unfoldable pub record_result :
    McpCircuitBreaker
    → Option String
    → ResultClass
    → McpCircuitBreaker × Option String × List SystemMessage
unfolding record_failure record_success
record_result b none result = (b, none, [])
record_result b (some server) auth_error = (b, none, [])
record_result b (some server) transport_failure =
    let (b', tripped) = record_failure b server in
    if tripped
    then (
      b',
      some server,
      record { kind = SystemKind.warning; text = disconnected_message server } ∷ [],
    )
    else (b', none, [])
record_result b (some server) (plain true) = (record_success b server, none, [])
record_result b (some server) (plain false) = (b, none, [])
