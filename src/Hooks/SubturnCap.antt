-- ===== src/Hooks/SubturnCap.antt =====
-- The cap on the tool calls of one response (crates/agnt-core/src/hook/subturn_cap.rs).
use nu_agent.Prelude.{
  ℕ, ◌+◌, Option, none, some, String, [], ◌∷◌, nat_beq, leb, if◌then◌else◌, concat, decimal,
}
use nu_agent.Protocol.{DispatchAction, skip}

abbrev pub max_tool_calls_per_subturn : ℕ
max_tool_calls_per_subturn = 25

-- A cap of 0 lets every call pass.
pub record SubTurnCap : Type 0 where
  pub max : ℕ
  pub count : ℕ

unfoldable pub new_cap : ℕ → SubTurnCap
new_cap max = record { max = max; count = 0 }

unfoldable pub reset : SubTurnCap → SubTurnCap
reset cap = record cap { count = 0 }

abbrev limit_message : ℕ → String
limit_message max = concat (
    "Sub-turn tool call limit reached ("
    ∷ decimal max
    ∷ "). No further tools will be called in this response. Please summarise what you have accomplished so far and continue in the next turn if needed."
    ∷ [])

unfoldable pub check_and_increment : SubTurnCap → SubTurnCap × Option DispatchAction
check_and_increment cap =
    if nat_beq cap.max 0
    then (cap, none)
    else if leb cap.max cap.count
    then (cap, some (skip (limit_message cap.max)))
    else (record cap { count = cap.count + 1 }, none)
