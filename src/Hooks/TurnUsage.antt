-- ===== src/Hooks/TurnUsage.antt =====
-- The usage of a turn (crates/agnt-core/src/hook/turn_usage.rs). `Cost` and its sum stand for the
-- floating point numbers of the charges.
pub mod Sums
use nu_agent.Prelude.{ℕ, ◌+◌, Bool, true, false, ◌&&◌, Option, none, some, unwrap_or}

-- The cells of `TurnUsage`, which are also what `totals` reads.
pub record TurnUsageTotals (Cost : Type 0) : Type 0 where
  pub input_tokens : ℕ
  pub output_tokens : ℕ
  pub total_tokens : Option ℕ
  pub cost : Option Cost
  pub cost_complete : Bool

abbrev pub add_total : Option ℕ → Option ℕ → Option ℕ
add_total none sum = sum
add_total (some total) sum = some (unwrap_or sum 0 + total)

module _ {Cost : Type 0} where
  abbrev pub no_usage : TurnUsageTotals Cost
  no_usage = record {
    input_tokens = 0;
    output_tokens = 0;
    total_tokens = none;
    cost = none;
    cost_complete = true;
  }

  abbrev pub add_cost : Cost → (Cost → Cost → Cost) → Option Cost → Option Cost → Option Cost
  add_cost zero_cost plus none sum = sum
  add_cost zero_cost plus (some cost) sum = some (plus (unwrap_or sum zero_cost) cost)

  module _ (zero_cost : Cost) (plus : Cost → Cost → Cost) where
    unfoldable pub add_call :
        ℕ → ℕ → Option ℕ → Option Cost → Bool → TurnUsageTotals Cost → TurnUsageTotals Cost
    add_call input_tokens output_tokens total cost cost_complete u = record {
      input_tokens = u.input_tokens + input_tokens;
      output_tokens = u.output_tokens + output_tokens;
      total_tokens = add_total total u.total_tokens;
      cost = add_cost zero_cost plus cost u.cost;
      cost_complete = u.cost_complete && cost_complete;
    }

  unfoldable pub reset : TurnUsageTotals Cost → TurnUsageTotals Cost
  reset u = no_usage
