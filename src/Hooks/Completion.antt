-- ===== src/Hooks/Completion.antt =====
-- What the hook chain does at the completion of a call of the model (on_outcome in
-- crates/agnt-core/src/hook/chain.rs): the sums of the turn and the session, and the usage on the UI
-- bus. `Cost` stands for the floating point numbers of the charges; `priced` is what the pricing of
-- the model computes where the wire reports no cost.
pub mod Counted
use nu_agent.Prelude.{
  ℕ, ◌+◌, Bool, false, ◌||◌, List, [], ◌∷◌, Option, none, some, is_some, unwrap_or, if◌then◌else◌,
  length,
}
use nu_agent.Hooks.Events.{Usage}
use nu_agent.Hooks.TurnUsage.{TurnUsageTotals, add_call}
use nu_agent.Hooks.TurnUsage.Sums.{CallUsage}

pub data ChoiceItem : Type 0 where
  text : List ℕ → ChoiceItem
  tool_call other : ChoiceItem

-- What the wire reports of a call: the counters, the cost with whether it is complete, and the
-- content of the response.
pub record CallReport (Cost : Type 0) : Type 0 where
  pub input_tokens : Option ℕ
  pub output_tokens : Option ℕ
  pub total_tokens : Option ℕ
  pub cost : Option (Cost × Bool)
  pub choice : List ChoiceItem

-- The cells that a completion writes.
pub record UsageCells (Cost : Type 0) : Type 0 where
  pub last_total_tokens : Option ℕ
  pub turn_usage : TurnUsageTotals Cost
  pub session_usage : TurnUsageTotals Cost

unfoldable pub response_chars : List ChoiceItem → ℕ
response_chars [] = 0
response_chars (text chars ∷ items) = length chars + response_chars items
response_chars (tool_call ∷ items) = response_chars items
response_chars (other ∷ items) = response_chars items

unfoldable pub tool_calls : List ChoiceItem → ℕ
tool_calls [] = 0
tool_calls (tool_call ∷ items) = 1 + tool_calls items
tool_calls (text _ ∷ items) = tool_calls items
tool_calls (other ∷ items) = tool_calls items

-- The wire's total, else input and output together.
abbrev pub total_of : Option ℕ → Option ℕ → Option ℕ → Option ℕ
total_of (some total) _ _ = some total
total_of none (some input) (some output) = some (input + output)
total_of none (some _) none = none
total_of none none _ = none

-- The wire's cost, else what the pricing computes, else none, which is not complete.
abbrev pub cost_of :
    {Cost : Type 0} → Option (Cost × Bool) → Option (Cost × Bool) → Option Cost × Bool
cost_of (some (cost, complete)) priced = (some cost, complete)
cost_of none (some (cost, complete)) = (some cost, complete)
cost_of none none = (none, false)

abbrev or_last : Option ℕ → Option ℕ → Option ℕ
or_last none last = last
or_last (some total) last = some total

module _ {Cost : Type 0} (zero_cost : Cost) (plus : Cost → Cost → Cost) where
  abbrev pub reports_usage : CallReport Cost → Bool
  reports_usage r = is_some r.input_tokens || is_some r.output_tokens || is_some r.total_tokens

  -- What the call adds to the sums.
  abbrev pub usage_of : CallReport Cost → Option (Cost × Bool) → CallUsage Cost
  usage_of r priced =
      let (cost, complete) = cost_of r.cost priced in
      record {
        input_tokens = unwrap_or r.input_tokens 0;
        output_tokens = unwrap_or r.output_tokens 0;
        total = total_of r.total_tokens r.input_tokens r.output_tokens;
        cost = cost;
        cost_complete = complete;
      }

  -- The cells after a completion that reports a counter.
  abbrev pub counted_cells : CallUsage Cost → UsageCells Cost → UsageCells Cost
  counted_cells c cells =
      let add =
        add_call zero_cost plus c.input_tokens c.output_tokens c.total c.cost c.cost_complete in
      record {
        last_total_tokens = or_last c.total cells.last_total_tokens;
        turn_usage = add cells.turn_usage;
        session_usage = add cells.session_usage;
      }

  -- The usage that is published: with the wire's own total.
  abbrev pub published : CallReport Cost → CallUsage Cost → Usage Cost
  published r c = record {
    response_chars = response_chars r.choice;
    tool_calls = tool_calls r.choice;
    input_tokens = c.input_tokens;
    output_tokens = c.output_tokens;
    total_tokens = r.total_tokens;
    cost = c.cost;
    cost_complete = c.cost_complete;
  }

  -- The cells after a completion, and the usage that is published.
  unfoldable pub on_completion :
      CallReport Cost
      → Option (Cost × Bool)
      → UsageCells Cost
      → UsageCells Cost × Option (Usage Cost)
  unfolding add_call response_chars tool_calls
  on_completion r priced cells =
      let c = usage_of r priced in
      if reports_usage r then (counted_cells c cells, some (published r c)) else (cells, none)

  -- The completions of a turn: the cells after them, and the usages that were published.
  unfoldable pub completions :
      List (CallReport Cost × Option (Cost × Bool))
      → UsageCells Cost
      → UsageCells Cost × List (Option (Usage Cost))
  unfolding on_completion
  completions [] cells = (cells, [])
  completions ((r, priced) ∷ rs) cells =
      let (next, usage) = on_completion r priced cells in
      let (end, usages) = completions rs next in (end, usage ∷ usages)
