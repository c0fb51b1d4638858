-- ===== src/Hooks/Completion/Counted.antt =====
-- What the completions of a turn add to the sums of the turn and of the session.
use nu_agent.Prelude.{
  ℕ, ◌+◌, Bool, true, false, ◌||◌, is_some, List, [], ◌∷◌, Option, none, some, unwrap_or, ◌≡◌, refl,
  ◌⊎◌, inl, inr,
}
use nu_agent.Hooks.TurnUsage.Sums.{CallUsage, add_calls, IsSum, add_calls-IsSum}
use nu_agent.Hooks.Completion.{
  CallReport, UsageCells, total_of, cost_of, reports_usage, usage_of, counted_cells, on_completion,
  completions,
}

-- The total of a call, from the wire's total, input and output: the wire's, else input and output
-- together where both are there.
pub data IsTotal : Option ℕ → Option ℕ → Option ℕ → Option ℕ → Type 0 where
  wired : {total : ℕ} {input output : Option ℕ} → IsTotal (some total) input output (some total)
  summed : {input output : ℕ} → IsTotal none (some input) (some output) (some (input + output))
  no_input : {output : Option ℕ} → IsTotal none none output none
  no_output : {input : Option ℕ} → IsTotal none input none none

module _ {Cost : Type 0} where
  -- The cost of a call with whether it is complete, from the wire's and the priced one: the wire's,
  -- else the priced one, else none, which is not complete.
  pub data IsCharge
      : Option (Cost × Bool) → Option (Cost × Bool) → Option Cost → Bool → Type 0 where
    billed :
        {cost : Cost} {complete : Bool} {priced : Option (Cost × Bool)}
        → IsCharge (some (cost, complete)) priced (some cost) complete
    priced :
        {cost : Cost} {complete : Bool} → IsCharge none (some (cost, complete)) (some cost) complete
    unpriced : IsCharge none none none false

  -- What a call with a report counts for; a counter that the report does not have counts as 0.
  pub record CountsAs (r : CallReport Cost) (price : Option (Cost × Bool)) (c : CallUsage Cost)
      : Type 0 where
    pub input : c.input_tokens ≡ unwrap_or r.input_tokens 0
    pub output : c.output_tokens ≡ unwrap_or r.output_tokens 0
    pub total : IsTotal r.total_tokens r.input_tokens r.output_tokens c.total
    pub charge : IsCharge r.cost price c.cost c.cost_complete

  -- A report without any counter.
  abbrev pub IsSilent : CallReport Cost → Type 0
  IsSilent r = (r.input_tokens ≡ none) × (r.output_tokens ≡ none) × (r.total_tokens ≡ none)

  -- What the calls of a turn count for: a silent one for nothing.
  pub data AreCounted
      : List (CallReport Cost × Option (Cost × Bool)) → List (CallUsage Cost) → Type 0 where
    nothing : AreCounted [] []
    silent :
        {r : CallReport Cost} {price : Option (Cost × Bool)}
        {rs : List (CallReport Cost × Option (Cost × Bool))} {cs : List (CallUsage Cost)}
        → IsSilent r
        → AreCounted rs cs
        → AreCounted ((r, price) ∷ rs) cs
    counted :
        {r : CallReport Cost} {price : Option (Cost × Bool)} {c : CallUsage Cost}
        {rs : List (CallReport Cost × Option (Cost × Bool))} {cs : List (CallUsage Cost)}
        → (¬ IsSilent r)
        → CountsAs r price c
        → AreCounted rs cs
        → AreCounted ((r, price) ∷ rs) (c ∷ cs)

total_of-IsTotal :
    (total input output : Option ℕ) → IsTotal total input output (total_of total input output)
total_of-IsTotal (some total) input output = wired
total_of-IsTotal none (some input) (some output) = summed
total_of-IsTotal none (some input) none = no_output
total_of-IsTotal none none output = no_input

module _ {Cost : Type 0} where
  cost_of-IsCharge :
      (cost price : Option (Cost × Bool))
      → IsCharge cost price (cost_of cost price).0 (cost_of cost price).1
  cost_of-IsCharge (some (cost, complete)) price = billed
  cost_of-IsCharge none (some (cost, complete)) = priced
  cost_of-IsCharge none none = unpriced

module _ {Cost : Type 0} (zero_cost : Cost) (plus : Cost → Cost → Cost) where
  usage_of-CountsAs :
      (r : CallReport Cost) (price : Option (Cost × Bool))
      → CountsAs r price (usage_of zero_cost plus r price)
  usage_of-CountsAs r price = record {
    input = refl;
    output = refl;
    total = total_of-IsTotal r.total_tokens r.input_tokens r.output_tokens;
    charge = cost_of-IsCharge r.cost price;
  }

  reports_usage-cases :
      (r : CallReport Cost)
      → (IsSilent r × (reports_usage zero_cost plus r ≡ false))
        ⊎ ((¬ IsSilent r) × (reports_usage zero_cost plus r ≡ true))
  reports_usage-cases r = go r.input_tokens r.output_tokens r.total_tokens
    where
      go :
          (i o t : Option ℕ)
          → (((i ≡ none) × (o ≡ none) × (t ≡ none))
              × ((is_some i || is_some o || is_some t) ≡ false))
            ⊎ ((¬ ((i ≡ none) × (o ≡ none) × (t ≡ none)))
                × ((is_some i || is_some o || is_some t) ≡ true))
      go none none none = inl ((refl, refl, refl), refl)
      go (some i) o t = inr (λ h. cc h.0, refl)
      go none (some o) t = inr (λ h. cc h.1, refl)
      go none none (some t) = inr (λ h. cc h.2, refl)

  -- The sums after completions, of what their calls count for.
  record Sums (rs : List (CallReport Cost × Option (Cost × Bool))) (cells after : UsageCells Cost)
      : Type 0 where
    calls : List (CallUsage Cost)
    are_counted : AreCounted rs calls
    turn : after.turn_usage ≡ add_calls zero_cost plus calls cells.turn_usage
    session : after.session_usage ≡ add_calls zero_cost plus calls cells.session_usage

  completions-Sums :
      (rs : List (CallReport Cost × Option (Cost × Bool))) (cells : UsageCells Cost)
      → Sums rs cells (completions zero_cost plus rs cells).0
  unfolding completions on_completion add_calls
  completions-Sums [] cells = record {
    calls = [];
    are_counted = nothing;
    turn = refl;
    session = refl;
  }
  completions-Sums ((r, price) ∷ rs) cells = elim (reports_usage-cases r) [
    | inl (quiet, e) ↦
        let rest = completions-Sums rs cells in
        record {
          calls = rest.calls;
          are_counted = silent quiet rest.are_counted;
          turn = rw e rest.turn;
          session = rw e rest.session;
        }
    | inr (told, e) ↦
        let c = usage_of zero_cost plus r price in
        let rest = completions-Sums rs (counted_cells zero_cost plus c cells) in
        record {
          calls = c ∷ rest.calls;
          are_counted = counted told (usage_of-CountsAs r price) rest.are_counted;
          turn = rw e rest.turn;
          session = rw e rest.session;
        }
  ]

  -- The completions of a turn add the same to the sums of the turn and of the session: what the calls
  -- that reported any counter count for. Such a call counts with its tokens; with the wire's total,
  -- else input and output together where both are there; and with the wire's cost, else the priced
  -- one, else none, which is not complete. Tokens are added up; a total and a charge stay none as
  -- long as no call has one; and the charge is complete just if it was and the cost of every
  -- one of those calls is.
  pub completions-IsSum :
      (rs : List (CallReport Cost × Option (Cost × Bool))) (cells : UsageCells Cost)
      → (calls : List (CallUsage Cost)) × AreCounted rs calls
        × IsSum zero_cost plus calls cells.turn_usage
            (completions zero_cost plus rs cells).0.turn_usage
        × IsSum zero_cost plus calls cells.session_usage
            (completions zero_cost plus rs cells).0.session_usage
  completions-IsSum rs cells =
      let s = completions-Sums rs cells in
      (
        s.calls,
        s.are_counted,
        rw s.turn (add_calls-IsSum zero_cost plus s.calls cells.turn_usage),
        rw s.session (add_calls-IsSum zero_cost plus s.calls cells.session_usage),
      )
