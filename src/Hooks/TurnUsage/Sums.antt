-- ===== src/Hooks/TurnUsage/Sums.antt =====
-- What the usage of a turn sums over its calls.
use nu_agent.Prelude.{
  ℕ, ◌+◌, Bool, true, ◌&&◌, List, [], ◌∷◌, Option, none, some, ◌≡◌, refl, ◌∙◌, arith,
}
use mathlib.Core.List.{foldl}
use nu_agent.Hooks.TurnUsage.{TurnUsageTotals, add_total, add_cost, add_call}

-- The usage of one call.
pub record CallUsage (Cost : Type 0) : Type 0 where
  pub input_tokens : ℕ
  pub output_tokens : ℕ
  pub total : Option ℕ
  pub cost : Option Cost
  pub cost_complete : Bool

-- A value, if the call reported one, before others.
abbrev pub and_also : {A : Type 0} → Option A → List A → List A
and_also none ys = ys
and_also (some y) ys = y ∷ ys

-- The reported values, in order.
unfoldable pub reported : {A B : Type 0} → (A → Option B) → List A → List B
reported f [] = []
reported f (x ∷ xs) = and_also (f x) (reported f xs)

-- The fold of a list that is not empty, from a start value.
abbrev pub fold_some : {A : Type 0} → (A → A → A) → A → List A → Option A
fold_some plus start [] = none
fold_some plus start (x ∷ xs) = some (foldl plus (plus start x) xs)

-- The fold of a list into a sum that may not have begun.
abbrev pub fold_into : {A : Type 0} → (A → A → A) → A → Option A → List A → Option A
fold_into plus start none xs = fold_some plus start xs
fold_into plus start (some a) xs = some (foldl plus a xs)

unfoldable pub sum_of : {A : Type 0} → (A → ℕ) → List A → ℕ
sum_of f [] = 0
sum_of f (x ∷ xs) = f x + sum_of f xs

unfoldable pub all_of : {A : Type 0} → (A → Bool) → List A → Bool
all_of f [] = true
all_of f (x ∷ xs) = f x && all_of f xs

fold_into-nil :
    {A : Type 0} (plus : A → A → A) (start : A) (sum : Option A) → sum ≡ fold_into plus start sum []
fold_into-nil plus start none = refl
fold_into-nil plus start (some a) = refl

fold_into-add_cost :
    {Cost : Type 0} (zero_cost : Cost) (plus : Cost → Cost → Cost) (cost sum : Option Cost)
    (xs : List Cost)
    → fold_into plus zero_cost (add_cost zero_cost plus cost sum) xs
      ≡ fold_into plus zero_cost sum (and_also cost xs)
fold_into-add_cost z plus none sum xs = refl
fold_into-add_cost z plus (some c) none xs = refl
fold_into-add_cost z plus (some c) (some a) xs = refl

fold_into-add_total :
    (total sum : Option ℕ) (xs : List ℕ)
    → fold_into (λ a b. a + b) 0 (add_total total sum) xs
      ≡ fold_into (λ a b. a + b) 0 sum (and_also total xs)
fold_into-add_total none sum xs = refl
fold_into-add_total (some c) none xs = refl
fold_into-add_total (some c) (some a) xs = refl

module _ {Cost : Type 0} (zero_cost : Cost) (plus : Cost → Cost → Cost) where
  -- The calls of a turn, one after the other.
  unfoldable pub add_calls : List (CallUsage Cost) → TurnUsageTotals Cost → TurnUsageTotals Cost
  add_calls [] u = u
  add_calls (c ∷ cs) u =
      add_calls cs
        (add_call zero_cost plus c.input_tokens c.output_tokens c.total c.cost c.cost_complete u)

  -- What the totals are after the calls, from what they were.
  pub record IsSum (cs : List (CallUsage Cost)) (u v : TurnUsageTotals Cost) : Type 0 where
    pub input : v.input_tokens ≡ u.input_tokens + sum_of (λ c. c.input_tokens) cs
    pub output : v.output_tokens ≡ u.output_tokens + sum_of (λ c. c.output_tokens) cs
    pub total :
        v.total_tokens ≡ fold_into (λ a b. a + b) 0 u.total_tokens (reported (λ c. c.total) cs)
    pub charge : v.cost ≡ fold_into plus zero_cost u.cost (reported (λ c. c.cost) cs)
    pub complete : v.cost_complete ≡ (u.cost_complete && all_of (λ c. c.cost_complete) cs)

  -- Adding calls adds to the totals the sums of their tokens; the total of the calls that report
  -- one, and the charge of those that report one, each none as long as none did; and a charge is
  -- complete exactly if it was and every call, priced or not, says that its own is.
  pub add_calls-IsSum :
      (cs : List (CallUsage Cost)) (u : TurnUsageTotals Cost) → IsSum cs u (add_calls cs u)
  unfolding add_calls sum_of all_of reported add_call
  add_calls-IsSum [] u = record {
    input = omega arith;
    output = omega arith;
    total = fold_into-nil (λ a b. a + b) 0 u.total_tokens;
    charge = fold_into-nil plus zero_cost u.cost;
    complete = ground arith;
  }
  add_calls-IsSum (c ∷ cs) u =
      let rest =
        add_calls-IsSum cs (
          add_call zero_cost plus c.input_tokens c.output_tokens c.total c.cost c.cost_complete
            u) in
      record {
        input = rest.input ∙ omega arith;
        output = rest.output ∙ omega arith;
        total =
            rest.total ∙ fold_into-add_total c.total u.total_tokens (reported (λ c. c.total) cs);
        charge =
            rest.charge
            ∙ fold_into-add_cost zero_cost plus c.cost u.cost (reported (λ c. c.cost) cs);
        complete = rest.complete ∙ ground arith;
      }
