-- ===== src/Tui/InputHistory.antt =====
-- Walking the history of submitted prompts (crates/agnt-tui/src/state/input_history.rs).
pub mod Walk
use nu_agent.Prelude.{
  ℕ, zero, suc, ◌+◌, ◌-◌, List, [], ◌∷◌, Option, none, some, String, leb, if◌then◌else◌, length,
  unwrap_or,
}

-- The two fields of `InputState` that the walk works on.
pub record InputHistory : Type 0 where
  pub history_index : Option ℕ
  pub history_saved : String

abbrev pub idle : InputHistory
idle = record { history_index = none; history_saved = "" }

-- What a step gives: nothing, a text for the input, or the panic of an index out of range.
pub data Loaded : Type 0 where
  nothing out_of_range : Loaded
  loaded : String → Loaded

-- `submitted[i].clone()`.
unfoldable pub load : List String → ℕ → Loaded
load [] i = out_of_range
load (text ∷ submitted) zero = loaded text
load (text ∷ submitted) (suc i) = load submitted i

abbrev last_index : List String → ℕ
last_index submitted = length submitted - 1

unfoldable pub history_up : InputHistory → List String → String → InputHistory × Loaded
unfolding load
history_up s [] current_buffer = (s, nothing)
history_up s (text ∷ submitted) current_buffer = elim s.history_index [
  | none ↦ (
    record { history_index = some (last_index (text ∷ submitted)); history_saved = current_buffer },
    load (text ∷ submitted) (last_index (text ∷ submitted)),
  )
  | some i ↦ (record s { history_index = some (i - 1) }, load (text ∷ submitted) (i - 1))
]

unfoldable pub history_down : InputHistory → List String → InputHistory × Loaded
unfolding load
history_down s submitted = elim s.history_index [
  | none ↦ (s, nothing)
  | some current ↦
      if leb (length submitted) (current + 1)
      then (record { history_index = none; history_saved = "" }, loaded s.history_saved)
      else (record s { history_index = some (current + 1) }, load submitted (current + 1))
]

unfoldable pub reset_history_navigation : InputHistory → InputHistory
reset_history_navigation s = record { history_index = none; history_saved = "" }
