-- ===== src/A2a/TaskState/Transitions.antt =====
-- The transition diagram as a relation, and what it makes reachable.
use nu_agent.Prelude.{◌≡◌, refl, ◌↔◌, ◌≢◌, arith, true, false}
use nu_agent.A2a.TaskState.{
  TaskState, is_terminal, is_valid_transition, unspecified, submitted, working, input_required,
  completed, failed, canceled, rejected, auth_required,
}

infix 40 ◌⟶◌ ◌⟶*◌
pub data ◌⟶◌ : TaskState → TaskState → Type 0 where
  start : submitted ⟶ working
  ask : working ⟶ input_required
  resume : input_required ⟶ working
  finish : working ⟶ completed
  break_down : working ⟶ failed
  refuse_early : submitted ⟶ rejected
  refuse : working ⟶ rejected
  withdraw : submitted ⟶ canceled
  abort : working ⟶ canceled
  give_up : input_required ⟶ canceled

-- Zero or more transitions.
pub data ◌⟶*◌ (s : TaskState) : TaskState → Type 0 where
  here : s ⟶* s
  next : {t u : TaskState} → s ⟶* t → t ⟶ u → s ⟶* u

pub ⟶*-trans : {s t u : TaskState} → s ⟶* t → t ⟶* u → s ⟶* u
⟶*-trans r here = r
⟶*-trans r (next q st) = next (⟶*-trans r q) st

pub ruleset transitions =
    (start, ask, resume, finish, break_down, refuse_early, refuse, withdraw, abort, give_up)

pub is_valid_transition→⟶ : (s t : TaskState) → is_valid_transition s t ≡ true → s ⟶ t
unfolding is_valid_transition
is_valid_transition→⟶ s t h = grind (arith, transitions)

pub ⟶→is_valid_transition : {s t : TaskState} → s ⟶ t → is_valid_transition s t ≡ true
unfolding is_valid_transition
⟶→is_valid_transition start = refl
⟶→is_valid_transition ask = refl
⟶→is_valid_transition resume = refl
⟶→is_valid_transition finish = refl
⟶→is_valid_transition break_down = refl
⟶→is_valid_transition refuse_early = refl
⟶→is_valid_transition refuse = refl
⟶→is_valid_transition withdraw = refl
⟶→is_valid_transition abort = refl
⟶→is_valid_transition give_up = refl

-- A state, other than unspecified and auth-required, is terminal exactly when no valid transition
-- leaves it.
is_terminal_iff :
    (s : TaskState)
    → s ≢ unspecified
    → s ≢ auth_required
    → (is_terminal s ≡ true) ↔ ((t : TaskState) → is_valid_transition s t ≡ false)
unfolding is_terminal is_valid_transition
is_terminal_iff submitted a b = (λ h. cc, λ f. cc (f working))
is_terminal_iff working a b = (λ h. cc, λ f. cc (f failed))
is_terminal_iff input_required a b = (λ h. cc, λ f. cc (f working))
is_terminal_iff unspecified a b = absurd (a refl)
is_terminal_iff auth_required a b = absurd (b refl)
is_terminal_iff _ a b = (λ h t. refl, λ f. refl)

step-reached : {t u : TaskState} → t ⟶ u → (u ≢ unspecified) × (u ≢ auth_required)
step-reached start = (λ e. cc, λ e. cc)
step-reached ask = (λ e. cc, λ e. cc)
step-reached resume = (λ e. cc, λ e. cc)
step-reached finish = (λ e. cc, λ e. cc)
step-reached break_down = (λ e. cc, λ e. cc)
step-reached refuse_early = (λ e. cc, λ e. cc)
step-reached refuse = (λ e. cc, λ e. cc)
step-reached withdraw = (λ e. cc, λ e. cc)
step-reached abort = (λ e. cc, λ e. cc)
step-reached give_up = (λ e. cc, λ e. cc)

-- A task that starts as submitted and moves by valid transitions is never unspecified and never
-- waits for authentication.
pub submitted-reached : {s : TaskState} → submitted ⟶* s → (s ≢ unspecified) × (s ≢ auth_required)
submitted-reached here = (λ e. cc, λ e. cc)
submitted-reached (next r st) = step-reached st
