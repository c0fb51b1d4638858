-- ===== src/Tui/Picker/Invariant.antt =====
-- The container always has its six entries, of which one at most is open, and selects an option that
-- is shown.
use nu_agent.Prelude.{
  ◌≤◌, Bool, true, false, List, [], ◌∷◌, Option, none, some, ◌≡◌, refl, ◌∙◌, inl, inr, arith, subst,
  get_elem?, All,
}
use nu_agent.Tui.Picker.{Text, PickerOption, PickerState, close_state, filtered, clamp_selection}
use nu_agent.Tui.Picker.Container.{
  ActivePicker, PickerEntry, PickerContainer, new_container, change_all, active_entry, open_kind,
  close, position_selection_on, clamp_selections, set_options, check_inline_slash, index_of,
  set_open, clamped_state, placed, position,
}
use nu_agent.Tui.Picker.Keys.{Key, entry_key, handle_for, handle_key}
use nu_agent.Tui.Picker.Range.{IsPlaced, clamped-Within, entry_key-IsPlaced}
use nu_agent.Tui.Picker.Entries.{
  Places, kinds, count_open, kinds-change_at, kinds-change_all, kinds-change_active,
  count_open-change_at, count_open-same_at, count_open-shut, count_open-same_all,
  count_open-change_active, All-change_at, All-change_all, All-clamped, All-change_active,
  active_placed,
}

-- What happens to the pickers: keys, a picker that is opened, with its selection on an option or not,
-- options that arrive, the input that asks for inline commands, and a dismissal.
pub data PickerStep : Type 0 where
  press : Key → PickerStep
  show : ActivePicker → PickerStep
  show_at : ActivePicker → (Text → Bool) → PickerStep
  load : ActivePicker → List PickerOption → PickerStep
  suggest : List PickerOption → PickerStep
  dismiss : PickerStep

unfoldable pub picker_step : PickerContainer → PickerStep → PickerContainer
unfolding handle_key open_kind close position_selection_on clamp_selections set_options
    check_inline_slash
picker_step c (press key) = (handle_key key c).0
picker_step c (show kind) = clamp_selections (open_kind kind c)
picker_step c (show_at kind is_id) =
    clamp_selections (position_selection_on is_id (open_kind kind c))
picker_step c (load kind options) = set_options kind options c
picker_step c (suggest options) = check_inline_slash options c
picker_step c dismiss = close c

unfoldable pub picker_run : PickerContainer → List PickerStep → PickerContainer
unfolding picker_step
picker_run c [] = c
picker_run c (st ∷ sts) = picker_run (picker_step c st) sts

pub record IsWellFormed (c : PickerContainer) : Type 0 where
  pub six : kinds c ≡ kinds new_container
  pub single : count_open c ≤ 1
  pub placed : All IsPlaced c

clamp-IsWellFormed :
    (c : PickerContainer)
    → kinds c ≡ kinds new_container
    → count_open c ≤ 1
    → IsWellFormed (clamp_selections c)
unfolding clamp_selections clamp_selection filtered
clamp-IsWellFormed c k n = record {
  six = kinds-change_all _ c ∙ k;
  single = omega (arith, count_open-same_all clamped_state c (λ s. refl), n);
  placed = All-clamped clamped_state c (λ s. clamped-Within _ s.selection);
}

open-single :
    (kind : ActivePicker) (c : PickerContainer)
    → (kinds (open_kind kind c) ≡ kinds c) × (count_open (open_kind kind c) ≤ 1)
unfolding open_kind
open-single kind c =
    let shut = change_all (set_open false) c in
    (
      kinds-change_at (set_open true) shut (index_of kind) ∙ kinds-change_all (set_open false) c,
      omega (
        arith,
        count_open-change_at (set_open true) shut (index_of kind),
        count_open-shut (set_open false) c (λ s. refl),
      ),
    )

handle_for-IsWellFormed :
    (found : Option PickerEntry) (key : Key) (c : PickerContainer)
    → active_entry c ≡ found
    → IsWellFormed c
    → IsWellFormed (handle_for found key c).0
handle_for-IsWellFormed none key c e h = h
handle_for-IsWellFormed (some a) key c e h =
    let state = (entry_key a.kind a key).0 in
    record {
      six = kinds-change_active (λ _. state) c ∙ h.six;
      single = omega (arith, count_open-change_active (λ _. state) c, h.single);
      placed =
          All-change_active state a c e (entry_key-IsPlaced a key (active_placed c e h.placed))
            h.placed;
    }

close-IsWellFormed : (c : PickerContainer) → IsWellFormed c → IsWellFormed (close c)
unfolding close close_state
close-IsWellFormed c h = record {
  six = kinds-change_all close_state c ∙ h.six;
  single = omega (arith, count_open-shut close_state c (λ s. refl));
  placed = All-change_all close_state c (λ e p. inr (inl refl)) h.placed;
}

set_open-Places : (flag : Bool) → Places (set_open flag)
unfolding filtered
set_open-Places flag e (inl slash) = inl slash
set_open-Places flag e (inr h) = inr h

open-All :
    (kind : ActivePicker) (c : PickerContainer) → All IsPlaced c → All IsPlaced (open_kind kind c)
unfolding open_kind
open-All kind c a =
    All-change_at (set_open true) (change_all (set_open false) c) (index_of kind)
      (λ e _ p. set_open-Places true e p)
      (All-change_all (set_open false) c (set_open-Places false) a)

suggest-IsWellFormed :
    (options : List PickerOption) (c : PickerContainer)
    → IsWellFormed c
    → IsWellFormed (check_inline_slash options c)
unfolding check_inline_slash
suggest-IsWellFormed [] c h = close-IsWellFormed c h
suggest-IsWellFormed (o ∷ os) c h =
    let shown = open_kind ActivePicker.inline_slash c in
    let give = λ (s : PickerState). record s { options = o ∷ os } in
    let (same, single) = open-single ActivePicker.inline_slash c in
    record {
      six = kinds-change_at give shown 5 ∙ same ∙ h.six;
      single = omega (arith, count_open-same_at give shown 5 (λ s. refl), single);
      placed =
          All-change_at give shown 5 (λ e at_five p. inl (inline_at e at_five))
            (open-All ActivePicker.inline_slash c h.placed);
    }
  where
    inline_at :
        (e : PickerEntry)
        → get_elem? (kinds (open_kind ActivePicker.inline_slash c)) 5 ≡ some e.kind
        → e.kind ≡ ActivePicker.inline_slash
    inline_at e at_five =
        let six = (open-single ActivePicker.inline_slash c).0 ∙ h.six in
        let last : some ActivePicker.inline_slash ≡ some e.kind =
          subst (λ ks. get_elem? ks 5 ≡ some e.kind) six at_five in
        cc last

-- A step keeps the six entries, at most one of them open, and the selections in range.
picker_step-IsWellFormed :
    (c : PickerContainer) (st : PickerStep) → IsWellFormed c → IsWellFormed (picker_step c st)
unfolding picker_step handle_key set_options position_selection_on
picker_step-IsWellFormed c (press key) h = handle_for-IsWellFormed _ key c refl h
picker_step-IsWellFormed c (show kind) h =
    let (same, single) = open-single kind c in clamp-IsWellFormed _ (same ∙ h.six) single
picker_step-IsWellFormed c (show_at kind is_id) h =
    let (same, single) = open-single kind c in
    clamp-IsWellFormed _ (kinds-change_active _ (open_kind kind c) ∙ same ∙ h.six) (
      omega (
        arith,
        count_open-change_active (λ s. placed (position is_id s.options) s) (open_kind kind c),
        single,
      ))
picker_step-IsWellFormed c (load kind options) h =
    let give = λ (s : PickerState). record s { options = options } in
    clamp-IsWellFormed _ (kinds-change_at give c (index_of kind) ∙ h.six)
      (omega (arith, count_open-same_at give c (index_of kind) (λ s. refl), h.single))
picker_step-IsWellFormed c (suggest options) h = suggest-IsWellFormed options c h
picker_step-IsWellFormed c dismiss h = close-IsWellFormed c h

-- After any steps the container has the six entries it was made with, at most one of them is open,
-- and each but that of the inline commands selects an option that its query keeps, or the first
-- place.
pub picker_run-IsWellFormed :
    (c : PickerContainer) (sts : List PickerStep) → IsWellFormed c → IsWellFormed (picker_run c sts)
unfolding picker_run
picker_run-IsWellFormed c [] h = h
picker_run-IsWellFormed c (st ∷ sts) h =
    picker_run-IsWellFormed (picker_step c st) sts (picker_step-IsWellFormed c st h)
