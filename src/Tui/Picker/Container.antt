-- ===== src/Tui/Picker/Container.antt =====
-- The container of the pickers (PickerContainer in crates/agnt-tui/src/state/picker.rs): six entries,
-- of which one can be open. An index beyond the entries, which would panic, does not occur: the
-- container is made with the six.
use nu_agent.Prelude.{
  ℕ, zero, suc, Bool, true, false, List, [], ◌∷◌, Option, none, some, length, if◌then◌else◌,
}
use nu_agent.Tui.Picker.{
  Text, CommandPaletteAction, PickerOption, PickerState, new_picker, close_state, filtered,
  clamp_selection,
}

pub data ActivePicker : Type 0 where
  command_palette model agent session theme inline_slash no_picker : ActivePicker

pub data SwitchRequest : Type 0 where
  model agent session theme : Text → SwitchRequest

pub data SubmitAction : Type 0 where
  switch : SwitchRequest → SubmitAction
  launch : ActivePicker → SubmitAction
  command : CommandPaletteAction → SubmitAction
  slash_accept : SubmitAction

pub data PickerKeyOutcome : Type 0 where
  consumed : Bool → PickerKeyOutcome
  submit : SubmitAction → PickerKeyOutcome
  quit pass : PickerKeyOutcome

pub record PickerEntry : Type 0 where
  pub kind : ActivePicker
  pub state : PickerState
  pub edit_query : Bool
  pub submit : SubmitAction

abbrev pub PickerContainer : Type 0
PickerContainer = List PickerEntry

abbrev entry_of : ActivePicker → Bool → SubmitAction → PickerEntry
entry_of kind edit_query action = record {
  kind = kind;
  state = new_picker;
  edit_query = edit_query;
  submit = action;
}

abbrev pub new_container : PickerContainer
new_container =
    entry_of ActivePicker.command_palette true (SubmitAction.command CommandPaletteAction.help)
    ∷ entry_of ActivePicker.model true (switch (SwitchRequest.model []))
    ∷ entry_of ActivePicker.agent true (switch (SwitchRequest.agent []))
    ∷ entry_of ActivePicker.session true (switch (SwitchRequest.session []))
    ∷ entry_of ActivePicker.theme false (switch (SwitchRequest.theme []))
    ∷ entry_of ActivePicker.inline_slash false slash_accept
    ∷ []

unfoldable pub index_of : ActivePicker → ℕ
index_of ActivePicker.command_palette = 0
index_of ActivePicker.model = 1
index_of ActivePicker.agent = 2
index_of ActivePicker.session = 3
index_of ActivePicker.theme = 4
index_of ActivePicker.inline_slash = 5
index_of ActivePicker.no_picker = 0

abbrev pub with_state : PickerState → PickerEntry → PickerEntry
with_state s e = record e { state = s }

-- A change of the entry at an index.
abbrev pub change_at : (PickerState → PickerState) → PickerContainer → ℕ → PickerContainer
change_at f [] i = []
change_at f (e ∷ es) zero = with_state (f e.state) e ∷ es
change_at f (e ∷ es) (suc i) = e ∷ change_at f es i

-- A change of every entry.
abbrev pub change_all : (PickerState → PickerState) → PickerContainer → PickerContainer
change_all f [] = []
change_all f (e ∷ es) = with_state (f e.state) e ∷ change_all f es

-- A change of the first open entry.
abbrev pub change_active : (PickerState → PickerState) → PickerContainer → PickerContainer
change_active f [] = []
change_active f (e ∷ es) =
    let rest = change_active f es in
    if e.state.is_open then with_state (f e.state) e ∷ es else e ∷ rest

abbrev pub set_open : Bool → PickerState → PickerState
set_open flag s = record s { is_open = flag }

unfoldable pub open_kind : ActivePicker → PickerContainer → PickerContainer
unfolding index_of
open_kind kind c = change_at (set_open true) (change_all (set_open false) c) (index_of kind)

unfoldable pub close : PickerContainer → PickerContainer
unfolding close_state
close c = change_all close_state c

abbrev pub active_entry : PickerContainer → Option PickerEntry
active_entry [] = none
active_entry (e ∷ es) = let rest = active_entry es in if e.state.is_open then some e else rest

abbrev kind_of : Option PickerEntry → Option ActivePicker
kind_of none = none
kind_of (some e) = some e.kind

unfoldable pub active : PickerContainer → Option ActivePicker
active c = kind_of (active_entry c)

-- The place of the option with an identifier.
abbrev pub position : (Text → Bool) → List PickerOption → Option ℕ
position is_id [] = none
position is_id (o ∷ os) = let rest = position is_id os in if is_id o.id then some 0 else next rest
  where
    next : Option ℕ → Option ℕ
    next none = none
    next (some i) = some (suc i)

abbrev pub placed : Option ℕ → PickerState → PickerState
placed none s = s
placed (some i) s = record s { selection = i }

-- `position_selection_on`, with the test on identifiers.
unfoldable pub position_selection_on : (Text → Bool) → PickerContainer → PickerContainer
position_selection_on is_id c = change_active (λ s. placed (position is_id s.options) s) c

abbrev pub clamped_state : PickerState → PickerState
clamped_state s = clamp_selection (length (filtered s)) s

unfoldable pub clamp_selections : PickerContainer → PickerContainer
unfolding clamp_selection filtered
clamp_selections c = change_all clamped_state c

-- The options of `set_picker_options`, converted and sorted.
unfoldable pub set_options : ActivePicker → List PickerOption → PickerContainer → PickerContainer
unfolding clamp_selections index_of
set_options kind options c =
    clamp_selections (change_at (λ s. record s { options = options }) c (index_of kind))

-- `check_inline_slash`, with the options for the text of the input.
unfoldable pub check_inline_slash : List PickerOption → PickerContainer → PickerContainer
unfolding open_kind close
check_inline_slash [] c = close c
check_inline_slash (o ∷ os) c =
    change_at (λ s. record s { options = o ∷ os }) (open_kind ActivePicker.inline_slash c)
      (index_of ActivePicker.inline_slash)
