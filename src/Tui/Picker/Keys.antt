-- ===== src/Tui/Picker/Keys.antt =====
-- What a picker does with a key (handle_key in crates/agnt-tui/src/state/picker.rs).
use nu_agent.Prelude.{ℕ, Bool, true, false, Option, none, some, String}
use nu_agent.Tui.Picker.{
  PickerPayload, PickerOption, PickerState, close_state, selected, move_up, move_down, move_page_up,
  move_page_down, append_query_char, backspace_query_char,
}
use nu_agent.Tui.Picker.Container.{
  ActivePicker, SwitchRequest, SubmitAction, switch, launch, command, slash_accept,
  PickerKeyOutcome, consumed, submit, quit, pass, PickerEntry, PickerContainer, change_active,
  active_entry,
}

pub data Key : Type 0 where
  char : ℕ → Key
  enter alt_enter shift_enter backspace delete left right home end up down : Key
  page_up page_down ctrl_u ctrl_d ctrl_p ctrl_n ctrl_j ctrl_k tab back_tab esc ctrl_c : Key

-- The action for an option, from the entry's placeholder and the option's payload.
unfoldable pub resolve_option : SubmitAction → PickerOption → SubmitAction
resolve_option (switch (SwitchRequest.model m)) o = by_payload o.payload
  where
    by_payload : PickerPayload → SubmitAction
    by_payload (PickerPayload.model identity _ _ _ _ _) = switch (SwitchRequest.model identity)
    by_payload _ = switch (SwitchRequest.model m)
resolve_option (switch (SwitchRequest.agent a)) o = by_payload o.payload
  where
    by_payload : PickerPayload → SubmitAction
    by_payload (PickerPayload.agent name _) = switch (SwitchRequest.agent name)
    by_payload _ = switch (SwitchRequest.agent a)
resolve_option (switch (SwitchRequest.session s)) o = by_payload o.payload
  where
    by_payload : PickerPayload → SubmitAction
    by_payload (PickerPayload.session session_id _ _ _ _) =
        switch (SwitchRequest.session session_id)
    by_payload _ = switch (SwitchRequest.session s)
resolve_option (switch (SwitchRequest.theme t)) o = switch (SwitchRequest.theme o.id)
resolve_option (command a) o = by_payload o.payload
  where
    by_payload : PickerPayload → SubmitAction
    by_payload (PickerPayload.command b) = command b
    by_payload _ = command a
resolve_option (launch kind) o = launch kind
resolve_option slash_accept o = slash_accept

abbrev pub resolve_selected : SubmitAction → Option PickerOption → Option SubmitAction
resolve_selected action none = none
resolve_selected action (some o) = some (resolve_option action o)

-- What an entry's state becomes, and what was done with the key.
abbrev pub Reaction : Type 0
Reaction = PickerState × PickerKeyOutcome

abbrev pub entered : PickerState → Option SubmitAction → Reaction
entered s none = (close_state s, consumed true)
entered s (some action) = (s, submit action)

-- The keys that move the selection.
abbrev pub moved : PickerState → Key → Option PickerState
moved s up = some (move_up s)
moved s ctrl_p = some (move_up s)
moved s ctrl_k = some (move_up s)
moved s down = some (move_down s)
moved s ctrl_n = some (move_down s)
moved s ctrl_j = some (move_down s)
moved s page_up = some (move_page_up s)
moved s ctrl_u = some (move_page_up s)
moved s page_down = some (move_page_down s)
moved s ctrl_d = some (move_page_down s)
moved s _ = none

-- The keys that are left, where the query can be edited, and where not.
abbrev pub edited : Bool → PickerState → Key → PickerState
edited true s backspace = backspace_query_char s
edited true s (char c) = append_query_char c s
edited true s _ = s
edited false s _ = s

abbrev pub moved_or : Option PickerState → Reaction → Reaction
moved_or none rest = rest
moved_or (some s) rest = (s, consumed true)

unfoldable pub query_picker : PickerEntry → Key → Bool → Reaction
unfolding resolve_option selected move_up move_down move_page_up move_page_down close_state
query_picker e esc edit = (close_state e.state, consumed true)
query_picker e enter edit = entered e.state (resolve_selected e.submit (selected e.state))
query_picker e key edit = moved_or (moved e.state key) (edited edit e.state key, consumed true)

unfoldable pub inline_slash_key : PickerEntry → Key → Reaction
unfolding move_up move_down move_page_up move_page_down close_state
inline_slash_key e enter = (e.state, submit slash_accept)
inline_slash_key e tab = (e.state, submit slash_accept)
inline_slash_key e esc = (close_state e.state, consumed true)
inline_slash_key e key = moved_or (moved e.state key) (e.state, pass)

unfoldable pub entry_key : ActivePicker → PickerEntry → Key → Reaction
unfolding query_picker inline_slash_key
entry_key ActivePicker.command_palette e ctrl_c = (e.state, quit)
entry_key ActivePicker.command_palette e key = query_picker e key true
entry_key ActivePicker.model e key = query_picker e key true
entry_key ActivePicker.agent e key = query_picker e key true
entry_key ActivePicker.session e key = query_picker e key true
entry_key ActivePicker.theme e key = query_picker e key true
entry_key ActivePicker.inline_slash e key = inline_slash_key e key
entry_key ActivePicker.no_picker e key = (e.state, pass)

abbrev pub handle_for :
    Option PickerEntry → Key → PickerContainer → PickerContainer × PickerKeyOutcome
handle_for none key c = (c, pass)
handle_for (some e) key c =
    let (state, outcome) = entry_key e.kind e key in (change_active (λ _. state) c, outcome)

unfoldable pub handle_key : Key → PickerContainer → PickerContainer × PickerKeyOutcome
unfolding entry_key
handle_key key c = handle_for (active_entry c) key c

abbrev slash_label : Option PickerOption → Option String
slash_label none = none
slash_label (some o) = by_payload o.payload
  where
    by_payload : PickerPayload → Option String
    by_payload (PickerPayload.slash c) = some c.label
    by_payload _ = none

abbrev pub selected_in : Option PickerEntry → Option PickerOption
selected_in none = none
selected_in (some e) = selected e.state

unfoldable pub selected_slash_label : PickerContainer → Option String
unfolding selected
selected_slash_label c = slash_label (selected_in (active_entry c))
