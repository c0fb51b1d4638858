-- ===== src/Tui/Picker/Range.antt =====
-- Where the selection of a picker can be after a key.
use nu_agent.Prelude.{
  ℕ, zero, suc, ◌<◌, Bool, true, false, Option, none, some, ◌≡◌, refl, ◌⊎◌, inl, inr, arith,
  nat_beq, length, Bool-cases,
}
use nu_agent.Tui.Picker.{
  PickerState, close_state, filtered, up_from, down_from, page_up_from, page_down_from, clamped,
  move_up, move_down, move_page_up, move_page_down, append_query_char, backspace_query_char,
}
use nu_agent.Tui.Picker.Container.{ActivePicker, PickerEntry, with_state, consumed, pass}
use nu_agent.Tui.Picker.Keys.{
  Key, char, enter, backspace, up, down, page_up, page_down, ctrl_u, ctrl_d, ctrl_p, ctrl_n, ctrl_j,
  ctrl_k, tab, esc, ctrl_c, Reaction, entered, moved, edited, moved_or, query_picker,
  inline_slash_key, entry_key,
}

-- The selection is one of so many places, or the first.
abbrev Within : ℕ → ℕ → Type 0
Within count selection = (selection ≡ 0) ⊎ (selection < count)

-- The selection is an option that the query keeps, or the first.
abbrev pub InRange : PickerState → Type 0
InRange s = Within (length (filtered s)) s.selection

up_from-Within : (n i : ℕ) → Within n i → Within n (up_from n i)
up_from-Within zero i h = inl refl
up_from-Within (suc n) i h = elim (Bool-cases (nat_beq i 0)) [
  | inl first ↦ rw first (inr (omega arith))
  | inr other ↦ rw other (inr (ground arith))
]

down_from-Within : (n i : ℕ) → Within n (down_from n i)
down_from-Within zero i = inl refl
down_from-Within (suc n) i = inr (omega arith)

page_up_from-Within : (n i : ℕ) → Within n (page_up_from n i)
page_up_from-Within zero i = inl refl
page_up_from-Within (suc n) i = inr (omega arith)

page_down_from-Within : (n i : ℕ) → Within n (page_down_from n i)
page_down_from-Within zero i = inl refl
page_down_from-Within (suc n) i = inr (omega arith)

pub clamped-Within : (n i : ℕ) → Within n (clamped n i)
clamped-Within zero i = inl refl
clamped-Within (suc n) i = inr (ground arith)

-- A state that a key may move to.
abbrev MovesTo : Option PickerState → Type 0
MovesTo none = Unit
MovesTo (some s) = InRange s

moved-MovesTo : (s : PickerState) (key : Key) → InRange s → MovesTo (moved s key)
unfolding move_up move_down move_page_up move_page_down filtered
moved-MovesTo s up h = up_from-Within _ _ h
moved-MovesTo s ctrl_p h = up_from-Within _ _ h
moved-MovesTo s ctrl_k h = up_from-Within _ _ h
moved-MovesTo s down h = down_from-Within _ s.selection
moved-MovesTo s ctrl_n h = down_from-Within _ s.selection
moved-MovesTo s ctrl_j h = down_from-Within _ s.selection
moved-MovesTo s page_up h = page_up_from-Within _ s.selection
moved-MovesTo s ctrl_u h = page_up_from-Within _ s.selection
moved-MovesTo s page_down h = page_down_from-Within _ s.selection
moved-MovesTo s ctrl_d h = page_down_from-Within _ s.selection
moved-MovesTo s _ h = tt

edited-InRange :
    (edit : Bool) (s : PickerState) (key : Key) → InRange s → InRange (edited edit s key)
unfolding append_query_char backspace_query_char
edited-InRange true s backspace h = inl refl
edited-InRange true s (char c) h = inl refl
edited-InRange true s _ h = h
edited-InRange false s key h = h

moved_or-InRange :
    (o : Option PickerState) (rest : Reaction)
    → MovesTo o
    → InRange rest.0
    → InRange (moved_or o rest).0
moved_or-InRange none rest h r = r
moved_or-InRange (some s) rest h r = h

entered-InRange : (s : PickerState) (action : Option _) → InRange s → InRange (entered s action).0
unfolding close_state
entered-InRange s none h = inl refl
entered-InRange s (some action) h = h

query_picker-InRange :
    (e : PickerEntry) (key : Key) (edit : Bool)
    → InRange e.state
    → InRange (query_picker e key edit).0
unfolding query_picker close_state
query_picker-InRange e esc edit h = inl refl
query_picker-InRange e enter edit h = entered-InRange e.state _ h
query_picker-InRange e key edit h =
    moved_or-InRange (moved e.state key) (edited edit e.state key, consumed true)
      (moved-MovesTo e.state key h) (edited-InRange edit e.state key h)

inline_slash_key-InRange :
    (e : PickerEntry) (key : Key) → InRange e.state → InRange (inline_slash_key e key).0
unfolding inline_slash_key close_state
inline_slash_key-InRange e enter h = h
inline_slash_key-InRange e tab h = h
inline_slash_key-InRange e esc h = inl refl
inline_slash_key-InRange e key h =
    moved_or-InRange (moved e.state key) (e.state, pass) (moved-MovesTo e.state key h) h

-- A place in range, unless the entry is that of the inline commands, whose options the input changes.
abbrev pub IsPlaced : PickerEntry → Type 0
IsPlaced e = (e.kind ≡ ActivePicker.inline_slash) ⊎ InRange e.state

entry_key-InRange :
    (kind : ActivePicker) (e : PickerEntry) (key : Key)
    → InRange e.state
    → InRange (entry_key kind e key).0
unfolding entry_key
entry_key-InRange ActivePicker.command_palette e ctrl_c h = h
entry_key-InRange ActivePicker.command_palette e key h = query_picker-InRange e key true h
entry_key-InRange ActivePicker.model e key h = query_picker-InRange e key true h
entry_key-InRange ActivePicker.agent e key h = query_picker-InRange e key true h
entry_key-InRange ActivePicker.session e key h = query_picker-InRange e key true h
entry_key-InRange ActivePicker.theme e key h = query_picker-InRange e key true h
entry_key-InRange ActivePicker.inline_slash e key h = inline_slash_key-InRange e key h
entry_key-InRange ActivePicker.no_picker e key h = h

pub entry_key-IsPlaced :
    (e : PickerEntry) (key : Key) → IsPlaced e → IsPlaced (with_state (entry_key e.kind e key).0 e)
entry_key-IsPlaced e key (inl slash) = inl slash
entry_key-IsPlaced e key (inr h) = inr (entry_key-InRange e.kind e key h)
