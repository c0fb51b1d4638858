-- ===== src/Tui/Picker.antt =====
-- The pickers of the terminal interface (crates/agnt-tui/src/state/picker.rs). A text that is searched
-- is the list of its code points.
pub mod Matching
pub mod Container
pub mod Keys
pub mod Range
pub mod Entries
pub mod Invariant
pub mod Submit
use nu_agent.Prelude.{
  ℕ, zero, suc, ◌+◌, ◌-◌, ◌%◌, min, Bool, true, false, ◌&&◌, ◌||◌, List, [], ◌∷◌, ◌++◌, Option,
  none, some, String, nat_beq, leb, length, get_elem?, retain, if◌then◌else◌, sat_add, take, drop,
  ℤ,
}

abbrev pub Text : Type 0
Text = List ℕ

abbrev pub panel_page_lines : ℕ
panel_page_lines = 8

-- `to_ascii_lowercase`.
unfoldable pub to_ascii_lowercase : Text → Text
to_ascii_lowercase [] = []
to_ascii_lowercase (c ∷ cs) = (if leb 65 c && leb c 90 then c + 32 else c) ∷ to_ascii_lowercase cs

-- The loop of `fuzzy_matches` over the candidate, with the character that it waits for and those
-- behind it.
unfoldable pub fuzzy_loop : Text → ℕ → Text → Bool
fuzzy_loop [] needle query = false
fuzzy_loop (c ∷ cs) needle [] =
    let later = fuzzy_loop cs needle [] in if nat_beq c needle then true else later
fuzzy_loop (c ∷ cs) needle (n ∷ query) =
    let next = fuzzy_loop cs n query in
    let later = fuzzy_loop cs needle (n ∷ query) in if nat_beq c needle then next else later

unfoldable pub fuzzy_matches : Text → Text → Bool
unfolding fuzzy_loop
fuzzy_matches [] candidate = true
fuzzy_matches (needle ∷ query) candidate = fuzzy_loop candidate needle query

pub data CommandPaletteAction : Type 0 where
  compact help status mcps skills models agents sessions theme : CommandPaletteAction

-- `SlashCommand`, by its label.
pub record SlashCommand : Type 0 where
  pub label : String

pub data PickerPayload : Type 0 where
  model : Text → String → String → Bool → Option ℕ → Option String → PickerPayload
  agent : Text → Option String → PickerPayload
  session : Text → Option String → Option ℤ → ℕ → Option String → PickerPayload
  theme_name : PickerPayload
  command : CommandPaletteAction → PickerPayload
  slash : SlashCommand → PickerPayload

-- `PickerOption` but for its sort key.
pub record PickerOption : Type 0 where
  pub id : Text
  pub display : Text
  pub search_text : Text
  pub section : Option String
  pub payload : PickerPayload

unfoldable pub matches_query : Text → PickerOption → Bool
unfolding fuzzy_matches to_ascii_lowercase
matches_query query o =
    let q = to_ascii_lowercase query in
    fuzzy_matches q (to_ascii_lowercase o.display)
    || fuzzy_matches q (to_ascii_lowercase o.id)
    || fuzzy_matches q (to_ascii_lowercase o.search_text)

pub record PickerState : Type 0 where
  pub is_open : Bool
  pub query : Text
  pub selection : ℕ
  pub options : List PickerOption

abbrev pub new_picker : PickerState
new_picker = record { is_open = false; query = []; selection = 0; options = [] }

unfoldable pub open_state : PickerState → PickerState
open_state s = record s { is_open = true; query = []; selection = 0 }

unfoldable pub close_state : PickerState → PickerState
close_state s = record s { is_open = false; query = []; selection = 0 }

abbrev pub filtered_by : Text → List PickerOption → List PickerOption
filtered_by [] options = options
filtered_by (c ∷ query) options = retain (matches_query (to_ascii_lowercase (c ∷ query))) options

unfoldable pub filtered : PickerState → List PickerOption
unfolding matches_query
filtered s = filtered_by s.query s.options

unfoldable pub selected : PickerState → Option PickerOption
unfolding filtered
selected s = get_elem? (filtered s) s.selection

-- The places that the selection moves to, among so many options.
abbrev pub up_from : ℕ → ℕ → ℕ
up_from zero selection = 0
up_from (suc last) selection = if nat_beq selection 0 then suc last - 1 else selection - 1

abbrev pub down_from : ℕ → ℕ → ℕ
down_from zero selection = 0
down_from (suc last) selection = (selection + 1) % suc last

abbrev pub page_up_from : ℕ → ℕ → ℕ
page_up_from zero selection = 0
page_up_from (suc last) selection = min (selection - panel_page_lines) (suc last - 1)

abbrev pub page_down_from : ℕ → ℕ → ℕ
page_down_from zero selection = 0
page_down_from (suc last) selection = min (sat_add selection panel_page_lines) (suc last - 1)

abbrev pub clamped : ℕ → ℕ → ℕ
clamped zero selection = 0
clamped (suc last) selection = if leb (suc last) selection then suc last - 1 else selection

unfoldable pub move_up : PickerState → PickerState
unfolding filtered
move_up s = record s { selection = up_from (length (filtered s)) s.selection }

unfoldable pub move_down : PickerState → PickerState
unfolding filtered
move_down s = record s { selection = down_from (length (filtered s)) s.selection }

unfoldable pub move_page_up : PickerState → PickerState
unfolding filtered
move_page_up s = record s { selection = page_up_from (length (filtered s)) s.selection }

unfoldable pub move_page_down : PickerState → PickerState
unfolding filtered
move_page_down s = record s { selection = page_down_from (length (filtered s)) s.selection }

unfoldable pub append_query_char : ℕ → PickerState → PickerState
append_query_char c s = record s { query = s.query ++ c ∷ []; selection = 0 }

unfoldable pub backspace_query_char : PickerState → PickerState
backspace_query_char s = record s { query = take (length s.query - 1) s.query; selection = 0 }

unfoldable pub clamp_selection : ℕ → PickerState → PickerState
clamp_selection len s = record s { selection = clamped len s.selection }
