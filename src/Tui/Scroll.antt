-- ===== src/Tui/Scroll.antt =====
-- Scrolling the transcript (crates/agnt-tui/src/state/scroll.rs). Additions saturate at the
-- greatest `usize`, written out as `sat_add`.
pub mod Cursor
pub mod Frame
use nu_agent.Prelude.{
  ℕ, zero, suc, ◌+◌, ◌-◌, ◌*◌, ◌/◌, min, max, Bool, true, false, not, ◌&&◌, Option, none, some, ltb,
  leb, nat_beq, if◌then◌else◌, sat_add,
}
use nu_agent.Tui.Selection.{
  TranscriptSelection, new_selection, set_cursor, move_cursor_to_top, move_cursor_to_bottom,
  normalized_range,
}

abbrev pub transcript_page_lines : ℕ
transcript_page_lines = 8

abbrev pub wheel_lines : ℕ
wheel_lines = 3

pub data PaneFocus : Type 0 where
  transcript input : PaneFocus

-- A rectangle of terminal cells.
pub record Rect : Type 0 where
  pub x : ℕ
  pub y : ℕ
  pub width : ℕ
  pub height : ℕ

pub record ScrollState : Type 0 where
  pub scroll_offset : ℕ
  pub following_tail : Bool
  pub cursor_visual_row : ℕ
  pub viewport_height : ℕ
  pub max_scroll : ℕ
  pub total_visual_rows : ℕ
  pub selection : Option TranscriptSelection
  pub pane_focus : PaneFocus
  pub transcript_area : Rect

abbrev pub default_scroll : ScrollState
default_scroll = record {
  scroll_offset = 0;
  following_tail = true;
  cursor_visual_row = 0;
  viewport_height = 0;
  max_scroll = 0;
  total_visual_rows = 0;
  selection = none;
  pane_focus = PaneFocus.input;
  transcript_area = record { x = 0; y = 0; width = 0; height = 0 };
}

pub data ScrollAction : Type 0 where
  line_up line_down page_up page_down to_top to_bottom wheel_up wheel_down : Bool → ScrollAction
  focus_pane_left focus_pane_right : ScrollAction

-- Leaving the tail: the offset starts from the last one that shows rows.
abbrev pub leave_tail : ScrollState → ScrollState
leave_tail s =
    if s.following_tail
    then (record s { scroll_offset = s.max_scroll; following_tail = false })
    else s

-- A cursor that moves takes the selection with it in Visual mode.
abbrev pub on_selection :
    Bool
    → (TranscriptSelection → TranscriptSelection)
    → Option TranscriptSelection
    → Option TranscriptSelection
on_selection true f (some sel) = some (f sel)
on_selection _ f sel = sel

abbrev pub scroll_margin : ScrollState → ℕ
scroll_margin s = max (s.viewport_height / 3) 1

abbrev pub max_visual_row : ScrollState → ℕ
max_visual_row s = s.total_visual_rows - 1

-- `reduce_scroll_line_up` and `reduce_scroll_page_up`, by the number of rows.
unfoldable pub move_up : ℕ → Bool → ScrollState → ScrollState
move_up n select start =
    let s = leave_tail start in
    let cursor = s.cursor_visual_row - n in
    record s {
      cursor_visual_row = cursor;
      selection = on_selection select (λ sel. set_cursor sel cursor) s.selection;
      scroll_offset =
          if ltb cursor (s.scroll_offset + scroll_margin s)
          then s.scroll_offset - n
          else s.scroll_offset;
    }

-- `reduce_scroll_line_down` and `reduce_scroll_page_down`, by the number of rows.
unfoldable pub move_down : ℕ → Bool → ScrollState → ScrollState
move_down n select start =
    let s = leave_tail start in
    let cursor = min (sat_add s.cursor_visual_row n) (max_visual_row s) in
    record s {
      cursor_visual_row = cursor;
      selection = on_selection select (λ sel. set_cursor sel cursor) s.selection;
      scroll_offset =
          if leb (sat_add s.scroll_offset s.viewport_height - scroll_margin s) cursor
          then sat_add s.scroll_offset n
          else s.scroll_offset;
    }

abbrev pub page_lines : ℕ
page_lines = max transcript_page_lines 1

unfoldable pub reduce_scroll_line_up : Bool → ScrollState → ScrollState
unfolding move_up
reduce_scroll_line_up select s = move_up 1 select s

unfoldable pub reduce_scroll_line_down : Bool → ScrollState → ScrollState
unfolding move_down
reduce_scroll_line_down select s = move_down 1 select s

unfoldable pub reduce_scroll_page_up : Bool → ScrollState → ScrollState
unfolding move_up
reduce_scroll_page_up select s = move_up page_lines select s

unfoldable pub reduce_scroll_page_down : Bool → ScrollState → ScrollState
unfolding move_down
reduce_scroll_page_down select s = move_down page_lines select s

unfoldable pub scroll_to_top : Bool → ScrollState → ScrollState
scroll_to_top select start =
    let s = leave_tail start in
    record s {
      cursor_visual_row = 0;
      scroll_offset = 0;
      selection = on_selection select move_cursor_to_top s.selection;
    }

unfoldable pub scroll_transcript_to_bottom : ScrollState → ScrollState
scroll_transcript_to_bottom s = record s { following_tail = true }

unfoldable pub scroll_to_bottom : Bool → ScrollState → ScrollState
unfolding scroll_transcript_to_bottom
scroll_to_bottom select s = scroll_transcript_to_bottom (record s {
  cursor_visual_row = max_visual_row s;
  selection = on_selection select (λ sel. move_cursor_to_bottom sel (max_visual_row s)) s.selection;
})

-- `for _ in 0..n`.
unfoldable pub times : ℕ → (ScrollState → ScrollState) → ScrollState → ScrollState
times zero f s = s
times (suc n) f s = times n f (f s)

-- What the renderer sees: the cursor, whether the tail is followed, the clamped offset.
abbrev pub scroll_snapshot : ScrollState → ℕ × Bool × ℕ
scroll_snapshot s = (s.cursor_visual_row, s.following_tail, min s.scroll_offset s.max_scroll)

abbrev same_flag : Bool → Bool → Bool
same_flag true b = b
same_flag false b = not b

-- Whether two snapshots are different.
unfoldable pub has_changed : ScrollState → ScrollState → Bool
has_changed s t = not (
    nat_beq s.cursor_visual_row t.cursor_visual_row
    && same_flag s.following_tail t.following_tail
    && nat_beq (min s.scroll_offset s.max_scroll) (min t.scroll_offset t.max_scroll))

unfoldable pub scroll_wheel_up : Bool → ScrollState → ScrollState
unfolding times reduce_scroll_line_up
scroll_wheel_up select s = times wheel_lines (reduce_scroll_line_up select) s

unfoldable pub scroll_wheel_down : Bool → ScrollState → ScrollState
unfolding times reduce_scroll_line_down
scroll_wheel_down select start =
    let s = times wheel_lines (reduce_scroll_line_down select) start in
    if nat_beq s.cursor_visual_row (max_visual_row s)
    then (record s { following_tail = true })
    else s

abbrev pub other_pane : PaneFocus → PaneFocus
other_pane PaneFocus.transcript = PaneFocus.input
other_pane PaneFocus.input = PaneFocus.transcript

-- Both `focus_prev_pane` and `focus_next_pane`: there are two panes.
unfoldable pub switch_pane : ScrollState → ScrollState
switch_pane s = record s { pane_focus = other_pane s.pane_focus }

-- The new state, and whether something changed.
unfoldable pub reduce_scroll_action : ScrollState → ScrollAction → ScrollState × Bool
unfolding reduce_scroll_line_up reduce_scroll_line_down reduce_scroll_page_up
    reduce_scroll_page_down scroll_to_top scroll_to_bottom scroll_wheel_up scroll_wheel_down
    switch_pane has_changed
reduce_scroll_action s (line_up select) = (reduce_scroll_line_up select s, true)
reduce_scroll_action s (line_down select) = (reduce_scroll_line_down select s, true)
reduce_scroll_action s (page_up select) = (reduce_scroll_page_up select s, true)
reduce_scroll_action s (page_down select) = (reduce_scroll_page_down select s, true)
reduce_scroll_action s (to_top select) = (scroll_to_top select s, true)
reduce_scroll_action s (to_bottom select) = (scroll_to_bottom select s, true)
reduce_scroll_action s (wheel_up select) = let t = scroll_wheel_up select s in (t, has_changed s t)
reduce_scroll_action s (wheel_down select) =
    let t = scroll_wheel_down select s in (t, has_changed s t)
reduce_scroll_action s focus_pane_left = (switch_pane s, true)
reduce_scroll_action s focus_pane_right = (switch_pane s, true)

-- The state, and whether the selection started; the status line's text is not modelled.
