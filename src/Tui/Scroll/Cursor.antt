-- ===== src/Tui/Scroll/Cursor.antt =====
-- Where the cursor and the selection can be.
use nu_agent.Prelude.{ℕ, zero, suc, ◌≤◌, Bool, true, false, Option, none, some, arith}
use nu_agent.Tui.Selection.{TranscriptSelection, set_cursor}
use nu_agent.Tui.Scroll.{
  ScrollState, ScrollAction, line_up, line_down, page_up, page_down, to_top, to_bottom, wheel_up,
  wheel_down, focus_pane_left, focus_pane_right, leave_tail, on_selection, max_visual_row, move_up,
  move_down, scroll_to_top, scroll_to_bottom, times, scroll_wheel_up, scroll_wheel_down,
  switch_pane, reduce_scroll_action, page_lines, reduce_scroll_line_up, reduce_scroll_line_down,
  reduce_scroll_page_up, reduce_scroll_page_down, scroll_transcript_to_bottom,
}

abbrev SelectionFits : ℕ → Option TranscriptSelection → Type 0
SelectionFits n none = Unit
SelectionFits n (some sel) = (sel.anchor ≤ n) × (sel.cursor ≤ n)

-- The cursor and both ends of the selection are rows of the transcript.
abbrev pub IsInside : ScrollState → Type 0
IsInside s = (s.cursor_visual_row ≤ max_visual_row s) × SelectionFits (max_visual_row s) s.selection

on_selection-SelectionFits :
    (select : Bool) (n row : ℕ) (sel : Option TranscriptSelection)
    → row ≤ n
    → SelectionFits n sel
    → SelectionFits n (on_selection select (λ x. set_cursor x row) sel)
on_selection-SelectionFits true n row (some sel) l h = (h.0, l)
on_selection-SelectionFits true n row none l h = tt
on_selection-SelectionFits false n row sel l h = h

leave_tail-IsInside : (s : ScrollState) → IsInside s → IsInside (leave_tail s)
leave_tail-IsInside s h = ground arith

move_up-IsInside :
    (n : ℕ) (select : Bool) (s : ScrollState) → IsInside s → IsInside (move_up n select s)
unfolding move_up
move_up-IsInside n select s h =
    let (c, f) = leave_tail-IsInside s h in
    (omega arith, on_selection-SelectionFits select _ _ (leave_tail s).selection (omega arith) f)

move_down-IsInside :
    (n : ℕ) (select : Bool) (s : ScrollState) → IsInside s → IsInside (move_down n select s)
unfolding move_down
move_down-IsInside n select s h =
    let (c, f) = leave_tail-IsInside s h in
    (omega arith, on_selection-SelectionFits select _ _ (leave_tail s).selection (omega arith) f)

times-IsInside :
    (f : ScrollState → ScrollState)
    → ((s : ScrollState) → IsInside s → IsInside (f s))
    → (n : ℕ) (s : ScrollState) → IsInside s
    → IsInside (times n f s)
unfolding times
times-IsInside f k zero s h = h
times-IsInside f k (suc n) s h = times-IsInside f k n (f s) (k s h)

scroll_to_top-IsInside :
    (select : Bool) (s : ScrollState) → IsInside s → IsInside (scroll_to_top select s)
unfolding scroll_to_top
scroll_to_top-IsInside select s h =
    let (c, f) = leave_tail-IsInside s h in
    (omega arith, on_selection-SelectionFits select _ 0 (leave_tail s).selection (omega arith) f)

scroll_to_bottom-IsInside :
    (select : Bool) (s : ScrollState) → IsInside s → IsInside (scroll_to_bottom select s)
unfolding scroll_to_bottom scroll_transcript_to_bottom
scroll_to_bottom-IsInside select s h =
    (omega arith, on_selection-SelectionFits select _ _ s.selection (omega arith) h.1)

scroll_wheel_down-IsInside :
    (select : Bool) (s : ScrollState) → IsInside s → IsInside (scroll_wheel_down select s)
unfolding scroll_wheel_down reduce_scroll_line_down
scroll_wheel_down-IsInside select s h =
    let k = times-IsInside (reduce_scroll_line_down select) (move_down-IsInside 1 select) 3 s h in
    ground (arith, k)

-- When the cursor and both ends of the selection are rows of the transcript, or zero when it has
-- no rows, they stay so, whatever the action.
pub reduce_scroll_action-IsInside :
    (s : ScrollState) (action : ScrollAction)
    → IsInside s
    → IsInside (reduce_scroll_action s action).0
unfolding reduce_scroll_action scroll_wheel_up switch_pane reduce_scroll_line_up
    reduce_scroll_line_down reduce_scroll_page_up reduce_scroll_page_down
reduce_scroll_action-IsInside s (line_up select) h = move_up-IsInside 1 select s h
reduce_scroll_action-IsInside s (line_down select) h = move_down-IsInside 1 select s h
reduce_scroll_action-IsInside s (page_up select) h = move_up-IsInside page_lines select s h
reduce_scroll_action-IsInside s (page_down select) h = move_down-IsInside page_lines select s h
reduce_scroll_action-IsInside s (to_top select) h = scroll_to_top-IsInside select s h
reduce_scroll_action-IsInside s (to_bottom select) h = scroll_to_bottom-IsInside select s h
reduce_scroll_action-IsInside s (wheel_up select) h =
    times-IsInside (reduce_scroll_line_up select) (move_up-IsInside 1 select) 3 s h
reduce_scroll_action-IsInside s (wheel_down select) h = scroll_wheel_down-IsInside select s h
reduce_scroll_action-IsInside s focus_pane_left h = h
reduce_scroll_action-IsInside s focus_pane_right h = h
