-- ===== src/Tui/Scroll/Frame.antt =====
-- The visual mode, the metrics of a frame, and the helpers of other parts of the interface
-- (crates/agnt-tui/src/state/scroll.rs).
use nu_agent.Prelude.{sat_add, ℕ, ◌-◌, max, Bool, true, false, Option, none, some, if◌then◌else◌}
use nu_agent.Tui.Selection.{new_selection, set_cursor, normalized_range}
use nu_agent.Tui.Scroll.{PaneFocus, ScrollState, on_selection}

unfoldable pub enter_visual_mode : ScrollState → ScrollState × Bool
enter_visual_mode s = elim s.pane_focus [
  | PaneFocus.input ↦ (s, false)
  | PaneFocus.transcript ↦ (record s { selection = some (new_selection s.cursor_visual_row) }, true)
]

unfoldable pub yank_selection : ScrollState → ScrollState × Option (ℕ × ℕ)
yank_selection s = elim s.selection [
  | none ↦ (s, none)
  | some sel ↦ (record s { selection = none }, some (normalized_range sel))
]

-- The metrics of a frame; the second part is the greatest offset.
unfoldable pub sync_after_render : ScrollState → ℕ → ScrollState × ℕ
sync_after_render s rows =
    let most = rows - s.viewport_height in
    let t : ScrollState = record s { total_visual_rows = rows; max_scroll = most } in
    if s.following_tail
    then (
      record t {
        cursor_visual_row = rows - 1;
        selection = on_selection true (λ sel. set_cursor sel (rows - 1)) s.selection;
      },
      most,
    )
    else (t, most)

-- The helpers of other parts of the interface; the renderer cuts the offset off.
unfoldable pub scroll_transcript_line_up : ScrollState → ScrollState
scroll_transcript_line_up s = record s {
  following_tail = false;
  scroll_offset = s.scroll_offset - 1;
}

unfoldable pub scroll_transcript_line_down : ScrollState → ScrollState
scroll_transcript_line_down s = record s {
  following_tail = false;
  scroll_offset = sat_add s.scroll_offset 1;
}

unfoldable pub scroll_transcript_page_up : ℕ → ScrollState → ScrollState
scroll_transcript_page_up lines s = record s {
  following_tail = false;
  scroll_offset = s.scroll_offset - max lines 1;
}

unfoldable pub scroll_transcript_page_down : ℕ → ScrollState → ScrollState
scroll_transcript_page_down lines s = record s {
  following_tail = false;
  scroll_offset = sat_add s.scroll_offset (max lines 1);
}

unfoldable pub scroll_transcript_to_top : ScrollState → ScrollState
scroll_transcript_to_top s = record s { following_tail = false; scroll_offset = 0 }
