-- ===== src/Tui/Selection.antt =====
-- The selection of transcript rows (crates/agnt-tui/src/state/selection.rs).
use nu_agent.Prelude.{ℕ, ◌+◌, ◌-◌, min, max}

pub record TranscriptSelection : Type 0 where
  pub anchor : ℕ
  pub cursor : ℕ

abbrev pub new_selection : ℕ → TranscriptSelection
new_selection current_row = record { anchor = current_row; cursor = current_row }

abbrev pub set_cursor : TranscriptSelection → ℕ → TranscriptSelection
set_cursor sel row = record sel { cursor = row }

abbrev pub move_cursor_up : TranscriptSelection → TranscriptSelection
move_cursor_up sel = record sel { cursor = sel.cursor - 1 }

-- The addition saturates at the greatest `usize`, which `min` with a row cuts off anyway.
abbrev pub move_cursor_down : TranscriptSelection → ℕ → TranscriptSelection
move_cursor_down sel max_row = record sel { cursor = min (sel.cursor + 1) max_row }

abbrev pub move_cursor_to_top : TranscriptSelection → TranscriptSelection
move_cursor_to_top sel = record sel { cursor = 0 }

abbrev pub move_cursor_to_bottom : TranscriptSelection → ℕ → TranscriptSelection
move_cursor_to_bottom sel max_row = record sel { cursor = max_row }

-- The selected rows, both ends included.
abbrev pub normalized_range : TranscriptSelection → ℕ × ℕ
normalized_range sel = (min sel.anchor sel.cursor, max sel.anchor sel.cursor)
