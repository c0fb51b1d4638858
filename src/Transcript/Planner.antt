-- ===== src/Transcript/Planner.antt =====
-- The layout planner (crates/agnt-render/src/planner.rs): the rows of a frame for entries, from the
-- rows that a backend measures for each. `measure` is the backend's.
pub mod Spacing
use nu_agent.Prelude.{
  ℕ, zero, suc, ◌+◌, ◌-◌, max, Bool, true, false, List, [], ◌∷◌, Option, none, some, nat_beq,
  length, if◌then◌else◌, sat_add,
}
use nu_agent.Transcript.Entry.{
  MessageRole, MessageEntry, TranscriptEntry, message, tool, task, notice, banner, padding,
}

pub data EntryFamily : Type 0 where
  user assistant tool_call task_line notice_line banner_text : EntryFamily

abbrev of_role : MessageRole → EntryFamily
of_role MessageRole.user = EntryFamily.user
of_role MessageRole.assistant = EntryFamily.assistant

unfoldable pub family_of : TranscriptEntry → EntryFamily
family_of (message m) = of_role m.role
family_of (tool _) = EntryFamily.tool_call
family_of (task _) = EntryFamily.task_line
family_of (notice _) = EntryFamily.notice_line
family_of (banner _) = EntryFamily.banner_text

-- `RowRect` with its content offset.
pub record RowRect : Type 0 where
  pub row : ℕ
  pub width : ℕ
  pub rows : ℕ
  pub content_offset : ℕ

pub record PlannedEntry : Type 0 where
  pub index : ℕ
  pub family : EntryFamily
  pub gap_before : ℕ
  pub rect : RowRect

pub record FramePlan : Type 0 where
  pub entries : List PlannedEntry
  pub trailing_gap : ℕ
  pub total_rows : ℕ

unfoldable pub base_gap : EntryFamily → EntryFamily → ℕ
base_gap EntryFamily.tool_call EntryFamily.tool_call = 0
base_gap EntryFamily.tool_call EntryFamily.assistant = 1
base_gap EntryFamily.assistant EntryFamily.tool_call = 1
base_gap _ _ = 2

unfoldable pub gap_between : EntryFamily → EntryFamily → ℕ → ℕ → ℕ
gap_between prev incoming prev_bottom next_top =
    base_gap prev incoming - sat_add prev_bottom next_top

unfoldable pub trailing_gap_of : EntryFamily → ℕ
trailing_gap_of EntryFamily.user = 1
trailing_gap_of _ = 0

-- What a walk over the entries remembers of the one before: its family and its padding below.
abbrev pub Prev : Type 0
Prev = Option (EntryFamily × ℕ)

-- The first entry keeps no padding above.
abbrev pub top_padding : Prev → ℕ → ℕ
top_padding none top = 0
top_padding (some _) top = top

-- The last entry keeps no padding below.
abbrev pub bottom_padding : ℕ → ℕ → ℕ → ℕ
bottom_padding index last_index bottom = if nat_beq index last_index then 0 else bottom

abbrev pub gap_before : Prev → EntryFamily → ℕ → ℕ
gap_before none family top = 0
gap_before (some (prev_family, prev_bottom)) family top =
    gap_between prev_family family prev_bottom top

abbrev pub trailing : Prev → ℕ
trailing none = 0
trailing (some (family, _)) = trailing_gap_of family

module _ (measure : TranscriptEntry → ℕ → ℕ) (width last_index : ℕ) where
  -- The rows that an entry takes behind its gap.
  abbrev pub rect_rows : ℕ → Prev → TranscriptEntry → ℕ
  rect_rows index prev entry =
      let (top, bottom) = padding entry in
      measure entry width + top_padding prev top + bottom_padding index last_index bottom

  abbrev pub entry_gap : Prev → TranscriptEntry → ℕ
  entry_gap prev entry = gap_before prev (family_of entry) (top_padding prev (padding entry).0)

  -- What the loop of `plan` pushes for an entry.
  unfoldable pub planned_entry : ℕ → ℕ → Prev → TranscriptEntry → PlannedEntry
  planned_entry index row prev entry = record {
    index = index;
    family = family_of entry;
    gap_before = entry_gap prev entry;
    rect = record {
      row = row + entry_gap prev entry;
      width = width;
      rows = rect_rows index prev entry;
      content_offset = top_padding prev (padding entry).0;
    };
  }

  abbrev pub prev_of : ℕ → TranscriptEntry → Prev
  prev_of index entry = some (family_of entry, bottom_padding index last_index (padding entry).1)

  -- The loop of `plan`, from an index, a row and the entry before: the planned entries, the row
  -- behind them, and the last entry.
  unfoldable pub plan_from : ℕ → ℕ → Prev → List TranscriptEntry → List PlannedEntry × ℕ × Prev
  unfolding planned_entry
  plan_from index row prev [] = ([], row, prev)
  plan_from index row prev (entry ∷ entries) =
      let rest =
        plan_from (suc index) (row + entry_gap prev entry + rect_rows index prev entry)
          (prev_of index entry) entries in
      (planned_entry index row prev entry ∷ rest.0, rest.1, rest.2)

unfoldable pub plan : (TranscriptEntry → ℕ → ℕ) → List TranscriptEntry → ℕ → FramePlan
unfolding plan_from
plan measure entries width =
    let (planned, row, prev) =
      plan_from measure (max width 1) (length entries - 1) 0 0 none entries in
    record { entries = planned; trailing_gap = trailing prev; total_rows = row + trailing prev }
