-- ===== src/Transcript/Index.antt =====
-- The height index of the transcript store (HeightIndex in
-- crates/agnt-tui/src/state/transcript_store.rs): the rows of each entry and where they start.
-- `partition_point` of a slice is the length of its front that passes the test; the starts are in
-- order, so that the test splits them.
pub mod Metrics
pub mod Partition
pub mod Window
use nu_agent.Prelude.{
  ℕ, zero, suc, ◌+◌, ◌-◌, Bool, List, [], ◌∷◌, Option, none, some, ltb, leb, nat_beq, length,
  if◌then◌else◌, sat_add,
}
use nu_agent.Transcript.Entry.{TranscriptEntry, padding}
use nu_agent.Transcript.Planner.{
  EntryFamily, family_of, Prev, top_padding, bottom_padding, gap_before, trailing,
}

pub record HeightEntry : Type 0 where
  pub gap : ℕ
  pub rows : ℕ
  pub padding_top : ℕ

pub record EntryMetrics : Type 0 where
  pub content_rows : ℕ
  pub family : EntryFamily
  pub padding : ℕ × ℕ

pub record HeightIndex : Type 0 where
  pub starts : List ℕ
  pub entries : List HeightEntry
  pub total_rows : ℕ
  pub metrics : List EntryMetrics

abbrev pub empty_index : HeightIndex
empty_index = record { starts = []; entries = []; total_rows = 0; metrics = [] }

-- What the loop of `derive` has pushed, the rows so far, and the last entry.
pub record Derived : Type 0 where
  pub starts : List ℕ
  pub entries : List HeightEntry
  pub total_rows : ℕ
  pub prev : Prev

unfoldable pub height_of : ℕ → ℕ → Prev → EntryMetrics → HeightEntry
height_of index last_index prev m =
    let padding_top = top_padding prev m.padding.0 in
    let separators = gap_before prev m.family padding_top in
    record {
      gap = separators;
      rows =
          separators + m.content_rows + padding_top + bottom_padding index last_index m.padding.1;
      padding_top = padding_top;
    }

unfoldable pub derive_from : ℕ → ℕ → ℕ → Prev → List EntryMetrics → Derived
derive_from last_index index total prev [] = record {
  starts = [];
  entries = [];
  total_rows = total;
  prev = prev;
}
derive_from last_index index total prev (m ∷ ms) =
    let height = height_of index last_index prev m in
    let rest =
      derive_from last_index (suc index) (total + height.rows)
        (some (m.family, bottom_padding index last_index m.padding.1)) ms in
    record {
      starts = total ∷ rest.starts;
      entries = height ∷ rest.entries;
      total_rows = rest.total_rows;
      prev = rest.prev;
    }

-- `derive`: the offsets from the cached metrics.
unfoldable pub derive : List EntryMetrics → HeightIndex
unfolding derive_from height_of
derive metrics =
    let d = derive_from (length metrics - 1) 0 0 none metrics in
    record {
      starts = d.starts;
      entries = d.entries;
      total_rows = d.total_rows + trailing d.prev;
      metrics = metrics;
    }

unfoldable pub partition_point : (ℕ → Bool) → List ℕ → ℕ
partition_point p [] = 0
partition_point p (x ∷ xs) = let rest = partition_point p xs in if p x then suc rest else 0

abbrev pub is_empty : List HeightEntry → Bool
is_empty [] = Bool.true
is_empty (_ ∷ _) = Bool.false

unfoldable pub visible_window : HeightIndex → ℕ → ℕ → ℕ × ℕ
unfolding partition_point
visible_window h offset viewport_height =
    if is_empty h.entries then (0, 0) else if nat_beq viewport_height 0 then (0, 0) else (
      partition_point (λ start. leb start offset) h.starts - 1,
      partition_point (λ start. ltb start (sat_add offset viewport_height)) h.starts,
    )

module _ (measure : TranscriptEntry → ℕ → ℕ) where
  unfoldable pub entry_metrics : ℕ → TranscriptEntry → EntryMetrics
  entry_metrics width entry = record {
    content_rows = measure entry width;
    family = family_of entry;
    padding = padding entry;
  }

  abbrev pub all_metrics : ℕ → List TranscriptEntry → List EntryMetrics
  all_metrics width [] = []
  all_metrics width (e ∷ es) = entry_metrics width e ∷ all_metrics width es

  unfoldable pub rebuild : List TranscriptEntry → ℕ → HeightIndex
  rebuild entries width = derive (all_metrics width entries)
