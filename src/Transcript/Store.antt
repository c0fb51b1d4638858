-- ===== src/Transcript/Store.antt =====
-- The transcript store (TranscriptStore in crates/agnt-tui/src/state/transcript_store.rs): the
-- entries, the streaming cursors and the height index. `measure` is the backend's.
pub mod Sync
pub mod Cap
pub mod Frame
use nu_agent.Prelude.{
  ℕ, zero, suc, ◌+◌, ◌-◌, min, Bool, true, false, ◌&&◌, List, [], ◌∷◌, ◌++◌, Option, none, some,
  ltb, leb, nat_beq, length, take, drop, get_elem?, set, unwrap_or, is_some, if◌then◌else◌, sat_add,
}
use nu_agent.Transcript.Entry.{Display, ToolEntry, TranscriptEntry, tool}
use nu_agent.Transcript.Planner.{FramePlan, PlannedEntry, trailing_gap_of}
use nu_agent.Transcript.Index.{
  HeightEntry, EntryMetrics, HeightIndex, empty_index, derive, entry_metrics, rebuild,
  visible_window,
}

abbrev pub max_transcript_entries : ℕ
max_transcript_entries = 2000

pub record TranscriptStore : Type 0 where
  pub entries : List TranscriptEntry
  pub height_index : HeightIndex
  pub height_index_width : Option ℕ
  pub assistant_stream_start : Option ℕ
  pub summary_stream_start : Option ℕ
  pub evicted_total : ℕ

abbrev pub empty_store : TranscriptStore
empty_store = record {
  entries = [];
  height_index = empty_index;
  height_index_width = none;
  assistant_stream_start = none;
  summary_stream_start = none;
  evicted_total = 0;
}

-- A cursor after the oldest entries went.
unfoldable pub shift_cursor : ℕ → Option ℕ → Option ℕ
shift_cursor evicted none = none
shift_cursor evicted (some n) = if leb evicted n then some (n - evicted) else none

unfoldable pub shift_indices_after_eviction : ℕ → TranscriptStore → TranscriptStore
unfolding shift_cursor
shift_indices_after_eviction evicted s = if nat_beq evicted 0 then s else record s {
  assistant_stream_start = shift_cursor evicted s.assistant_stream_start;
  summary_stream_start = shift_cursor evicted s.summary_stream_start;
}

-- The metrics of the oldest entries go, where the index is kept.
unfoldable pub drain_metrics : ℕ → TranscriptStore → TranscriptStore
drain_metrics overflow s =
    if is_some s.height_index_width
    then record s {
      height_index =
          derive (drop (min overflow (length s.height_index.metrics)) s.height_index.metrics);
    }
    else s

-- The store within its cap, and how many entries went.
unfoldable pub enforce_transcript_cap : TranscriptStore → TranscriptStore × ℕ
unfolding shift_indices_after_eviction drain_metrics
enforce_transcript_cap s =
    let overflow = length s.entries - max_transcript_entries in
    if ltb 0 overflow
    then (
      drain_metrics overflow (
          shift_indices_after_eviction overflow (record s {
            entries = drop overflow s.entries;
            evicted_total = sat_add s.evicted_total overflow;
          })),
      overflow,
    )
    else (s, overflow)

abbrev last {ℓ} : {A : Type ℓ} → List A → Option A
last [] = none
last (x ∷ []) = some x
last (x ∷ y ∷ xs) = last (y ∷ xs)

-- `entries[..len]` and the cache, cut.
unfoldable pub truncate : ℕ → TranscriptStore → TranscriptStore
truncate len s =
    let cut : TranscriptStore = record s { entries = take len s.entries } in
    if is_some s.height_index_width
    then record cut { height_index = derive (take len s.height_index.metrics) }
    else cut

-- `clear` leaves the cursors and the count of evicted entries.
unfoldable pub clear : TranscriptStore → TranscriptStore
clear s = record s { entries = []; height_index = empty_index; height_index_width = none }

unfoldable pub invalidate_height_index : TranscriptStore → TranscriptStore
invalidate_height_index s = record s { height_index_width = none }

abbrev same_width : Option ℕ → ℕ → Bool
same_width none width = false
same_width (some w) width = nat_beq w width

unfoldable pub height_index_valid_for : ℕ → TranscriptStore → Bool
height_index_valid_for width s =
    same_width s.height_index_width width
    && nat_beq (length s.height_index.entries) (length s.entries)

unfoldable pub start_row_of : HeightIndex → ℕ → ℕ
start_row_of h index = unwrap_or (get_elem? h.starts index) 0

-- The planned entry at an index, from the cached measurements.
unfoldable pub planned_at : ℕ → ℕ → ℕ → HeightEntry → EntryMetrics → PlannedEntry
planned_at width index start height m = record {
  index = index;
  family = m.family;
  gap_before = height.gap;
  rect = record {
    row = start + height.gap;
    width = width;
    rows = height.rows - height.gap;
    content_offset = height.padding_top;
  };
}

-- The planned entry goes in front of those behind it; the loop breaks where a measurement is missing.
abbrev pub planned_cell :
    ℕ → ℕ → ℕ → Option HeightEntry → Option EntryMetrics → List PlannedEntry → List PlannedEntry
planned_cell width index start none m rest = []
planned_cell width index start (some height) none rest = []
planned_cell width index start (some height) (some m) rest =
    planned_at width index start height m ∷ rest

-- The loop of `frame_plan`, over so many indices from one on.
unfoldable pub planned_range : ℕ → HeightIndex → ℕ → ℕ → List PlannedEntry
unfolding planned_at start_row_of
planned_range width h zero index = []
planned_range width h (suc count) index =
    planned_cell width index (start_row_of h index) (get_elem? h.entries index)
      (get_elem? h.metrics index) (planned_range width h count (suc index))

abbrev last_gap : Option EntryMetrics → ℕ
last_gap none = 0
last_gap (some m) = trailing_gap_of m.family

unfoldable pub frame_plan : ℕ → ℕ → ℕ → TranscriptStore → FramePlan
unfolding planned_range
frame_plan first past width s =
    let end = min past (length s.entries) in
    let start = min first end in
    record {
      entries = planned_range width s.height_index (end - start) start;
      trailing_gap =
          if nat_beq end (length s.entries) then last_gap (last s.height_index.metrics) else 0;
      total_rows = s.height_index.total_rows;
    }

module _ (measure : TranscriptEntry → ℕ → ℕ) where
  -- The metrics of the entry just pushed, at the indexed width.
  abbrev cached_last : Option ℕ → Option TranscriptEntry → TranscriptStore → TranscriptStore
  cached_last none entry s = s
  cached_last (some width) none s = s
  cached_last (some width) (some entry) s = record s {
    height_index = derive (s.height_index.metrics ++ entry_metrics measure width entry ∷ []);
  }

  unfoldable pub cache_pushed_entry : TranscriptStore → TranscriptStore
  cache_pushed_entry s = cached_last s.height_index_width (last s.entries) s

  unfoldable pub push_entry : TranscriptEntry → TranscriptStore → TranscriptStore × ℕ
  unfolding cache_pushed_entry enforce_transcript_cap
  push_entry entry s =
      enforce_transcript_cap (cache_pushed_entry (record s { entries = s.entries ++ entry ∷ [] }))

  abbrev remeasured : ℕ → Option ℕ → Option TranscriptEntry → TranscriptStore → TranscriptStore
  remeasured index none entry s = s
  remeasured index (some width) none s = s
  remeasured index (some width) (some entry) s =
      if ltb index (length s.height_index.metrics)
      then record s {
        height_index =
            derive (set s.height_index.metrics index (entry_metrics measure width entry));
      }
      else s

  unfoldable pub remeasure_entry_at : ℕ → TranscriptStore → TranscriptStore
  remeasure_entry_at index s = remeasured index s.height_index_width (get_elem? s.entries index) s

  -- A change of the tool entry at an index, which is measured again.
  unfoldable pub change_tool :
      ℕ
      → (ToolEntry → ToolEntry)
      → Option TranscriptEntry
      → TranscriptStore
      → TranscriptStore × Bool
  unfolding remeasure_entry_at
  change_tool index change (some (tool t)) s = (
    remeasure_entry_at index (record s { entries = set s.entries index (tool (change t)) }),
    true,
  )
  change_tool index change _ s = (s, false)

  unfoldable pub set_tool_preview_at : ℕ → Display → TranscriptStore → TranscriptStore × Bool
  unfolding change_tool
  set_tool_preview_at index preview s =
      change_tool index (λ t. record t { preview = some preview }) (get_elem? s.entries index) s

  unfoldable pub set_tool_result_at : ℕ → Display → TranscriptStore → TranscriptStore × Bool
  unfolding change_tool
  set_tool_result_at index result s =
      change_tool index (λ t. record t { result = some result }) (get_elem? s.entries index) s

  unfoldable pub rebuild_height_index : ℕ → TranscriptStore → TranscriptStore
  rebuild_height_index width s = record s {
    height_index = rebuild measure s.entries width;
    height_index_width = some width;
  }
