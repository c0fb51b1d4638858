-- ===== src/Examples/Shown.antt =====
-- The theorems on the transcript at a small store.
use nu_agent.Prelude.{ℕ, ◌≤◌, ◌<◌, refl, List, [], ◌∷◌, none, some, arith}
use nu_agent.Transcript.Entry.{
  MessageRole, ToolKind, ItemStatus, ContentKind, Display, TranscriptEntry, message, tool,
}
use nu_agent.Transcript.Planner.{EntryFamily, gap_between, base_gap, plan}
use nu_agent.Transcript.Index.{
  EntryMetrics, derive, derive_from, height_of, visible_window, rebuild,
}
use nu_agent.Transcript.Index.Window.{visible_window-covers}
use nu_agent.Transcript.Store.{TranscriptStore, empty_store, push_entry, frame_plan}
use nu_agent.Transcript.Store.Sync.{
  StoreOp, push, set_result, measure_all, store_run, IsInSync, store_run-IsInSync,
}
use nu_agent.Transcript.Store.Cap.{Pushed, push_entry-Pushed}
use nu_agent.Transcript.Store.Frame.{IsSlice, frame_plan-IsSlice}

-- A backend that measures two rows for every entry.
abbrev two_rows : TranscriptEntry → ℕ → ℕ
two_rows e width = 2

abbrev question : TranscriptEntry
question = message (record {
  role = MessageRole.user;
  markdown = "hi";
  timestamp_millis = none;
  model = none;
  agent = none;
})

abbrev a_diff : Display
a_diff = record {
  title = none;
  sections =
      record { label = none; kind = ContentKind.diff "a" "b"; content = ""; stats = none } ∷ [];
}

abbrev an_edit : TranscriptEntry
an_edit = tool (record {
  kind = ToolKind.edit;
  call = record {
    id = "1";
    name = "edit";
    source = "builtin";
    arguments = "{}";
    call_line = record { summary = "edit" };
  };
  preview = none;
  result = none;
  status = ItemStatus.in_progress;
})

abbrev an_hour_of_work : List StoreOp
an_hour_of_work =
    push question ∷ measure_all 80 ∷ push an_edit ∷ set_result 1 a_diff ∷ push question ∷ []

store_run-IsInSync_example : IsInSync two_rows (store_run two_rows empty_store an_hour_of_work)
store_run-IsInSync_example = store_run-IsInSync two_rows empty_store an_hour_of_work tt

push_entry-Pushed_example :
    Pushed question empty_store
      (push_entry two_rows question empty_store).0
      (push_entry two_rows question empty_store).1
push_entry-Pushed_example = push_entry-Pushed two_rows question empty_store

abbrev two_entries : List TranscriptEntry
two_entries = question ∷ an_edit ∷ []

abbrev measured_store : TranscriptStore
measured_store = record empty_store {
  entries = two_entries;
  height_index = rebuild two_rows two_entries 80;
  height_index_width = some 80;
}

frame_plan-IsSlice_example :
    IsSlice 1 2 2 (plan two_rows two_entries 80) (frame_plan 1 2 80 measured_store)
frame_plan-IsSlice_example =
    frame_plan-IsSlice two_rows 1 2 80 measured_store (omega arith) refl refl

abbrev talk : EntryMetrics
talk = record { content_rows = 2; family = EntryFamily.user; padding = (0, 0) }

-- Three messages of two rows each, with two rows between them.
abbrev three_messages : List EntryMetrics
three_messages = talk ∷ talk ∷ talk ∷ []

visible_window-covers_example :
    ((visible_window (derive three_messages) 3 4).0 ≤ 1)
    × (1 < (visible_window (derive three_messages) 3 4).1)
unfolding derive derive_from height_of gap_between base_gap
visible_window-covers_example =
    visible_window-covers three_messages 3 4 1 4 (omega arith)
      (2, record { gap = 2; rows = 4; padding_top = 0 }, refl, refl, omega arith, omega arith)
      (omega arith) (omega arith)
