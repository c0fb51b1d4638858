-- ===== src/Transcript/Store/Sync.antt =====
-- The height index, kept up entry by entry, is the one that measuring every entry afresh gives.
use nu_agent.Prelude.{
  ℕ, ◌-◌, ◌≤◌, ◌<◌, min, true, List, [], ◌∷◌, ◌++◌, Option, none, some, ◌≡◌, refl, sym, ap, ◌∙◌,
  inl, inr, arith, ltb, length, take, drop, get_elem?, set, Bool-cases, nat_beq, sat_add, lt→ltb,
  lt_of_get_elem?, get_elem?-set_self,
}
use nu_agent.Transcript.Entry.{
  Display, ToolEntry, TranscriptEntry, message, tool, task, notice, banner,
}
use nu_agent.Transcript.Index.{
  EntryMetrics, HeightIndex, derive, entry_metrics, all_metrics, rebuild,
}
use nu_agent.Transcript.Index.Metrics.{
  all_metrics-append_one, all_metrics-drop, all_metrics-take, all_metrics-set, length-all_metrics,
}
use nu_agent.Transcript.Store.{
  TranscriptStore, shift_cursor, max_transcript_entries, last, cached_last, remeasured,
  shift_indices_after_eviction, drain_metrics, enforce_transcript_cap, truncate, clear,
  invalidate_height_index, cache_pushed_entry, push_entry, remeasure_entry_at, change_tool,
  set_tool_preview_at, set_tool_result_at, rebuild_height_index,
}

-- What the store's callers do to it.
pub data StoreOp : Type 0 where
  push : TranscriptEntry → StoreOp
  set_preview : ℕ → Display → StoreOp
  set_result : ℕ → Display → StoreOp
  cut : ℕ → StoreOp
  reset : StoreOp
  resize : StoreOp
  measure_all : ℕ → StoreOp
  point_assistant : Option ℕ → StoreOp
  point_summary : Option ℕ → StoreOp

abbrev metrics-derive : (ms : List EntryMetrics) → (derive ms).metrics ≡ ms
unfolding derive
metrics-derive ms = refl

last-append_one {ℓ} : {A : Type ℓ} (xs : List A) (x : A) → last (xs ++ x ∷ []) ≡ some x
last-append_one [] x = refl
last-append_one (y ∷ []) x = refl
last-append_one (y ∷ z ∷ xs) x = last-append_one (z ∷ xs) x

module _ (measure : TranscriptEntry → ℕ → ℕ) where
  unfoldable pub store_step : TranscriptStore → StoreOp → TranscriptStore
  unfolding push_entry set_tool_preview_at set_tool_result_at rebuild_height_index truncate clear
      invalidate_height_index
  store_step s (push e) = (push_entry measure e s).0
  store_step s (set_preview i d) = (set_tool_preview_at measure i d s).0
  store_step s (set_result i d) = (set_tool_result_at measure i d s).0
  store_step s (cut n) = truncate n s
  store_step s reset = clear s
  store_step s resize = invalidate_height_index s
  store_step s (measure_all w) = rebuild_height_index measure w s
  store_step s (point_assistant c) = record s { assistant_stream_start = c }
  store_step s (point_summary c) = record s { summary_stream_start = c }

  unfoldable pub store_run : TranscriptStore → List StoreOp → TranscriptStore
  unfolding store_step
  store_run s [] = s
  store_run s (op ∷ ops) = store_run (store_step s op) ops

  abbrev pub MatchesAt : Option ℕ → HeightIndex → List TranscriptEntry → Type 0
  MatchesAt none h entries = Unit
  MatchesAt (some w) h entries = h ≡ rebuild measure entries w

  -- While the index has a width, it is the one built anew from the entries at that width.
  abbrev pub IsInSync : TranscriptStore → Type 0
  IsInSync s = MatchesAt s.height_index_width s.height_index s.entries

  -- The metrics of an index in step are those of the entries.
  metrics_of :
      (w : ℕ) (h : HeightIndex) (es : List TranscriptEntry)
      → h ≡ rebuild measure es w
      → h.metrics ≡ all_metrics measure w es
  unfolding rebuild
  metrics_of w h es e =
      ap (λ (x : HeightIndex). x.metrics) e ∙ metrics-derive (all_metrics measure w es)

  -- Each operation at an index without a width, and at one with a width.
  truncate-matches :
      (n : ℕ) (s : TranscriptStore) (o : Option ℕ)
      → MatchesAt o s.height_index s.entries
      → IsInSync (truncate n (record s { height_index_width = o }))
  unfolding truncate rebuild
  truncate-matches n s none h = tt
  truncate-matches n s (some w) h =
      ap (λ ms. derive (take n ms)) (metrics_of w s.height_index s.entries h)
      ∙ ap derive (sym (all_metrics-take measure w n s.entries))

  cache-matches :
      (e : TranscriptEntry) (s : TranscriptStore) (o : Option ℕ)
      → MatchesAt o s.height_index s.entries
      → IsInSync (
          cached_last measure o
            (some e)
            (record s { entries = s.entries ++ e ∷ []; height_index_width = o }))
  unfolding rebuild
  cache-matches e s none h = tt
  cache-matches e s (some w) h =
      ap (λ ms. derive (ms ++ entry_metrics measure w e ∷ []))
        (metrics_of w s.height_index s.entries h)
      ∙ ap derive (sym (all_metrics-append_one measure w s.entries e))

  cache_pushed_entry-IsInSync :
      (e : TranscriptEntry) (s : TranscriptStore)
      → IsInSync s
      → IsInSync (cache_pushed_entry measure (record s { entries = s.entries ++ e ∷ [] }))
  unfolding cache_pushed_entry
  cache_pushed_entry-IsInSync e s h =
      rw (last-append_one s.entries e) (cache-matches e s s.height_index_width h)

  drain-matches :
      (n : ℕ) (s : TranscriptStore) (o : Option ℕ)
      → n ≤ length s.entries
      → MatchesAt o s.height_index s.entries
      → IsInSync (drain_metrics n (record s { entries = drop n s.entries; height_index_width = o }))
  unfolding drain_metrics rebuild
  drain-matches n s none l h = tt
  drain-matches n s (some w) l h =
      let e = metrics_of w s.height_index s.entries h in
      let m : min n (length s.height_index.metrics) ≡ n =
        rw e (omega (arith, length-all_metrics measure w s.entries)) in
      rw m
        (ap (λ ms. derive (drop n ms)) e ∙ ap derive (sym (all_metrics-drop measure w n s.entries)))

  enforce_transcript_cap-IsInSync :
      (s : TranscriptStore) → IsInSync s → IsInSync (enforce_transcript_cap s).0
  unfolding enforce_transcript_cap shift_indices_after_eviction
  enforce_transcript_cap-IsInSync s h =
      let overflow = length s.entries - max_transcript_entries in
      let evicted : TranscriptStore = record s {
        evicted_total = sat_add s.evicted_total overflow;
      } in
      elim (Bool-cases (ltb 0 overflow)) [
        | inr within ↦ rw within h
        | inl over ↦ rw over (elim (Bool-cases (nat_beq overflow 0)) [
          | inl none_over ↦
              rw none_over (drain-matches overflow evicted s.height_index_width (omega arith) h)
          | inr some_over ↦ rw some_over (
              drain-matches overflow
                (record evicted {
                  assistant_stream_start = shift_cursor overflow s.assistant_stream_start;
                  summary_stream_start = shift_cursor overflow s.summary_stream_start;
                })
                s.height_index_width (omega arith) h)
        ])
      ]

  push_entry-IsInSync :
      (e : TranscriptEntry) (s : TranscriptStore) → IsInSync s → IsInSync (push_entry measure e s).0
  unfolding push_entry
  push_entry-IsInSync e s h = enforce_transcript_cap-IsInSync _ (cache_pushed_entry-IsInSync e s h)

  remeasure-matches :
      (i : ℕ) (s : TranscriptStore) (e : TranscriptEntry) (o : Option ℕ)
      → i < length s.entries
      → MatchesAt o s.height_index s.entries
      → IsInSync (
          remeasured measure i o
            (some e)
            (record s { entries = set s.entries i e; height_index_width = o }))
  unfolding rebuild
  remeasure-matches i s e none l h = tt
  remeasure-matches i s e (some w) l h =
      let m = metrics_of w s.height_index s.entries h in
      let inside : ltb i (length s.height_index.metrics) ≡ true =
        rw m (lt→ltb _ _ (omega (arith, length-all_metrics measure w s.entries))) in
      rw inside (
        ap (λ ms. derive (set ms i (entry_metrics measure w e))) m
        ∙ ap derive (sym (all_metrics-set measure w i s.entries e)))

  change_tool-IsInSync :
      (i : ℕ) (change : ToolEntry → ToolEntry) (s : TranscriptStore)
      (found : Option TranscriptEntry)
      → get_elem? s.entries i ≡ found
      → IsInSync s
      → IsInSync (change_tool measure i change found s).0
  unfolding change_tool remeasure_entry_at
  change_tool-IsInSync i change s none p h = h
  change_tool-IsInSync i change s (some (message _)) p h = h
  change_tool-IsInSync i change s (some (task _)) p h = h
  change_tool-IsInSync i change s (some (notice _)) p h = h
  change_tool-IsInSync i change s (some (banner _)) p h = h
  change_tool-IsInSync i change s (some (tool t)) p h =
      let l = lt_of_get_elem? s.entries i (tool t) p in
      rw (get_elem?-set_self s.entries i (tool (change t)) l)
        (remeasure-matches i s (tool (change t)) s.height_index_width l h)

  -- Every operation keeps the index in step: pushes and evictions, displays that are put into an
  -- entry, cuts, clearing, a change of the width, a full measurement, and moves of the cursors.
  store_step-IsInSync :
      (s : TranscriptStore) (op : StoreOp) → IsInSync s → IsInSync (store_step s op)
  unfolding store_step set_tool_preview_at set_tool_result_at rebuild_height_index clear
      invalidate_height_index
  store_step-IsInSync s (push e) h = push_entry-IsInSync e s h
  store_step-IsInSync s (set_preview i d) h = change_tool-IsInSync i _ s _ refl h
  store_step-IsInSync s (set_result i d) h = change_tool-IsInSync i _ s _ refl h
  store_step-IsInSync s (cut n) h = truncate-matches n s s.height_index_width h
  store_step-IsInSync s reset h = tt
  store_step-IsInSync s resize h = tt
  store_step-IsInSync s (measure_all w) h = refl
  store_step-IsInSync s (point_assistant c) h = h
  store_step-IsInSync s (point_summary c) h = h

  -- From a store whose index is in step, as the empty store's is, any operations lead to one whose
  -- index is: where it has a width, it is the one that measuring every entry anew at that width
  -- gives, although a push, an eviction and a display put into an entry measure only what they
  -- touch.
  pub store_run-IsInSync :
      (s : TranscriptStore) (ops : List StoreOp) → IsInSync s → IsInSync (store_run s ops)
  unfolding store_run
  store_run-IsInSync s [] h = h
  store_run-IsInSync s (op ∷ ops) h =
      store_run-IsInSync (store_step s op) ops (store_step-IsInSync s op h)
