-- ===== src/Transcript/Store/Frame.antt =====
-- The frame plan of the store against that of the layout planner.
use nu_agent.Prelude.{
  ℕ, zero, suc, ◌+◌, ◌-◌, ◌≤◌, min, max, List, [], ◌∷◌, none, some, ◌≡◌, refl, sym, ap, ◌∙◌, ap₂,
  subst, arith, nat_beq, length, take, drop, get_elem?, unwrap_or, if◌then◌else◌,
}
use nu_agent.Transcript.Entry.{TranscriptEntry}
use nu_agent.Transcript.Planner.{
  PlannedEntry, FramePlan, Prev, trailing, rect_rows, entry_gap, planned_entry, prev_of, plan_from,
  plan,
}
use nu_agent.Transcript.Index.{
  HeightEntry, EntryMetrics, HeightIndex, Derived, height_of, derive_from, derive, entry_metrics,
  all_metrics, rebuild,
}
use nu_agent.Transcript.Store.{
  TranscriptStore, last, last_gap, planned_at, planned_cell, planned_range, start_row_of,
  frame_plan,
}
use nu_agent.Transcript.Store.Sync.{MatchesAt, IsInSync}
use nu_agent.Transcript.Index.Metrics.{length-all_metrics}

-- The loop of `frame_plan` over lists that begin at the entry with index `k`.
range_from : ℕ → ℕ → List ℕ → List HeightEntry → List EntryMetrics → ℕ → ℕ → List PlannedEntry
range_from width k starts heights metrics zero index = []
range_from width k starts heights metrics (suc count) index =
    planned_cell width (k + index) (unwrap_or (get_elem? starts index) 0) (get_elem? heights index)
      (get_elem? metrics index) (range_from width k starts heights metrics count (suc index))

planned_range-range_from :
    (width : ℕ) (h : HeightIndex) (count index : ℕ)
    → planned_range width h count index
      ≡ range_from width 0 h.starts h.entries h.metrics count index
unfolding planned_range range_from start_row_of
planned_range-range_from width h zero index = refl
planned_range-range_from width h (suc count) index =
    let e : 0 + index ≡ index = omega arith in
    rw (e, planned_range-range_from width h count (suc index))

range_from-suc :
    (width k start : ℕ) (starts : List ℕ) (height : HeightEntry) (heights : List HeightEntry)
    (m : EntryMetrics) (metrics : List EntryMetrics) (count index : ℕ)
    → range_from width k (start ∷ starts) (height ∷ heights) (m ∷ metrics) count (suc index)
      ≡ range_from width (suc k) starts heights metrics count index
unfolding range_from
range_from-suc width k start starts height heights m metrics zero index = refl
range_from-suc width k start starts height heights m metrics (suc count) index =
    let e : k + suc index ≡ suc k + index = omega arith in
    rw (e, range_from-suc width k start starts height heights m metrics count (suc index))

module _ (measure : TranscriptEntry → ℕ → ℕ) (width last_index : ℕ) where
  abbrev derived : ℕ → ℕ → Prev → List TranscriptEntry → Derived
  derived k total prev es = derive_from last_index k total prev (all_metrics measure width es)

  abbrev height : ℕ → Prev → TranscriptEntry → HeightEntry
  height k prev x = height_of k last_index prev (entry_metrics measure width x)

  planned_at-planned_entry :
      (k row total : ℕ) (prev : Prev) (x : TranscriptEntry)
      → total ≡ row
      → planned_at width (k + 0) total (height k prev x) (entry_metrics measure width x)
        ≡ planned_entry measure width last_index k row prev x
  unfolding height_of entry_metrics planned_at planned_entry
  planned_at-planned_entry k row total prev x e = ground arith

  rows_behind :
      (k row total : ℕ) (prev : Prev) (x : TranscriptEntry)
      → total ≡ row
      → total + (height k prev x).rows
        ≡ row
          + entry_gap measure width last_index prev x
          + rect_rows measure width last_index k prev x
  unfolding height_of entry_metrics
  rows_behind k row total prev x e = omega arith

  -- Both loops come to the same row, and to the same last entry.
  derive_from-plan_from :
      (k row total : ℕ) (prev : Prev) (es : List TranscriptEntry)
      → total ≡ row
      → ((derived k total prev es).total_rows
          ≡ (plan_from measure width last_index k row prev es).1)
        × ((derived k total prev es).prev ≡ (plan_from measure width last_index k row prev es).2)
  unfolding derive_from plan_from entry_metrics
  derive_from-plan_from k row total prev [] e = (e, refl)
  derive_from-plan_from k row total prev (x ∷ es) e =
      derive_from-plan_from (suc k) _ _ _ es (rows_behind k row total prev x e)

  -- The rows of the index from an entry on are those of the plan.
  range_from-plan_from :
      (k row total : ℕ) (prev : Prev) (es : List TranscriptEntry) (count index : ℕ)
      → total ≡ row
      → range_from width k
          (derived k total prev es).starts
          (derived k total prev es).entries
          (all_metrics measure width es)
          count
          index
        ≡ take count (drop index (plan_from measure width last_index k row prev es).0)
  unfolding derive_from plan_from range_from entry_metrics
  range_from-plan_from k row total prev [] zero zero e = refl
  range_from-plan_from k row total prev [] zero (suc index) e = refl
  range_from-plan_from k row total prev [] (suc count) zero e = refl
  range_from-plan_from k row total prev [] (suc count) (suc index) e = refl
  range_from-plan_from k row total prev (x ∷ es) zero zero e = refl
  range_from-plan_from k row total prev (x ∷ es) (suc count) zero e =
      ap₂ ◌∷◌ (planned_at-planned_entry k row total prev x e) (
        range_from-suc width k _ _ _ _ _ _ count 0
        ∙ range_from-plan_from (suc k) _ _ (prev_of measure width last_index k x) es count zero
            (rows_behind k row total prev x e))
  range_from-plan_from k row total prev (x ∷ es) count (suc index) e =
      range_from-suc width k _ _ _ _ _ _ count index
      ∙ range_from-plan_from (suc k) _ _ (prev_of measure width last_index k x) es count index
          (rows_behind k row total prev x e)

  -- The last entry of the walk is the last one measured.
  trailing-last_gap :
      (k row : ℕ) (prev : Prev) (x : TranscriptEntry) (es : List TranscriptEntry)
      → trailing (plan_from measure width last_index k row prev (x ∷ es)).2
        ≡ last_gap (last (all_metrics measure width (x ∷ es)))
  unfolding plan_from entry_metrics
  trailing-last_gap k row prev x [] = refl
  trailing-last_gap k row prev x (y ∷ es) =
      trailing-last_gap (suc k) _ (prev_of measure width last_index k x) y es

  last_gap-trailing :
      (es : List TranscriptEntry)
      → last_gap (last (all_metrics measure width es))
        ≡ trailing (plan_from measure width last_index 0 0 none es).2
  unfolding plan_from
  last_gap-trailing [] = refl
  last_gap-trailing (x ∷ es) = sym (trailing-last_gap 0 0 none x es)

-- The rows of a frame plan, a slice of a whole one; the gap behind the last entry belongs to the
-- plans that show it.
abbrev pub IsSlice : ℕ → ℕ → ℕ → FramePlan → FramePlan → Type 0
IsSlice first past count whole part =
    let end = min past count in
    let start = min first end in
    (part.entries ≡ take (end - start) (drop start whole.entries))
    × (part.total_rows ≡ whole.total_rows)
    × (part.trailing_gap ≡ (if nat_beq end count then whole.trailing_gap else 0))

module _ (measure : TranscriptEntry → ℕ → ℕ) where
  planned_range-rebuilt :
      (width : ℕ) (es : List TranscriptEntry) (count index : ℕ)
      → planned_range width (rebuild measure es width) count index
        ≡ take count (drop index (plan_from measure width (length es - 1) 0 0 none es).0)
  unfolding rebuild derive
  planned_range-rebuilt width es count index =
      planned_range-range_from width (derive (all_metrics measure width es)) count index
      ∙ rw (length-all_metrics measure width es)
          (range_from-plan_from measure width (length es - 1) 0 0 0 none es count index refl)

  rebuilt-IsSlice :
      (first past width : ℕ) (s : TranscriptStore)
      → 1 ≤ width
      → IsSlice first past (length s.entries) (plan measure s.entries width) (
          frame_plan first past width (record s { height_index = rebuild measure s.entries width }))
  unfolding rebuild derive frame_plan plan
  rebuilt-IsSlice first past width s l =
      let wide : max width 1 ≡ width = omega arith in
      let n = length-all_metrics measure width s.entries in
      let rows =
        derive_from-plan_from measure width (length s.entries - 1) 0 0 0 none s.entries refl in
      rw wide (
        planned_range-rebuilt width s.entries _ _,
        rw n (ap₂ ◌+◌ rows.0 (ap trailing rows.1)),
        ap (λ gap. if nat_beq (min past (length s.entries)) (length s.entries) then gap else 0)
            (last_gap-trailing measure width (length s.entries - 1) s.entries),
      )

  -- When the index is in step at a width of at least one column, the frame plan of the store for a
  -- range of its entries is that slice of what the layout planner plans for all of them: the same
  -- entries, with the same gaps and the same absolute rectangles, and the same total of rows.
  pub frame_plan-IsSlice :
      (first past width : ℕ) (s : TranscriptStore)
      → 1 ≤ width
      → s.height_index_width ≡ some width
      → IsInSync measure s
      → IsSlice first past
          (length s.entries)
          (plan measure s.entries width)
          (frame_plan first past width s)
  frame_plan-IsSlice first past width s l w h =
      let fresh : s.height_index ≡ rebuild measure s.entries width =
        subst (λ o. MatchesAt measure o s.height_index s.entries) w h in
      subst
        (λ index.
          IsSlice first past (length s.entries) (plan measure s.entries width)
            (frame_plan first past width (record s { height_index = index })))
        (sym fresh) (rebuilt-IsSlice first past width s l)
