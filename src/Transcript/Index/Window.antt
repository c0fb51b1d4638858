-- ===== src/Transcript/Index/Window.antt =====
-- The window of visible entries: what it shows of a viewport, and what it leaves out.
use nu_agent.Prelude.{
  ℕ, zero, suc, ◌+◌, ◌-◌, ◌≤◌, ◌<◌, true, false, List, [], ◌∷◌, none, some, ◌≡◌, refl, ◌⊎◌, inl,
  inr, arith, ltb, leb, nat_beq, length, get_elem?, Option-cases, sat_add,
}
use nu_agent.Transcript.Index.{
  HeightEntry, EntryMetrics, HeightIndex, derive, partition_point, visible_window, is_empty,
}
use nu_agent.Transcript.Index.Partition.{
  partition_point-le, partition_point-splits, starts-Ascends, next_start, leb-falls, ltb-falls,
}

-- Row `r` belongs to entry `i`.
abbrev pub Shows : HeightIndex → ℕ → ℕ → Type 0
Shows h i r =
    (start : ℕ) × (height : HeightEntry) × (get_elem? h.starts i ≡ some start)
    × (get_elem? h.entries i ≡ some height)
    × (start ≤ r)
    × (r < start + height.rows)

not_empty :
    (hs : List HeightEntry) (i : ℕ) {h : HeightEntry}
    → get_elem? hs i ≡ some h
    → is_empty hs ≡ false
not_empty [] i e = cc
not_empty (h ∷ hs) i e = refl

length-le : (xs : List ℕ) (i : ℕ) → get_elem? xs i ≡ none → length xs ≤ i
length-le [] i e = omega arith
length-le (x ∷ xs) zero e = cc
length-le (x ∷ xs) (suc i) e = omega (arith, length-le xs i e)

module _ (ms : List EntryMetrics) (offset viewport : ℕ) where
  abbrev window : ℕ × ℕ
  window = visible_window (derive ms) offset viewport

  abbrev split_window : ℕ × ℕ
  split_window = (
    partition_point (λ start. leb start offset) (derive ms).starts - 1,
    partition_point (λ start. ltb start (sat_add offset viewport)) (derive ms).starts,
  )

  window-split_window : 0 < viewport → is_empty (derive ms).entries ≡ false → window ≡ split_window
  unfolding visible_window
  window-split_window v e =
      let some_rows : nat_beq viewport 0 ≡ false = ground arith in rw (e, some_rows)

  -- The two partitions at an entry that begins at a row.
  module _ (i : ℕ) {start : ℕ} (at_start : get_elem? (derive ms).starts i ≡ some start) where
    above_split :
        ((leb start offset ≡ true) × (i < partition_point (λ s. leb s offset) (derive ms).starts))
        ⊎ ((leb start offset ≡ false)
            × (partition_point (λ s. leb s offset) (derive ms).starts ≤ i))
    unfolding derive
    above_split =
        partition_point-splits (λ s. leb s offset) (leb-falls offset) 0 _ i
          (starts-Ascends (length ms - 1) 0 0 none ms) at_start

    below_split :
        ((ltb start (sat_add offset viewport) ≡ true)
          × (i < partition_point (λ s. ltb s (sat_add offset viewport)) (derive ms).starts))
        ⊎ ((ltb start (sat_add offset viewport) ≡ false)
            × (partition_point (λ s. ltb s (sat_add offset viewport)) (derive ms).starts ≤ i))
    unfolding derive
    below_split =
        partition_point-splits (λ s. ltb s (sat_add offset viewport))
          (ltb-falls (sat_add offset viewport)) 0 _ i (starts-Ascends (length ms - 1) 0 0 none ms)
          at_start

  covered_below :
      (i r : ℕ) {start : ℕ}
      → get_elem? (derive ms).starts i ≡ some start
      → start ≤ r
      → r < sat_add offset viewport
      → i < split_window.1
  covered_below i r at_start l below = elim (below_split i at_start) [
    | inl h ↦ h.1
    | inr h ↦ absurd (ground (arith, h.0))
  ]

  covered_above :
      (i r : ℕ) {start : ℕ} {height : HeightEntry}
      → get_elem? (derive ms).starts i ≡ some start
      → get_elem? (derive ms).entries i ≡ some height
      → r < start + height.rows
      → offset ≤ r
      → split_window.0 ≤ i
  unfolding derive
  covered_above i r at_start at_height l above =
      elim (Option-cases (get_elem? (derive ms).starts (suc i))) [
        | inl past ↦ omega (
          arith,
          length-le (derive ms).starts (suc i) past,
          partition_point-le (λ s. leb s offset) (derive ms).starts,
        )
        | inr (next, at_next) ↦
            let e = next_start (length ms - 1) 0 0 none ms i at_start at_height at_next in
            elim (above_split (suc i) at_next) [
              | inl h ↦ absurd (ground (arith, h.0, e))
              | inr h ↦ omega (arith, h.1)
            ]
      ]

  -- In a viewport of at least one row, every entry that shows a row of the viewport is in the
  -- window.
  pub visible_window-covers :
      (i r : ℕ)
      → 0 < viewport
      → Shows (derive ms) i r
      → offset ≤ r
      → r < sat_add offset viewport
      → (window.0 ≤ i) × (i < window.1)
  visible_window-covers i r v shown above below =
      let (start, height, at_start, at_height, from, to) = shown in
      rw (window-split_window v (not_empty (derive ms).entries i at_height))
        (covered_above i r at_start at_height to above, covered_below i r at_start from below)
