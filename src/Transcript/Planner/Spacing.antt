-- ===== src/Transcript/Planner/Spacing.antt =====
-- The blank rows between two neighbours.
use nu_agent.Prelude.{ℕ, ◌+◌, ◌≤◌, max, ◌≡◌, arith, usize_max}
use nu_agent.Transcript.Planner.{EntryFamily, base_gap, gap_between}

-- A neighbouring pair is spaced by its gap and its own paddings: together the greater of the
-- pair's base gap and the paddings, while the paddings are within a machine word. The base gap
-- alone is not always the total.
gap_between-eq-max :
    (prev incoming : EntryFamily) (prev_bottom next_top : ℕ)
    → prev_bottom + next_top ≤ usize_max
    → gap_between prev incoming prev_bottom next_top + prev_bottom + next_top
      ≡ max (base_gap prev incoming) (prev_bottom + next_top)
unfolding gap_between
gap_between-eq-max prev incoming b t h = omega arith
