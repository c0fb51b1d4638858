-- ===== src/Authz/Glob/Loop.antt =====
-- The matching loop against the meaning of patterns.
use nu_agent.Prelude.{
  ℕ, zero, suc, ◌+◌, ◌*◌, ◌≤◌, ◌<◌, ◌≡◌, ◌≢◌, ◌↔◌, inl, inr, refl, sym, subst, true, List, [], ◌∷◌,
  Option, none, some, String, codes, nat_beq, length, arith, append-nil, Bool-cases,
}
use nu_agent.Authz.Glob.{
  star, State, Round, answer, again, go_back, round, loop, enough, glob_match_chars, glob_match,
  is_star,
}
use nu_agent.Authz.Glob.Matches.{Matches, star_absorbs}
use nu_agent.Authz.Glob.Promises.{
  Promise, Since, star_iff, star_round, lit_round, lit_head, nil-inversion, end_round, Since-lit,
}

abbrev FitsSaved : ℕ → ℕ → List ℕ → Option (List ℕ × List ℕ) → Type 0
FitsSaved n k input none = length input ≤ n
FitsSaved n k input (some (bp, bi)) = (length bp + length bi < k) × (length input ≤ length bi)

-- The saved pattern and input are bounded, and so is the input before the first star.
abbrev Fits : ℕ → ℕ → State → Type 0
Fits n k s = (length s.pat + length s.input < k) × FitsSaved n k s.input s.saved

abbrev measure_saved : ℕ → ℕ → Option (List ℕ × List ℕ) → ℕ
measure_saved n k none = (n + 1) * k
measure_saved n k (some (bp, bi)) = length bi * k

-- It falls in every round.
abbrev measure : ℕ → ℕ → State → ℕ
measure n k s = measure_saved n k s.saved + (length s.pat + length s.input)

-- What a round does to the promise: an answer is the promise, a next state promises the same, in
-- a state that fits and with a smaller measure.
abbrev Sound : ℕ → ℕ → State → Round → Type 0
Sound n k s (answer b) = (b ≡ true) ↔ Promise s
Sound n k s (again t) =
    (Promise t ↔ Promise s)
    × Since t.pat t.input t.saved
    × Fits n k t
    × (measure n k t < measure n k s)

module _ (n k : ℕ) where
  back_round :
      (pat input : List ℕ) (saved : Option (List ℕ × List ℕ))
      → ¬ Matches pat input
      → 0 < length input
      → Fits n k (record { pat = pat; input = input; saved = saved })
      → Sound n k (record { pat = pat; input = input; saved = saved }) (go_back saved)
  unfolding go_back
  back_round pat input none miss l f =
      (λ h. cc, elim [ inl m ↦ absurd (miss m) | inr l' ↦ elim l' [ ] ])
  back_round pat input (some (bp, [])) miss l f =
      (λ h. cc, elim [ inl m ↦ absurd (miss m) | inr l' ↦ elim l' [ ] ])
  back_round pat input (some (bp, c ∷ t)) miss l f = (
    (
      λ m. inr ((star_iff star bp t refl).0 m),
      elim [ inl m ↦ absurd (miss m) | inr m ↦ (star_iff star bp t refl).1 m ],
    ),
    ([], tt, refl, refl),
    omega arith,
    omega arith,
  )

  star-Fits :
      (p : ℕ) (pat input : List ℕ) (saved : Option (List ℕ × List ℕ))
      → Since (p ∷ pat) input saved
      → Fits n k (record { pat = p ∷ pat; input = input; saved = saved })
      → Fits n k (record { pat = pat; input = input; saved = some (pat, input) })
        × (measure n k (record { pat = pat; input = input; saved = some (pat, input) })
            < measure n k (record { pat = p ∷ pat; input = input; saved = saved }))
  star-Fits p pat input none h f = (omega arith, grind arith)
  star-Fits p pat input (some (bp, bi)) h f = (omega arith, grind arith)

  lit-Fits :
      (p i : ℕ) (pat rest : List ℕ) (saved : Option (List ℕ × List ℕ))
      → Fits n k (record { pat = p ∷ pat; input = i ∷ rest; saved = saved })
      → Fits n k (record { pat = pat; input = rest; saved = saved })
        × (measure n k (record { pat = pat; input = rest; saved = saved })
            < measure n k (record { pat = p ∷ pat; input = i ∷ rest; saved = saved }))
  lit-Fits p i pat rest none f = (omega arith, omega arith)
  lit-Fits p i pat rest (some (bp, bi)) f = (omega arith, omega arith)

  round-Sound :
      (pat input : List ℕ) (saved : Option (List ℕ × List ℕ))
      → Since pat input saved
      → Fits n k (record { pat = pat; input = input; saved = saved })
      → Sound n k (record { pat = pat; input = input; saved = saved }) (round pat input saved)
  unfolding round
  round-Sound pat [] saved h f = end_round pat saved h
  round-Sound [] (i ∷ rest) saved h f =
      back_round [] (i ∷ rest) saved (λ m. nil-inversion m) (omega arith) f
  round-Sound (p ∷ pat) (i ∷ rest) saved h f = elim (Bool-cases (nat_beq p star)) [
    | inl wild ↦
        let e : p ≡ star = ground arith in
        let (g, less) = star-Fits p pat (i ∷ rest) saved h f in
        rw wild (star_round p pat (i ∷ rest) saved e h, ([], tt, refl, refl), g, less)
    | inr plain ↦
        let n' : p ≢ star = ground arith in
        rw plain (elim (Bool-cases (nat_beq p i)) [
          | inl same ↦
              let e : p ≡ i = ground arith in
              let (g, less) = lit-Fits p i pat rest saved f in
              rw same (
                lit_round p i pat rest saved n' e,
                Since-lit p pat rest saved n'
                    (subst (λ q. Since (p ∷ pat) (q ∷ rest) saved) (sym e) h),
                g,
                less,
              )
          | inr other ↦
              let d : p ≢ i = ground arith in
              rw other
                (back_round (p ∷ pat) (i ∷ rest) saved (λ m. d (lit_head n' m)) (omega arith) f)
        ])
  ]

  loop-round :
      (fuel : ℕ) (s : State)
      → ((t : State)
          → Since t.pat t.input t.saved
          → Fits n k t
          → measure n k t < fuel
          → (loop fuel t ≡ true) ↔ Promise t)
      → measure n k s < suc fuel
      → (r : Round) → round s.pat s.input s.saved ≡ r
      → Sound n k s r
      → (loop (suc fuel) s ≡ true) ↔ Promise s
  unfolding loop
  loop-round fuel s rec m (answer b) e d = rw (e, loop) d
  loop-round fuel s rec m (again t) e (iff, h', f', less) =
      let rest = rec t h' f' (omega arith) in
      rw (e, loop) (λ q. iff.0 (rest.0 q), λ q. rest.1 (iff.1 q))

  -- With a measure below the fuel the loop answers what the state promises.
  loop_iff :
      (fuel : ℕ) (s : State)
      → Since s.pat s.input s.saved
      → Fits n k s
      → measure n k s < fuel
      → (loop fuel s ≡ true) ↔ Promise s
  loop_iff zero s h f m = absurd (omega arith)
  loop_iff (suc fuel) s h f m =
      loop-round fuel s (loop_iff fuel) m (round s.pat s.input s.saved) refl
        (round-Sound s.pat s.input s.saved h f)

glob_match_chars_iff :
    (pat input : List ℕ) → (glob_match_chars pat input ≡ true) ↔ Matches pat input
unfolding glob_match_chars
glob_match_chars_iff pat input =
    let start : State = record { pat = pat; input = input; saved = none } in
    let iff =
      loop_iff (length input) (length pat + length input + 1) (enough pat input) start tt
        (omega arith, omega arith) (omega arith) in
    (λ h. elim (iff.0 h) [ inl m ↦ m | inr l ↦ elim l [ ] ], λ m. iff.1 (inl m))

is_star-Matches : (pat input : List ℕ) → is_star pat ≡ true → Matches pat input
is_star-Matches [] input h = cc
is_star-Matches (c ∷ []) input h =
    let e : c ≡ star = ground arith in
    rw (e, ← append-nil input) (star_absorbs [] input [] (Matches.skip refl Matches.nil))
is_star-Matches (c ∷ d ∷ p) input h = cc

-- The matcher accepts exactly the inputs that the pattern stands for, where `*` stands for any
-- characters and every other character for itself.
pub glob_match_iff :
    (pattern : String) (input : List ℕ)
    → (glob_match pattern input ≡ true) ↔ Matches (codes pattern) input
unfolding glob_match
glob_match_iff pattern input = elim (Bool-cases (is_star (codes pattern))) [
  | inl wild ↦ rw wild (λ h. is_star-Matches (codes pattern) input wild, λ m. refl)
  | inr other ↦ rw other (glob_match_chars_iff (codes pattern) input)
]
