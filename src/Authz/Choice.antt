-- ===== src/Authz/Choice.antt =====
-- Which rule a text is decided by.
use nu_agent.Prelude.{
  ℕ, ◌≤◌, ◌≡◌, ◌⊎◌, inl, inr, refl, ◌∙◌, ap, true, false, List, [], ◌∷◌, Option, none, some, String,
  codes, leb, arith, Bool-cases,
}
use mathlib.Core.List.{Memᴰ}
use mathlib.Core.List.Memᴰ
use nu_agent.Authz.Glob.{glob_match}
use nu_agent.Authz.Glob.Matches.{Matches}
use nu_agent.Authz.Glob.Loop.{glob_match_iff}
use nu_agent.Authz.Policy.{
  PermissionAction, Rules, pattern_specificity, most_specific, matching, match_pattern,
}

abbrev Rule : Type 0
Rule = String × PermissionAction

-- What a choice is: no rule of the list matches, or it is a rule of the list that matches, and no
-- matching rule of the list is more specific.
abbrev pub Decided : List ℕ → Rules → Option Rule → Type 0
Decided candidate rules none = (q : Rule) → Memᴰ q rules → ¬ Matches (codes q.0) candidate
Decided candidate rules (some r) =
    Memᴰ r rules
    × Matches (codes r.0) candidate
    × ((q : Rule)
        → Memᴰ q rules
        → Matches (codes q.0) candidate
        → pattern_specificity q.0 ≤ pattern_specificity r.0)

module _ (candidate : List ℕ) where
  abbrev IsFound : Rule → Type 0
  IsFound r = glob_match r.0 candidate ≡ true

  -- The choice over the rules from a best rule so far.
  abbrev Chosen : Option Rule → Rules → Option Rule → Type 0
  Chosen best rules none = (best ≡ none) × ((q : Rule) → Memᴰ q rules → ¬ IsFound q)
  Chosen best rules (some r) =
      ((best ≡ some r) ⊎ (Memᴰ r rules × IsFound r))
      × ((q : Rule) → Memᴰ q rules → IsFound q → pattern_specificity q.0 ≤ pattern_specificity r.0)
      × ((b : Rule) → best ≡ some b → pattern_specificity b.0 ≤ pattern_specificity r.0)

  Chosen-skip :
      (best res : Option Rule) (r : Rule) (rules : Rules)
      → glob_match r.0 candidate ≡ false
      → Chosen best rules res
      → Chosen best (r ∷ rules) res
  Chosen-skip best none r rules n (e, h) =
      (e, λ q m f. elim (Memᴰ.cases_cons m) [ inl same ↦ absurd (cc) | inr later ↦ h q later f ])
  Chosen-skip best (some c) r rules n (i, h, g) = (
    elim i [ inl e ↦ inl e | inr mf ↦ inr (Memᴰ.tail mf.0, mf.1) ],
    λ q m f. elim (Memᴰ.cases_cons m) [ inl same ↦ absurd (cc) | inr later ↦ h q later f ],
    g,
  )

  Chosen-take :
      (best res : Option Rule) (b r : Rule) (rules : Rules)
      → IsFound r
      → ((best ≡ some b) ⊎ (b ≡ r))
      → pattern_specificity r.0 ≤ pattern_specificity b.0
      → ((a : Rule) → best ≡ some a → pattern_specificity a.0 ≤ pattern_specificity b.0)
      → Chosen (some b) rules res
      → Chosen best (r ∷ rules) res
  Chosen-take best none b r rules y i l o (e, h) = absurd (cc)
  Chosen-take best (some c) b r rules y i l o (j, h, g) = (
    elim j [
      | inr mf ↦ inr (Memᴰ.tail mf.0, mf.1)
      | inl e ↦ elim i [ inl e' ↦ inl (e' ∙ e) | inr e' ↦ inr (Memᴰ.head (cc), cc) ]
    ],
    λ q m f. elim (Memᴰ.cases_cons m) [
      | inl same ↦
          let s : pattern_specificity q.0 ≡ pattern_specificity r.0 =
            ap (λ (x : Rule). pattern_specificity x.0) same in
          omega (arith, g b refl)
      | inr later ↦ h q later f
    ],
    λ a e. omega (arith, g b refl, o a e),
  )

  most_specific-Chosen :
      (best : Option Rule) (rules : Rules)
      → Chosen best rules (most_specific best (matching candidate rules))
  unfolding most_specific matching
  most_specific-Chosen none [] = (refl, λ q m. absurd (Memᴰ.not-nil m))
  most_specific-Chosen (some b) [] = (
    inl refl,
    λ q m. absurd (Memᴰ.not-nil m),
    λ a e. let s : pattern_specificity a.0 ≡ pattern_specificity b.0 = cc in omega arith,
  )
  most_specific-Chosen none (r ∷ rules) = elim (Bool-cases (glob_match r.0 candidate)) [
    | inr n ↦ rw n (Chosen-skip none _ r rules n (most_specific-Chosen none rules))
    | inl y ↦ rw y (
        Chosen-take none _ r r rules y (inr refl) (omega arith) (λ a e. absurd (cc))
          (most_specific-Chosen (some r) rules))
  ]
  most_specific-Chosen (some b) (r ∷ rules) = elim (Bool-cases (glob_match r.0 candidate)) [
    | inr n ↦ rw n (Chosen-skip (some b) _ r rules n (most_specific-Chosen (some b) rules))
    | inl y ↦ elim (Bool-cases (leb (pattern_specificity b.0) (pattern_specificity r.0))) [
      | inl le ↦ rw y (
          rw (le, most_specific)
            (Chosen-take (some b) _ r r rules y (inr refl) (omega arith)
              (λ a e.
                let s : pattern_specificity a.0 ≡ pattern_specificity b.0 = cc in ground arith)
              (most_specific-Chosen (some r) rules)))
      | inr gt ↦ rw y (
          rw (gt, most_specific)
            (Chosen-take (some b) _ b r rules y (inl refl) (ground arith)
              (λ a e. let s : pattern_specificity a.0 ≡ pattern_specificity b.0 = cc in omega arith)
              (most_specific-Chosen (some b) rules)))
    ]
  ]

  Chosen→Decided :
      (rules : Rules) (res : Option Rule) → Chosen none rules res → Decided candidate rules res
  Chosen→Decided rules none (e, h) = λ q m f. h q m ((glob_match_iff q.0 candidate).1 f)
  Chosen→Decided rules (some r) (i, h, g) = elim i [
    | inl e ↦ absurd (cc)
    | inr mf ↦ (
      mf.0,
      (glob_match_iff r.0 candidate).0 mf.1,
      λ q m f. h q m ((glob_match_iff q.0 candidate).1 f),
    )
  ]

-- The rule that decides a text is one of the rules, its pattern matches the whole text, and no
-- rule whose pattern matches has more characters other than `*`; there is none only when no
-- pattern matches.
pub match_pattern-Decided :
    (candidate : List ℕ) (rules : Rules) → Decided candidate rules (match_pattern candidate rules)
unfolding match_pattern
match_pattern-Decided candidate rules =
    Chosen→Decided candidate rules _ (most_specific-Chosen candidate none rules)
