-- ===== src/Tui/Picker/Matching.antt =====
-- Which options a query keeps.
use nu_agent.Prelude.{
  ℕ, Bool, true, false, ◌||◌, [], ◌∷◌, ◌≡◌, ◌↔◌, ◌⊎◌, inl, inr, refl, arith, nat_beq, Bool-cases,
}
use nu_agent.Tui.Picker.{
  Text, to_ascii_lowercase, fuzzy_loop, fuzzy_matches, PickerOption, matches_query,
}

-- The first text is left when characters are struck out of the second.
pub data Subsequence : Text → Text → Type 0 where
  done : {text : Text} → Subsequence [] text
  keep : {c : ℕ} {query text : Text} → Subsequence query text → Subsequence (c ∷ query) (c ∷ text)
  strike : {c : ℕ} {query text : Text} → Subsequence query text → Subsequence query (c ∷ text)

fuzzy_loop-Subsequence :
    (candidate : Text) (needle : ℕ) (query : Text)
    → fuzzy_loop candidate needle query ≡ true
    → Subsequence (needle ∷ query) candidate
unfolding fuzzy_loop
fuzzy_loop-Subsequence [] needle query h = cc
fuzzy_loop-Subsequence (c ∷ cs) needle [] h = elim (Bool-cases (nat_beq c needle)) [
  | inl same ↦ let e : c ≡ needle = ground (arith, same) in rw e (keep done)
  | inr other ↦ strike (fuzzy_loop-Subsequence cs needle [] (ground (arith, other, h)))
]
fuzzy_loop-Subsequence (c ∷ cs) needle (n ∷ query) h = elim (Bool-cases (nat_beq c needle)) [
  | inl same ↦
      let e : c ≡ needle = ground (arith, same) in
      rw e (keep (fuzzy_loop-Subsequence cs n query (ground (arith, same, h))))
  | inr other ↦ strike (fuzzy_loop-Subsequence cs needle (n ∷ query) (ground (arith, other, h)))
]

-- What is behind the first character of a query is found where the whole query is.
Subsequence-tail :
    {c : ℕ} {query text : Text} → Subsequence (c ∷ query) text → Subsequence query text
Subsequence-tail (keep s) = strike s
Subsequence-tail (strike s) = strike (Subsequence-tail s)

fuzzy_matches-Subsequence :
    (query candidate : Text) → fuzzy_matches query candidate ≡ true → Subsequence query candidate
unfolding fuzzy_matches
fuzzy_matches-Subsequence [] candidate h = done
fuzzy_matches-Subsequence (needle ∷ query) candidate h =
    fuzzy_loop-Subsequence candidate needle query h

fuzzy_loop_complete :
    (candidate : Text) {needle : ℕ} {query : Text}
    → Subsequence (needle ∷ query) candidate
    → fuzzy_loop candidate needle query ≡ true
unfolding fuzzy_loop
fuzzy_loop_complete [] s = elim s [ ]
fuzzy_loop_complete (c ∷ text) (keep {query = []} s) = ground arith
fuzzy_loop_complete (c ∷ text) (keep {query = n ∷ query} s) =
    ground (arith, fuzzy_loop_complete text s)
fuzzy_loop_complete (c ∷ text) {query = []} (strike s) = ground (arith, fuzzy_loop_complete text s)
fuzzy_loop_complete (c ∷ text) {needle = needle} {query = n ∷ query} (strike s) =
    elim (Bool-cases (nat_beq c needle)) [
      | inl same ↦ rw same (fuzzy_loop_complete text (Subsequence-tail s))
      | inr other ↦ rw other (fuzzy_loop_complete text s)
    ]

fuzzy_matches_complete :
    (query candidate : Text) → Subsequence query candidate → fuzzy_matches query candidate ≡ true
unfolding fuzzy_matches
fuzzy_matches_complete [] candidate s = refl
fuzzy_matches_complete (needle ∷ query) candidate s = fuzzy_loop_complete candidate s

fuzzy_iff :
    (query candidate : Text) → (fuzzy_matches query candidate ≡ true) ↔ Subsequence query candidate
fuzzy_iff query candidate =
    (fuzzy_matches-Subsequence query candidate, fuzzy_matches_complete query candidate)

either_iff :
    {a b : Bool} {P Q : Type 0} → (a ≡ true) ↔ P → (b ≡ true) ↔ Q → ((a || b) ≡ true) ↔ (P ⊎ Q)
either_iff {a = true} p q = ((λ _. inl (p.0 refl)), (λ _. refl))
either_iff {a = false} p q =
    ((λ h. inr (q.0 h)), (λ s. elim s [ inl x ↦ cc (p.1 x) | inr y ↦ q.1 y ]))

-- The texts in which an option is searched.
abbrev pub FoundIn : Text → PickerOption → Type 0
FoundIn query o =
    (Subsequence query (to_ascii_lowercase o.display) ⊎ Subsequence query (to_ascii_lowercase o.id))
    ⊎ Subsequence query (to_ascii_lowercase o.search_text)

-- A query, in lower case, keeps an option just when striking characters out of its display, its
-- identifier or its search text, in lower case, leaves the query. Taking the first place for each
-- character of the query misses nothing.
pub matches_query_iff :
    (query : Text) (o : PickerOption)
    → (matches_query query o ≡ true) ↔ FoundIn (to_ascii_lowercase query) o
unfolding matches_query
matches_query_iff query o =
    let q = to_ascii_lowercase query in
    either_iff
      (either_iff (fuzzy_iff q (to_ascii_lowercase o.display))
        (fuzzy_iff q (to_ascii_lowercase o.id)))
      (fuzzy_iff q (to_ascii_lowercase o.search_text))
