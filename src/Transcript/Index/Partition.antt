-- ===== src/Transcript/Index/Partition.antt =====
-- Where the starts of the entries split: partition points of lists that do not fall.
use nu_agent.Prelude.{
  ℕ, zero, suc, ◌+◌, ◌≤◌, ◌<◌, Bool, true, false, List, [], ◌∷◌, some, ◌≡◌, refl, sym, ap, ◌∙◌, ◌⊎◌,
  inl, inr, arith, ltb, leb, length, get_elem?, Bool-cases,
}
use nu_agent.Transcript.Planner.{Prev}
use nu_agent.Transcript.Index.{HeightEntry, EntryMetrics, derive_from, partition_point}

-- A list that does not fall, from a number on.
abbrev Ascends : ℕ → List ℕ → Type 0
Ascends lo [] = Unit
Ascends lo (x ∷ xs) = (lo ≤ x) × Ascends x xs

le_of_Ascends :
    (lo : ℕ) (xs : List ℕ) (i : ℕ) {x : ℕ} → Ascends lo xs → get_elem? xs i ≡ some x → lo ≤ x
le_of_Ascends lo [] i a e = cc
le_of_Ascends lo (y ∷ ys) zero a e = ground arith
le_of_Ascends lo (y ∷ ys) (suc i) a e = omega (arith, le_of_Ascends y ys i a.1 e)

pub partition_point-le : (p : ℕ → Bool) (xs : List ℕ) → partition_point p xs ≤ length xs
unfolding partition_point
partition_point-le p [] = omega arith
partition_point-le p (x ∷ xs) = ground (arith, partition_point-le p xs)

-- The partition point of an ascending list, for a test that only small numbers pass.
module _ (p : ℕ → Bool) (falls : (x y : ℕ) → x ≤ y → p y ≡ true → p x ≡ true) where
  fails_above : (x y : ℕ) → x ≤ y → p x ≡ false → p y ≡ false
  fails_above x y h fails = elim (Bool-cases (p y)) [ inr f ↦ f | inl t ↦ cc (falls x y h t) ]

  pub partition_point-splits :
      (lo : ℕ) (xs : List ℕ) (i : ℕ) {x : ℕ}
      → Ascends lo xs
      → get_elem? xs i ≡ some x
      → ((p x ≡ true) × (i < partition_point p xs)) ⊎ ((p x ≡ false) × (partition_point p xs ≤ i))
  unfolding partition_point
  partition_point-splits lo [] i a e = cc
  partition_point-splits lo (y ∷ ys) zero {x} a e =
      let same : y ≡ x = cc in
      elim (Bool-cases (p y)) [
        | inl passes ↦ rw passes (inl (ap p (sym same) ∙ passes, omega arith))
        | inr fails ↦ rw fails (inr (ap p (sym same) ∙ fails, omega arith))
      ]
  partition_point-splits lo (y ∷ ys) (suc i) {x} a e = elim (Bool-cases (p y)) [
    | inr fails ↦ rw fails (inr (fails_above y x (le_of_Ascends y ys i a.1 e) fails, omega arith))
    | inl passes ↦ rw passes (elim (partition_point-splits y ys i a.1 e) [
      | inl h ↦ inl (h.0, omega (arith, h.1))
      | inr h ↦ inr (h.0, omega (arith, h.1))
    ])
  ]

Ascends-le : (lo lo' : ℕ) (xs : List ℕ) → lo ≤ lo' → Ascends lo' xs → Ascends lo xs
Ascends-le lo lo' [] h a = tt
Ascends-le lo lo' (x ∷ xs) h a = (omega arith, a.1)

pub starts-Ascends :
    (last_index k total : ℕ) (prev : Prev) (ms : List EntryMetrics)
    → Ascends total (derive_from last_index k total prev ms).starts
unfolding derive_from
starts-Ascends last_index k total prev [] = tt
starts-Ascends last_index k total prev (m ∷ ms) =
    (omega arith, Ascends-le total _ _ (omega arith) (starts-Ascends last_index (suc k) _ _ ms))

-- An entry begins where the one before it ends.
pub next_start :
    (last_index k total : ℕ) (prev : Prev) (ms : List EntryMetrics) (i : ℕ) {start next : ℕ}
    {height : HeightEntry}
    → get_elem? (derive_from last_index k total prev ms).starts i ≡ some start
    → get_elem? (derive_from last_index k total prev ms).entries i ≡ some height
    → get_elem? (derive_from last_index k total prev ms).starts (suc i) ≡ some next
    → next ≡ start + height.rows
unfolding derive_from
next_start last_index k total prev [] i s h n = cc
next_start last_index k total prev (m ∷ []) zero s h n = cc
next_start last_index k total prev (m ∷ m' ∷ ms) zero s h n = ground arith
next_start last_index k total prev (m ∷ ms) (suc i) s h n =
    next_start last_index (suc k) _ _ ms i s h n

same_lengths :
    (last_index k total : ℕ) (prev : Prev) (ms : List EntryMetrics)
    → length (derive_from last_index k total prev ms).starts
      ≡ length (derive_from last_index k total prev ms).entries
unfolding derive_from
same_lengths last_index k total prev [] = refl
same_lengths last_index k total prev (m ∷ ms) =
    omega (arith, same_lengths last_index (suc k) _ _ ms)

pub leb-falls : (c x y : ℕ) → x ≤ y → leb y c ≡ true → leb x c ≡ true
leb-falls c x y h t = ground arith

pub ltb-falls : (c x y : ℕ) → x ≤ y → ltb y c ≡ true → ltb x c ≡ true
ltb-falls c x y h t = ground arith
