-- ===== src/Guards/Repetition/Suffix.antt =====
-- The suffix test against its meaning: a window that ends in a unit said five times.
use nu_agent.Prelude.{
  ℕ, zero, suc, ◌+◌, ◌-◌, ◌*◌, ◌/◌, ◌≤◌, ◌<◌, ◌≡◌, refl, sym, ap, subst, ◌∙◌, ◌↔◌, inl, inr, true,
  List, [], ◌∷◌, ◌++◌, nat_beq, nat_beq_iff, length, take, drop, length-append, length-drop,
  take-append-drop, drop-append_length, append-nil, append_assoc, arith, Bool-cases,
}
use nu_agent.Guards.Repetition.{bytes_eq, all_chunks, ends_in_unit, any_unit, is_repeating}

bytes_eq_iff : (xs ys : List ℕ) → (bytes_eq xs ys ≡ true) ↔ (xs ≡ ys)
unfolding bytes_eq
bytes_eq_iff [] [] = (λ h. refl, λ e. refl)
bytes_eq_iff [] (y ∷ ys) = (λ h. cc, λ e. cc)
bytes_eq_iff (x ∷ xs) [] = (λ h. cc, λ e. cc)
bytes_eq_iff (x ∷ xs) (y ∷ ys) = ground (arith, bytes_eq_iff xs ys, nat_beq_iff x y)

-- A unit said a number of times.
unfoldable pub repeated : ℕ → List ℕ → List ℕ
repeated zero unit = []
repeated (suc n) unit = unit ++ repeated n unit

repeated-last : (n : ℕ) (unit : List ℕ) → repeated (suc n) unit ≡ repeated n unit ++ unit
unfolding repeated
repeated-last zero unit = append-nil unit
repeated-last (suc n) unit =
    ap (λ l. unit ++ l) (repeated-last n unit) ∙ sym (append_assoc unit (repeated n unit) unit)

length-repeated_five : (unit : List ℕ) → length (repeated 5 unit) ≡ 5 * length unit
unfolding repeated
length-repeated_five unit = omega (
  arith,
  length-append unit (repeated 4 unit),
  length-append unit (repeated 3 unit),
  length-append unit (repeated 2 unit),
  length-append unit (repeated 1 unit),
  length-append unit [],
)

take-append_length : (xs ys : List ℕ) → take (length xs) (xs ++ ys) ≡ xs
take-append_length [] ys = refl
take-append_length (x ∷ xs) ys = ap (◌∷◌ x) (take-append_length xs ys)

all_chunks_iff :
    (n : ℕ) (unit suffix : List ℕ)
    → length suffix ≡ length (repeated n unit)
    → (all_chunks n unit suffix ≡ true) ↔ (suffix ≡ repeated n unit)
unfolding all_chunks repeated
all_chunks_iff zero unit [] h = (λ e. refl, λ e. refl)
all_chunks_iff zero unit (x ∷ s) h = absurd (omega arith)
all_chunks_iff (suc n) unit suffix h =
    let k = length unit in
    let below =
      all_chunks_iff n unit (drop k suffix)
        (omega (arith, length-drop k suffix, length-append unit (repeated n unit))) in
    (
      λ b.
          let both : (bytes_eq (take k suffix) unit ≡ true)
              × (all_chunks n unit (drop k suffix) ≡ true) =
            ground (arith, b) in
          sym (take-append-drop k suffix)
          ∙ ap (λ l. l ++ drop k suffix) ((bytes_eq_iff (take k suffix) unit).0 both.0)
          ∙ ap (λ l. unit ++ l) (below.0 both.1),
      λ e.
          let t : take k suffix ≡ unit =
            ap (take k) e ∙ take-append_length unit (repeated n unit) in
          let d : drop k suffix ≡ repeated n unit =
            ap (drop k) e ∙ drop-append_length unit (repeated n unit) in
          let t' = (bytes_eq_iff (take k suffix) unit).1 t in
          let d' = below.1 d in ground (arith, t', d'),
    )

-- A window that ends in a unit of a length, said five times.
abbrev EndsIn : List ℕ → ℕ → Type 0
EndsIn window k =
    (front : List ℕ) × (unit : List ℕ) × (length unit ≡ k) × (window ≡ front ++ repeated 5 unit)

drop-split :
    (window front back : List ℕ) (n : ℕ)
    → window ≡ front ++ back
    → n ≡ length back
    → drop (length window - n) window ≡ back
drop-split window front back n e h =
    let cut : length window - n ≡ length front =
      omega (arith, ap (λ (l : List ℕ). length l) e, length-append front back) in
    ap (λ m. drop m window) cut ∙ ap (drop (length front)) e ∙ drop-append_length front back

ends_in_unit_iff :
    (window : List ℕ) (k : ℕ)
    → k * 5 ≤ length window
    → (ends_in_unit window k ≡ true) ↔ EndsIn window k
unfolding ends_in_unit
ends_in_unit_iff window k room =
    let unit = drop (length window - k) window in
    let suffix = drop (length window - k * 5) window in
    let size : length unit ≡ k = omega (arith, length-drop (length window - k) window) in
    let same : length suffix ≡ length (repeated 5 unit) =
      omega (arith, length-drop (length window - k * 5) window, length-repeated_five unit) in
    (
      λ b. (
        take (length window - k * 5) window,
        unit,
        size,
        sym (take-append-drop (length window - k * 5) window)
            ∙ ap (λ l. take (length window - k * 5) window ++ l)
                ((all_chunks_iff 5 unit suffix same).0 b),
      ),
      λ s.
          let (front, u, l, e) = s in
          let five = length-repeated_five u in
          let su : suffix ≡ repeated 5 u =
            drop-split window front (repeated 5 u) (k * 5) e (omega arith) in
          let un : unit ≡ u =
            drop-split window (front ++ repeated 4 u) u k
              (e
                ∙ ap (λ r. front ++ r) (repeated-last 4 u)
                ∙ sym (append_assoc front (repeated 4 u) u))
              (sym l) in
          (all_chunks_iff 5 unit suffix same).1 (su ∙ ap (repeated 5) (sym un)),
    )

any_unit_iff :
    (window : List ℕ) (k n : ℕ)
    → (any_unit window k n ≡ true)
      ↔ ((j : ℕ) × (k ≤ j) × (j < k + n) × (ends_in_unit window j ≡ true))
unfolding any_unit
any_unit_iff window k zero = (λ h. cc, λ s. let (j, l, m, e) = s in absurd (omega arith))
any_unit_iff window k (suc n) = (
  λ h. elim (Bool-cases (ends_in_unit window k)) [
    | inl y ↦ (k, omega arith, omega arith, y)
    | inr no_hit ↦
        let h' : any_unit window (suc k) n ≡ true = ground (arith, h) in
        let (j, l, m, e) = (any_unit_iff window (suc k) n).0 h' in (j, omega arith, omega arith, e)
  ],
  λ s.
      let (j, l, m, e) = s in
      elim (Bool-cases (nat_beq j k)) [
        | inl same ↦
            let e' : ends_in_unit window k ≡ true =
              subst (λ i. ends_in_unit window i ≡ true) ((nat_beq_iff j k).0 same) e in
            ground (arith, e')
        | inr other ↦
            let later =
              (any_unit_iff window (suc k) n).1 (j, ground (arith, other), omega arith, e) in
            ground (arith, later)
      ],
)

-- A window counts as repeating just when it ends in a unit of at least eight bytes, said five times
-- in a row.
pub is_repeating_iff :
    (window : List ℕ)
    → (is_repeating window ≡ true) ↔ (
        (front : List ℕ) × (unit : List ℕ) × (8 ≤ length unit)
        × (window ≡ front ++ repeated 5 unit))
unfolding is_repeating
is_repeating_iff window = (
  λ h.
      let any : any_unit window 8 (suc (length window / 5) - 8) ≡ true = ground (arith, h) in
      let (j, l, m, e) = (any_unit_iff window 8 (suc (length window / 5) - 8)).0 any in
      let (front, unit, size, w) = (ends_in_unit_iff window j (omega arith)).0 e in
      (front, unit, omega arith, w),
  λ s.
      let (front, unit, l, w) = s in
      let room = ap (λ (x : List ℕ). length x) w ∙ length-append front (repeated 5 unit) in
      let five = length-repeated_five unit in
      let e = (ends_in_unit_iff window (length unit) (omega arith)).1 (front, unit, refl, w) in
      let any =
        (any_unit_iff window 8 (suc (length window / 5) - 8)).1 (length unit, l, omega arith, e) in
      ground (arith, any),
)
