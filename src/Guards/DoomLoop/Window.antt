-- ===== src/Guards/DoomLoop/Window.antt =====
-- The window test against a description that counts: how many calls at the end are the same.
use nu_agent.Prelude.{
  ℕ, zero, suc, ◌+◌, ◌-◌, ◌≤◌, ◌≡◌, refl, sym, ◌∙◌, ap, Bool, true, false, ◌&&◌, inl, inr, List, [],
  ◌∷◌, ◌++◌, none, some, String, string_eq, ==_iff, leb, nat_beq, if◌then◌else◌, length,
  length-append, length-replicate, replicate, drop, all, arith, Bool-cases,
}
use nu_agent.Guards.DoomLoop.{
  Signature, signature_eq, DoomLoopState, all_same, level, check_and_record,
}

signature_eq_refl : (s : Signature) → signature_eq s s ≡ true
unfolding signature_eq
signature_eq_refl s = ground (arith, ==_iff s.0 s.0, ==_iff s.1 s.1)

signature_eq→eq : (s t : Signature) → signature_eq s t ≡ true → s ≡ t
unfolding signature_eq
signature_eq→eq s t h = ground (arith, ==_iff s.0 t.0, ==_iff s.1 t.1)

-- How many of the last calls are `s`.
unfoldable pub trailing : Signature → List Signature → ℕ
trailing s [] = 0
trailing s (x ∷ xs) =
    let rest = trailing s xs in
    if nat_beq rest (length xs) && signature_eq x s then suc rest else rest

trailing-le : (s : Signature) (xs : List Signature) → trailing s xs ≤ length xs
unfolding trailing
trailing-le s [] = omega arith
trailing-le s (x ∷ xs) = ground (arith, trailing-le s xs)

all-trailing :
    (s : Signature) (xs : List Signature)
    → all (λ y. signature_eq y s) xs ≡ nat_beq (trailing s xs) (length xs)
unfolding trailing
all-trailing s [] = refl
all-trailing s (x ∷ xs) = ground (arith, all-trailing s xs, trailing-le s xs)

drop-trailing :
    (s : Signature) (k : ℕ) (xs : List Signature)
    → k ≤ length xs
    → all (λ y. signature_eq y s) (drop (length xs - k) xs) ≡ leb k (trailing s xs)
unfolding trailing
drop-trailing s zero [] h = refl
drop-trailing s (suc k) [] h = absurd (omega arith)
drop-trailing s k (x ∷ xs) h = elim (Bool-cases (leb k (length xs))) [
  | inl short ↦
      let e : suc (length xs) - k ≡ suc (length xs - k) = ground arith in
      rw e (ground (arith, drop-trailing s k xs, trailing-le s xs))
  | inr whole ↦
      let e : suc (length xs) - k ≡ 0 = ground arith in
      rw e (ground (arith, all-trailing s xs, trailing-le s xs))
]

signature_eq_comm : (s t : Signature) → signature_eq s t ≡ signature_eq t s
unfolding signature_eq
signature_eq_comm s t =
    ground (arith, ==_iff s.0 t.0, ==_iff s.1 t.1, ==_iff t.0 s.0, ==_iff t.1 s.1)

all-last_false :
    (p : Signature → Bool) (s : Signature) (w : List Signature)
    → p s ≡ false
    → all p (w ++ s ∷ []) ≡ false
all-last_false p s [] h = ground arith
all-last_false p s (x ∷ w) h = ground (arith, all-last_false p s w)

pub trailing-replicate : (s : Signature) (k : ℕ) → trailing s (replicate k s) ≡ k
unfolding trailing
trailing-replicate s zero = refl
trailing-replicate s (suc k) =
    ground (arith, trailing-replicate s k, length-replicate k s, signature_eq_refl s)

-- Comparing with the first entry of a window that ends in `s` is comparing with `s`.
all_same_last :
    (s : Signature) (w : List Signature)
    → all_same (w ++ s ∷ []) ≡ all (λ y. signature_eq y s) (w ++ s ∷ [])
unfolding all_same
all_same_last s [] = refl
all_same_last s (x ∷ w) = elim (Bool-cases (signature_eq x s)) [
  | inl same ↦ ap (λ z. all (λ y. signature_eq y z) ((x ∷ w) ++ s ∷ [])) (signature_eq→eq x s same)
  | inr other ↦
      all-last_false (λ y. signature_eq y x) s (x ∷ w) (signature_eq_comm s x ∙ other)
      ∙ sym (ap (λ (b : Bool). b && all (λ y. signature_eq y s) (w ++ s ∷ [])) other)
]

drop-append_le :
    (n : ℕ) (xs ys : List Signature) → n ≤ length xs → drop n (xs ++ ys) ≡ drop n xs ++ ys
drop-append_le zero xs ys h = refl
drop-append_le (suc n) [] ys h = absurd (omega arith)
drop-append_le (suc n) (x ∷ xs) ys h = drop-append_le n xs ys (omega arith)

module _ (canonicalize_args : String → String) (s : DoomLoopState) (name args : String) where
  abbrev signature : Signature
  signature = (name, canonicalize_args args)

  abbrev pub calls : List Signature
  calls = s.recent_signatures ++ signature ∷ []

  window_test :
      5 ≤ length calls → all_same (drop (length calls - 5) calls) ≡ leb 5 (trailing signature calls)
  window_test h =
      let room : length calls - 5 ≤ length s.recent_signatures =
        omega (arith, length-append s.recent_signatures (signature ∷ [])) in
      let cut = drop-append_le (length calls - 5) s.recent_signatures (signature ∷ []) room in
      ap all_same cut
      ∙ all_same_last signature (drop (length calls - 5) s.recent_signatures)
      ∙ sym (ap (all (λ y. signature_eq y signature)) cut)
      ∙ drop-trailing signature 5 calls h

  -- A call is detected just when the last five recorded calls, this one among them, have one
  -- signature. A detection raises the escalation count by one and takes its level from it; any
  -- other call leaves the count alone. Every call is recorded at the end.
  pub check_and_record_lem : check_and_record canonicalize_args s name args ≡ (
      if leb 5 (trailing signature calls)
      then (
        record { recent_signatures = calls; escalation_count = s.escalation_count + 1 },
        some (level (s.escalation_count + 1) name),
      )
      else (record s { recent_signatures = calls }, none))
  unfolding check_and_record
  check_and_record_lem = ground (arith, window_test, trailing-le signature calls)
