-- ===== src/Authz/Glob/Promises.antt =====
-- What a state of the matching loop promises about the rest of the input, and what each kind of
-- round does to the promise.
use nu_agent.Prelude.{
  ℕ, ◌<◌, ◌≡◌, ◌≢◌, ◌↔◌, ◌⊎◌, inl, inr, refl, sym, ap, subst, ◌∙◌, true, List, [], ◌∷◌, ◌++◌,
  Option, none, some, length, length-append, arith, append_assoc,
}
use nu_agent.Authz.Glob.{star, State, all_stars}
use nu_agent.Authz.Glob.Matches.{
  Matches, HasNoStar, star_absorbs, star-split, literal-split, end-of_end,
}

-- What the saved place still promises: the latest star takes at least one more character.
abbrev pub Later : Option (List ℕ × List ℕ) → Type 0
Later none = ⊥
Later (some (bp, [])) = ⊥
Later (some (bp, c ∷ t)) = Matches (star ∷ bp) t

abbrev pub Promise : State → Type 0
Promise s = Matches s.pat s.input ⊎ Later s.saved

-- Since the latest star, characters other than stars have matched themselves.
abbrev pub Since : List ℕ → List ℕ → Option (List ℕ × List ℕ) → Type 0
Since pat input none = Unit
Since pat input (some (bp, bi)) =
    (seg : List ℕ) × HasNoStar seg × (bp ≡ seg ++ pat) × (bi ≡ seg ++ input)

HasNoStar-snoc : (seg : List ℕ) (c : ℕ) → c ≢ star → HasNoStar seg → HasNoStar (seg ++ c ∷ [])
HasNoStar-snoc [] c n h = (n, tt)
HasNoStar-snoc (d ∷ seg) c n h = (h.0, HasNoStar-snoc seg c n h.1)

pub Since-lit :
    (c : ℕ) (pat input : List ℕ) (saved : Option (List ℕ × List ℕ))
    → c ≢ star
    → Since (c ∷ pat) (c ∷ input) saved
    → Since pat input saved
Since-lit c pat input none n h = tt
Since-lit c pat input (some (bp, bi)) n (seg, ns, e, f) = (
  seg ++ c ∷ [],
  HasNoStar-snoc seg c n ns,
  e ∙ sym (append_assoc seg (c ∷ []) pat),
  f ∙ sym (append_assoc seg (c ∷ []) input),
)

nonempty-end :
    (z v input : List ℕ)
    → input ≡ z ++ v
    → length v < length input
    → (d : ℕ) × (z' : List ℕ) × (input ≡ d ∷ z' ++ v)
nonempty-end [] v input e h = absurd (omega (arith, ap length e))
nonempty-end (d ∷ z) v input e h = (d, z, e)

-- What an earlier place promises is kept by a proper end of the input that the pattern matches.
Later-end :
    (pat input : List ℕ) (saved : Option (List ℕ × List ℕ))
    → Since pat input saved
    → Later saved
    → (d : ℕ) × (z : List ℕ) × (v : List ℕ) × (input ≡ d ∷ z ++ v) × Matches pat v
Later-end pat input (some (bp, [])) h l = elim l [ ]
Later-end pat input none h l = elim l [ ]
Later-end pat input (some (bp, c ∷ t)) (seg, ns, e, f) l =
    let (w, u, tu, m) = star-split refl l in
    let (v, uv, k) = literal-split seg pat u ns (subst (λ b. Matches b u) e m) in
    let same : (c ∷ w ++ seg) ++ v ≡ seg ++ input =
      ap (◌∷◌ c) (append_assoc w seg v ∙ ap (◌++◌ w) (sym uv) ∙ sym tu) ∙ f in
    let (z, iz) = end-of_end (c ∷ w ++ seg) seg v input same (omega (arith, length-append w seg)) in
    let (d, z', ze) = nonempty-end z v input iz (
      omega (
        arith,
        ap length same,
        length-append (c ∷ w ++ seg) v,
        length-append w seg,
        length-append seg input,
      )) in
    (d, z', v, ze, k)

-- In the round that reads a star, the promise of the place before it is kept.
Later-star :
    (pat input : List ℕ) (saved : Option (List ℕ × List ℕ))
    → Since (star ∷ pat) input saved
    → Later saved
    → Matches (star ∷ pat) input
Later-star pat input saved h l =
    let (d, z, v, e, m) = Later-end (star ∷ pat) input saved h l in
    rw e (star_absorbs pat (d ∷ z) v m)

all_stars-inversion : {c : ℕ} {p : List ℕ} → Matches (c ∷ p) [] → (c ≡ star) × Matches p []
all_stars-inversion (Matches.skip e m) = (e, m)

all_stars_iff : (p : List ℕ) → (all_stars p ≡ true) ↔ Matches p []
unfolding all_stars
all_stars_iff [] = (λ h. Matches.nil, λ m. refl)
all_stars_iff (c ∷ p) = (
  λ h.
      let e : c ≡ star = ground arith in
      let r : all_stars p ≡ true = ground arith in Matches.skip e ((all_stars_iff p).0 r),
  λ m. let (e, k) = all_stars-inversion m in let r = (all_stars_iff p).1 k in ground arith,
)

star_cases :
    {p i : ℕ} {pat rest : List ℕ}
    → p ≡ star
    → Matches (p ∷ pat) (i ∷ rest)
    → Matches pat (i ∷ rest) ⊎ Matches (star ∷ pat) rest
star_cases e (Matches.lit n m) = absurd (n e)
star_cases e (Matches.skip _ m) = inl m
star_cases {p} {pat} {rest} e (Matches.take _ m) = inr (subst (λ q. Matches (q ∷ pat) rest) e m)

lit_tail :
    {p i : ℕ} {pat rest : List ℕ} → p ≢ star → Matches (p ∷ pat) (i ∷ rest) → Matches pat rest
lit_tail n (Matches.lit _ m) = m
lit_tail n (Matches.skip e m) = absurd (n e)
lit_tail n (Matches.take e m) = absurd (n e)

pub lit_head : {p i : ℕ} {pat rest : List ℕ} → p ≢ star → Matches (p ∷ pat) (i ∷ rest) → p ≡ i
lit_head n (Matches.lit _ m) = refl
lit_head n (Matches.skip e m) = absurd (n e)
lit_head n (Matches.take e m) = absurd (n e)

pub nil-inversion : {i : ℕ} {rest : List ℕ} → Matches [] (i ∷ rest) → ⊥
nil-inversion m = elim m [ ]

pub end_round :
    (pat : List ℕ) (saved : Option (List ℕ × List ℕ))
    → Since pat [] saved
    → (all_stars pat ≡ true) ↔ (Matches pat [] ⊎ Later saved)
end_round pat saved h = (
  λ e. inl ((all_stars_iff pat).0 e),
  elim [
    | inl m ↦ (all_stars_iff pat).1 m
    | inr l ↦ let (d, z, v, e, m) = Later-end pat [] saved h l in cc
  ],
)

-- A star takes nothing, or the place behind it promises the rest.
pub star_iff :
    (p : ℕ) (pat input : List ℕ)
    → p ≡ star
    → (Matches pat input ⊎ Later (some (pat, input))) ↔ Matches (p ∷ pat) input
star_iff p pat [] e =
    (elim [ inl m ↦ Matches.skip e m | inr l ↦ elim l [ ] ], λ m. inl (all_stars-inversion m).1)
star_iff p pat (i ∷ rest) e =
    (elim [ inl m ↦ Matches.skip e m | inr m ↦ Matches.take e (rw e m) ], λ m. star_cases e m)

pub star_round :
    (p : ℕ) (pat input : List ℕ) (saved : Option (List ℕ × List ℕ))
    → p ≡ star
    → Since (p ∷ pat) input saved
    → (Matches pat input ⊎ Later (some (pat, input))) ↔ (Matches (p ∷ pat) input ⊎ Later saved)
star_round p pat input saved e h = (
  λ m. inl ((star_iff p pat input e).0 m),
  elim [
    | inl m ↦ (star_iff p pat input e).1 m
    | inr l ↦
        (star_iff star pat input refl).1
          (Later-star pat input saved (subst (λ q. Since (q ∷ pat) input saved) e h) l)
  ],
)

pub lit_round :
    (p i : ℕ) (pat rest : List ℕ) (saved : Option (List ℕ × List ℕ))
    → p ≢ star
    → p ≡ i
    → (Matches pat rest ⊎ Later saved) ↔ (Matches (p ∷ pat) (i ∷ rest) ⊎ Later saved)
lit_round p i pat rest saved n e = (
  elim [
    | inl m ↦ inl (subst (λ q. Matches (p ∷ pat) (q ∷ rest)) e (Matches.lit n m))
    | inr l ↦ inr l
  ],
  elim [ inl m ↦ inl (lit_tail n m) | inr l ↦ inr l ],
)
