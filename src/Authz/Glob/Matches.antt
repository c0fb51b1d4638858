-- ===== src/Authz/Glob/Matches.antt =====
-- What a wildcard pattern means: `*` stands for any characters, and any other for itself.
use nu_agent.Prelude.{ℕ, ◌≤◌, ◌≡◌, ◌≢◌, refl, sym, ap, ◌∙◌, List, [], ◌∷◌, ◌++◌, length, arith}
use nu_agent.Authz.Glob.{star}

pub data Matches : List ℕ → List ℕ → Type 0 where
  nil : Matches [] []
  lit : {c : ℕ} {p s : List ℕ} → c ≢ star → Matches p s → Matches (c ∷ p) (c ∷ s)
  skip : {c : ℕ} {p s : List ℕ} → c ≡ star → Matches p s → Matches (c ∷ p) s
  take : {c d : ℕ} {p s : List ℕ} → c ≡ star → Matches (c ∷ p) s → Matches (c ∷ p) (d ∷ s)

-- A star takes any characters before what its pattern matches.
pub star_absorbs : (p w u : List ℕ) → Matches (star ∷ p) u → Matches (star ∷ p) (w ++ u)
star_absorbs p [] u m = m
star_absorbs p (c ∷ w) u m = take refl (star_absorbs p w u m)

-- A pattern after a star matches an end of the input.
pub star-split :
    {c : ℕ} {p s : List ℕ}
    → c ≡ star
    → Matches (c ∷ p) s
    → (w : List ℕ) × (u : List ℕ) × (s ≡ w ++ u) × Matches p u
star-split e (lit n m) = absurd (n e)
star-split e (skip {s = s} _ m) = ([], s, refl, m)
star-split e (take {d = d} _ m) = let (w, u, q, k) = star-split e m in (d ∷ w, u, ap (◌∷◌ d) q, k)

abbrev pub HasNoStar : List ℕ → Type 0
HasNoStar [] = Unit
HasNoStar (c ∷ p) = (c ≢ star) × HasNoStar p

lit-inversion :
    {c : ℕ} {p s : List ℕ} → c ≢ star → Matches (c ∷ p) s → (u : List ℕ) × (s ≡ c ∷ u) × Matches p u
lit-inversion n (lit {s = s} _ m) = (s, refl, m)
lit-inversion n (skip e m) = absurd (n e)
lit-inversion n (take e m) = absurd (n e)

-- Characters other than stars match themselves.
pub literal-split :
    (seg q t : List ℕ)
    → HasNoStar seg
    → Matches (seg ++ q) t
    → (u : List ℕ) × (t ≡ seg ++ u) × Matches q u
literal-split [] q t h m = (t, refl, m)
literal-split (c ∷ seg) q t h m =
    let (u, e, k) = lit-inversion h.0 m in
    let (v, f, r) = literal-split seg q u h.1 k in (v, e ∙ ap (◌∷◌ c) f, r)

-- Of two ends of one list, the shorter is an end of the longer.
pub end-of_end :
    (a b v input : List ℕ)
    → a ++ v ≡ b ++ input
    → length b ≤ length a
    → (z : List ℕ) × (input ≡ z ++ v)
end-of_end a [] v input e h = (a, sym e)
end-of_end [] (c ∷ b) v input e h = absurd (omega arith)
end-of_end (d ∷ a) (c ∷ b) v input e h = end-of_end a b v input (cc) (omega arith)
