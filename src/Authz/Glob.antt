-- ===== src/Authz/Glob.antt =====
-- The wildcard matcher (crates/agnt-core/src/tools/authz.rs): a loop with one place to go back to,
-- the latest `*`. A text is the list of its characters.
pub mod Matches
pub mod Promises
pub mod Loop
use nu_agent.Prelude.{
  ℕ, zero, suc, ◌+◌, ◌*◌, Bool, true, false, List, [], ◌∷◌, Option, none, some, String, codes,
  nat_beq, if◌then◌else◌, length,
}

abbrev pub star : ℕ
star = b'*'

-- `pat_rest`, `input_rest`, and `backtrack_pat` with `backtrack_input`, which are set together.
pub record State : Type 0 where
  pub pat : List ℕ
  pub input : List ℕ
  pub saved : Option (List ℕ × List ℕ)

-- One round of the `while` loop: the answer, or the state of the next round.
pub data Round : Type 0 where
  answer : Bool → Round
  again : State → Round

-- The loop after the input: what is left of the pattern is stars.
unfoldable pub all_stars : List ℕ → Bool
all_stars [] = true
all_stars (c ∷ p) = if nat_beq c star then all_stars p else false

-- Back to the latest star, which takes one more character.
unfoldable pub go_back : Option (List ℕ × List ℕ) → Round
go_back none = answer false
go_back (some (pat, [])) = answer false
go_back (some (pat, c ∷ rest)) =
    again (record { pat = pat; input = rest; saved = some (pat, rest) })

unfoldable pub round : List ℕ → List ℕ → Option (List ℕ × List ℕ) → Round
unfolding all_stars go_back
round pat [] saved = answer (all_stars pat)
round [] (i ∷ rest) saved = go_back saved
round (p ∷ pat) (i ∷ rest) saved =
    if nat_beq p star
    then again (record { pat = pat; input = i ∷ rest; saved = some (pat, i ∷ rest) })
    else if nat_beq p i
    then again (record { pat = pat; input = rest; saved = saved })
    else go_back saved

-- The loop, on fuel.
unfoldable pub loop : ℕ → State → Bool
unfolding round
loop zero s = false
loop (suc fuel) s = elim (round s.pat s.input s.saved) [ answer b ↦ b | again s' ↦ loop fuel s' ]

-- The rounds that suffice for a pattern and an input.
abbrev pub enough : List ℕ → List ℕ → ℕ
enough pat input = (length input + 2) * (length pat + length input + 1)

unfoldable pub glob_match_chars : List ℕ → List ℕ → Bool
unfolding loop
glob_match_chars pat input =
    loop (enough pat input) (record { pat = pat; input = input; saved = none })

abbrev is_star : List ℕ → Bool
is_star (c ∷ []) = nat_beq c star
is_star _ = false

-- A pattern against the characters of an input.
unfoldable pub glob_match : String → List ℕ → Bool
unfolding glob_match_chars
glob_match pattern input =
    if is_star (codes pattern) then true else glob_match_chars (codes pattern) input
