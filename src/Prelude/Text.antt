-- ===== src/Prelude/Text.antt =====
-- Texts: the pieces of `format!`, and the code points of a text.
use Prim.Native.Nat.{ℕ, zero, suc, ◌+◌, ◌/◌, ◌%◌}
use Prim.Native.Char.{code}
use mathlib.Core.Bool.{Bool, ◌&&◌, ◌||◌}
use nu_agent.Prelude.Tests.{ltb, leb, nat_beq, if◌then◌else◌}
use Prim.Native.String
use Prim.Native.String.{String}
use mathlib.Core.List.{List, [], ◌∷◌, ◌++◌}

-- `format!`: its literal and interpolated pieces, joined.
unfoldable pub concat : List String → String
concat [] = ""
concat (s ∷ ss) = String.◌++◌ s (concat ss)

-- The code points of a text.
abbrev pub codes : String → List ℕ
codes String.[] = []
codes (String.◌∷◌ c s) = code c ∷ codes s

-- `char::is_whitespace`: the property White_Space of Unicode.
unfoldable pub is_whitespace : ℕ → Bool
is_whitespace c =
    leb 9 c && leb c 13
    || nat_beq c 32
    || nat_beq c 0x85
    || nat_beq c 0xa0
    || nat_beq c 0x1680
    || leb 0x2000 c && leb c 0x200a
    || nat_beq c 0x2028
    || nat_beq c 0x2029
    || nat_beq c 0x202f
    || nat_beq c 0x205f
    || nat_beq c 0x3000

-- A character in front of a list of words: it opens a word or goes on with the first one.
abbrev begin_word : List ℕ → List (List ℕ) → List (List ℕ)
begin_word [] words = words
begin_word (c ∷ w) words = (c ∷ w) ∷ words

-- The word that a text begins with, empty before whitespace, and the words behind it.
split_first : List ℕ → List ℕ × List (List ℕ)
split_first [] = ([], [])
split_first (c ∷ s) =
    let (w, words) = split_first s in
    if is_whitespace c then ([], begin_word w words) else (c ∷ w, words)

-- `split_whitespace`: the words between runs of whitespace.
unfoldable pub split_whitespace : List ℕ → List (List ℕ)
unfolding split_first is_whitespace
split_whitespace s = let (w, words) = split_first s in begin_word w words

-- `join(" ")`.
unfoldable pub join_space : List (List ℕ) → List ℕ
join_space [] = []
join_space (w ∷ []) = w
join_space (w ∷ v ∷ ws) = w ++ 32 ∷ join_space (v ∷ ws)

digit : ℕ → String
digit n = String.slice "0123456789" n (n + 1)

-- The digits of a number; a number has fewer of them than the fuel that `decimal` gives.
write_digits : ℕ → ℕ → String
unfolding digit
write_digits zero n = ""
write_digits (suc fuel) n =
    let front = write_digits fuel (n / 10) in
    if ltb n 10 then digit n else concat (front ∷ digit (n % 10) ∷ [])

-- A number in `format!`.
unfoldable pub decimal : ℕ → String
unfolding write_digits
decimal n = write_digits (suc n) n
