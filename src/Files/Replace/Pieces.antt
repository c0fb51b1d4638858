-- ===== src/Files/Replace/Pieces.antt =====
-- An edit that replaces all places of a text puts the replacement between the same pieces, and one that
-- replaces the first does so at the first.
use nu_agent.Prelude.{
  ℕ, zero, suc, ◌-◌, false, List, [], ◌∷◌, ◌++◌, Option, none, some, ◌≡◌, ◌≢◌, refl, sym, ap, ◌∙◌,
  inl, inr, arith, nat_beq, length, Bool-cases, drop, subst, drop-append_length,
}
use nu_agent.Files.Replace.{
  Text, strip_prefix, begin_piece, at_place, pieces_from, pieces, join, find_text, EditOperation,
  EditOccurrence, literal, RegexEngine, EditResult, edited, replaced_all, compute_edit_result,
}

strip_prefix-append :
    (pattern text : Text) {rest : Text}
    → strip_prefix pattern text ≡ some rest
    → text ≡ pattern ++ rest
unfolding strip_prefix
strip_prefix-append [] text e = cc e
strip_prefix-append (p ∷ pattern) [] e = cc
strip_prefix-append (p ∷ pattern) (c ∷ text) {rest} e = elim (Bool-cases (nat_beq p c)) [
  | inl same ↦
      let here : p ≡ c = ground (arith, same) in
      let e' : strip_prefix pattern text ≡ some rest = ground (arith, same, e) in
      cc (here, strip_prefix-append pattern text e')
  | inr other ↦ absurd (ground (arith, other, e))
]

join-begin :
    (between : Text) (c : ℕ) (around : List Text)
    → join between (begin_piece c around) ≡ c ∷ join between around
unfolding join
join-begin between c [] = refl
join-begin between c (piece ∷ []) = refl
join-begin between c (piece ∷ next ∷ rest) = refl

-- There is always a first piece.
HasPiece : List Text → Type 0
HasPiece around = (piece : Text) × (rest : List Text) × (around ≡ piece ∷ rest)

begin_piece-HasPiece : (c : ℕ) (around : List Text) → HasPiece (begin_piece c around)
unfolding HasPiece
begin_piece-HasPiece c [] = (c ∷ [], [], refl)
begin_piece-HasPiece c (piece ∷ rest) = (c ∷ piece, rest, refl)

at_place-HasPiece :
    (c : ℕ) (o : Option Text) (inside later : List Text) → HasPiece (at_place c o inside later)
unfolding HasPiece
at_place-HasPiece c none inside later = begin_piece-HasPiece c later
at_place-HasPiece c (some rest) inside later = ([], inside, refl)

pieces_from-HasPiece :
    (search : Text) (skip : ℕ) (text : Text) → HasPiece (pieces_from search skip text)
unfolding pieces_from HasPiece
pieces_from-HasPiece search zero [] = ([], [], refl)
pieces_from-HasPiece search (suc skip) [] = ([], [], refl)
pieces_from-HasPiece search (suc skip) (c ∷ text) = pieces_from-HasPiece search skip text
pieces_from-HasPiece search zero (c ∷ text) =
    at_place-HasPiece c (strip_prefix search (c ∷ text)) _ _

join-place :
    (between : Text) (around : List Text)
    → HasPiece around
    → join between ([] ∷ around) ≡ between ++ join between around
unfolding join HasPiece
join-place between around (piece, rest, e) = rw e refl

module _ (p : ℕ) (search : Text) where
  -- The pieces, joined again, at a place and elsewhere.
  join-at_place :
      (c : ℕ) (text : Text) (o : Option Text) (inside later : List Text)
      → strip_prefix (p ∷ search) (c ∷ text) ≡ o
      → HasPiece inside
      → join (p ∷ search) inside ≡ drop (length search) text
      → join (p ∷ search) later ≡ text
      → join (p ∷ search) (at_place c o inside later) ≡ c ∷ text
  join-at_place c text none inside later e h i l = join-begin (p ∷ search) c later ∙ ap (◌∷◌ c) l
  join-at_place c text (some rest) inside later e h i l =
      let whole = strip_prefix-append (p ∷ search) (c ∷ text) e in
      let tail : text ≡ search ++ rest = cc whole in
      join-place (p ∷ search) inside h
      ∙ ap (λ t. (p ∷ search) ++ t)
          (i ∙ ap (drop (length search)) tail ∙ drop-append_length search rest)
      ∙ sym whole

  join-pieces_from :
      (skip : ℕ) (text : Text)
      → join (p ∷ search) (pieces_from (p ∷ search) skip text) ≡ drop skip text
  unfolding pieces_from join
  join-pieces_from zero [] = refl
  join-pieces_from (suc skip) [] = refl
  join-pieces_from (suc skip) (c ∷ text) = join-pieces_from skip text
  join-pieces_from zero (c ∷ text) =
      let n : suc (length search) - 1 ≡ length search = omega arith in
      join-at_place c text (strip_prefix (p ∷ search) (c ∷ text)) _ _ refl
        (pieces_from-HasPiece (p ∷ search) _ text)
        (join-pieces_from (suc (length search) - 1) text ∙ ap (λ k. drop k text) n)
        (join-pieces_from 0 text)

-- The text does not occur in the piece.
abbrev pub IsBare : Text → Text → Type 0
IsBare search piece = find_text search piece ≡ none

-- The pieces are cut from the left: in what is left of the content at each cut, the first place of the
-- text is the one behind the piece; and there is none in the last piece.
unfoldable pub IsLeftmost : Text → List Text → Type 0
IsLeftmost search [] = Unit
IsLeftmost search (piece ∷ []) = IsBare search piece
IsLeftmost search (piece ∷ next ∷ rest) =
    (find_text search (join search (piece ∷ next ∷ rest)) ≡ some (piece, join search (next ∷ rest)))
    × IsLeftmost search (next ∷ rest)

module _ (p : ℕ) (search : Text) where
  -- Where the text begins, or does not begin.
  find_text-here :
      (c : ℕ) (text : Text) {rest : Text}
      → strip_prefix (p ∷ search) (c ∷ text) ≡ some rest
      → find_text (p ∷ search) (c ∷ text) ≡ some ([], rest)
  unfolding find_text
  find_text-here c text e = rw (e, find_text) refl

  find_text-later :
      (c : ℕ) (text : Text) {before after : Text}
      → strip_prefix (p ∷ search) (c ∷ text) ≡ none
      → find_text (p ∷ search) text ≡ some (before, after)
      → find_text (p ∷ search) (c ∷ text) ≡ some (c ∷ before, after)
  unfolding find_text
  find_text-later c text e later = rw (e, find_text) (rw later refl)

  find_text-never :
      (c : ℕ) (text : Text)
      → strip_prefix (p ∷ search) (c ∷ text) ≡ none
      → IsBare (p ∷ search) text
      → IsBare (p ∷ search) (c ∷ text)
  unfolding find_text
  find_text-never c text e never = rw (e, find_text) (rw never refl)

  begin_piece-IsLeftmost :
      (c : ℕ) (text : Text) (around : List Text)
      → strip_prefix (p ∷ search) (c ∷ text) ≡ none
      → join (p ∷ search) around ≡ text
      → IsLeftmost (p ∷ search) around
      → IsLeftmost (p ∷ search) (begin_piece c around)
  unfolding IsLeftmost join find_text strip_prefix
  begin_piece-IsLeftmost c text [] e j l =
      find_text-never c [] (subst (λ t. strip_prefix (p ∷ search) (c ∷ t) ≡ none) (sym j) e) refl
  begin_piece-IsLeftmost c text (piece ∷ []) e j l =
      find_text-never c piece (subst (λ t. strip_prefix (p ∷ search) (c ∷ t) ≡ none) (sym j) e) l
  begin_piece-IsLeftmost c text (piece ∷ next ∷ rest) e j l = (
    find_text-later c (join (p ∷ search) (piece ∷ next ∷ rest))
        (subst (λ t. strip_prefix (p ∷ search) (c ∷ t) ≡ none) (sym j) e) l.0,
    l.1,
  )

  -- A place in front of pieces that join to what is behind it.
  place-IsLeftmost :
      (c : ℕ) (text : Text) {rest : Text} (inside : List Text)
      → strip_prefix (p ∷ search) (c ∷ text) ≡ some rest
      → HasPiece inside
      → join (p ∷ search) inside ≡ rest
      → join (p ∷ search) ([] ∷ inside) ≡ c ∷ text
      → IsLeftmost (p ∷ search) inside
      → IsLeftmost (p ∷ search) ([] ∷ inside)
  unfolding IsLeftmost HasPiece
  place-IsLeftmost c text [] e (piece, more, h) i j l = cc
  place-IsLeftmost c text (next ∷ more) e h i j l =
      (ap (find_text (p ∷ search)) j ∙ find_text-here c text e ∙ ap (λ t. some ([], t)) (sym i), l)

  at_place-IsLeftmost :
      (c : ℕ) (text : Text) (o : Option Text) (inside later : List Text)
      → strip_prefix (p ∷ search) (c ∷ text) ≡ o
      → HasPiece inside
      → join (p ∷ search) inside ≡ drop (length search) text
      → join (p ∷ search) later ≡ text
      → IsLeftmost (p ∷ search) inside
      → IsLeftmost (p ∷ search) later
      → IsLeftmost (p ∷ search) (at_place c o inside later)
  at_place-IsLeftmost c text none inside later e h i j k l =
      begin_piece-IsLeftmost c text later e j l
  at_place-IsLeftmost c text (some rest) inside later e h i j k l =
      let whole = strip_prefix-append (p ∷ search) (c ∷ text) e in
      let tail : text ≡ search ++ rest = cc whole in
      place-IsLeftmost c text inside e h
        (i ∙ ap (drop (length search)) tail ∙ drop-append_length search rest)
        (join-at_place p search c text (some rest) inside later e h i j) k

  pieces_from-IsLeftmost :
      (skip : ℕ) (text : Text) → IsLeftmost (p ∷ search) (pieces_from (p ∷ search) skip text)
  unfolding pieces_from IsLeftmost find_text strip_prefix
  pieces_from-IsLeftmost zero [] = refl
  pieces_from-IsLeftmost (suc skip) [] = refl
  pieces_from-IsLeftmost (suc skip) (c ∷ text) = pieces_from-IsLeftmost skip text
  pieces_from-IsLeftmost zero (c ∷ text) =
      let n : suc (length search) - 1 ≡ length search = omega arith in
      at_place-IsLeftmost c text (strip_prefix (p ∷ search) (c ∷ text)) _ _ refl
        (pieces_from-HasPiece (p ∷ search) _ text)
        (join-pieces_from p search (suc (length search) - 1) text ∙ ap (λ k. drop k text) n)
        (join-pieces_from p search 0 text) (pieces_from-IsLeftmost (suc (length search) - 1) text)
        (pieces_from-IsLeftmost 0 text)

abbrev pub replace_all_of : Text → Text → EditOperation
replace_all_of search replacement = record {
  search = search;
  replacement = replacement;
  match_mode = literal;
  occurrence = EditOccurrence.all;
}

-- What replacing all places means: the content is cut at the places of the searched text from the
-- left, and the new content has the replacement at each cut, as many as are reported.
abbrev pub IsReplacedAll : Text → EditOperation → EditResult → Type 0
IsReplacedAll content op result =
    (around : List Text) × (content ≡ join op.search around)
    × IsLeftmost op.search around
    × (result ≡ edited (join op.replacement around) (length around - 1))

replaced_all-join :
    (content search replacement : Text) (around : List Text)
    → HasPiece around
    → content ≡ join search around
    → replaced_all content replacement around ≡ edited (join replacement around) (length around - 1)
unfolding join HasPiece
replaced_all-join content search replacement [] (piece, rest, e) h = cc
replaced_all-join content search replacement (only ∷ []) h e = ap (λ t. edited t 0) e
replaced_all-join content search replacement (piece ∷ next ∷ rest) h e =
    let n : nat_beq (suc (suc (length rest)) - 1) 0 ≡ false = ground arith in rw n refl

-- A literal edit of all places of a text that is not empty cuts the content from the left, each cut at
-- the first place of the text in what is behind the cut before it, until no place is left; it puts
-- the replacement at each cut, and reports how many it made.
pub compute_edit_result-IsReplacedAll :
    (engine : RegexEngine) (content search replacement : Text)
    → search ≢ []
    → IsReplacedAll content
        (replace_all_of search replacement)
        (compute_edit_result engine content (replace_all_of search replacement))
unfolding compute_edit_result pieces
compute_edit_result-IsReplacedAll engine content [] replacement h = absurd (h refl)
compute_edit_result-IsReplacedAll engine content (p ∷ search) replacement h =
    let around = pieces_from (p ∷ search) 0 content in
    let joined = sym (join-pieces_from p search 0 content) in
    (
      around,
      joined,
      pieces_from-IsLeftmost p search 0 content,
      replaced_all-join content (p ∷ search) replacement around
          (pieces_from-HasPiece (p ∷ search) 0 content) joined,
    )
