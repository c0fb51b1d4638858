-- ===== src/Files/Replace.antt =====
-- How an edit finds and replaces text (compute_edit_result in crates/agnt-core/src/tools/fs/core.rs),
-- and the lines of a text. A text is the list of its code points; the regex library is an argument.
pub mod Pieces
use nu_agent.Prelude.{
  ℕ, zero, suc, ◌+◌, ◌-◌, Bool, true, false, List, [], ◌∷◌, ◌++◌, Option, none, some, nat_beq,
  length, if◌then◌else◌,
}

abbrev pub Text : Type 0
Text = List ℕ

pub data EditMatchMode : Type 0 where
  literal regex : EditMatchMode

pub data EditOccurrence : Type 0 where
  first all : EditOccurrence

pub record EditOperation : Type 0 where
  pub search : Text
  pub replacement : Text
  pub match_mode : EditMatchMode
  pub occurrence : EditOccurrence

-- What is behind a prefix.
unfoldable pub strip_prefix : Text → Text → Option Text
strip_prefix [] text = some text
strip_prefix (p ∷ pattern) [] = none
strip_prefix (p ∷ pattern) (c ∷ text) =
    let rest = strip_prefix pattern text in if nat_beq p c then rest else none

-- What is in front of the first place of a text, and what is behind it (`str::find` with the
-- slices around it).
abbrev pub Found : Type 0
Found = Option (Text × Text)

abbrev behind : ℕ → Found → Found
behind c none = none
behind c (some (before, after)) = some (c ∷ before, after)

abbrev found_here : Option Text → Found → Found
found_here none later = later
found_here (some after) later = some ([], after)

unfoldable pub find_text : Text → Text → Found
unfolding strip_prefix
find_text search [] = found_here (strip_prefix search []) none
find_text search (c ∷ text) =
    let later = find_text search text in
    found_here (strip_prefix search (c ∷ text)) (behind c later)

-- The texts around the places of a text that is not empty (`str::matches`, `str::replace`), from the
-- left and without overlap; so many characters belong to a place that was found.
abbrev pub begin_piece : ℕ → List Text → List Text
begin_piece c [] = (c ∷ []) ∷ []
begin_piece c (piece ∷ pieces) = (c ∷ piece) ∷ pieces

-- A place in front of the character starts a new piece behind it.
abbrev pub at_place : ℕ → Option Text → List Text → List Text → List Text
at_place c none inside later = begin_piece c later
at_place c (some _) inside later = [] ∷ inside

unfoldable pub pieces_from : Text → ℕ → Text → List Text
unfolding strip_prefix
pieces_from search skip [] = [] ∷ []
pieces_from search (suc skip) (c ∷ text) = pieces_from search skip text
pieces_from search zero (c ∷ text) =
    let inside = pieces_from search (length search - 1) text in
    let later = pieces_from search 0 text in
    at_place c (strip_prefix search (c ∷ text)) inside later

-- The empty text is found in front of each character and at the end.
abbrev singles : Text → List Text
singles [] = [] ∷ []
singles (c ∷ text) = (c ∷ []) ∷ singles text

unfoldable pub pieces : Text → Text → List Text
unfolding pieces_from
pieces [] text = [] ∷ singles text
pieces (p ∷ search) text = pieces_from (p ∷ search) 0 text

unfoldable pub join : Text → List Text → Text
join between [] = []
join between (piece ∷ []) = piece
join between (piece ∷ next ∷ rest) = piece ++ between ++ join between (next ∷ rest)

-- The regex library: whether a pattern compiles, and the message where it does not; how many places
-- of a text match; and the texts that `replacen` and `replace_all` give.
pub record RegexEngine : Type 0 where
  pub compile_error : Text → Option Text
  pub is_match : Text → Text → Bool
  pub count_matches : Text → Text → ℕ
  pub replace_one : Text → Text → Text → Text
  pub replace_every : Text → Text → Text → Text

-- The new content and the number of replacements, or the message on the pattern.
pub data EditResult : Type 0 where
  edited : Text → ℕ → EditResult
  invalid_pattern : Text → EditResult

abbrev pub replaced_first : Text → Text → Found → EditResult
replaced_first content replacement none = edited content 0
replaced_first content replacement (some (before, after)) =
    edited (before ++ replacement ++ after) 1

abbrev pub replaced_all : Text → Text → List Text → EditResult
replaced_all content replacement around =
    let replacements = length around - 1 in
    if nat_beq replacements 0
    then edited content 0
    else edited (join replacement around) replacements

module _ (engine : RegexEngine) where
  abbrev regex_first : Text → EditOperation → Option Text → EditResult
  regex_first content op (some message) = invalid_pattern message
  regex_first content op none =
      if engine.is_match op.search content
      then edited (engine.replace_one op.search content op.replacement) 1
      else edited content 0

  abbrev regex_all : Text → EditOperation → Option Text → EditResult
  regex_all content op (some message) = invalid_pattern message
  regex_all content op none =
      let replacements = engine.count_matches op.search content in
      if nat_beq replacements 0
      then edited content 0
      else edited (engine.replace_every op.search content op.replacement) replacements

  abbrev edit_by : EditMatchMode → EditOccurrence → Text → EditOperation → EditResult
  edit_by literal first content op =
      replaced_first content op.replacement (find_text op.search content)
  edit_by literal all content op = replaced_all content op.replacement (pieces op.search content)
  edit_by regex first content op = regex_first content op (engine.compile_error op.search)
  edit_by regex all content op = regex_all content op (engine.compile_error op.search)

  unfoldable pub compute_edit_result : Text → EditOperation → EditResult
  unfolding find_text pieces join
  compute_edit_result content op = edit_by op.match_mode op.occurrence content op

-- `split_lines_preserving_terminators`.
abbrev first_line : ℕ → List Text → List Text
first_line c lines = if nat_beq c 10 then (c ∷ []) ∷ lines else begin_piece c lines

unfoldable pub split_lines_preserving_terminators : Text → List Text
split_lines_preserving_terminators [] = []
split_lines_preserving_terminators (c ∷ text) =
    first_line c (split_lines_preserving_terminators text)
