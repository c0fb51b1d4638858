-- ===== src/Files/Arguments.antt =====
-- The arguments of the edit tool (crates/agnt-core/src/tools/handler/edit.rs): the operation that they
-- stand for. serde has parsed them; a text is the list of its code points.
use nu_agent.Prelude.{
  Option, none, some, String, ◌==◌, string_eq, concat, [], ◌∷◌, unwrap_or, if◌then◌else◌,
}
use nu_agent.Files.Replace.{Text, EditMatchMode, literal, regex, EditOccurrence, EditOperation}

pub data EditToolMode : Type 0 where
  preview apply : EditToolMode

pub record EditOperationArgs : Type 0 where
  pub operation_type : Option String
  pub search : Option Text
  pub replacement : Option Text
  pub match_mode : Option String
  pub occurrence : Option String
  pub content : Option Text

pub record EditArgs : Type 0 where
  pub path : String
  pub expected_version : Option String
  pub mode : Option String
  pub operation : EditOperationArgs

pub data ResolvedEditOperation : Type 0 where
  search_replace : EditOperation → ResolvedEditOperation
  create : Text → ResolvedEditOperation

-- What a step gives, or the message of a validation error.
pub data Parsed (A : Type 0) : Type 0 where
  parsed : A → Parsed A
  invalid : String → Parsed A

abbrev pub and_then : {A B : Type 0} → Parsed A → (A → Parsed B) → Parsed B
and_then (parsed a) f = f a
and_then (invalid message) f = invalid message

abbrev pub ok_or : {A : Type 0} → Option A → String → Parsed A
ok_or none message = invalid message
ok_or (some a) message = parsed a

abbrev expected : String → String → String → String → String
expected what other first second =
    concat (
      "Invalid edit." ∷ what ∷ " '" ∷ other ∷ "': expected '" ∷ first ∷ "' or '" ∷ second ∷ "'"
      ∷ [])

unfoldable pub parse_edit_match_mode : Option String → Parsed EditMatchMode
parse_edit_match_mode value =
    let v = unwrap_or value "literal" in
    if v == "literal"
    then parsed literal
    else if v == "regex"
    then parsed regex
    else invalid (expected "match_mode" v "literal" "regex")

unfoldable pub parse_edit_occurrence : Option String → Parsed EditOccurrence
parse_edit_occurrence value =
    let v = unwrap_or value "first" in
    if v == "first"
    then parsed EditOccurrence.first
    else if v == "all"
    then parsed EditOccurrence.all
    else invalid (expected "occurrence" v "first" "all")

unfoldable pub parse_edit_mode : Option String → Parsed EditToolMode
parse_edit_mode value =
    let v = unwrap_or value "apply" in
    if v == "preview"
    then parsed preview
    else if v == "apply"
    then parsed apply
    else invalid (expected "mode" v "preview" "apply")

abbrev missing_field : String → String → String
missing_field field operation = concat (
    "Invalid edit arguments: missing field `operation." ∷ field ∷ "` for " ∷ operation
    ∷ " operation" ∷ [])

unfoldable pub resolve_edit_operation : EditArgs → Parsed ResolvedEditOperation
unfolding parse_edit_match_mode parse_edit_occurrence
resolve_edit_operation args =
    let op = args.operation in
    let op_type = unwrap_or op.operation_type "search_replace" in
    if op_type == "create"
    then and_then (ok_or op.content (missing_field "content" "create")) (λ c. parsed (create c))
    else if op_type == "search_replace"
    then and_then (ok_or op.search (missing_field "search" "search_replace")) (λ search.
      and_then (ok_or op.replacement (missing_field "replacement" "search_replace")) (λ replacement.
        and_then (parse_edit_match_mode op.match_mode) (λ match_mode.
          and_then (parse_edit_occurrence op.occurrence) (λ occurrence. parsed (
            search_replace (record {
              search = search;
              replacement = replacement;
              match_mode = match_mode;
              occurrence = occurrence;
            }))))))
    else invalid (
        concat (
          "Invalid edit.operation.type '" ∷ op_type ∷ "': expected 'search_replace' or 'create'"
          ∷ []))
