-- ===== src/Guards/Repetition.antt =====
-- The output repetition guard (crates/agnt-core/src/hook/output_repetition.rs). Texts are lists of
-- code points; what is measured and compared in bytes is encoded first. `to_lowercase` of the
-- standard library, with its tables of Unicode, is an argument.
pub mod Suffix
pub mod Rounds
use nu_agent.Prelude.{
  ℕ, zero, suc, ◌+◌, ◌-◌, ◌*◌, ◌/◌, ◌%◌, Bool, true, false, not, ◌&&◌, ◌||◌, List, [], ◌∷◌, ◌++◌,
  Option, none, some, String, ltb, leb, nat_beq, if◌then◌else◌, length, take, drop, is_whitespace,
  split_whitespace, join_space, codes,
}
use nu_agent.Guards.DoomLoop.{doom_loop_backoff_limit}
use nu_agent.Turn.Retry.{output_repetition_stop_prefix, output_repetition_backoff_message}
use nu_agent.Prelude.{concat}

abbrev pub output_repetition_threshold : ℕ
output_repetition_threshold = 5

abbrev pub output_repetition_check_interval : ℕ
output_repetition_check_interval = 100

abbrev pub output_repetition_window : ℕ
output_repetition_window = 2000

abbrev pub min_unit : ℕ
min_unit = 8

abbrev pub output_repetition_message : String
output_repetition_message =
    "Output repetition detected: your responses repeated the same content. Change your approach: write different content, call a tool, or ask the user for guidance."

abbrev pub stop_message : String
stop_message = concat (
    output_repetition_stop_prefix
    ∷ " the assistant kept repeating the same output after repeated steering. The run was stopped."
    ∷ [])

pub record RepetitionState : Type 0 where
  pub last_segment : Option (List ℕ)
  pub consecutive : ℕ
  pub escalation_count : ℕ
  pub last_check_len : ℕ
  pub intra_stream_detected : Bool

abbrev pub default_repetition : RepetitionState
default_repetition = record {
  last_segment = none;
  consecutive = 0;
  escalation_count = 0;
  last_check_len = 0;
  intra_stream_detected = false;
}

pub data RepetitionDetection : Type 0 where
  first backoff stopped : String → RepetitionDetection

pub data RepetitionAction : Type 0 where
  warn stop : RepetitionAction

-- The content of an assistant message, as far as the guard looks.
pub data AssistantContent : Type 0 where
  text : List ℕ → AssistantContent
  tool_call other : AssistantContent

unfoldable pub reset_ladder : RepetitionState → RepetitionState
reset_ladder s = record s { escalation_count = 0; last_check_len = 0 }

unfoldable pub ladder : ℕ → RepetitionDetection
ladder n =
    if nat_beq n 1
    then RepetitionDetection.first output_repetition_message
    else if leb n (1 + doom_loop_backoff_limit)
    then RepetitionDetection.backoff output_repetition_backoff_message
    else RepetitionDetection.stopped stop_message

unfoldable pub escalate : RepetitionState → RepetitionState × RepetitionDetection
unfolding ladder
escalate s =
    (record s { escalation_count = s.escalation_count + 1 }, ladder (s.escalation_count + 1))

unfoldable pub bytes_eq : List ℕ → List ℕ → Bool
bytes_eq [] [] = true
bytes_eq (x ∷ xs) (y ∷ ys) = nat_beq x y && bytes_eq xs ys
bytes_eq _ _ = false

trim_start : List ℕ → List ℕ
unfolding is_whitespace
trim_start [] = []
trim_start (c ∷ s) = let rest = trim_start s in if is_whitespace c then rest else c ∷ s

abbrev pub is_empty : List ℕ → Bool
is_empty [] = true
is_empty (c ∷ s) = false

trim_end : List ℕ → List ℕ
unfolding is_whitespace
trim_end [] = []
trim_end (c ∷ s) =
    let rest = trim_end s in if is_empty rest && is_whitespace c then [] else c ∷ rest

-- The bytes of a code point in UTF-8.
unfoldable pub encode_char : ℕ → List ℕ
encode_char c =
    if ltb c 0x80
    then c ∷ []
    else if ltb c 0x800
    then (0xc0 + c / 0x40) ∷ (0x80 + c % 0x40) ∷ []
    else if ltb c 0x10000
    then (0xe0 + c / 0x1000) ∷ (0x80 + c / 0x40 % 0x40) ∷ (0x80 + c % 0x40) ∷ []
    else (0xf0 + c / 0x40000)
      ∷ (0x80 + c / 0x1000 % 0x40)
      ∷ (0x80 + c / 0x40 % 0x40)
      ∷ (0x80 + c % 0x40)
      ∷ []

unfoldable pub encode : List ℕ → List ℕ
unfolding encode_char
encode [] = []
encode (c ∷ s) = encode_char c ++ encode s

-- A byte at which no character goes on.
unfoldable pub is_char_start : List ℕ → Bool
is_char_start [] = true
is_char_start (b ∷ bytes) = ltb b 0x80 || leb 0xc0 b

unfoldable pub floor_char_boundary : List ℕ → ℕ → ℕ
unfolding is_char_start
floor_char_boundary bytes zero = zero
floor_char_boundary bytes (suc i) =
    let below = floor_char_boundary bytes i in
    if is_char_start (drop (suc i) bytes) then suc i else below

-- `chunks_exact` of the unit's length: every chunk is the unit.
unfoldable pub all_chunks : ℕ → List ℕ → List ℕ → Bool
unfolding bytes_eq
all_chunks zero unit suffix = true
all_chunks (suc n) unit suffix =
    bytes_eq (take (length unit) suffix) unit && all_chunks n unit (drop (length unit) suffix)

-- Whether the window ends in a unit of a length that is repeated.
unfoldable pub ends_in_unit : List ℕ → ℕ → Bool
unfolding all_chunks
ends_in_unit window unit_len =
    all_chunks output_repetition_threshold (drop (length window - unit_len) window)
      (drop (length window - unit_len * output_repetition_threshold) window)

-- The lengths from one on, as many as are said.
unfoldable pub any_unit : List ℕ → ℕ → ℕ → Bool
unfolding ends_in_unit
any_unit window unit_len zero = false
any_unit window unit_len (suc n) = ends_in_unit window unit_len || any_unit window (suc unit_len) n

-- The window of the normalized text: at most so many bytes, and more only to begin at a character.
unfoldable pub window_of : List ℕ → List ℕ
unfolding floor_char_boundary
window_of normalized =
    drop (floor_char_boundary normalized (length normalized - output_repetition_window)) normalized

unfoldable pub is_repeating : List ℕ → Bool
unfolding any_unit
is_repeating window =
    leb output_repetition_threshold (length window)
    && any_unit window min_unit (suc (length window / output_repetition_threshold) - min_unit)

abbrev pub text_of : List AssistantContent → List ℕ
text_of [] = []
text_of (AssistantContent.text t ∷ content) = t ++ text_of content
text_of (AssistantContent.tool_call ∷ content) = text_of content
text_of (AssistantContent.other ∷ content) = text_of content

abbrev pub count_tool_calls : List AssistantContent → ℕ
count_tool_calls [] = 0
count_tool_calls (AssistantContent.text t ∷ content) = count_tool_calls content
count_tool_calls (AssistantContent.tool_call ∷ content) = suc (count_tool_calls content)
count_tool_calls (AssistantContent.other ∷ content) = count_tool_calls content

abbrev pub same_segment : Option (List ℕ) → List ℕ → Bool
same_segment none s = false
same_segment (some t) s = bytes_eq t s

-- The count of a segment that is not empty.
unfoldable pub count_segment : RepetitionState → List ℕ → RepetitionState
unfolding reset_ladder
count_segment s normalized =
    if same_segment s.last_segment normalized
    then (record s { consecutive = s.consecutive + 1 })
    else reset_ladder (record s { last_segment = some normalized; consecutive = 1 })

module _ (to_lowercase : List ℕ → List ℕ) where
  unfoldable pub normalize : List ℕ → List ℕ
  unfolding trim_start trim_end
  normalize s = join_space (split_whitespace (to_lowercase (trim_end (trim_start s))))

  unfoldable pub record_response :
      RepetitionState → List ℕ → Bool → RepetitionState × Option RepetitionDetection
  unfolding normalize count_segment escalate reset_ladder
  record_response s response had_tool_calls =
      if had_tool_calls
      then (reset_ladder (record s { last_segment = none; consecutive = 0 }), none)
      else if is_empty (normalize response)
      then (s, none)
      else (let t = count_segment s (normalize response) in
          let (u, d) = escalate t in
          if leb output_repetition_threshold t.consecutive then (u, some d) else (t, none))

  unfoldable pub record_turn_content :
      RepetitionState → List AssistantContent → RepetitionState × Option RepetitionDetection
  unfolding record_response
  record_turn_content s content =
      record_response s (text_of content) (ltb 0 (count_tool_calls content))

  unfoldable pub finish_turn :
      RepetitionState → List AssistantContent → RepetitionState × Option RepetitionDetection
  unfolding record_turn_content escalate
  finish_turn s content =
      let quiet : RepetitionState = record s { intra_stream_detected = false } in
      let (t, d) = escalate (record quiet { last_check_len = 0 }) in
      if s.intra_stream_detected then (t, some d) else record_turn_content quiet content

  unfoldable pub check_aggregated :
      RepetitionState → List ℕ → RepetitionState × Option RepetitionAction
  unfolding encode normalize window_of is_repeating
  check_aggregated s aggregated =
      let len = length (encode aggregated) in
      if ltb len (s.last_check_len + output_repetition_check_interval) then (s, none) else (
        record s { last_check_len = len },
        if is_repeating (window_of (encode (normalize aggregated)))
            then some RepetitionAction.stop
            else none,
      )
