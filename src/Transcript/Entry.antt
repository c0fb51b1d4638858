-- ===== src/Transcript/Entry.antt =====
-- The entries of the transcript (crates/agnt-core/src/transcript/entry.rs and ir.rs).
use nu_agent.Prelude.{
  ℕ, ℤ, Bool, true, false, not, ◌||◌, List, [], ◌∷◌, Option, none, some, String, string_eq, ◌==◌,
  if◌then◌else◌,
}
use nu_agent.Protocol.{ToolCall}

pub data MessageRole : Type 0 where
  user assistant : MessageRole

pub data NoticeKind : Type 0 where
  system : NoticeKind

pub data ItemStatus : Type 0 where
  in_progress done failed queued cancelled unknown : ItemStatus

pub data ContentKind : Type 0 where
  diff : String → String → ContentKind
  code : String → ContentKind
  plain : ContentKind

pub record DisplayStats : Type 0 where
  pub files_changed : Option ℕ
  pub insertions : Option ℕ
  pub deletions : Option ℕ
  pub diff_truncated : Option Bool
  pub omitted_files : Option ℕ
  pub omitted_hunks : Option ℕ

pub record DisplaySection : Type 0 where
  pub label : Option String
  pub kind : ContentKind
  pub content : String
  pub stats : Option DisplayStats

pub record Display : Type 0 where
  pub title : Option String
  pub sections : List DisplaySection

abbrev any {ℓ} : {A : Type ℓ} → (A → Bool) → List A → Bool
any p [] = false
any p (x ∷ xs) = p x || any p xs

abbrev is_plain : ContentKind → Bool
is_plain ContentKind.plain = true
is_plain _ = false

abbrev is_diff : ContentKind → Bool
is_diff (ContentKind.diff _ _) = true
is_diff _ = false

unfoldable pub has_code_or_diff : Display → Bool
has_code_or_diff d = any (λ (s : DisplaySection). not (is_plain s.kind)) d.sections

unfoldable pub has_diff : Display → Bool
has_diff d = any (λ (s : DisplaySection). is_diff s.kind) d.sections

pub data ToolKind : Type 0 where
  edit nu generic : ToolKind

-- `BuiltinKind::from_str`, as far as the classification looks.
unfoldable pub from_name : String → ToolKind
from_name name =
    if name == "edit" then ToolKind.edit else if name == "nu" then ToolKind.nu else ToolKind.generic

pub record ToolEntry : Type 0 where
  pub kind : ToolKind
  pub call : ToolCall
  pub preview : Option Display
  pub result : Option Display
  pub status : ItemStatus

pub record MessageEntry : Type 0 where
  pub role : MessageRole
  pub markdown : String
  pub timestamp_millis : Option ℤ
  pub model : Option String
  pub agent : Option String

pub record NoticeEntry : Type 0 where
  pub kind : NoticeKind
  pub text : String

pub record TaskEntry : Type 0 where
  pub name : String
  pub summary : String
  pub status : ItemStatus

pub record BannerEntry : Type 0 where
  pub text : String

pub data TranscriptEntry : Type 0 where
  message : MessageEntry → TranscriptEntry
  tool : ToolEntry → TranscriptEntry
  task : TaskEntry → TranscriptEntry
  notice : NoticeEntry → TranscriptEntry
  banner : BannerEntry → TranscriptEntry

abbrev row_if : Bool → ℕ
row_if true = 1
row_if false = 0

-- The blank row below a tool entry, from its result and its preview.
unfoldable pub bottom_row : Option Display → Option Display → ℕ
bottom_row none (some preview) = row_if (has_code_or_diff preview)
bottom_row (some result) _ = row_if (has_diff result)
bottom_row none none = 0

-- The blank rows above and below the content.
unfoldable pub padding : TranscriptEntry → ℕ × ℕ
padding (TranscriptEntry.tool t) = (0, bottom_row t.result t.preview)
padding _ = (0, 0)
