-- ===== src/Session/Repair.antt =====
-- Repairing the messages of a turn before they are saved (crates/agnt-core/src/session/repair.rs).
-- The messages are rig's, as far as the code looks into them; `X` is whatever else they hold, and the
-- text of rig's placeholder is an argument.
pub mod Closed
pub mod Again
pub mod Replaced
use nu_agent.Prelude.{
  Bool, true, false, not, ◌&&◌, ◌||◌, List, [], ◌∷◌, ◌++◌, map, Option, none, some, String, ◌==◌,
  string_eq, if◌then◌else◌, retain,
}

abbrev pub unanswered_result_text : String
unanswered_result_text = "[interrupted]"

pub data ToolResultContent (X : Type 0) : Type 0 where
  text : String → ToolResultContent X
  block : X → ToolResultContent X

pub record ToolResult (X : Type 0) : Type 0 where
  pub call : String
  pub name : String
  pub content : List (ToolResultContent X)
  pub is_error : Bool

pub record ToolCall (X : Type 0) : Type 0 where
  pub id : String
  pub name : String
  pub rest : X

pub data UserContent (X : Type 0) : Type 0 where
  tool_result : ToolResult X → UserContent X
  user_other : X → UserContent X

pub data AssistantContent (X : Type 0) : Type 0 where
  tool_call : ToolCall X → AssistantContent X
  assistant_other : X → AssistantContent X

pub data Message (X : Type 0) : Type 0 where
  user : List (UserContent X) → Message X
  assistant : X → List (AssistantContent X) → Message X
  other : X → Message X

-- The outcomes that the turn observed: a call, its text, and whether it failed.
abbrev pub Outcomes : Type 0
Outcomes = List (String × String × Bool)

unfoldable pub contains : String → List String → Bool
contains id [] = false
contains id (x ∷ xs) = x == id || contains id xs

-- `results.iter().find(...)`.
unfoldable pub find_outcome : String → Outcomes → Option (String × Bool)
find_outcome id [] = none
find_outcome id ((call, said, failed) ∷ results) =
    if call == id then some (said, failed) else find_outcome id results

module _ {X : Type 0} where
  -- The calls that the results of a user message answer.
  unfoldable pub content_ids : List (UserContent X) → List String
  content_ids [] = []
  content_ids (tool_result r ∷ content) = r.call ∷ content_ids content
  content_ids (user_other x ∷ content) = content_ids content

  unfoldable pub answered_ids : List (Message X) → List String
  unfolding content_ids
  answered_ids [] = []
  answered_ids (user content ∷ messages) = content_ids content ++ answered_ids messages
  answered_ids (assistant x content ∷ messages) = answered_ids messages
  answered_ids (other x ∷ messages) = answered_ids messages

  -- The calls of an assistant message that nothing answers.
  unfoldable pub unanswered : List String → List (AssistantContent X) → List (ToolCall X)
  unfolding contains
  unanswered answered [] = []
  unanswered answered (tool_call c ∷ content) =
      let rest = unanswered answered content in if contains c.id answered then rest else c ∷ rest
  unanswered answered (assistant_other x ∷ content) = unanswered answered content

  unfoldable pub closing_result : Outcomes → ToolCall X → UserContent X
  unfolding find_outcome
  closing_result results c = elim (find_outcome c.id results) [
    | none ↦ tool_result (record {
      call = c.id;
      name = c.name;
      content = text unanswered_result_text ∷ [];
      is_error = false;
    })
    | some (said, failed) ↦
        tool_result
          (record { call = c.id; name = c.name; content = text said ∷ []; is_error = failed })
  ]

  -- A message, with the synthetic results for the calls of it that are left open.
  unfoldable pub with_results :
      Outcomes → Message X → List (ToolCall X) → List (Message X) → List (Message X)
  unfolding closing_result
  with_results results message [] rest = message ∷ rest
  with_results results message (c ∷ cs) rest =
      message ∷ user (map (closing_result results) (c ∷ cs)) ∷ rest

  unfoldable pub close_with : List String → Outcomes → List (Message X) → List (Message X)
  unfolding unanswered with_results
  close_with answered results [] = []
  close_with answered results (user content ∷ messages) =
      user content ∷ close_with answered results messages
  close_with answered results (assistant x content ∷ messages) =
      with_results results (assistant x content) (unanswered answered content)
        (close_with answered results messages)
  close_with answered results (other x ∷ messages) = other x ∷ close_with answered results messages

  unfoldable pub close_unanswered_tool_calls_with : List (Message X) → Outcomes → List (Message X)
  unfolding answered_ids close_with
  close_unanswered_tool_calls_with messages results =
      close_with (answered_ids messages) results messages

  module _ (no_result_provided : String) where
    unfoldable pub is_placeholder : ToolResult X → Bool
    is_placeholder r = elim r.content [
      | [] ↦ false
      | c ∷ more ↦ elim c [
        | block x ↦ false
        | text said ↦ elim more [ [] ↦ r.is_error && said == no_result_provided | d ∷ ds ↦ false ]
      ]
    ]

    unfoldable pub replaced : Outcomes → ToolResult X → ToolResult X
    unfolding is_placeholder find_outcome
    replaced results r =
        if is_placeholder r
        then (elim (find_outcome r.call results) [
          | none ↦ r
          | some (said, failed) ↦ record r { content = text said ∷ []; is_error = failed }
        ])
        else r

    unfoldable pub replaced_content : Outcomes → List (UserContent X) → List (UserContent X)
    unfolding replaced
    replaced_content results [] = []
    replaced_content results (tool_result r ∷ content) =
        tool_result (replaced results r) ∷ replaced_content results content
    replaced_content results (user_other x ∷ content) =
        user_other x ∷ replaced_content results content

    unfoldable pub replace_placeholder_results_with : List (Message X) → Outcomes → List (Message X)
    unfolding replaced_content
    replace_placeholder_results_with [] results = []
    replace_placeholder_results_with (user content ∷ messages) results =
        user (replaced_content results content) ∷ replace_placeholder_results_with messages results
    replace_placeholder_results_with (assistant x content ∷ messages) results =
        assistant x content ∷ replace_placeholder_results_with messages results
    replace_placeholder_results_with (other x ∷ messages) results =
        other x ∷ replace_placeholder_results_with messages results
