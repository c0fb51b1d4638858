-- ===== src/Examples/Saved.antt =====
-- The theorems on saved messages at a concrete turn.
use nu_agent.Prelude.{ℕ, ◌≡◌, refl, true, false, List, [], ◌∷◌, String, string_eq}
use nu_agent.Session.Repair.{
  text, tool_result, user_other, AssistantContent, tool_call, assistant_other, Message, user,
  assistant, Outcomes, contains, answered_ids, content_ids, unanswered, with_results, close_with,
  close_unanswered_tool_calls_with, replace_placeholder_results_with,
}
use nu_agent.Session.Repair.Closed.{call_ids, made_ids, close_unanswered_tool_calls_with-answered}
use nu_agent.Session.Repair.Replaced.{
  MessagesBecome, replace_placeholder_results_with-MessagesBecome,
}

abbrev call_of : String → AssistantContent ℕ
call_of id = tool_call (record { id = id; name = "ls"; rest = 0 })

abbrev turn : List (Message ℕ)
turn =
    user (user_other 1 ∷ [])
    ∷ assistant 0 (assistant_other 2 ∷ call_of "a" ∷ call_of "b" ∷ [])
    ∷ user (
        tool_result
          (record { call = "a"; name = "ls"; content = text "none" ∷ []; is_error = true })
        ∷ [])
    ∷ []

abbrev outcomes : Outcomes
outcomes = ("a", "x.txt", false) ∷ []

close_unanswered_tool_calls_with-answered_example :
    contains "b" (answered_ids (close_unanswered_tool_calls_with turn outcomes)) ≡ true
close_unanswered_tool_calls_with-answered_example =
    close_unanswered_tool_calls_with-answered turn outcomes "b" (
      unfold close_unanswered_tool_calls_with close_with answered_ids content_ids unanswered
        with_results contains call_ids made_ids in
      refl)

replace_placeholder_results_with-MessagesBecome_example :
    MessagesBecome "none" outcomes turn (replace_placeholder_results_with "none" turn outcomes)
replace_placeholder_results_with-MessagesBecome_example =
    replace_placeholder_results_with-MessagesBecome "none" outcomes turn
