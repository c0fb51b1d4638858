-- ===== src/Session/Repair/Again.antt =====
-- Repairing again changes nothing.
use nu_agent.Prelude.{◌≡◌, refl, ◌∙◌, ap, true, List, [], ◌∷◌, String, string_eq, ==_refl, arith}
use nu_agent.Session.Repair.{
  AssistantContent, tool_call, assistant_other, Message, user, assistant, other, Outcomes, contains,
  answered_ids, unanswered, with_results, close_with, close_unanswered_tool_calls_with,
}
use nu_agent.Session.Repair.Closed.{
  contains-append, made_ids, call_ids, close_unanswered_tool_calls_with-answered,
}

-- The calls of a list are among the answered ones.
abbrev Covers : List String → List String → Type 0
Covers answered ids = (id : String) → contains id ids ≡ true → contains id answered ≡ true

module _ {X : Type 0} where
  unanswered-none :
      (answered : List String) (content : List (AssistantContent X))
      → Covers answered (made_ids content)
      → unanswered answered content ≡ []
  unfolding unanswered made_ids contains
  unanswered-none answered [] h = refl
  unanswered-none answered (tool_call c ∷ content) h =
      let one = h c.id (ground (arith, ==_refl c.id)) in
      rw one (unanswered-none answered content (λ id k. h id (ground (arith, k))))
  unanswered-none answered (assistant_other x ∷ content) h = unanswered-none answered content h

  close_with-same :
      (answered : List String) (results : Outcomes) (messages : List (Message X))
      → Covers answered (call_ids messages)
      → close_with answered results messages ≡ messages
  unfolding close_with call_ids with_results
  close_with-same answered results [] h = refl
  close_with-same answered results (user content ∷ messages) h =
      ap (◌∷◌ (user content)) (close_with-same answered results messages h)
  close_with-same answered results (assistant x content ∷ messages) h =
      let here = unanswered-none answered content (λ id k.
        h id (contains-append id (made_ids content) (call_ids messages) ∙ ground (arith, k))) in
      let later = close_with-same answered results messages (λ id k.
        h id (contains-append id (made_ids content) (call_ids messages) ∙ ground (arith, k))) in
      ap
        (λ cs. with_results results (assistant x content) cs (close_with answered results messages))
        here
      ∙ ap (◌∷◌ (assistant x content)) later
  close_with-same answered results (other x ∷ messages) h =
      ap (◌∷◌ (other x)) (close_with-same answered results messages h)

  covered-same :
      (messages : List (Message X)) (results : Outcomes)
      → Covers (answered_ids messages) (call_ids messages)
      → close_unanswered_tool_calls_with messages results ≡ messages
  unfolding close_unanswered_tool_calls_with
  covered-same messages results h = close_with-same (answered_ids messages) results messages h

  -- Repairing messages that were repaired changes nothing, whatever outcomes are given then.
  close_unanswered_tool_calls_with-again :
      (messages : List (Message X)) (results later : Outcomes)
      → close_unanswered_tool_calls_with (close_unanswered_tool_calls_with messages results) later
        ≡ close_unanswered_tool_calls_with messages results
  close_unanswered_tool_calls_with-again messages results later =
      covered-same (close_unanswered_tool_calls_with messages results) later
        (close_unanswered_tool_calls_with-answered messages results)
