-- ===== src/Session/Repair/Closed.antt =====
-- After the repair every call is answered.
use nu_agent.Prelude.{
  ◌≡◌, refl, sym, ◌∙◌, ap, true, false, ◌||◌, List, [], ◌∷◌, ◌++◌, map, String, ◌==◌, string_eq,
  ==_iff, arith, Bool-cases, Option-cases, inl, inr,
}
use nu_agent.Session.Repair.{
  ToolCall, AssistantContent, tool_call, assistant_other, Message, user, assistant, other, Outcomes,
  contains, find_outcome, content_ids, answered_ids, unanswered, closing_result, with_results,
  close_with, close_unanswered_tool_calls_with,
}

pub contains-append :
    (id : String) (xs ys : List String)
    → contains id (xs ++ ys) ≡ (contains id xs || contains id ys)
unfolding contains
contains-append id [] ys = refl
contains-append id (x ∷ xs) ys = ground (arith, contains-append id xs ys)

module _ {X : Type 0} where
  -- The calls of an assistant message, and those of all messages.
  unfoldable pub made_ids : List (AssistantContent X) → List String
  made_ids [] = []
  made_ids (tool_call c ∷ content) = c.id ∷ made_ids content
  made_ids (assistant_other x ∷ content) = made_ids content

  unfoldable pub call_ids : List (Message X) → List String
  unfolding made_ids
  call_ids [] = []
  call_ids (user content ∷ messages) = call_ids messages
  call_ids (assistant x content ∷ messages) = made_ids content ++ call_ids messages
  call_ids (other x ∷ messages) = call_ids messages

  abbrev ids_of : List (ToolCall X) → List String
  ids_of [] = []
  ids_of (c ∷ cs) = c.id ∷ ids_of cs

  content_ids-closing :
      (results : Outcomes) (cs : List (ToolCall X))
      → content_ids (map (closing_result results) cs) ≡ ids_of cs
  unfolding content_ids closing_result
  content_ids-closing results [] = refl
  content_ids-closing results (c ∷ cs) = elim (Option-cases (find_outcome c.id results)) [
    | inl unseen ↦ rw (unseen, closing_result) (ap (◌∷◌ c.id) (content_ids-closing results cs))
    | inr (o, seen) ↦ rw (seen, closing_result) (ap (◌∷◌ c.id) (content_ids-closing results cs))
  ]

  answered_ids-with_results :
      (results : Outcomes) (x : X) (content : List (AssistantContent X)) (cs : List (ToolCall X))
      (rest : List (Message X))
      → answered_ids (with_results results (assistant x content) cs rest)
        ≡ ids_of cs ++ answered_ids rest
  unfolding answered_ids with_results
  answered_ids-with_results results x content [] rest = refl
  answered_ids-with_results results x content (c ∷ cs) rest =
      ap (λ l. l ++ answered_ids rest) (content_ids-closing results (c ∷ cs))

  call_ids-with_results :
      (results : Outcomes) (x : X) (content : List (AssistantContent X)) (cs : List (ToolCall X))
      (rest : List (Message X))
      → call_ids (with_results results (assistant x content) cs rest)
        ≡ made_ids content ++ call_ids rest
  unfolding call_ids with_results
  call_ids-with_results results x content [] rest = refl
  call_ids-with_results results x content (c ∷ cs) rest = refl

  contains-unanswered :
      (id : String) (answered : List String) (content : List (AssistantContent X))
      → contains id answered ≡ false
      → contains id (ids_of (unanswered answered content)) ≡ contains id (made_ids content)
  unfolding unanswered made_ids contains
  contains-unanswered id answered [] h = refl
  contains-unanswered id answered (tool_call c ∷ content) h =
      let same : (c.id == id) ≡ true → contains c.id answered ≡ false =
        λ e. ap (λ x. contains x answered) ((==_iff c.id id).0 e) ∙ h in
      ground (arith, same, contains-unanswered id answered content h)
  contains-unanswered id answered (assistant_other x ∷ content) h =
      contains-unanswered id answered content h

  module _ (answered : List String) (results : Outcomes) where
    call_ids-close_with :
        (messages : List (Message X))
        → call_ids (close_with answered results messages) ≡ call_ids messages
    unfolding call_ids close_with
    call_ids-close_with [] = refl
    call_ids-close_with (user content ∷ messages) = call_ids-close_with messages
    call_ids-close_with (assistant x content ∷ messages) =
        call_ids-with_results results x content (unanswered answered content)
          (close_with answered results messages)
        ∙ ap (λ l. made_ids content ++ l) (call_ids-close_with messages)
    call_ids-close_with (other x ∷ messages) = call_ids-close_with messages

    -- What was answered stays answered.
    answered-kept :
        (id : String) (messages : List (Message X))
        → contains id (answered_ids messages) ≡ true
        → contains id (answered_ids (close_with answered results messages)) ≡ true
    unfolding answered_ids close_with
    answered-kept id [] h = h
    answered-kept id (user content ∷ messages) h = ground (
      arith,
      h,
      answered-kept id messages,
      contains-append id (content_ids content) (answered_ids messages),
      contains-append id (content_ids content)
          (answered_ids (close_with answered results messages)),
    )
    answered-kept id (assistant x content ∷ messages) h =
        let rest = close_with answered results messages in
        ap (contains id)
          (answered_ids-with_results results x content (unanswered answered content) rest)
        ∙ ground (
          arith,
          answered-kept id messages h,
          contains-append id (ids_of (unanswered answered content)) (answered_ids rest),
        )
    answered-kept id (other x ∷ messages) h = answered-kept id messages h

    -- A call that nothing answered is answered by the repair.
    newly-answered :
        (id : String) (messages : List (Message X))
        → contains id answered ≡ false
        → contains id (call_ids messages) ≡ true
        → contains id (answered_ids (close_with answered results messages)) ≡ true
    unfolding answered_ids close_with call_ids
    newly-answered id [] n h = h
    newly-answered id (user content ∷ messages) n h = ground (
      arith,
      newly-answered id messages n h,
      contains-append id (content_ids content)
          (answered_ids (close_with answered results messages)),
    )
    newly-answered id (assistant x content ∷ messages) n h =
        let rest = close_with answered results messages in
        ap (contains id)
          (answered_ids-with_results results x content (unanswered answered content) rest)
        ∙ ground (
          arith,
          h,
          newly-answered id messages n,
          contains-unanswered id answered content n,
          contains-append id (made_ids content) (call_ids messages),
          contains-append id (ids_of (unanswered answered content)) (answered_ids rest),
        )
    newly-answered id (other x ∷ messages) n h = newly-answered id messages n h

  -- After the repair every call that an assistant message makes is answered by a result.
  pub close_unanswered_tool_calls_with-answered :
      (messages : List (Message X)) (results : Outcomes) (id : String)
      → contains id (call_ids (close_unanswered_tool_calls_with messages results)) ≡ true
      → contains id (answered_ids (close_unanswered_tool_calls_with messages results)) ≡ true
  unfolding close_unanswered_tool_calls_with
  close_unanswered_tool_calls_with-answered messages results id h =
      let made =
        ap (contains id) (sym (call_ids-close_with (answered_ids messages) results messages)) ∙ h in
      elim (Bool-cases (contains id (answered_ids messages))) [
        | inl old ↦ answered-kept (answered_ids messages) results id messages old
        | inr new ↦ newly-answered (answered_ids messages) results id messages new made
      ]
