-- ===== src/Session/Repair/Replaced.antt =====
-- What the replacement of placeholders changes, and what it leaves alone.
use nu_agent.Prelude.{
  ◌≡◌, ◌≢◌, refl, ap, ◌⊎◌, Bool, true, false, List, [], ◌∷◌, none, some, String, ◌==◌, string_eq,
  ==_iff, arith, Bool-cases, Option-cases, inl, inr,
}
use nu_agent.Session.Repair.{
  ToolResultContent, text, block, ToolResult, UserContent, tool_result, user_other, Message, user,
  assistant, other, Outcomes, find_outcome, is_placeholder, replaced, replaced_content,
  replace_placeholder_results_with,
}

-- The first outcome of a call among those that were observed.
unfoldable pub HasOutcome : String → String → Bool → Outcomes → Type 0
HasOutcome call said failed [] = ⊥
HasOutcome call said failed ((id, s, f) ∷ results) =
    ((id ≡ call) × (s ≡ said) × (f ≡ failed)) ⊎ ((id ≢ call) × HasOutcome call said failed results)

-- No outcome of a call was observed.
unfoldable pub IsUnobserved : String → Outcomes → Type 0
IsUnobserved call [] = Unit
IsUnobserved call ((id, said, failed) ∷ results) = (id ≢ call) × IsUnobserved call results

differs : (a b : String) → (a == b) ≡ false → a ≢ b
differs a b h e = let yes = (==_iff a b).1 e in cc (h, yes)

find_outcome-none :
    (call : String) (results : Outcomes)
    → find_outcome call results ≡ none
    → IsUnobserved call results
unfolding find_outcome IsUnobserved
find_outcome-none call [] e = tt
find_outcome-none call ((id, said, failed) ∷ results) e = elim (Bool-cases (id == call)) [
  | inl same ↦ absurd (ground (arith, same, e))
  | inr other_call ↦
      let rest : find_outcome call results ≡ none = ground (arith, other_call, e) in
      (differs id call other_call, find_outcome-none call results rest)
]

find_outcome-some :
    (call : String) (results : Outcomes) (said : String) (failed : Bool)
    → find_outcome call results ≡ some (said, failed)
    → HasOutcome call said failed results
unfolding find_outcome HasOutcome
find_outcome-some call [] said failed e = cc
find_outcome-some call ((id, s, f) ∷ results) said failed e = elim (Bool-cases (id == call)) [
  | inl same ↦
      let text_of : s ≡ said = ground (arith, same, e) in
      let flag_of : f ≡ failed = ground (arith, same, e) in
      inl ((==_iff id call).0 same, text_of, flag_of)
  | inr other_call ↦
      let rest : find_outcome call results ≡ some (said, failed) = ground (arith, other_call, e) in
      inr (differs id call other_call, find_outcome-some call results said failed rest)
]

module _ {X : Type 0} (no_result_provided : String) (results : Outcomes) where
  -- A result that is an error with the placeholder's text, and nothing else.
  abbrev pub IsPlaceholder : ToolResult X → Type 0
  IsPlaceholder r = (r.is_error ≡ true) × (r.content ≡ text no_result_provided ∷ [])

  -- What becomes of a result: a placeholder whose call has an outcome gets the text of the first one
  -- and whether it failed, and keeps its call and name; any other result stays as it is.
  abbrev pub Becomes : ToolResult X → ToolResult X → Type 0
  Becomes r r' =
      (IsPlaceholder r
        × ((said : String) × (failed : Bool) × HasOutcome r.call said failed results
            × (r' ≡ record r { content = text said ∷ []; is_error = failed })))
      ⊎ (((¬ IsPlaceholder r) ⊎ IsUnobserved r.call results) × (r' ≡ r))

  unfoldable pub ContentBecomes : List (UserContent X) → List (UserContent X) → Type 0
  ContentBecomes [] [] = Unit
  ContentBecomes (tool_result r ∷ content) (tool_result r' ∷ content') =
      Becomes r r' × ContentBecomes content content'
  ContentBecomes (user_other x ∷ content) (user_other x' ∷ content') =
      (x ≡ x') × ContentBecomes content content'
  ContentBecomes _ _ = ⊥

  -- Message by message; only results in user messages change.
  unfoldable pub MessagesBecome : List (Message X) → List (Message X) → Type 0
  unfolding ContentBecomes
  MessagesBecome [] [] = Unit
  MessagesBecome (user content ∷ messages) (user content' ∷ messages') =
      ContentBecomes content content' × MessagesBecome messages messages'
  MessagesBecome (assistant x content ∷ messages) (assistant x' content' ∷ messages') =
      (x ≡ x') × (content ≡ content') × MessagesBecome messages messages'
  MessagesBecome (other x ∷ messages) (other x' ∷ messages') =
      (x ≡ x') × MessagesBecome messages messages'
  MessagesBecome _ _ = ⊥

  -- The test agrees with what a placeholder is.
  abbrev IsTested : ToolResult X → Type 0
  IsTested r =
      ((is_placeholder no_result_provided r ≡ true) × IsPlaceholder r)
      ⊎ ((is_placeholder no_result_provided r ≡ false) × (¬ IsPlaceholder r))

  fields-IsTested :
      (call name : String) (content : List (ToolResultContent X)) (failed : Bool)
      → IsTested (record { call = call; name = name; content = content; is_error = failed })
  unfolding is_placeholder
  fields-IsTested call name [] failed = inr (refl, λ h. cc h.1)
  fields-IsTested call name (block x ∷ more) failed = inr (refl, λ h. cc h.1)
  fields-IsTested call name (text said ∷ d ∷ ds) failed = inr (refl, λ h. cc h.1)
  fields-IsTested call name (text said ∷ []) false = inr (refl, λ h. cc h.0)
  fields-IsTested call name (text said ∷ []) true = elim (Bool-cases (said == no_result_provided)) [
    | inl same ↦ inl (same, (refl, ap (λ t. text t ∷ []) ((==_iff said no_result_provided).0 same)))
    | inr other_text ↦ inr (other_text, λ h. differs said no_result_provided other_text (cc h.1))
  ]

  replaced-Becomes : (r : ToolResult X) → Becomes r (replaced no_result_provided results r)
  unfolding replaced
  replaced-Becomes r = elim (fields-IsTested r.call r.name r.content r.is_error) [
    | inr (is_not, is_other) ↦ rw is_not (inr (inl is_other, refl))
    | inl (found, is_one) ↦ elim (Option-cases (find_outcome r.call results)) [
      | inl unseen ↦
          rw found (rw unseen (inr (inr (find_outcome-none r.call results unseen), refl)))
      | inr (o, seen) ↦
          rw found (
            rw seen (inl (is_one, (o.0, o.1, find_outcome-some r.call results o.0 o.1 seen, refl))))
    ]
  ]

  content-Becomes :
      (content : List (UserContent X))
      → ContentBecomes content (replaced_content no_result_provided results content)
  unfolding ContentBecomes replaced_content
  content-Becomes [] = tt
  content-Becomes (tool_result r ∷ content) = (replaced-Becomes r, content-Becomes content)
  content-Becomes (user_other x ∷ content) = (refl, content-Becomes content)

  -- The replacement goes message by message. In user messages, a result that is an error with
  -- just the placeholder's text, and whose call has an observed outcome, gets the text of the first
  -- such outcome and whether it failed; every other result, the rest of these messages and all other
  -- messages stay as they are.
  pub replace_placeholder_results_with-MessagesBecome :
      (messages : List (Message X))
      → MessagesBecome messages
          (replace_placeholder_results_with no_result_provided messages results)
  unfolding MessagesBecome replace_placeholder_results_with
  replace_placeholder_results_with-MessagesBecome [] = tt
  replace_placeholder_results_with-MessagesBecome (user content ∷ messages) =
      (content-Becomes content, replace_placeholder_results_with-MessagesBecome messages)
  replace_placeholder_results_with-MessagesBecome (assistant x content ∷ messages) =
      (refl, refl, replace_placeholder_results_with-MessagesBecome messages)
  replace_placeholder_results_with-MessagesBecome (other x ∷ messages) =
      (refl, replace_placeholder_results_with-MessagesBecome messages)
