-- ===== src/Tui/PromptQueue/Single.antt =====
-- The repair of the single active prompt.
use nu_agent.Prelude.{
  ℕ, ◌≤◌, ◌≡◌, refl, sym, ◌∙◌, ap, true, List, [], ◌∷◌, Option, none, some, nat_beq, length, retain,
  arith, le→ltb, Bool-cases, inl, inr,
}
use nu_agent.Tui.PromptQueue.{
  in_progress, same_status, QueuedPrompt, PromptQueue, set_status, single_active, mark_active,
  enforce_single_active_invariant,
}
use nu_agent.Tui.PromptQueue.Status.{with_status, IsDistinct, hit-status, miss-rest, same_status→eq}
use nu_agent.Tui.PromptQueue.Invariant.{IsWellFormed, to_list}

same_in_progress :
    (p : QueuedPrompt)
    → same_status p.status in_progress ≡ true
    → (record p { status = in_progress }) ≡ p
same_in_progress p h =
    ap (λ st. record p { status = st }) (sym (same_status→eq p.status in_progress h))

-- Setting a status that the prompt has already changes nothing.
set_status-same :
    (a : ℕ) (items : List QueuedPrompt)
    → with_status in_progress items ≡ a ∷ []
    → IsDistinct items
    → set_status a in_progress items ≡ items
unfolding set_status IsDistinct
set_status-same a [] e d = refl
set_status-same a (p ∷ items) e d = elim (Bool-cases (nat_beq p.id a)) [
  | inl hit ↦
      rw (hit, set_status)
        (ap (λ x. x ∷ items) (same_in_progress p (hit-status in_progress a [] p items d e hit)))
  | inr other ↦
      rw (other, set_status)
        (ap (◌∷◌ p) (set_status-same a items (miss-rest in_progress a [] p items e other) d.1))
]

in_progress-count :
    (items : List QueuedPrompt)
    → length (retain (λ p. same_status p.status in_progress) items)
      ≡ length (with_status in_progress items)
unfolding with_status
in_progress-count [] = refl
in_progress-count (p ∷ items) = ground (arith, in_progress-count items)

to_list-length : (o : Option ℕ) → length (to_list o) ≤ 1
to_list-length none = omega arith
to_list-length (some a) = omega arith

single_active-same : (s : PromptQueue) → IsWellFormed s → single_active s ≡ s
unfolding single_active
single_active-same s w =
    let count = in_progress-count s.prompt_items ∙ ap (λ (l : List ℕ). length l) w.active in
    let few = to_list-length s.active_prompt_id in
    rw
      (le→ltb 1 (length (retain (λ p. same_status p.status in_progress) s.prompt_items))
        (omega arith))
      refl

mark_active-same :
    (items : List QueuedPrompt) (pending : List ℕ) (active : Option ℕ) (n : ℕ)
    → IsDistinct items
    → with_status in_progress items ≡ to_list active
    → mark_active (record {
      prompt_items = items;
      pending_prompt_ids = pending;
      active_prompt_id = active;
      next_prompt_id = n;
    })
      ≡ record {
        prompt_items = items;
        pending_prompt_ids = pending;
        active_prompt_id = active;
        next_prompt_id = n;
      }
unfolding mark_active
mark_active-same items pending none n d e = refl
mark_active-same items pending (some a) n d e =
    ap
      (λ l. record {
        prompt_items = l;
        pending_prompt_ids = pending;
        active_prompt_id = some a;
        next_prompt_id = n;
      })
      (set_status-same a items e d)

-- On a well-formed queue the repair of the single active prompt has nothing to do.
pub enforce_single_active_invariant-same :
    (s : PromptQueue) → IsWellFormed s → enforce_single_active_invariant s ≡ s
unfolding enforce_single_active_invariant
enforce_single_active_invariant-same s w =
    ap mark_active (single_active-same s w)
    ∙ mark_active-same s.prompt_items s.pending_prompt_ids s.active_prompt_id s.next_prompt_id
        w.distinct w.active
