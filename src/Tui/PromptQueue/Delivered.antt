-- ===== src/Tui/PromptQueue/Delivered.antt =====
-- The texts that come out of the queue.
use nu_agent.Prelude.{ℕ, ◌≡◌, refl, sym, ◌∙◌, ap, subst, List, [], ◌∷◌, none}
use nu_agent.Tui.PromptQueue.{
  queued, cancelled, QueuedPrompt, PromptQueue, complete_active_prompt, cancel_and_drain_to_texts,
  coalesce_pending_prompts,
}
use nu_agent.Tui.PromptQueue.Status.{with_status, texts_with, texts_with-none}
use nu_agent.Tui.PromptQueue.Drain.{drain-queued}
use nu_agent.Tui.PromptQueue.Invariant.{IsWellFormed}
use nu_agent.Tui.PromptQueue.Preserved.{coalesce-step, complete_active_prompt-IsWellFormed}

coalesced :
    (items : List QueuedPrompt) (pending : List ℕ) (n : ℕ)
    → IsWellFormed (record {
      prompt_items = items;
      pending_prompt_ids = pending;
      active_prompt_id = none;
      next_prompt_id = n;
    })
    → (coalesce_pending_prompts (record {
      prompt_items = items;
      pending_prompt_ids = pending;
      active_prompt_id = none;
      next_prompt_id = n;
    })).1
      ≡ texts_with queued items
unfolding coalesce_pending_prompts
coalesced items [] n w = sym (texts_with-none queued items w.pending)
coalesced items (id ∷ ids) n w = (coalesce-step items id n ids w).1

-- On a well-formed queue with no prompt active, joining the pending prompts delivers the texts of
-- the queued items, each once and in their order.
coalesce_pending_prompts-texts :
    (s : PromptQueue)
    → IsWellFormed s
    → s.active_prompt_id ≡ none
    → (coalesce_pending_prompts s).1 ≡ texts_with queued s.prompt_items
coalesce_pending_prompts-texts s w idle =
    let same : s ≡ record s { active_prompt_id = none } =
      ap (λ a. record s { active_prompt_id = a }) idle in
    ap (λ (t : PromptQueue). (coalesce_pending_prompts t).1) same
    ∙ coalesced s.prompt_items s.pending_prompt_ids s.next_prompt_id (subst IsWellFormed same w)

-- On a well-formed queue, cancelling gives back the texts of the queued items, each once and in
-- their order, and leaves none queued.
cancel_and_drain_to_texts-texts :
    (s : PromptQueue)
    → IsWellFormed s
    → ((cancel_and_drain_to_texts s).1 ≡ texts_with queued (complete_active_prompt s).prompt_items)
      × (with_status queued (cancel_and_drain_to_texts s).0.prompt_items ≡ [])
unfolding cancel_and_drain_to_texts
cancel_and_drain_to_texts-texts s w =
    let c =
      complete_active_prompt-IsWellFormed s.prompt_items s.pending_prompt_ids s.active_prompt_id
        s.next_prompt_id w in
    let t = complete_active_prompt s in
    let (q, texts) =
      drain-queued cancelled refl t.pending_prompt_ids t.prompt_items c.distinct c.pending in
    (texts, q)
