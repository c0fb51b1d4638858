-- ===== src/Tui/PromptQueue/Invariant.antt =====
-- Every operation keeps the queue well formed.
use nu_agent.Prelude.{
  ℕ, ◌≤◌, ◌<◌, ◌≡◌, refl, ◌∙◌, ap, false, List, [], ◌∷◌, ◌++◌, Option, none, some, String, nat_beq,
  if◌then◌else◌, All, arith, append-nil,
}
use nu_agent.Tui.PromptQueue.{
  PromptStatus, queued, in_progress, same_status, PromptFacts, QueuedPrompt, PromptQueue, u64_max,
  enqueue_prompt, set_status,
}
use nu_agent.Tui.PromptQueue.Status.{
  with_status, IsDistinct, with_status-set_head, with_status-set_new,
}
use nu_agent.Tui.PromptQueue.Drain.{IsBelow}

abbrev pub to_list : Option ℕ → List ℕ
to_list none = []
to_list (some a) = a ∷ []

-- The items have distinct identifiers below the next one; the pending identifiers are those of the
-- queued items, in order, and the active one is that of the only item in progress.
pub record IsWellFormed (s : PromptQueue) : Type 0 where
  pub distinct : IsDistinct s.prompt_items
  pub below : IsBelow s.next_prompt_id s.prompt_items
  pub pending : with_status queued s.prompt_items ≡ s.pending_prompt_ids
  pub active : with_status in_progress s.prompt_items ≡ to_list s.active_prompt_id

with_status-append :
    (q : PromptStatus) (p : QueuedPrompt) (items : List QueuedPrompt)
    → with_status q (items ++ p ∷ [])
      ≡ with_status q items ++ (if same_status p.status q then p.id ∷ [] else [])
unfolding with_status
with_status-append q p [] = ground arith
with_status-append q p (x ∷ items) = ground (arith, with_status-append q p items)

IsBelow-append :
    (n m : ℕ) (p : QueuedPrompt) (items : List QueuedPrompt)
    → n ≤ m
    → p.id < m
    → IsBelow n items
    → IsBelow m (items ++ p ∷ [])
IsBelow-append n m p [] l k h = (k, tt)
IsBelow-append n m p (x ∷ items) l k h = (omega arith, IsBelow-append n m p items l k h.1)

Differs-append :
    (j : ℕ) (p : QueuedPrompt) (items : List QueuedPrompt)
    → nat_beq p.id j ≡ false
    → All (λ (q : QueuedPrompt). nat_beq q.id j ≡ false) items
    → All (λ (q : QueuedPrompt). nat_beq q.id j ≡ false) (items ++ p ∷ [])
Differs-append j p [] n d = (n, tt)
Differs-append j p (x ∷ items) n d = (d.0, Differs-append j p items n d.1)

IsDistinct-append :
    (p : QueuedPrompt) (items : List QueuedPrompt)
    → IsBelow p.id items
    → IsDistinct items
    → IsDistinct (items ++ p ∷ [])
unfolding IsDistinct
IsDistinct-append p [] b d = (tt, tt)
IsDistinct-append p (x ∷ items) b d =
    (Differs-append x.id p items (ground arith) d.0, IsDistinct-append p items b.1 d.1)

pub enqueue_prompt-IsWellFormed :
    (s : PromptQueue) (text : String) (facts : PromptFacts)
    → s.next_prompt_id < u64_max
    → IsWellFormed s
    → IsWellFormed (enqueue_prompt s text facts).0
unfolding enqueue_prompt
enqueue_prompt-IsWellFormed s text facts room w = record {
  distinct = IsDistinct-append _ s.prompt_items w.below w.distinct;
  below = IsBelow-append s.next_prompt_id _ _ s.prompt_items (omega arith) (omega arith) w.below;
  pending =
      with_status-append queued _ s.prompt_items ∙ ap (λ l. l ++ s.next_prompt_id ∷ []) w.pending;
  active = with_status-append in_progress _ s.prompt_items ∙ append-nil _ ∙ w.active;
}

-- Moving the first queued prompt to another status.
pub take_next :
    (items : List QueuedPrompt) (next : ℕ) (pending : List ℕ)
    → IsDistinct items
    → with_status queued items ≡ next ∷ pending
    → with_status in_progress items ≡ []
    → (with_status queued (set_status next in_progress items) ≡ pending)
      × (with_status in_progress (set_status next in_progress items) ≡ next ∷ [])
take_next items next pending d e a = (
  with_status-set_head queued in_progress next pending items d e refl,
  with_status-set_new queued in_progress next pending items d e a,
)
