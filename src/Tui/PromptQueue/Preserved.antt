-- ===== src/Tui/PromptQueue/Preserved.antt =====
-- The operations over a run: what is preserved, and what comes out.
use nu_agent.Prelude.{
  ℕ, ◌<◌, ◌≡◌, refl, sym, ◌∙◌, ap, subst, List, [], ◌∷◌, ◌++◌, Option, none, some, String,
}
use nu_agent.Tui.PromptQueue.{
  queued, in_progress, done, cancelled, PromptFacts, QueuedPrompt, PromptQueue, u64_max,
  enqueue_prompt, set_status, activate_next_prompt, complete_active_prompt, drain,
  cancel_and_drain_to_texts, coalesce_pending_prompts, enforce_single_active_invariant,
}
use nu_agent.Tui.PromptQueue.Status.{
  texts_with, set_status-IsDistinct, with_status-set_head, with_status-set_other, find_item-head,
}
use nu_agent.Tui.PromptQueue.Drain.{
  set_status-IsBelow, drain-IsBelow, drain-IsDistinct, drain-queued, drain-other,
}
use nu_agent.Tui.PromptQueue.Single.{enforce_single_active_invariant-same}
use nu_agent.Tui.PromptQueue.Invariant.{IsWellFormed, enqueue_prompt-IsWellFormed, take_next}

activate_next_prompt-IsWellFormed :
    (items : List QueuedPrompt) (pending : List ℕ) (active : Option ℕ) (n : ℕ)
    → IsWellFormed (record {
      prompt_items = items;
      pending_prompt_ids = pending;
      active_prompt_id = active;
      next_prompt_id = n;
    })
    → IsWellFormed
        (activate_next_prompt (record {
          prompt_items = items;
          pending_prompt_ids = pending;
          active_prompt_id = active;
          next_prompt_id = n;
        })).0
unfolding activate_next_prompt
activate_next_prompt-IsWellFormed items pending (some a) n w = w
activate_next_prompt-IsWellFormed items [] none n w = w
activate_next_prompt-IsWellFormed items (next ∷ pending) none n w =
    let (q, a) = take_next items next pending w.distinct w.pending w.active in
    record {
      distinct = set_status-IsDistinct next in_progress items w.distinct;
      below = set_status-IsBelow n next in_progress items w.below;
      pending = q;
      active = a;
    }

pub complete_active_prompt-IsWellFormed :
    (items : List QueuedPrompt) (pending : List ℕ) (active : Option ℕ) (n : ℕ)
    → IsWellFormed (record {
      prompt_items = items;
      pending_prompt_ids = pending;
      active_prompt_id = active;
      next_prompt_id = n;
    })
    → IsWellFormed (
        complete_active_prompt (record {
          prompt_items = items;
          pending_prompt_ids = pending;
          active_prompt_id = active;
          next_prompt_id = n;
        }))
unfolding complete_active_prompt
complete_active_prompt-IsWellFormed items pending none n w = w
complete_active_prompt-IsWellFormed items pending (some a) n w = record {
  distinct = set_status-IsDistinct a done items w.distinct;
  below = set_status-IsBelow n a done items w.below;
  pending =
      with_status-set_other in_progress done queued a [] items w.distinct w.active refl refl
      ∙ w.pending;
  active = with_status-set_head in_progress done a [] items w.distinct w.active refl;
}

cancel_and_drain_to_texts-IsWellFormed :
    (s : PromptQueue)
    → IsWellFormed (complete_active_prompt s)
    → IsWellFormed (cancel_and_drain_to_texts s).0
unfolding cancel_and_drain_to_texts
cancel_and_drain_to_texts-IsWellFormed start w =
    let s = complete_active_prompt start in
    record {
      distinct = drain-IsDistinct cancelled s.pending_prompt_ids s.prompt_items w.distinct;
      below = drain-IsBelow s.next_prompt_id cancelled s.pending_prompt_ids s.prompt_items w.below;
      pending =
          (drain-queued cancelled refl s.pending_prompt_ids s.prompt_items w.distinct w.pending).0;
      active =
          drain-other cancelled refl in_progress s.pending_prompt_ids s.prompt_items w.distinct
            w.pending refl refl
          ∙ w.active;
    }

module _ (items : List QueuedPrompt) (id n : ℕ) (ids : List ℕ) where
  abbrev pub before : PromptQueue
  before = record {
    prompt_items = items;
    pending_prompt_ids = id ∷ ids;
    active_prompt_id = none;
    next_prompt_id = n;
  }

  -- The items after the first queued prompt was moved on.
  abbrev pub moved : List QueuedPrompt
  moved = set_status id in_progress items

  first_lem :
      IsWellFormed before
      → ((drain in_progress (id ∷ []) items).0 ≡ moved)
        × ((drain in_progress (id ∷ []) items).1 ++ texts_with queued moved
            ≡ texts_with queued items)
  unfolding drain
  first_lem w =
      let (p, f, t) = find_item-head queued in_progress id ids items w.distinct w.pending refl in
      rw (f, drain) (refl, sym t)

  pub coalesce-step :
      IsWellFormed before
      → IsWellFormed (coalesce_pending_prompts before).0
        × ((coalesce_pending_prompts before).1 ≡ texts_with queued items)
  unfolding coalesce_pending_prompts
  coalesce-step w =
      let (e, t) = first_lem w in
      let (q, a) = take_next items id ids w.distinct w.pending w.active in
      let d = set_status-IsDistinct id in_progress items w.distinct in
      let (q', t') = drain-queued done refl ids moved d q in
      rw e (
        record {
          distinct = drain-IsDistinct done ids moved d;
          below =
              drain-IsBelow n done ids moved (set_status-IsBelow n id in_progress items w.below);
          pending = q';
          active = drain-other done refl in_progress ids moved d q refl refl ∙ a;
        },
        ap (λ l. (drain in_progress (id ∷ []) items).1 ++ l) t' ∙ t,
      )

-- The requests that the interface makes of the queue.
pub data QueueOp : Type 0 where
  enqueue : String → PromptFacts → QueueOp
  activate complete cancel coalesce enforce : QueueOp

unfoldable pub queue_step : PromptQueue → QueueOp → PromptQueue
unfolding enqueue_prompt activate_next_prompt complete_active_prompt cancel_and_drain_to_texts
    coalesce_pending_prompts enforce_single_active_invariant
queue_step s (enqueue text facts) = (enqueue_prompt s text facts).0
queue_step s activate = (activate_next_prompt s).0
queue_step s complete = complete_active_prompt s
queue_step s cancel = (cancel_and_drain_to_texts s).0
queue_step s coalesce = (coalesce_pending_prompts s).0
queue_step s enforce = enforce_single_active_invariant s

coalesce_pending_prompts-IsWellFormed :
    (items : List QueuedPrompt) (pending : List ℕ) (active : Option ℕ) (n : ℕ)
    → IsWellFormed (record {
      prompt_items = items;
      pending_prompt_ids = pending;
      active_prompt_id = active;
      next_prompt_id = n;
    })
    → IsWellFormed
        (coalesce_pending_prompts (record {
          prompt_items = items;
          pending_prompt_ids = pending;
          active_prompt_id = active;
          next_prompt_id = n;
        })).0
unfolding coalesce_pending_prompts
coalesce_pending_prompts-IsWellFormed items [] active n w = w
coalesce_pending_prompts-IsWellFormed items (id ∷ ids) (some a) n w = w
coalesce_pending_prompts-IsWellFormed items (id ∷ ids) none n w = (coalesce-step items id n ids w).0

-- While an identifier is left, every operation keeps the queue well formed: the items have distinct
-- identifiers, the pending identifiers are those of the queued items in their order, and the active
-- one is that of the only item in progress.
pub queue_step-IsWellFormed :
    (s : PromptQueue) (op : QueueOp)
    → s.next_prompt_id < u64_max
    → IsWellFormed s
    → IsWellFormed (queue_step s op)
unfolding queue_step
queue_step-IsWellFormed s (enqueue text facts) room w =
    enqueue_prompt-IsWellFormed s text facts room w
queue_step-IsWellFormed s activate room w =
    activate_next_prompt-IsWellFormed s.prompt_items s.pending_prompt_ids s.active_prompt_id
      s.next_prompt_id w
queue_step-IsWellFormed s complete room w =
    complete_active_prompt-IsWellFormed s.prompt_items s.pending_prompt_ids s.active_prompt_id
      s.next_prompt_id w
queue_step-IsWellFormed s cancel room w = cancel_and_drain_to_texts-IsWellFormed s (
    complete_active_prompt-IsWellFormed s.prompt_items s.pending_prompt_ids s.active_prompt_id
      s.next_prompt_id w)
queue_step-IsWellFormed s coalesce room w =
    coalesce_pending_prompts-IsWellFormed s.prompt_items s.pending_prompt_ids s.active_prompt_id
      s.next_prompt_id w
queue_step-IsWellFormed s enforce room w =
    subst IsWellFormed (sym (enforce_single_active_invariant-same s w)) w
