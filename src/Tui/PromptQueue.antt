-- ===== src/Tui/PromptQueue.antt =====
-- The queue of submitted prompts (crates/agnt-tui/src/state/prompt_queue.rs, app_state.rs).
pub mod Status
pub mod Drain
pub mod Invariant
pub mod Single
pub mod Preserved
pub mod Delivered
use nu_agent.Prelude.{
  ℕ, zero, suc, ◌+◌, ◌-◌, ◌^◌, min, Bool, true, false, not, ◌&&◌, List, [], ◌∷◌, ◌++◌, Option, none,
  some, String, ℤ, is_some, nat_beq, ltb, if◌then◌else◌, length, retain, map,
}

pub data PromptStatus : Type 0 where
  queued in_progress done cancelled : PromptStatus

abbrev pub same_status : PromptStatus → PromptStatus → Bool
same_status queued queued = true
same_status in_progress in_progress = true
same_status done done = true
same_status cancelled cancelled = true
same_status _ _ = false

pub record PromptFacts : Type 0 where
  pub millis : Option ℤ
  pub model : Option String
  pub agent : Option String

abbrev pub no_facts : PromptFacts
no_facts = record { millis = none; model = none; agent = none }

abbrev pub first_some {ℓ} : {A : Type ℓ} → Option A → Option A → Option A
first_some none later = later
first_some (some a) later = some a

abbrev pub merge_first_some : PromptFacts → PromptFacts → PromptFacts
merge_first_some a later = record {
  millis = first_some a.millis later.millis;
  model = first_some a.model later.model;
  agent = first_some a.agent later.agent;
}

pub record QueuedPrompt : Type 0 where
  pub id : ℕ
  pub prompt_text : String
  pub status : PromptStatus
  pub facts : PromptFacts

-- The four fields of the application state that the queue works on.
pub record PromptQueue : Type 0 where
  pub prompt_items : List QueuedPrompt
  pub pending_prompt_ids : List ℕ
  pub active_prompt_id : Option ℕ
  pub next_prompt_id : ℕ

abbrev pub u64_max : ℕ
u64_max = 2 ^ 64 - 1

unfoldable pub enqueue_prompt : PromptQueue → String → PromptFacts → PromptQueue × ℕ
enqueue_prompt s submitted_text facts =
    let id = s.next_prompt_id in
    let item : QueuedPrompt = record {
      id = id;
      prompt_text = submitted_text;
      status = queued;
      facts = facts;
    } in
    (
      record s {
        next_prompt_id = min (id + 1) u64_max;
        prompt_items = s.prompt_items ++ item ∷ [];
        pending_prompt_ids = s.pending_prompt_ids ++ id ∷ [];
      },
      id,
    )

-- The first item with an identifier gets a status.
unfoldable pub set_status : ℕ → PromptStatus → List QueuedPrompt → List QueuedPrompt
set_status id st [] = []
set_status id st (p ∷ items) =
    let rest = set_status id st items in
    if nat_beq p.id id then (record p { status = st }) ∷ items else p ∷ rest

unfoldable pub find_item : ℕ → List QueuedPrompt → Option QueuedPrompt
find_item id [] = none
find_item id (p ∷ items) = if nat_beq p.id id then some p else find_item id items

unfoldable pub activate_next_prompt : PromptQueue → PromptQueue × Option ℕ
unfolding set_status
activate_next_prompt s = elim s.active_prompt_id [
  | some _ ↦ (s, none)
  | none ↦ elim s.pending_prompt_ids [
    | [] ↦ (s, none)
    | next ∷ pending ↦ (
      record s {
        pending_prompt_ids = pending;
        prompt_items = set_status next in_progress s.prompt_items;
        active_prompt_id = some next;
      },
      some next,
    )
  ]
]

unfoldable pub complete_active_prompt : PromptQueue → PromptQueue
unfolding set_status
complete_active_prompt s = elim s.active_prompt_id [
  | none ↦ s
  | some active ↦ record s {
    active_prompt_id = none;
    prompt_items = set_status active done s.prompt_items;
  }
]

-- The items with some identifiers get a status, one after the other; the texts found.
unfoldable pub drain : PromptStatus → List ℕ → List QueuedPrompt → List QueuedPrompt × List String
unfolding set_status find_item
drain st [] items = (items, [])
drain st (id ∷ ids) items =
    let (items', texts) = drain st ids (set_status id st items) in
    elim (find_item id items) [ none ↦ (items', texts) | some p ↦ (items', p.prompt_text ∷ texts) ]

unfoldable pub cancel_and_drain_to_texts : PromptQueue → PromptQueue × List String
unfolding complete_active_prompt drain
cancel_and_drain_to_texts start =
    let s = complete_active_prompt start in
    let (items, texts) = drain cancelled s.pending_prompt_ids s.prompt_items in
    (record s { pending_prompt_ids = []; prompt_items = items }, texts)

-- The facts of the items with some identifiers, folded in their order.
unfoldable pub merge_facts : PromptFacts → List ℕ → List QueuedPrompt → PromptFacts
unfolding find_item
merge_facts facts [] items = facts
merge_facts facts (id ∷ ids) items = elim (find_item id items) [
  | none ↦ merge_facts facts ids items
  | some p ↦ merge_facts (merge_first_some facts p.facts) ids items
]

unfoldable pub coalesce_pending_prompts : PromptQueue → PromptQueue × List String × PromptFacts
unfolding drain merge_facts
coalesce_pending_prompts s = elim s.pending_prompt_ids [
  | [] ↦ (s, [], no_facts)
  | id ∷ ids ↦ elim s.active_prompt_id [
    | some _ ↦ (s, [], no_facts)
    | none ↦
        let (first, text) = drain in_progress (id ∷ []) s.prompt_items in
        let (items, texts) = drain done ids first in
        (
          record s { pending_prompt_ids = []; active_prompt_id = some id; prompt_items = items },
          text ++ texts,
          merge_facts no_facts (id ∷ ids) s.prompt_items,
        )
  ]
]

unfoldable pub find_in_progress : List QueuedPrompt → Option ℕ
find_in_progress [] = none
find_in_progress (p ∷ items) =
    if same_status p.status in_progress then some p.id else find_in_progress items

abbrev pub is_kept : Option ℕ → ℕ → Bool
is_kept none id = false
is_kept (some k) id = nat_beq k id

-- Every prompt in progress but the one to keep goes back to the front of the queue.
unfoldable pub requeue : Option ℕ → List QueuedPrompt → List ℕ → List QueuedPrompt × List ℕ
requeue keep [] pending = ([], pending)
requeue keep (p ∷ items) pending =
    let moved : Bool = same_status p.status in_progress && not (is_kept keep p.id) in
    let (items', pending') = requeue keep items (if moved then p.id ∷ pending else pending) in
    ((if moved then (record p { status = queued }) else p) ∷ items', pending')

unfoldable pub single_active : PromptQueue → PromptQueue
unfolding find_in_progress requeue
single_active s =
    if ltb 1 (length (retain (λ p. same_status p.status in_progress) s.prompt_items))
    then (let keep = find_in_progress s.prompt_items in
        let (items, pending) = requeue keep s.prompt_items s.pending_prompt_ids in
        record s { active_prompt_id = keep; prompt_items = items; pending_prompt_ids = pending })
    else s

-- The active prompt is in progress.
unfoldable pub mark_active : PromptQueue → PromptQueue
unfolding set_status
mark_active s = elim s.active_prompt_id [
  | none ↦ s
  | some active ↦ record s { prompt_items = set_status active in_progress s.prompt_items }
]

unfoldable pub enforce_single_active_invariant : PromptQueue → PromptQueue
unfolding single_active mark_active
enforce_single_active_invariant s = mark_active (single_active s)
