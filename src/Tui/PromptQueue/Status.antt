-- ===== src/Tui/PromptQueue/Status.antt =====
-- The identifiers of the prompts with a status, and what changing one prompt does to them.
use nu_agent.Prelude.{
  ℕ, ◌≡◌, refl, ◌∙◌, ap, true, false, List, [], ◌∷◌, some, String, nat_beq, if◌then◌else◌, All,
  arith, Bool-cases, inl, inr,
}
use nu_agent.Tui.PromptQueue.{
  PromptStatus, queued, in_progress, done, cancelled, same_status, QueuedPrompt, set_status,
  find_item,
}

-- The identifiers of the prompts with a status, in order.
unfoldable pub with_status : PromptStatus → List QueuedPrompt → List ℕ
with_status q [] = []
with_status q (p ∷ items) =
    let rest = with_status q items in if same_status p.status q then p.id ∷ rest else rest

-- The texts of the prompts with a status, in order.
unfoldable pub texts_with : PromptStatus → List QueuedPrompt → List String
texts_with q [] = []
texts_with q (p ∷ items) =
    let rest = texts_with q items in if same_status p.status q then p.prompt_text ∷ rest else rest

-- No two prompts have the same identifier.
unfoldable pub IsDistinct : List QueuedPrompt → Type 0
IsDistinct [] = Unit
IsDistinct (p ∷ items) =
    All (λ (q : QueuedPrompt). nat_beq q.id p.id ≡ false) items × IsDistinct items

abbrev Differs : ℕ → List QueuedPrompt → Type 0
Differs id items = All (λ (q : QueuedPrompt). nat_beq q.id id ≡ false) items

with_status-head :
    (q : PromptStatus) (id : ℕ) (rest : List ℕ) (j : ℕ) (items : List QueuedPrompt)
    → Differs j items
    → with_status q items ≡ id ∷ rest
    → nat_beq j id ≡ false
unfolding with_status
with_status-head q id rest j [] d e = absurd (cc)
with_status-head q id rest j (p ∷ items) d e = elim (Bool-cases (same_status p.status q)) [
  | inl y ↦ ground (arith, e)
  | inr n ↦ with_status-head q id rest j items d.1 (ground (arith, e))
]

Differs-set :
    (j id : ℕ) (st : PromptStatus) (items : List QueuedPrompt)
    → Differs j items
    → Differs j (set_status id st items)
unfolding set_status
Differs-set j id st [] d = d
Differs-set j id st (p ∷ items) d = ground (arith, Differs-set j id st items)

pub set_status-IsDistinct :
    (id : ℕ) (st : PromptStatus) (items : List QueuedPrompt)
    → IsDistinct items
    → IsDistinct (set_status id st items)
unfolding set_status IsDistinct
set_status-IsDistinct id st [] d = d
set_status-IsDistinct id st (p ∷ items) d =
    ground (arith, set_status-IsDistinct id st items, Differs-set p.id id st items)

pub same_status→eq : (a b : PromptStatus) → same_status a b ≡ true → a ≡ b
same_status→eq queued queued h = refl
same_status→eq in_progress in_progress h = refl
same_status→eq done done h = refl
same_status→eq cancelled cancelled h = refl
same_status→eq _ _ h = absurd (cc)

same_status_refl : (a : PromptStatus) → same_status a a ≡ true
same_status_refl queued = refl
same_status_refl in_progress = refl
same_status_refl done = refl
same_status_refl cancelled = refl

-- Changing the first prompt with a status to another status takes it from the list of them.
pub with_status-set_head :
    (q st : PromptStatus) (id : ℕ) (rest : List ℕ) (items : List QueuedPrompt)
    → IsDistinct items
    → with_status q items ≡ id ∷ rest
    → same_status st q ≡ false
    → with_status q (set_status id st items) ≡ rest
unfolding with_status set_status IsDistinct
with_status-set_head q st id rest [] d e n = absurd (cc)
with_status-set_head q st id rest (p ∷ items) d e n =
    ground (arith, with_status-set_head q st id rest items, with_status-head q id rest p.id items)

pub hit-status :
    (q : PromptStatus) (id : ℕ) (rest : List ℕ) (p : QueuedPrompt) (items : List QueuedPrompt)
    → IsDistinct (p ∷ items)
    → with_status q (p ∷ items) ≡ id ∷ rest
    → nat_beq p.id id ≡ true
    → same_status p.status q ≡ true
unfolding with_status IsDistinct
hit-status q id rest p items d e hit = ground (arith, e, with_status-head q id rest p.id items)

pub miss-rest :
    (q : PromptStatus) (id : ℕ) (rest : List ℕ) (p : QueuedPrompt) (items : List QueuedPrompt)
    → with_status q (p ∷ items) ≡ id ∷ rest
    → nat_beq p.id id ≡ false
    → with_status q items ≡ id ∷ rest
unfolding with_status
miss-rest q id rest p items e other = ground (arith, e)

-- The lists of the prompts with other statuses are as they were.
pub with_status-set_other :
    (q st r : PromptStatus) (id : ℕ) (rest : List ℕ) (items : List QueuedPrompt)
    → IsDistinct items
    → with_status q items ≡ id ∷ rest
    → same_status q r ≡ false
    → same_status st r ≡ false
    → with_status r (set_status id st items) ≡ with_status r items
unfolding with_status set_status IsDistinct
with_status-set_other q st r id rest [] d e n m = refl
with_status-set_other q st r id rest (p ∷ items) d e n m = elim (Bool-cases (nat_beq p.id id)) [
  | inl hit ↦
      let was : same_status p.status r ≡ false =
        ap (λ x. same_status x r) (same_status→eq p.status q (hit-status q id rest p items d e hit))
        ∙ n in
      rw (hit, set_status) (rw (m, was) refl)
  | inr other ↦
      let e' = miss-rest q id rest p items e other in
      rw (other, set_status) (rw (with_status-set_other q st r id rest items d.1 e' n m) refl)
]

-- The only prompt with the new status is the changed one, when there was none.
pub with_status-set_new :
    (q st : PromptStatus) (id : ℕ) (rest : List ℕ) (items : List QueuedPrompt)
    → IsDistinct items
    → with_status q items ≡ id ∷ rest
    → with_status st items ≡ []
    → with_status st (set_status id st items) ≡ id ∷ []
unfolding with_status set_status IsDistinct
with_status-set_new q st id rest [] d e n = absurd (cc)
with_status-set_new q st id rest (p ∷ items) d e n = ground (
  arith,
  with_status-set_new q st id rest items,
  with_status-head q id rest p.id items,
  same_status_refl st,
)

-- The text found for the changed prompt is the first of the texts with its status.
pub find_item-head :
    (q st : PromptStatus) (id : ℕ) (rest : List ℕ) (items : List QueuedPrompt)
    → IsDistinct items
    → with_status q items ≡ id ∷ rest
    → same_status st q ≡ false
    → (p : QueuedPrompt) × (find_item id items ≡ some p)
      × (texts_with q items ≡ p.prompt_text ∷ texts_with q (set_status id st items))
unfolding with_status texts_with find_item set_status IsDistinct
find_item-head q st id rest [] d e n = absurd (cc)
find_item-head q st id rest (p ∷ items) d e n = elim (Bool-cases (same_status p.status q)) [
  | inl y ↦ let same : nat_beq p.id id ≡ true = ground (arith, e) in (p, ground arith, ground arith)
  | inr no_hit ↦
      let e' : with_status q items ≡ id ∷ rest = ground (arith, e) in
      let other = with_status-head q id rest p.id items d.0 e' in
      let (x, f, t) = find_item-head q st id rest items d.1 e' n in
      (x, rw other f, ground (arith, t))
]

pub texts_with-none :
    (q : PromptStatus) (items : List QueuedPrompt)
    → with_status q items ≡ []
    → texts_with q items ≡ []
unfolding with_status texts_with
texts_with-none q [] e = refl
texts_with-none q (p ∷ items) e = ground (arith, texts_with-none q items)
