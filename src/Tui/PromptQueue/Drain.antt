-- ===== src/Tui/PromptQueue/Drain.antt =====
-- Draining all the queued prompts.
use nu_agent.Prelude.{ℕ, ◌<◌, ◌≡◌, refl, sym, ◌∙◌, ap, false, List, [], ◌∷◌, All, arith}
use nu_agent.Tui.PromptQueue.{PromptStatus, queued, same_status, QueuedPrompt, set_status, drain}
use nu_agent.Tui.PromptQueue.Status.{
  with_status, texts_with, IsDistinct, set_status-IsDistinct, with_status-set_head,
  with_status-set_other, find_item-head, texts_with-none,
}

abbrev pub IsBelow : ℕ → List QueuedPrompt → Type 0
IsBelow n items = All (λ (p : QueuedPrompt). p.id < n) items

pub set_status-IsBelow :
    (n id : ℕ) (st : PromptStatus) (items : List QueuedPrompt)
    → IsBelow n items
    → IsBelow n (set_status id st items)
unfolding set_status
set_status-IsBelow n id st [] h = h
set_status-IsBelow n id st (p ∷ items) h = ground (arith, set_status-IsBelow n id st items)

pub drain-IsBelow :
    (n : ℕ) (st : PromptStatus) (ids : List ℕ) (items : List QueuedPrompt)
    → IsBelow n items
    → IsBelow n (drain st ids items).0
unfolding drain
drain-IsBelow n st [] items h = h
drain-IsBelow n st (id ∷ ids) items h =
    let k = drain-IsBelow n st ids (set_status id st items) (set_status-IsBelow n id st items h) in
    ground (arith, k)

pub drain-IsDistinct :
    (st : PromptStatus) (ids : List ℕ) (items : List QueuedPrompt)
    → IsDistinct items
    → IsDistinct (drain st ids items).0
unfolding drain
drain-IsDistinct st [] items h = h
drain-IsDistinct st (id ∷ ids) items h =
    let k =
      drain-IsDistinct st ids (set_status id st items) (set_status-IsDistinct id st items h) in
    ground (arith, k)

module _ (st : PromptStatus) (m : same_status st queued ≡ false) where
  -- What is drained is the queued prompts: none is left, and their texts come out in order.
  pub drain-queued :
      (ids : List ℕ) (items : List QueuedPrompt)
      → IsDistinct items
      → with_status queued items ≡ ids
      → (with_status queued (drain st ids items).0 ≡ [])
        × ((drain st ids items).1 ≡ texts_with queued items)
  unfolding drain
  drain-queued [] items d e = (e, sym (texts_with-none queued items e))
  drain-queued (id ∷ ids) items d e =
      let (q, t) =
        drain-queued ids (set_status id st items) (set_status-IsDistinct id st items d)
          (with_status-set_head queued st id ids items d e m) in
      let (p, f, t') = find_item-head queued st id ids items d e m in
      rw (f, drain) (q, ap (◌∷◌ p.prompt_text) t ∙ sym t')

  pub drain-other :
      (r : PromptStatus) (ids : List ℕ) (items : List QueuedPrompt)
      → IsDistinct items
      → with_status queued items ≡ ids
      → same_status queued r ≡ false
      → same_status st r ≡ false
      → with_status r (drain st ids items).0 ≡ with_status r items
  unfolding drain
  drain-other r [] items d e n k = refl
  drain-other r (id ∷ ids) items d e n k =
      let k' =
        drain-other r ids (set_status id st items) (set_status-IsDistinct id st items d)
          (with_status-set_head queued st id ids items d e m) n k in
      let o = with_status-set_other queued st r id ids items d e n k in ground (arith, k', o)
