-- ===== src/A2a/TaskStore/Notify.antt =====
-- Who is reached by a notification (the subscribers of task_store/memory.rs).
use nu_agent.Prelude.{
  ◌≡◌, ◌≤◌, false, not, List, [], ◌∷◌, String, string_eq, lookup, insert, lookup-insert,
  lookup-remove, ==_refl, unwrap_or, retain, All, length, length-append, arith, Bool-cases,
  Option-cases, inl, inr,
}
use nu_agent.A2a.Types.{TaskEvent}
use nu_agent.A2a.TaskStore.State.{
  Store, Sender, channel_capacity, try_send, send_all, prune_subscriptions, put_senders,
  notify_subscribers,
}

module _ {J : Type 0} where
  abbrev pub senders_of : Store J → String → List (Sender J)
  senders_of s id = unwrap_or (lookup id s.subscriptions) []

  abbrev pub IsOpen : Sender J → Type 0
  IsOpen tx = tx.is_closed ≡ false

  retain-IsOpen : (txs : List (Sender J)) → All IsOpen (retain (λ tx. not tx.is_closed) txs)
  retain-IsOpen [] = tt
  retain-IsOpen (tx ∷ txs) = ground (arith, retain-IsOpen txs)

  send_all-IsOpen :
      (e : TaskEvent J) (txs : List (Sender J))
      → (send_all e txs).1 ≡ false
      → All IsOpen (send_all e txs).0
  unfolding send_all try_send
  send_all-IsOpen e [] h = tt
  send_all-IsOpen e (tx ∷ txs) h = ground (arith, send_all-IsOpen e txs)

  senders_of-put :
      (s : Store J) (id : String) (txs : List (Sender J))
      → senders_of (put_senders s id txs) id ≡ txs
  unfolding put_senders
  senders_of-put s id [] = rw (lookup-remove id id s.subscriptions, ==_refl id)
  senders_of-put s id (tx ∷ txs) = rw (lookup-insert id id (tx ∷ txs) s.subscriptions, ==_refl id)

  -- Pruning keeps the open channels of the task, in order.
  pub senders_of-prune :
      (s : Store J) (id : String)
      → senders_of (prune_subscriptions s id) id ≡ retain (λ tx. not tx.is_closed) (senders_of s id)
  unfolding prune_subscriptions
  senders_of-prune s id = elim (Option-cases (lookup id s.subscriptions)) [
    | inl missing ↦ rw (missing, prune_subscriptions) (rw missing)
    | inr (senders, found) ↦
        rw (found, prune_subscriptions)
          (senders_of-put s id (retain (λ tx. not tx.is_closed) senders))
  ]

  prune-IsOpen : (s : Store J) (id : String) → All IsOpen (senders_of (prune_subscriptions s id) id)
  prune-IsOpen s id = rw (senders_of-prune s id) (retain-IsOpen (senders_of s id))

  -- No closed channel is left subscribed to a task that an event was sent to.
  notify_subscribers-IsOpen :
      (s : Store J) (id : String) (e : TaskEvent J)
      → All IsOpen (senders_of (notify_subscribers s id e) id)
  unfolding notify_subscribers
  notify_subscribers-IsOpen s id e = elim (Option-cases (lookup id s.subscriptions)) [
    | inl missing ↦ rw (missing, notify_subscribers) (rw missing tt)
    | inr (senders, found) ↦
        rw (found, notify_subscribers)
          (elim (Bool-cases (send_all e senders).1) [
            | inl failed ↦ rw failed (
                prune-IsOpen
                  (record s { subscriptions = insert id (send_all e senders).0 s.subscriptions })
                  id)
            | inr sent ↦ rw sent (
                rw (lookup-insert id id (send_all e senders).0 s.subscriptions, ==_refl id)
                  (send_all-IsOpen e senders sent))
          ])
  ]

  -- The queues never outgrow the channel: a full channel refuses the event.
  abbrev pub IsBounded : Sender J → Type 0
  IsBounded tx = length tx.queue ≤ channel_capacity

  -- Sending an event to a task's channels leaves every queue within the capacity of the channel,
  -- when all of them were.
  send_all-IsBounded :
      (e : TaskEvent J) (txs : List (Sender J))
      → All IsBounded txs
      → All IsBounded (send_all e txs).0
  unfolding send_all try_send
  send_all-IsBounded e [] h = tt
  send_all-IsBounded e (tx ∷ txs) h =
      ground (arith, length-append tx.queue (e ∷ []), send_all-IsBounded e txs)
