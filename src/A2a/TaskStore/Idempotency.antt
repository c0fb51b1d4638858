-- ===== src/A2a/TaskStore/Idempotency.antt =====
-- Creating a task under an idempotency key (task_store/memory.rs).
use nu_agent.Prelude.{
  ◌≡◌, ◌⊎◌, Bool, true, Option, none, some, String, string_eq, ==_refl, inl, inr, lookup,
  lookup-insert,
}
use nu_agent.A2a.Types.{Task}
use nu_agent.A2a.TaskStore.State.{Store}
use nu_agent.A2a.TaskStore.Crud.{
  Env, Metadata, new_task, create_task, assign_update_seq, get_task, create_task_with_idempotency,
}

module _ {J : Type 0} where
  -- The key is bound to a task that the store holds.
  abbrev pub Bound : Store J → String → Task J → Type 0
  Bound s key t = (lookup key s.idempotency_keys ≡ some t.id) × (lookup t.id s.tasks ≡ some t)

  module _ (s : Store J) (env : Env) (key : String) (c p : Option String) (m : Metadata J) where
    abbrev created : Store J × Task J × Bool
    created = create_task_with_idempotency s env key c p m

    pub Bound-found :
        (t : Task J) → Bound s key t → create_task_with_idempotency s env key c p m ≡ (s, t, true)
    unfolding create_task_with_idempotency get_task
    Bound-found t b = rw (b.0, create_task_with_idempotency) (rw (b.1, get_task))

    -- A call with a new key adds the task; the key is then bound to the task that was returned.
    pub created-Bound : (lookup key s.idempotency_keys ≡ none) → Bound created.0 key created.1
    unfolding create_task_with_idempotency create_task new_task assign_update_seq
    created-Bound h =
        rw (h, create_task_with_idempotency)
          (
            rw (lookup-insert key key env.uuid s.idempotency_keys, ==_refl key),
            rw (lookup-insert env.uuid env.uuid (new_task env c p m) s.tasks, ==_refl env.uuid),
          )

  -- After a call with a key that was unused, or bound to a task of the store, a second call with
  -- the key changes nothing and returns the same task as one that existed, whatever else it asks
  -- for.
  pub create_task_with_idempotency-twice :
      (s : Store J) (key : String) (env env' : Env) (c c' p p' : Option String) (m m' : Metadata J)
      → let (s', task, _) = create_task_with_idempotency s env key c p m in
        (lookup key s.idempotency_keys ≡ none) ⊎ ((t : Task J) × Bound s key t)
        → create_task_with_idempotency s' env' key c' p' m' ≡ (s', task, true)
  create_task_with_idempotency-twice s key env env' c c' p p' m m' (inl unused) =
      Bound-found _ env' key c' p' m' _ (created-Bound s env key c p m unused)
  create_task_with_idempotency-twice s key env env' c c' p p' m m' (inr (t, b)) =
      rw (Bound-found s env key c p m t b) (Bound-found s env' key c' p' m' t b)
