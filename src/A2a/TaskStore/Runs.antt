-- ===== src/A2a/TaskStore/Runs.antt =====
-- What happens to a task over any sequence of operations.

use nu_agent.Prelude.{
  ◌≡◌, refl, ◌∙◌, ap, true, List, [], ◌∷◌, some, String, string_eq, All, inl, inr, lookup,
}
use nu_agent.A2a.TaskState.{is_terminal}
use nu_agent.A2a.TaskState.Transitions.{◌⟶*◌, ⟶*-trans, here, next, is_valid_transition→⟶}
use nu_agent.A2a.Types.{Task}
use nu_agent.A2a.TaskStore.State.{Store, add_subscriber, subscribe}
use nu_agent.A2a.TaskStore.Lifecycle.{
  Evolves, Kept, Kept-same, Kept-create, Kept-create_keyed, Kept-update, Kept-attach, Kept-complete,
  Kept-append, Op, create, create_keyed, update, attach, complete, append, listen, step, IsFresh,
}

module _ {J : Type 0} where
  -- Whatever the operation, as long as it gives no new task the identifier, a task that the store
  -- holds is still there under its identifier; its status is as it was or has made a valid
  -- transition, and a terminal task keeps its status and its history.
  pub step-Kept :
      (s : Store J) (op : Op J) (id : String) → IsFresh id op → Kept s.tasks (step s op).tasks id
  unfolding step subscribe add_subscriber
  step-Kept s (create env c p m) id f = Kept-create s env c p m id f
  step-Kept s (create_keyed env key c p m) id f = Kept-create_keyed s env key c p m id f
  step-Kept s (update env j st msg) id f = Kept-update s j id env st msg
  step-Kept s (attach j a) id f = Kept-attach s j id a
  step-Kept s (complete env j result) id f = Kept-complete s j id env result
  step-Kept s (append j msg) id f = Kept-append s j id msg
  step-Kept s (listen j) id f = Kept-same id refl

  moved_path : (t u : Task J) → Evolves t u → t.status.state ⟶* u.status.state
  moved_path t u ev = elim ev.moved [
    | inl e ↦ rw e here
    | inr v ↦ next here (is_valid_transition→⟶ t.status.state u.status.state v)
  ]

  unfoldable pub run : Store J → List (Op J) → Store J
  run s [] = s
  run s (op ∷ ops) = run (step s op) ops

  -- Over any run of operations in which no new task takes its identifier, a task is kept, and its
  -- state at the end is reached from its state at the beginning by valid transitions.
  pub run-⟶* :
      (s : Store J) (ops : List (Op J)) (id : String) (t : Task J)
      → All (IsFresh id) ops
      → lookup id s.tasks ≡ some t
      → (u : Task J) × (lookup id (run s ops).tasks ≡ some u) × (t.status.state ⟶* u.status.state)
  unfolding run
  run-⟶* s [] id t f h = (t, h, here)
  run-⟶* s (op ∷ ops) id t f h =
      let (u, hu, ev) = step-Kept s op id f.0 t h in
      let (w, hw, path) = run-⟶* (step s op) ops id u f.1 hu in
      (w, hw, ⟶*-trans (moved_path t u ev) path)

  -- A terminal task is settled: no run of operations in which no new task takes its identifier
  -- changes its status or its history, or removes it.
  pub run-terminal :
      (s : Store J) (ops : List (Op J)) (id : String) (t : Task J)
      → All (IsFresh id) ops
      → lookup id s.tasks ≡ some t
      → is_terminal t.status.state ≡ true
      → (u : Task J) × (lookup id (run s ops).tasks ≡ some u)
        × (u.status ≡ t.status)
        × (u.history ≡ t.history)
  unfolding run
  run-terminal s [] id t f h d = (t, h, refl, refl)
  run-terminal s (op ∷ ops) id t f h d =
      let (u, hu, ev) = step-Kept s op id f.0 t h in
      let (st, hi) = ev.frozen d in
      let (w, hw, sw, iw) =
        run-terminal (step s op) ops id u f.1 hu (ap (λ x. is_terminal x.state) st ∙ d) in
      (w, hw, sw ∙ st, iw ∙ hi)
