-- ===== src/A2a/TaskStore/Listing.antt =====
-- The lists of tasks: filter, order and page (crates/agnt-a2a/src/task_store/memory.rs). The map's
-- walk gives the tasks in the order of the association list.
use Prim.Native.Nat.{compare, Ordering}
use Prim.Native.String.{compare as compare_text}
use nu_agent.Prelude.{
  ℕ, Bool, true, false, List, [], ◌∷◌, map, Option, none, some, String, ◌==◌, string_eq, ltb,
  if◌then◌else◌, length, take, retain, lookup, unwrap_or,
}
use nu_agent.A2a.TaskState.{TaskState, to_string}
use nu_agent.A2a.Types.{Task}
use nu_agent.A2a.TaskStore.State.{Store}

-- `then_with`.
abbrev pub then_with : Ordering → Ordering → Ordering
then_with Ordering.eq o = o
then_with Ordering.lt _ = Ordering.lt
then_with Ordering.gt _ = Ordering.gt

-- `None` is below every `Some`.
abbrev pub compare_option : Option ℕ → Option ℕ → Ordering
compare_option none none = Ordering.eq
compare_option none (some _) = Ordering.lt
compare_option (some _) none = Ordering.gt
compare_option (some a) (some b) = compare a b

abbrev pub is_gt : Ordering → Bool
is_gt Ordering.gt = true
is_gt _ = false

-- Two states are the same when their names are.
abbrev pub same_state : TaskState → TaskState → Bool
same_state a b = to_string a == to_string b

abbrev pub same_text : Option String → String → Bool
same_text none _ = false
same_text (some a) b = a == b

module _ {J : Type 0} where
  unfoldable pub list_tasks : Store J → Option TaskState → List (Task J)
  list_tasks s none = map (λ e. e.1) s.tasks
  list_tasks s (some state) = retain (λ t. same_state t.status.state state) (map (λ e. e.1) s.tasks)

  -- Newest timestamp first, then the newest update, then by identifier.
  unfoldable pub task_order : List (String × ℕ) → Task J → Task J → Ordering
  task_order seq a b =
      then_with (compare b.status.timestamp a.status.timestamp)
        (then_with (compare_option (lookup b.id seq) (lookup a.id seq)) (compare_text a.id b.id))

  unfoldable pub place : (Task J → Task J → Ordering) → Task J → List (Task J) → List (Task J)
  place order x [] = x ∷ []
  place order x (y ∷ ys) = if is_gt (order x y) then y ∷ place order x ys else x ∷ y ∷ ys

  -- `sort_by`, which is stable.
  unfoldable pub sort_by : (Task J → Task J → Ordering) → List (Task J) → List (Task J)
  unfolding place
  sort_by order [] = []
  sort_by order (x ∷ xs) = place order x (sort_by order xs)

  -- What follows the task with the cursor's identifier.
  unfoldable pub after_id : String → List (Task J) → Option (List (Task J))
  after_id cursor [] = none
  after_id cursor (t ∷ ts) = if t.id == cursor then some ts else after_id cursor ts

  -- An unknown cursor is ignored.
  unfoldable pub after_cursor : Option String → List (Task J) → List (Task J)
  unfolding after_id
  after_cursor none ts = ts
  after_cursor (some cursor) ts = unwrap_or (after_id cursor ts) ts

  unfoldable pub last_id : List (Task J) → Option String
  last_id [] = none
  last_id (t ∷ []) = some t.id
  last_id (t ∷ u ∷ ts) = last_id (u ∷ ts)

  -- One page of a list that is in order, and the cursor of the next one.
  unfoldable pub page : ℕ → Option String → List (Task J) → List (Task J) × Option String
  unfolding after_cursor last_id
  page limit cursor sorted =
      let rest = after_cursor cursor sorted in
      (take limit rest, if ltb limit (length rest) then last_id (take limit rest) else none)

  -- The tasks that a list call ranges over, in its order.
  unfoldable pub selected : Store J → Option TaskState → Option String → List (Task J)
  unfolding sort_by task_order list_tasks
  selected s status context =
      let all_tasks = list_tasks s status in
      let kept : List (Task J) = elim context [
        | none ↦ all_tasks
        | some ctx ↦ retain (λ t. same_text t.context_id ctx) all_tasks
      ] in
      sort_by (task_order s.update_seq) kept

  unfoldable pub list_tasks_filtered :
      Store J → Option TaskState → Option String → ℕ → Option String → List (Task J) × Option String
  unfolding selected page
  list_tasks_filtered s status context limit cursor = page limit cursor (selected s status context)

  abbrev has_state : List TaskState → Task J → Bool
  has_state [] t = false
  has_state (x ∷ xs) t = if same_state x t.status.state then true else has_state xs t

  -- The trait's version: several states, a default limit, and the number of tasks that match.
  unfoldable pub list_tasks_paged :
      Store J
      → Option (List TaskState)
      → Option ℕ
      → Option String
      → List (Task J) × ℕ × Option String
  unfolding sort_by task_order list_tasks page
  list_tasks_paged s filter page_size cursor =
      let all_tasks = list_tasks s none in
      let filtered : List (Task J) = elim filter [
        | none ↦ all_tasks
        | some states ↦ retain (has_state states) all_tasks
      ] in
      let (shown, next) =
        page (unwrap_or page_size 50) cursor (sort_by (task_order s.update_seq) filtered) in
      (shown, length filtered, next)
