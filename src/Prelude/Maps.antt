-- ===== src/Prelude/Maps.antt =====
-- Maps with their laws: an association list in the order in which the map is walked.
use Prim.Native.Nat.{Ordering}
use Prim.Native.String.{String, compare}
use mathlib.Core.Path.{◌≡◌, refl}
use mathlib.Core.List.{List, [], ◌∷◌}
use mathlib.Core.Option.{Option, none, some}
use native.Mathlib.Omega.{arith}
use nu_agent.Prelude.Tests.{if◌then◌else◌}
use nu_agent.Prelude.Keys.{Eq, ◌==◌, string_eq}
use text.Mathlib.TextEquality.{eq_iff}

module _ {ℓ κ} {K : Type ℓ} {V : Type κ} ⦃e : Eq K⦄ where
  unfoldable pub lookup : K → List (K × V) → Option V
  lookup key [] = none
  lookup key (entry ∷ entries) = if entry.0 == key then some entry.1 else lookup key entries

  -- `insert`: a key that is there keeps its place.
  unfoldable pub insert : K → V → List (K × V) → List (K × V)
  insert key new [] = (key, new) ∷ []
  insert key new (entry ∷ entries) =
      let rest = insert key new entries in
      if entry.0 == key then (key, new) ∷ entries else entry ∷ rest

  unfoldable pub remove : K → List (K × V) → List (K × V)
  remove k [] = []
  remove k ((j, w) ∷ m) = let rest = remove k m in if j == k then rest else (j, w) ∷ rest

  pub lookup-insert :
      (key other : K) (new : V) (entries : List (K × V))
      → lookup other (insert key new entries)
        ≡ (if key == other then some new else lookup other entries)
  unfolding lookup insert
  lookup-insert key other new [] = refl
  lookup-insert key other new (entry ∷ entries) = ground (
    arith,
    lookup-insert key other new entries,
    e.test_iff entry.0 other,
    e.test_iff entry.0 key,
    e.test_iff key other,
  )

  pub lookup-remove :
      (k j : K) (m : List (K × V)) → lookup j (remove k m) ≡ (if k == j then none else lookup j m)
  unfolding lookup remove
  lookup-remove k j [] = ground arith
  lookup-remove k j ((i, w) ∷ m) =
      ground (arith, e.test_iff k j, e.test_iff i k, e.test_iff i j, lookup-remove k j m)

-- A `BTreeMap` with texts as keys: an insertion keeps the keys in their order.
module _ {κ} {V : Type κ} where
  unfoldable pub btree_insert : String → V → List (String × V) → List (String × V)
  btree_insert k v [] = (k, v) ∷ []
  btree_insert k v ((j, w) ∷ m) =
      let rest = btree_insert k v m in
      elim (compare k j) [
        | Ordering.lt ↦ (k, v) ∷ (j, w) ∷ m
        | Ordering.eq ↦ (k, v) ∷ m
        | Ordering.gt ↦ (j, w) ∷ rest
      ]

  -- `collect` and `extend` into a map: a later entry with a key replaces an earlier one.
  unfoldable pub btree_extend : List (String × V) → List (String × V) → List (String × V)
  unfolding btree_insert
  btree_extend m [] = m
  btree_extend m ((k, v) ∷ new) = btree_extend (btree_insert k v m) new

  pub lookup-btree_insert :
      (k j : String) (v : V) (m : List (String × V))
      → lookup j (btree_insert k v m) ≡ (if k == j then some v else lookup j m)
  unfolding lookup btree_insert
  lookup-btree_insert k j v [] = refl
  lookup-btree_insert k j v ((i, w) ∷ m) =
      ground (arith, eq_iff k j, eq_iff i k, eq_iff k i, eq_iff i j, lookup-btree_insert k j v m)
