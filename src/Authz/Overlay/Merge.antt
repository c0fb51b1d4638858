-- ===== src/Authz/Overlay/Merge.antt =====
-- What the rules are after an overlay.
use nu_agent.Prelude.{
  ◌≡◌, refl, ◌∙◌, ap, false, List, [], ◌∷◌, Option, none, some, String, ◌==◌, string_eq, ==_iff,
  if◌then◌else◌, lookup, btree_insert, btree_extend, lookup-btree_insert, All, unwrap_or,
  Bool-cases, inl, inr,
}
use nu_agent.Authz.Policy.{PermissionsConfig}
use nu_agent.Authz.Overlay.{PermissionsOverlay, with_overlay}

-- The keys of a map differ.
abbrev pub HasDistinctKeys {ℓ} : {V : Type ℓ} → List (String × V) → Type 0
HasDistinctKeys [] = Unit
HasDistinctKeys (e ∷ m) = All (λ f. (f.0 == e.0) ≡ false) m × HasDistinctKeys m

-- The first of two answers that is there.
abbrev pub or_else {ℓ} : {V : Type ℓ} → Option V → Option V → Option V
or_else none b = b
or_else (some a) b = some a

or_else-none {ℓ} : {V : Type ℓ} (a : Option V) → or_else a none ≡ a
or_else-none none = refl
or_else-none (some a) = refl

lookup-absent {ℓ} :
    {V : Type ℓ} (k : String) (m : List (String × V))
    → All (λ f. (f.0 == k) ≡ false) m
    → lookup k m ≡ none
unfolding lookup
lookup-absent k [] h = refl
lookup-absent k ((j, v) ∷ m) h = rw h.0 (lookup-absent k m h.1)

module _ {ℓ} {V : Type ℓ} where
  -- An entry that goes into a map before others with other keys.
  extend_step :
      (k j : String) (v : V) (new : List (String × V)) (below : Option V)
      → All (λ f. (f.0 == j) ≡ false) new
      → or_else (lookup k new) (if j == k then some v else below)
        ≡ or_else (if j == k then some v else lookup k new) below
  extend_step k j v new below d = elim (Bool-cases (j == k)) [
    | inl same ↦ rw (same, lookup-absent k new (rw (← (==_iff j k).0 same) d))
    | inr other ↦ rw other
  ]

  pub lookup-btree_extend :
      (k : String) (m new : List (String × V))
      → HasDistinctKeys new
      → lookup k (btree_extend m new) ≡ or_else (lookup k new) (lookup k m)
  unfolding btree_extend lookup
  lookup-btree_extend k m [] d = refl
  lookup-btree_extend k m ((j, v) ∷ new) d =
      lookup-btree_extend k (btree_insert j v m) new d.1
      ∙ ap (or_else (lookup k new)) (lookup-btree_insert j k v m)
      ∙ extend_step k j v new (lookup k m) d.0

-- When neither names a pattern twice, a tool pattern has the overlay's action where the overlay
-- names the pattern, and the base's action otherwise. The overlay's default action wins where it
-- has one.
lookup-with_overlay :
    (c : PermissionsConfig) (o : PermissionsOverlay)
    → HasDistinctKeys c.tool_rules
    → HasDistinctKeys o.tool_rules
    → ((pattern : String)
        → lookup pattern (with_overlay c o).tool_rules
          ≡ or_else (lookup pattern o.tool_rules) (lookup pattern c.tool_rules))
      × ((with_overlay c o).default_action ≡ unwrap_or o.default_action c.default_action)
unfolding with_overlay lookup
lookup-with_overlay c o b d = (
  λ pattern.
      lookup-btree_extend pattern (btree_extend [] c.tool_rules) o.tool_rules d
      ∙ ap (or_else (lookup pattern o.tool_rules)) (
          lookup-btree_extend pattern [] c.tool_rules b
          ∙ or_else-none (lookup pattern c.tool_rules)),
  refl,
)
