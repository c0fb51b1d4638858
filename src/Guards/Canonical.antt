-- ===== src/Guards/Canonical.antt =====
-- The canonical form of a call's arguments (canonicalize_args in
-- crates/agnt-core/src/hook/doom_loop.rs). What serde_json does is an argument: how a text is parsed,
-- and how a text and a value that is neither an object nor an array are written.
pub mod Order
use nu_agent.Prelude.{List, [], ◌∷◌, Option, none, some, String, concat, btree_insert}

-- A JSON value; a scalar is a null, a Boolean, a number or a text. The keys of an object are distinct.
mutual
  pub data Value (S : Type 0) : Type 0 where
    scalar : S → Value S
    array : Values S → Value S
    object : Fields S → Value S

  pub data Values (S : Type 0) : Type 0 where
    no_values : Values S
    value : Value S → Values S → Values S

  pub data Fields (S : Type 0) : Type 0 where
    no_fields : Fields S
    field : String → Value S → Fields S → Fields S

-- `join(",")`.
unfoldable pub join_comma : List String → String
join_comma [] = ""
join_comma (s ∷ []) = s
join_comma (s ∷ t ∷ ss) = concat (s ∷ "," ∷ join_comma (t ∷ ss) ∷ [])

module _ {S : Type 0} (quote_text : String → String) (write_scalar : S → String) where
  -- The fields of an object as they are written, a quoted key and a canonical value.
  unfoldable pub written : List (String × String) → List String
  written [] = []
  written ((key, text) ∷ fields) = concat (quote_text key ∷ ":" ∷ text ∷ []) ∷ written fields

  unfoldable mutual
    pub canonical_value : Value S → String
    canonical_value (scalar s) = write_scalar s
    canonical_value (array items) = concat ("[" ∷ join_comma (canonical_items items) ∷ "]" ∷ [])
    canonical_value (object fields) =
        concat ("{" ∷ join_comma (written (sorted_fields fields)) ∷ "}" ∷ [])

    pub canonical_items : Values S → List String
    canonical_items no_values = []
    canonical_items (value v items) = canonical_value v ∷ canonical_items items

    -- The fields with their canonical values, in the order of the keys.
    pub sorted_fields : Fields S → List (String × String)
    sorted_fields no_fields = []
    sorted_fields (field key v fields) = btree_insert key (canonical_value v) (sorted_fields fields)

  unfoldable pub canonicalize_args : (String → Option (Value S)) → String → String
  unfolding canonical_value
  canonicalize_args parse args = elim (parse args) [ none ↦ args | some v ↦ canonical_value v ]
