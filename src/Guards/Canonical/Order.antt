-- ===== src/Guards/Canonical/Order.antt =====
-- The order of an object's fields does not matter.
use Prim.Native.Nat.{Ordering}
use Prim.Native.Nat as Nat
use Prim.Native.Char.{code}
use Prim.Native.String.{compare, then}
use Prim.Native.String.compare as Compare
use text.Mathlib.TextEquality.{path_by_compare}
use nu_agent.Prelude.{
  ◌≡◌, ◌≢◌, refl, sym, ap, ◌∙◌, List, [], ◌∷◌, String, arith, concat, btree_insert, ℕ,
}
use nu_agent.Guards.Canonical.{
  Value, object, Fields, field, written, join_comma, canonical_value, sorted_fields,
}

abbrev flip : Ordering → Ordering
flip Ordering.lt = Ordering.gt
flip Ordering.eq = Ordering.eq
flip Ordering.gt = Ordering.lt

flip-codes :
    (m n : ℕ) (o : Ordering) → flip (then (Nat.compare m n) o) ≡ then (Nat.compare n m) (flip o)
flip-codes m n o = ground arith

-- Comparing the other way round.
flip-compare : (a b : String) → flip (compare a b) ≡ compare b a
flip-compare String.[] String.[] = rw Compare.nil-nil refl
flip-compare String.[] (String.◌∷◌ d t) =
    ap flip (Compare.nil-cons d t) ∙ sym (Compare.cons-nil d t)
flip-compare (String.◌∷◌ c s) String.[] =
    ap flip (Compare.cons-nil c s) ∙ sym (Compare.nil-cons c s)
flip-compare (String.◌∷◌ c s) (String.◌∷◌ d t) =
    ap flip (Compare.cons-cons c d s t)
    ∙ flip-codes (code c) (code d) (compare s t)
    ∙ ap (then (Nat.compare (code d) (code c))) (flip-compare s t)
    ∙ sym (Compare.cons-cons d c t s)

trans-codes :
    (l m n : ℕ) (o p q : Ordering)
    → (o ≡ Ordering.lt → p ≡ Ordering.lt → q ≡ Ordering.lt)
    → then (Nat.compare l m) o ≡ Ordering.lt
    → then (Nat.compare m n) p ≡ Ordering.lt
    → then (Nat.compare l n) q ≡ Ordering.lt
trans-codes l m n o p q k h h' = ground (arith, k, h, h')

compare_trans :
    (a b c : String)
    → compare a b ≡ Ordering.lt
    → compare b c ≡ Ordering.lt
    → compare a c ≡ Ordering.lt
compare_trans String.[] String.[] String.[] h k = h
compare_trans String.[] (String.◌∷◌ d t) String.[] h k = absurd (cc (Compare.cons-nil d t))
compare_trans String.[] b (String.◌∷◌ e u) h k = Compare.nil-cons e u
compare_trans (String.◌∷◌ c s) String.[] b h k = absurd (cc (Compare.cons-nil c s))
compare_trans (String.◌∷◌ c s) (String.◌∷◌ d t) String.[] h k = absurd (cc (Compare.cons-nil d t))
compare_trans (String.◌∷◌ c s) (String.◌∷◌ d t) (String.◌∷◌ e u) h k =
    Compare.cons-cons c e s u
    ∙ trans-codes (code c) (code d) (code e) (compare s t) (compare t u) (compare s u)
        (compare_trans s t u) (sym (Compare.cons-cons c d s t) ∙ h)
        (sym (Compare.cons-cons d e t u) ∙ k)

-- Two insertions with different keys can change places.
btree_insert_comm :
    {V : Type 0} (k j : String) (v w : V) (m : List (String × V))
    → k ≢ j
    → btree_insert k v (btree_insert j w m) ≡ btree_insert j w (btree_insert k v m)
unfolding btree_insert
btree_insert_comm k j v w [] n = ground (arith, n, flip-compare k j, path_by_compare k j)
btree_insert_comm k j v w ((i, x) ∷ m) n = ground (
  arith,
  n,
  flip-compare k j,
  flip-compare k i,
  flip-compare j i,
  path_by_compare k j,
  path_by_compare k i,
  path_by_compare j i,
  compare_trans k j i,
  compare_trans j k i,
  compare_trans k i j,
  compare_trans j i k,
  btree_insert_comm k j v w m n,
)

-- Two fields of an object with different keys can change places: the canonical form is the same.
canonical_value-swap :
    {S : Type 0} (quote_text : String → String) (write_scalar : S → String)
    → (k j : String) (v w : Value S) (fields : Fields S) → k ≢ j
    → canonical_value quote_text write_scalar (object (field k v (field j w fields)))
      ≡ canonical_value quote_text write_scalar (object (field j w (field k v fields)))
unfolding canonical_value
canonical_value-swap quote_text write_scalar k j v w fields n =
    ap (λ l. concat ("{" ∷ join_comma (written quote_text write_scalar l) ∷ "}" ∷ []))
      (btree_insert_comm k j (canonical_value quote_text write_scalar v)
        (canonical_value quote_text write_scalar w) (sorted_fields quote_text write_scalar fields)
        n)
