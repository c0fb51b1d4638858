-- ===== src/A2a/TaskStore/Pages.antt =====
-- Walking the pages of a list (task_store/memory.rs).
use nu_agent.Prelude.{
  ℕ, zero, suc, ◌≤◌, ◌<◌, ◌≡◌, refl, sym, subst, ◌∙◌, ap, false, List, [], ◌∷◌, ◌++◌, append_assoc,
  Option, none, some, String, ◌==◌, string_eq, ==_refl, Bool-cases, inl, inr, ltb, le→ltb, lt→ltb,
  take-append-drop, length, take, drop, length-drop, All, arith,
}
use nu_agent.A2a.Types.{Task}
use nu_agent.A2a.TaskStore.Listing.{after_id, after_cursor, last_id, page}

module _ {J : Type 0} where
  abbrev follow : List (Task J) × Option String → (String → List (Task J)) → List (Task J)
  follow (shown, none) more = shown
  follow (shown, some c) more = shown ++ more c

  -- A client that asks for pages of `limit` tasks until there is no cursor. The fuel counts pages.
  pub walk : ℕ → ℕ → Option String → List (Task J) → List (Task J)
  walk zero limit cursor sorted = []
  walk (suc fuel) limit cursor sorted =
      follow (page limit cursor sorted) (λ c. walk fuel limit (some c) sorted)

  -- No two tasks share an identifier.
  abbrev pub AreDistinct : List (Task J) → Type 0
  AreDistinct [] = Unit
  AreDistinct (t ∷ ts) = All (λ u. (t.id == u.id) ≡ false) ts × AreDistinct ts

  -- A non-empty list ends in the task whose identifier `last_id` gives.
  last_id-split :
      (t : Task J) (ts : List (Task J))
      → (front : List (Task J)) × (x : Task J) × (t ∷ ts ≡ front ++ x ∷ [])
        × (last_id (t ∷ ts) ≡ some x.id)
  unfolding last_id
  last_id-split t [] = ([], t, refl, refl)
  last_id-split t (u ∷ ts) =
      let (front, x, e, l) = last_id-split u ts in (t ∷ front, x, ap (◌∷◌ t) e, l)

  All-middle :
      (P : Task J → Type 0) (xs : List (Task J)) (x : Task J) (ys : List (Task J))
      → All P (xs ++ x ∷ ys)
      → P x
  All-middle P [] x ys h = h.0
  All-middle P (y ∷ xs) x ys h = All-middle P xs x ys h.1

  after_id-middle :
      (xs : List (Task J)) (x : Task J) (ys : List (Task J))
      → AreDistinct (xs ++ x ∷ ys)
      → after_id x.id (xs ++ x ∷ ys) ≡ some ys
  unfolding after_id
  after_id-middle [] x ys d = rw (==_refl x.id)
  after_id-middle (y ∷ xs) x ys d =
      rw (All-middle (λ u. (y.id == u.id) ≡ false) xs x ys d.0) (after_id-middle xs x ys d.1)

  take_all : (n : ℕ) (xs : List (Task J)) → length xs ≤ n → take n xs ≡ xs
  take_all zero [] h = refl
  take_all zero (x ∷ xs) h = absurd (omega arith)
  take_all (suc n) [] h = refl
  take_all (suc n) (x ∷ xs) h = ap (◌∷◌ x) (take_all n xs (omega arith))

  module _ (cursor : Option String) (sorted rest : List (Task J))
      (e : after_cursor cursor sorted ≡ rest) where
    page_last : (n : ℕ) → length rest ≤ n → page n cursor sorted ≡ (rest, none)
    unfolding page
    page_last n h = rw e (rw (le→ltb n (length rest) h, take_all n rest h))

    page_more :
        (n : ℕ) (c : String)
        → n < length rest
        → last_id (take n rest) ≡ some c
        → page n cursor sorted ≡ (take n rest, some c)
    unfolding page
    page_more n c h l = rw e (rw (lt→ltb n (length rest) h, l))

  -- The walk from a cursor gives what is left after it.
  walk_from :
      (fuel n : ℕ) (cursor : Option String) (sorted front rest : List (Task J))
      → AreDistinct sorted
      → sorted ≡ front ++ rest
      → after_cursor cursor sorted ≡ rest
      → length rest < fuel
      → walk fuel (suc n) cursor sorted ≡ rest
  unfolding walk after_cursor
  walk_from zero n cursor sorted front rest d f e h = absurd (omega arith)
  walk_from (suc fuel) n cursor sorted front [] d f e h =
      rw (page_last cursor sorted [] e (suc n) (omega arith), walk)
  walk_from (suc fuel) n cursor sorted front (t ∷ ts) d f e h =
      elim (Bool-cases (ltb (suc n) (length (t ∷ ts)))) [
        | inr short ↦ rw (page_last cursor sorted (t ∷ ts) e (suc n) (ground arith), walk)
        | inl more ↦
            let (shown, x, split, l) = last_id-split t (take n ts) in
            let whole : sorted ≡ (front ++ shown) ++ x ∷ drop n ts =
              f
              ∙ ap (◌++◌ front) (
                  sym (take-append-drop (suc n) (t ∷ ts))
                  ∙ ap (λ w. w ++ drop n ts) split
                  ∙ append_assoc shown (x ∷ []) (drop n ts))
              ∙ sym (append_assoc front shown (x ∷ drop n ts)) in
            let cut : after_cursor (some x.id) sorted ≡ drop n ts =
              ap (after_cursor (some x.id)) whole
              ∙ rw (after_id-middle (front ++ shown) x (drop n ts) (subst AreDistinct whole d)) in
            rw (page_more cursor sorted (t ∷ ts) e (suc n) x.id (ground arith) l, walk)
              (rw
                (walk_from fuel n (some x.id) sorted (front ++ t ∷ take n ts) (drop n ts) d
                  (f
                    ∙ ap (◌++◌ front) (sym (take-append-drop (suc n) (t ∷ ts)))
                    ∙ sym (append_assoc front (t ∷ take n ts) (drop n ts)))
                  cut (omega (arith, length-drop n ts)))
                (take-append-drop (suc n) (t ∷ ts)))
      ]

  -- Asking for page after page, with any page size but 0, gives every task of the list once and in
  -- its order, given that no two tasks share an identifier.
  pub walk_all :
      (n : ℕ) (sorted : List (Task J))
      → AreDistinct sorted
      → walk (suc (length sorted)) (suc n) none sorted ≡ sorted
  unfolding after_cursor
  walk_all n sorted d = walk_from _ n none sorted [] sorted d refl refl (omega arith)
