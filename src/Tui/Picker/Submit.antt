-- ===== src/Tui/Picker/Submit.antt =====
-- What a picker submits.
use nu_agent.Prelude.{
  ℕ, zero, suc, Bool, true, List, [], ◌∷◌, Option, none, some, ◌≡◌, ◌≢◌, ◌⊎◌, inl, inr, refl, sym,
  ap, ◌∙◌, get_elem?, retain, Bool-cases, subst,
}
use nu_agent.Tui.Picker.{
  Text, to_ascii_lowercase, PickerOption, PickerState, matches_query, filtered_by, filtered,
  selected,
}
use nu_agent.Tui.Picker.Container.{
  ActivePicker, PickerEntry, PickerContainer, SubmitAction, submit, active_entry,
}
use nu_agent.Tui.Picker.Keys.{
  enter, resolve_option, resolve_selected, entered, query_picker, entry_key, handle_for, handle_key,
}

get_elem?-retain :
    {A : Type 0} (p : A → Bool) (xs : List A) (i : ℕ) {x : A}
    → get_elem? (retain p xs) i ≡ some x
    → (j : ℕ) × (get_elem? xs j ≡ some x) × (p x ≡ true)
get_elem?-retain p [] i e = cc
get_elem?-retain p (y ∷ ys) i {x} e = elim (Bool-cases (p y)) [
  | inl kept ↦ at_kept i (simp kept at e) kept (λ k found. get_elem?-retain p ys k found)
  | inr gone ↦ later (get_elem?-retain p ys i (simp gone at e))
]
  where
    later :
        (j : ℕ) × (get_elem? ys j ≡ some x) × (p x ≡ true)
        → (j : ℕ) × (get_elem? (y ∷ ys) j ≡ some x) × (p x ≡ true)
    later (j, found, passes) = (suc j, found, passes)

    at_kept :
        (i : ℕ)
        → get_elem? (y ∷ retain p ys) i ≡ some x
        → p y ≡ true
        → ((k : ℕ)
            → get_elem? (retain p ys) k ≡ some x
            → (j : ℕ) × (get_elem? ys j ≡ some x) × (p x ≡ true))
        → (j : ℕ) × (get_elem? (y ∷ ys) j ≡ some x) × (p x ≡ true)
    at_kept zero here kept rest = (0, here, ap p (sym (cc here)) ∙ kept)
    at_kept (suc k) there kept rest = later (rest k there)

-- The option is one of the picker's, and the query keeps it.
abbrev pub IsShown : PickerOption → PickerState → Type 0
IsShown o s =
    ((i : ℕ) × (get_elem? s.options i ≡ some o))
    × ((s.query ≡ []) ⊎ (matches_query (to_ascii_lowercase s.query) o ≡ true))

filtered_by-shown :
    (query : Text) (options : List PickerOption) (i : ℕ) {o : PickerOption}
    → get_elem? (filtered_by query options) i ≡ some o
    → ((j : ℕ) × (get_elem? options j ≡ some o))
      × ((query ≡ []) ⊎ (matches_query (to_ascii_lowercase query) o ≡ true))
filtered_by-shown [] options i e = ((i, e), inl refl)
filtered_by-shown (c ∷ query) options i e =
    let (j, found, passes) =
      get_elem?-retain (matches_query (to_ascii_lowercase (c ∷ query))) options i e in
    ((j, found), inr passes)

selected-IsShown : (s : PickerState) {o : PickerOption} → selected s ≡ some o → IsShown o s
unfolding selected filtered
selected-IsShown s e = filtered_by-shown s.query s.options s.selection e

-- What Enter submits for an entry: the action of an option that is shown.
abbrev pub Submits : PickerEntry → SubmitAction → Type 0
Submits e action = (o : PickerOption) × IsShown o e.state × (action ≡ resolve_option e.submit o)

entered-Submits :
    (e : PickerEntry) (found : Option PickerOption) {action : SubmitAction}
    → selected e.state ≡ found
    → (entered e.state (resolve_selected e.submit found)).1 ≡ submit action
    → Submits e action
entered-Submits e none p h = cc
entered-Submits e (some o) {action} p h = (o, selected-IsShown e.state p, cc)

query_picker-Submits :
    (e : PickerEntry) {action : SubmitAction}
    → (query_picker e enter true).1 ≡ submit action
    → Submits e action
unfolding query_picker
query_picker-Submits e h = entered-Submits e _ refl h

entry_key-Submits :
    (kind : ActivePicker) (e : PickerEntry) {action : SubmitAction}
    → kind ≢ ActivePicker.inline_slash
    → (entry_key kind e enter).1 ≡ submit action
    → Submits e action
unfolding entry_key
entry_key-Submits ActivePicker.inline_slash e k h = absurd (k refl)
entry_key-Submits ActivePicker.no_picker e k h = cc
entry_key-Submits _ e k h = query_picker-Submits e h

-- What Enter submits in an open picker other than that of the inline commands is what the picker's
-- submit action becomes for one of its options that the query keeps. So without such an option it
-- submits nothing.
pub handle_key-Submits :
    (c : PickerContainer) (e : PickerEntry) (action : SubmitAction)
    → active_entry c ≡ some e
    → e.kind ≢ ActivePicker.inline_slash
    → (handle_key enter c).1 ≡ submit action
    → Submits e action
unfolding handle_key
handle_key-Submits c e action open_e k h =
    entry_key-Submits e.kind e k
      (subst (λ found. (handle_for found enter c).1 ≡ submit action) open_e h)
