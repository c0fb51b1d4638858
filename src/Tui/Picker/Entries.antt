-- ===== src/Tui/Picker/Entries.antt =====
-- What a change of some entries of the container leaves: their kinds, how many are open, and where
-- their selections are.
use nu_agent.Prelude.{
  ℕ, zero, suc, ◌+◌, ◌≤◌, Bool, true, false, List, [], ◌∷◌, some, ◌≡◌, refl, sym, ap, ap₂, inl, inr,
  arith, subst, get_elem?, Bool-cases, All,
}
use nu_agent.Tui.Picker.{PickerState}
use nu_agent.Tui.Picker.Container.{
  ActivePicker, PickerEntry, PickerContainer, with_state, change_at, change_all, change_active,
  active_entry,
}
use nu_agent.Tui.Picker.Range.{InRange, IsPlaced}

abbrev one_if : Bool → ℕ
one_if true = 1
one_if false = 0

one_if-le : (b : Bool) → one_if b ≤ 1
one_if-le true = omega arith
one_if-le false = omega arith

-- How many entries are open.
unfoldable pub count_open : PickerContainer → ℕ
count_open [] = 0
count_open (e ∷ es) = one_if e.state.is_open + count_open es

abbrev pub kinds : PickerContainer → List ActivePicker
kinds [] = []
kinds (e ∷ es) = e.kind ∷ kinds es

-- Every entry that a change may touch is placed after it.
abbrev pub Places : (PickerState → PickerState) → Type 0
Places f = (e : PickerEntry) → IsPlaced e → IsPlaced (with_state (f e.state) e)

pub kinds-change_at :
    (f : PickerState → PickerState) (c : PickerContainer) (i : ℕ)
    → kinds (change_at f c i) ≡ kinds c
kinds-change_at f [] i = refl
kinds-change_at f (e ∷ es) zero = refl
kinds-change_at f (e ∷ es) (suc i) = ap (◌∷◌ e.kind) (kinds-change_at f es i)

pub kinds-change_all :
    (f : PickerState → PickerState) (c : PickerContainer) → kinds (change_all f c) ≡ kinds c
kinds-change_all f [] = refl
kinds-change_all f (e ∷ es) = ap (◌∷◌ e.kind) (kinds-change_all f es)

pub kinds-change_active :
    (f : PickerState → PickerState) (c : PickerContainer) → kinds (change_active f c) ≡ kinds c
kinds-change_active f [] = refl
kinds-change_active f (e ∷ es) = elim (Bool-cases e.state.is_open) [
  | inl shown ↦ rw shown refl
  | inr closed ↦ rw closed (ap (◌∷◌ e.kind) (kinds-change_active f es))
]

-- The counts of open entries after a change.
pub count_open-change_at :
    (f : PickerState → PickerState) (c : PickerContainer) (i : ℕ)
    → count_open (change_at f c i) ≤ suc (count_open c)
unfolding count_open
count_open-change_at f [] i = omega arith
count_open-change_at f (e ∷ es) zero = omega (arith, one_if-le (f e.state).is_open)
count_open-change_at f (e ∷ es) (suc i) = omega (arith, count_open-change_at f es i)

pub count_open-same_at :
    (f : PickerState → PickerState) (c : PickerContainer) (i : ℕ)
    → ((s : PickerState) → (f s).is_open ≡ s.is_open)
    → count_open (change_at f c i) ≡ count_open c
unfolding count_open
count_open-same_at f [] i h = refl
count_open-same_at f (e ∷ es) zero h = ap (λ b. one_if b + count_open es) (h e.state)
count_open-same_at f (e ∷ es) (suc i) h =
    ap (λ n. one_if e.state.is_open + n) (count_open-same_at f es i h)

pub count_open-shut :
    (f : PickerState → PickerState) (c : PickerContainer)
    → ((s : PickerState) → (f s).is_open ≡ false)
    → count_open (change_all f c) ≡ 0
unfolding count_open
count_open-shut f [] h = refl
count_open-shut f (e ∷ es) h = omega (arith, ap one_if (h e.state), count_open-shut f es h)

pub count_open-same_all :
    (f : PickerState → PickerState) (c : PickerContainer)
    → ((s : PickerState) → (f s).is_open ≡ s.is_open)
    → count_open (change_all f c) ≡ count_open c
unfolding count_open
count_open-same_all f [] h = refl
count_open-same_all f (e ∷ es) h =
    ap₂ (λ b n. one_if b + n) (h e.state) (count_open-same_all f es h)

pub count_open-change_active :
    (f : PickerState → PickerState) (c : PickerContainer)
    → count_open (change_active f c) ≤ count_open c
unfolding count_open
count_open-change_active f [] = omega arith
count_open-change_active f (e ∷ es) = elim (Bool-cases e.state.is_open) [
  | inl shown ↦ simp shown (omega (arith, one_if-le (f e.state).is_open))
  | inr closed ↦ simp closed (omega (arith, count_open-change_active f es))
]

-- Whether every entry is placed after a change.
pub All-change_at :
    (f : PickerState → PickerState) (c : PickerContainer) (i : ℕ)
    → ((e : PickerEntry)
        → get_elem? (kinds c) i ≡ some e.kind
        → IsPlaced e
        → IsPlaced (with_state (f e.state) e))
    → All IsPlaced c
    → All IsPlaced (change_at f c i)
All-change_at f [] i h a = tt
All-change_at f (e ∷ es) zero h a = (h e refl a.0, a.1)
All-change_at f (e ∷ es) (suc i) h a = (a.0, All-change_at f es i h a.1)

pub All-change_all :
    (f : PickerState → PickerState) (c : PickerContainer)
    → Places f
    → All IsPlaced c
    → All IsPlaced (change_all f c)
All-change_all f [] h a = tt
All-change_all f (e ∷ es) h a = (h e a.0, All-change_all f es h a.1)

pub All-clamped :
    (f : PickerState → PickerState) (c : PickerContainer)
    → ((s : PickerState) → InRange (f s))
    → All IsPlaced (change_all f c)
All-clamped f [] h = tt
All-clamped f (e ∷ es) h = (inr (h e.state), All-clamped f es h)

pub active_placed :
    (c : PickerContainer) {active : PickerEntry}
    → active_entry c ≡ some active
    → All IsPlaced c
    → IsPlaced active
active_placed [] a p = cc
active_placed (e ∷ es) {active} a p = elim (Bool-cases e.state.is_open) [
  | inl shown ↦
      let first : some e ≡ some active = simp shown at a in
      let same : e ≡ active = cc first in subst IsPlaced same p.0
  | inr closed ↦ active_placed es (simp closed at a) p.1
]

pub All-change_active :
    (state : PickerState) (active : PickerEntry) (c : PickerContainer)
    → active_entry c ≡ some active
    → IsPlaced (with_state state active)
    → All IsPlaced c
    → All IsPlaced (change_active (λ _. state) c)
All-change_active state active [] a h p = tt
All-change_active state active (e ∷ es) a h p = elim (Bool-cases e.state.is_open) [
  | inl shown ↦
      let first : some e ≡ some active = simp shown at a in
      let same : e ≡ active = cc first in
      simp shown (subst (λ x. IsPlaced (with_state state x)) (sym same) h, p.1)
  | inr closed ↦ simp closed (p.0, All-change_active state active es (simp closed at a) h p.1)
]
