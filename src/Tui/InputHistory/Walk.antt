-- ===== src/Tui/InputHistory/Walk.antt =====
-- Walking up and down again gives the draft back, and never leaves the history.
use nu_agent.Prelude.{
  ℕ, zero, suc, ◌+◌, ◌-◌, ◌<◌, ◌≡◌, ◌≢◌, refl, ◌∙◌, ap, true, false, List, [], ◌∷◌, Option, none,
  some, String, leb, length, arith, Bool-cases, inl, inr,
}
use nu_agent.Tui.InputHistory.{
  InputHistory, idle, Loaded, nothing, out_of_range, loaded, load, history_up, history_down,
}

load-in_range :
    (submitted : List String) (i : ℕ) → i < length submitted → load submitted i ≢ out_of_range
unfolding load
load-in_range [] i h = absurd (omega arith)
load-in_range (text ∷ submitted) zero h = λ e. cc
load-in_range (text ∷ submitted) (suc i) h = load-in_range submitted i (omega arith)

-- The index of a walk points into a history of some length.
abbrev pub IsInRange : ℕ → Option ℕ → Type 0
IsInRange n none = Unit
IsInRange n (some i) = i < n

abbrev pub walking : Option ℕ → String → InputHistory
walking index draft = record { history_index = index; history_saved = draft }

history_up-IsInRange :
    (submitted : List String) (index : Option ℕ) (draft buffer : String)
    → IsInRange (length submitted) index
    → IsInRange
        (length submitted)
        (history_up (walking index draft) submitted buffer).0.history_index
      × ((history_up (walking index draft) submitted buffer).1 ≢ out_of_range)
unfolding history_up
history_up-IsInRange [] index draft buffer h = (h, λ e. cc)
history_up-IsInRange (t ∷ ts) none draft buffer h =
    (omega arith, load-in_range (t ∷ ts) (length (t ∷ ts) - 1) (omega arith))
history_up-IsInRange (t ∷ ts) (some i) draft buffer h =
    (omega arith, load-in_range (t ∷ ts) (i - 1) (omega arith))

history_down-IsInRange :
    (submitted : List String) (index : Option ℕ) (draft : String)
    → IsInRange (length submitted) index
    → IsInRange (length submitted) (history_down (walking index draft) submitted).0.history_index
      × ((history_down (walking index draft) submitted).1 ≢ out_of_range)
unfolding history_down
history_down-IsInRange submitted none draft h = (tt, λ e. cc)
history_down-IsInRange submitted (some i) draft h =
    elim (Bool-cases (leb (length submitted) (i + 1))) [
      | inl end ↦ rw (end, history_down) (tt, λ e. cc)
      | inr more ↦
          let room : i + 1 < length submitted = ground (arith, more) in
          rw (more, history_down) (room, load-in_range submitted (i + 1) room)
    ]

-- While the index of a walk points into the history, a step up or down reads inside the history and
-- leaves an index that points into it, or none.
history_steps-IsInRange :
    (submitted : List String) (index : Option ℕ) (draft buffer : String)
    → IsInRange (length submitted) index
    → IsInRange
        (length submitted)
        (history_up (walking index draft) submitted buffer).0.history_index
      × ((history_up (walking index draft) submitted buffer).1 ≢ out_of_range)
      × IsInRange (length submitted) (history_down (walking index draft) submitted).0.history_index
      × ((history_down (walking index draft) submitted).1 ≢ out_of_range)
history_steps-IsInRange submitted index draft buffer h =
    let (a, b) = history_up-IsInRange submitted index draft buffer h in
    let (c, d) = history_down-IsInRange submitted index draft h in (a, b, c, d)

-- What the input holds after a step that gave a text or not, while no turn runs; `shown` is what the input makes of a
-- text that is put into it, whose lines it splits and joins again (`handle_history_up` in
-- crates/agnt-tui/src/runtime/coordinator.rs).
abbrev pub put_text : (String → String) → Loaded → String → String
put_text shown nothing buffer = buffer
put_text shown out_of_range buffer = buffer
put_text shown (loaded text) buffer = shown text

module _ (shown : String → String) (submitted : List String) where
  -- The walk and what the input holds.
  abbrev pub step_up : InputHistory × String → InputHistory × String
  step_up (s, buffer) =
      ((history_up s submitted buffer).0, put_text shown (history_up s submitted buffer).1 buffer)

  abbrev pub step_down : InputHistory × String → InputHistory × String
  step_down (s, buffer) =
      ((history_down s submitted).0, put_text shown (history_down s submitted).1 buffer)

  unfoldable pub ups : ℕ → InputHistory × String → InputHistory × String
  ups zero x = x
  ups (suc n) x = ups n (step_up x)

  unfoldable pub downs : ℕ → InputHistory × String → InputHistory × String
  downs zero x = x
  downs (suc n) x = downs n (step_down x)

  module _ (draft : String) where
    history_down-more :
        (i : ℕ)
        → i + 1 < length submitted
        → (history_down (walking (some i) draft) submitted).0 ≡ walking (some (i + 1)) draft
    unfolding history_down
    history_down-more i h =
        let more : leb (length submitted) (i + 1) ≡ false = ground arith in
        rw (more, history_down) refl

    downs-walking :
        (n i : ℕ) (x : InputHistory × String)
        → x.0 ≡ walking (some i) draft
        → i + n < length submitted
        → (downs n x).0 ≡ walking (some (i + n)) draft
    unfolding downs
    downs-walking zero i x e h = e ∙ ap (λ k. walking (some k) draft) (omega arith)
    downs-walking (suc n) i x e h =
        downs-walking n (i + 1) (step_down x)
          (ap (λ s. (history_down s submitted).0) e ∙ history_down-more i (omega arith))
          (omega arith)
        ∙ ap (λ k. walking (some k) draft) (omega arith)

    history_down-last :
        (i : ℕ)
        → i + 1 ≡ length submitted
        → history_down (walking (some i) draft) submitted ≡ (idle, loaded draft)
    unfolding history_down
    history_down-last i h =
        let end : leb (length submitted) (i + 1) ≡ true = ground arith in
        rw (end, history_down) refl

module _ (shown : String → String) where
  ups-walking :
      (text : String) (submitted : List String) (draft : String) (n i : ℕ)
      (x : InputHistory × String)
      → x.0 ≡ walking (some i) draft
      → (ups shown (text ∷ submitted) n x).0 ≡ walking (some (i - n)) draft
  unfolding ups history_up
  ups-walking text submitted draft zero i x e = e ∙ ap (λ k. walking (some k) draft) (omega arith)
  ups-walking text submitted draft (suc n) i x e =
      ups-walking text submitted draft n (i - 1) (step_up shown (text ∷ submitted) x)
        (ap (λ s. (history_up s (text ∷ submitted) x.1).0) e)
      ∙ ap (λ k. walking (some k) draft) (omega arith)

  ups-idle :
      (submitted : List String) (draft : String) (n : ℕ)
      → n < length submitted
      → (ups shown submitted (suc n) (idle, draft)).0
        ≡ walking (some (length submitted - 1 - n)) draft
  unfolding ups history_up
  ups-idle [] draft n h = absurd (omega arith)
  ups-idle (text ∷ submitted) draft n h =
      ups-walking text submitted draft n (length (text ∷ submitted) - 1) _ refl

  -- From an idle input that holds a draft, each step up is given what the input then holds, which is
  -- the text of the step before as the input shows it. As many steps down as steps up, no more than
  -- there are prompts, give back the draft itself, and the walk is over.
  pub history_down-ups :
      (submitted : List String) (draft : String) (n : ℕ)
      → n < length submitted
      → history_down
          (downs shown submitted n (ups shown submitted (suc n) (idle, draft))).0
          submitted
        ≡ (idle, loaded draft)
  history_down-ups submitted draft n h =
      let down =
        downs-walking shown submitted draft n (length submitted - 1 - n) _
          (ups-idle submitted draft n h) (omega arith) in
      ap (λ s. history_down s submitted) down
      ∙ history_down-last shown submitted draft (length submitted - 1 - n + n) (omega arith)
