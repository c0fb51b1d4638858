-- ===== src/Transcript/Store/Cap.antt =====
-- The cap on the entries, and where the streaming cursors point after an entry was pushed.
use nu_agent.Prelude.{
  ℕ, zero, suc, ◌+◌, ◌-◌, ◌≤◌, ◌<◌, List, [], ◌∷◌, ◌++◌, Option, none, some, ◌≡◌, refl, ap, ◌∙◌,
  ◌⊎◌, inl, inr, arith, ltb, leb, nat_beq, length, drop, get_elem?, Bool-cases, length-drop,
  length-append, sat_add, is_some,
}
use nu_agent.Transcript.Entry.{TranscriptEntry}
use nu_agent.Transcript.Store.{
  TranscriptStore, max_transcript_entries, last, cached_last, shift_cursor,
  shift_indices_after_eviction, drain_metrics, enforce_transcript_cap, cache_pushed_entry,
  push_entry,
}

get_elem?-drop {ℓ} :
    {A : Type ℓ} (k m : ℕ) (xs : List A) → get_elem? (drop k xs) m ≡ get_elem? xs (k + m)
get_elem?-drop zero m xs = ground arith
get_elem?-drop (suc k) m [] = refl
get_elem?-drop (suc k) m (x ∷ xs) =
    let e : suc k + m ≡ suc (k + m) = omega arith in rw e (get_elem?-drop k m xs)

-- Where a cursor into a list points after its oldest entries went: at the same entry, or nowhere
-- when that entry is one of them.
abbrev pub Follows : ℕ → List TranscriptEntry → List TranscriptEntry → Option ℕ → Option ℕ → Type 0
Follows evicted before after none cursor = cursor ≡ none
Follows evicted before after (some n) cursor =
    ((n < evicted) × (cursor ≡ none))
    ⊎ ((m : ℕ) × (cursor ≡ some m) × (n ≡ evicted + m) × (get_elem? after m ≡ get_elem? before n))

shift_cursor-Follows :
    (evicted : ℕ) (xs : List TranscriptEntry) (cursor : Option ℕ)
    → Follows evicted xs (drop evicted xs) cursor (shift_cursor evicted cursor)
unfolding shift_cursor
shift_cursor-Follows evicted xs none = refl
shift_cursor-Follows evicted xs (some n) = elim (Bool-cases (leb evicted n)) [
  | inl kept ↦ inr (
    n - evicted,
    rw kept,
    ground arith,
    get_elem?-drop evicted (n - evicted) xs ∙ ap (get_elem? xs) (ground arith),
  )
  | inr gone ↦ inl (ground arith, rw gone)
]

-- What a push leaves: the newest entries, at most as many as the cap, the new one last; the count
-- of the evicted ones; and cursors that follow their entries.
abbrev pub Pushed : TranscriptEntry → TranscriptStore → TranscriptStore → ℕ → Type 0
Pushed e s s' evicted =
    (length s'.entries ≤ max_transcript_entries)
    × (evicted ≡ length s.entries + 1 - max_transcript_entries)
    × (s'.entries ≡ drop evicted (s.entries ++ e ∷ []))
    × Follows evicted (s.entries ++ e ∷ []) s'.entries s.assistant_stream_start
        s'.assistant_stream_start
    × Follows evicted (s.entries ++ e ∷ []) s'.entries s.summary_stream_start
        s'.summary_stream_start

-- The entries and the cursors of a store.
abbrev Contents : Type 0
Contents = List TranscriptEntry × Option ℕ × Option ℕ

abbrev contents : TranscriptStore → Contents
contents s = (s.entries, s.assistant_stream_start, s.summary_stream_start)

contents-drain_metrics : (n : ℕ) (s : TranscriptStore) → contents (drain_metrics n s) ≡ contents s
unfolding drain_metrics
contents-drain_metrics n s = elim (Bool-cases (is_some s.height_index_width)) [
  | inl kept ↦ rw kept
  | inr stale ↦ rw stale
]

shift_cursor-zero : (cursor : Option ℕ) → shift_cursor 0 cursor ≡ cursor
unfolding shift_cursor
shift_cursor-zero none = refl
shift_cursor-zero (some n) = ground arith

contents-shift :
    (n : ℕ) (s : TranscriptStore)
    → contents (shift_indices_after_eviction n s)
      ≡ (s.entries, shift_cursor n s.assistant_stream_start, shift_cursor n s.summary_stream_start)
unfolding shift_indices_after_eviction
contents-shift n s = elim (Bool-cases (nat_beq n 0)) [
  | inr more ↦ rw more
  | inl zero_n ↦
      let e : n ≡ 0 = ground arith in
      rw (e, shift_cursor-zero s.assistant_stream_start, shift_cursor-zero s.summary_stream_start)
]

-- `enforce_transcript_cap` on the contents.
contents-cap :
    (s : TranscriptStore)
    → contents (enforce_transcript_cap s).0 ≡ (
      drop (enforce_transcript_cap s).1 s.entries,
      shift_cursor (enforce_transcript_cap s).1 s.assistant_stream_start,
      shift_cursor (enforce_transcript_cap s).1 s.summary_stream_start,
    )
unfolding enforce_transcript_cap
contents-cap s = elim (Bool-cases (ltb 0 (length s.entries - max_transcript_entries))) [
  | inl over ↦
      let overflow = length s.entries - max_transcript_entries in
      let evicted : TranscriptStore = record s {
        entries = drop overflow s.entries;
        evicted_total = sat_add s.evicted_total overflow;
      } in
      rw over (
        contents-drain_metrics overflow (shift_indices_after_eviction overflow evicted)
        ∙ contents-shift overflow evicted)
  | inr within ↦
      let e : length s.entries - max_transcript_entries ≡ 0 = ground arith in
      rw (e, shift_cursor-zero s.assistant_stream_start, shift_cursor-zero s.summary_stream_start)
]

evicted-cap :
    (s : TranscriptStore) → (enforce_transcript_cap s).1 ≡ length s.entries - max_transcript_entries
unfolding enforce_transcript_cap
evicted-cap s = elim (Bool-cases (ltb 0 (length s.entries - max_transcript_entries))) [
  | inl over ↦ rw over
  | inr within ↦ rw within
]

Follows-of :
    (evicted : ℕ) (xs after : List TranscriptEntry) (cursor cursor' : Option ℕ)
    → after ≡ drop evicted xs
    → cursor' ≡ shift_cursor evicted cursor
    → Follows evicted xs after cursor cursor'
Follows-of evicted xs after cursor cursor' p q = rw (p, q) (shift_cursor-Follows evicted xs cursor)

module _ (measure : TranscriptEntry → ℕ → ℕ) where
  contents-cached :
      (o : Option ℕ) (e : Option TranscriptEntry) (s : TranscriptStore)
      → contents (cached_last measure o e s) ≡ contents s
  contents-cached none e s = refl
  contents-cached (some w) none s = refl
  contents-cached (some w) (some e) s = refl

  -- A push keeps the newest entries, at most as many as the cap, the new one last, and tells how
  -- many it evicted. A streaming cursor still points at its entry, or at none just when that entry
  -- was evicted.
  pub push_entry-Pushed :
      (e : TranscriptEntry) (s : TranscriptStore)
      → Pushed e s (push_entry measure e s).0 (push_entry measure e s).1
  unfolding push_entry cache_pushed_entry
  push_entry-Pushed e s =
      let pushed : TranscriptStore = record s { entries = s.entries ++ e ∷ [] } in
      let cached = cache_pushed_entry measure pushed in
      let same = contents-cached s.height_index_width (last pushed.entries) pushed in
      let kept = contents-cap cached in
      let evicted = (enforce_transcript_cap cached).1 in
      let entries' =
        ap (λ (c : Contents). c.0) kept ∙ ap (λ (c : Contents). drop evicted c.0) same in
      let count =
        evicted-cap cached ∙ ap (λ (c : Contents). length c.0 - max_transcript_entries) same in
      let added = length-append s.entries (e ∷ []) in
      (
        rw entries' (omega (arith, length-drop evicted (s.entries ++ e ∷ []), count, added)),
        omega (arith, count, added),
        entries',
        Follows-of evicted _ _ _ _ entries' (
            ap (λ (c : Contents). c.1) kept ∙ ap (λ (c : Contents). shift_cursor evicted c.1) same),
        Follows-of evicted _ _ _ _ entries' (
            ap (λ (c : Contents). c.2) kept ∙ ap (λ (c : Contents). shift_cursor evicted c.2) same),
      )
