-- ===== src/Turn/Retry/Budgets.antt =====
-- The budgets of the loop: how often a turn is tried again, and how far its tokens are raised.
use nu_agent.Prelude.{
  ℕ, zero, suc, ◌+◌, ◌^◌, ◌≤◌, ◌<◌, ◌≡◌, refl, ◌∙◌, ap, map, length, ◌-◌, subst, ◌⊎◌, List, [], ◌∷◌,
  ◌++◌, Option, some, String, unwrap_or, arith, inl, inr,
}
use nu_agent.Turn.ErrorKind.{CompletionErrorKind}
use nu_agent.Turn.Retry.{
  Effect, LoopState, start, Round, again, break_with, attempt_prompt, raise_cap,
  effective_max_tokens, raised_max_tokens, completion_round, max_turns_round, finished_round, round,
  run_retry_loop, default_max_retries, max_provider_feedback_retries, max_turns_feedback_retries,
  max_repetition_stop_retries,
}
use nu_agent.Turn.Attempt.{
  Config, TurnContext, cancelled, max_turns_exceeded, unknown_tool, completion_failed,
  tool_execution_failed, TurnResult, Outcome, finished, failed,
}

abbrev pub retry_limit : Config → ℕ
retry_limit c = unwrap_or c.max_retries default_max_retries

-- The retries that a turn has, by the four budgets together.
abbrev pub budget : Config → ℕ
budget c = retry_limit c + 7

abbrev pub used : LoopState → ℕ
used s = s.attempt + s.feedback_retries + s.turns_retries + s.rep_stop_retries

-- Every counter is within its own budget.
abbrev pub IsWithin : Config → LoopState → Type 0
IsWithin c s =
    (s.attempt ≤ retry_limit c)
    × (s.feedback_retries ≤ max_provider_feedback_retries)
    × (s.turns_retries ≤ max_turns_feedback_retries)
    × (s.rep_stop_retries ≤ max_repetition_stop_retries)

module _ {M R : Type 0} where
  -- What a list of effects persists, in order.
  unfoldable pub persisted : List (Effect M R) → List (Effect M R)
  persisted [] = []
  persisted (Effect.persist_turn_delta history n records ∷ effects) =
      Effect.persist_turn_delta history n records ∷ persisted effects
  persisted (Effect.sleep kind msg delay ∷ effects) = persisted effects
  persisted (Effect.publish message ∷ effects) = persisted effects
  persisted (Effect.reset_ladder ∷ effects) = persisted effects

  persisted-append :
      (xs ys : List (Effect M R)) → persisted (xs ++ ys) ≡ persisted xs ++ persisted ys
  unfolding persisted
  persisted-append [] ys = refl
  persisted-append (Effect.persist_turn_delta history n records ∷ xs) ys =
      ap (◌∷◌ (Effect.persist_turn_delta history n records)) (persisted-append xs ys)
  persisted-append (Effect.sleep kind msg delay ∷ xs) ys = persisted-append xs ys
  persisted-append (Effect.publish message ∷ xs) ys = persisted-append xs ys
  persisted-append (Effect.reset_ladder ∷ xs) ys = persisted-append xs ys

  persisted-both :
      {xs ys us : List (Effect M R)} {d : Effect M R} → xs ≡ d ∷ [] → ys ≡ us → xs ++ ys ≡ d ∷ us
  persisted-both {ys} {d} e f = ap (λ l. l ++ ys) e ∙ ap (◌∷◌ d) f

  -- The messages that an attempt came to.
  unfoldable pub history_of : Outcome M R → List M
  history_of (finished r) = unwrap_or r.messages r.last_known_history
  history_of (failed (max_turns_exceeded msg n messages) ctx) = messages
  history_of (failed (completion_failed msg kind) ctx) = ctx.last_known_history
  history_of (failed (cancelled msg messages) ctx) = ctx.last_known_history
  history_of (failed (unknown_tool msg name messages) ctx) = ctx.last_known_history
  history_of (failed (tool_execution_failed msg) ctx) = ctx.last_known_history

  -- The messages of an attempt, with the length of the history before it and its tool records.
  unfoldable pub delta : Outcome M R → Effect M R
  unfolding history_of
  delta (finished r) =
      Effect.persist_turn_delta (history_of (finished r)) r.pre_turn_message_count r.tool_records
  delta (failed e ctx) =
      Effect.persist_turn_delta (history_of (failed e ctx)) ctx.pre_turn_message_count
        ctx.tool_records

  -- A round that goes on uses one retry of one budget and persists the attempt, once; one that ends
  -- gives the attempt back, but for its message.
  abbrev Counts : Config → LoopState → Outcome M R → Round M R → Type 0
  Counts c s outcome (again t effects) =
      IsWithin c t × (used t ≡ used s + 1) × (persisted effects ≡ delta outcome ∷ [])
  Counts c s outcome (break_with o) = delta o ≡ delta outcome

  module _ (scale : ℕ → ℕ) (c : Config) (s : LoopState) (w : IsWithin c s) where
    completion_round-Counts :
        (kind : CompletionErrorKind) (msg : String) (ctx : TurnContext M R)
        → Counts c s
            (failed (completion_failed msg kind) ctx)
            (completion_round scale c s kind msg ctx)
    unfolding completion_round persisted delta
    completion_round-Counts kind msg ctx = ground arith

    max_turns_round-Counts :
        (msg : String) (n : ℕ) (messages : List M) (ctx : TurnContext M R)
        → Counts c s
            (failed (max_turns_exceeded msg n messages) ctx)
            (max_turns_round s msg n messages ctx)
    unfolding max_turns_round persisted delta
    max_turns_round-Counts msg n messages ctx = ground arith

    finished_round-Counts : (r : TurnResult M R) → Counts c s (finished r) (finished_round s r)
    unfolding finished_round persisted delta
    finished_round-Counts r = ground arith

    round-Counts : (o : Outcome M R) → Counts c s o (round scale c s o)
    unfolding round
    round-Counts (finished r) = finished_round-Counts r
    round-Counts (failed (completion_failed msg kind) ctx) = completion_round-Counts kind msg ctx
    round-Counts (failed (max_turns_exceeded msg n messages) ctx) =
        max_turns_round-Counts msg n messages ctx
    round-Counts (failed (cancelled msg messages) ctx) = refl
    round-Counts (failed (unknown_tool msg name messages) ctx) = refl
    round-Counts (failed (tool_execution_failed msg) ctx) = refl

  Round-cases :
      (r : Round M R)
      → ((o : Outcome M R) × (r ≡ break_with o))
        ⊎ ((t : LoopState) × (effects : List (Effect M R)) × (r ≡ again t effects))
  Round-cases (break_with o) = inl (o, refl)
  Round-cases (again t effects) = inr (t, effects, refl)

  module _ (execute : ℕ → Option ℕ → String → Outcome M R) (scale : ℕ → ℕ) (c : Config)
      (prompt : String) where
    -- The outcome is that of the attempt with a number.
    abbrev pub IsAttempt : ℕ → Outcome M R → Type 0
    IsAttempt n o = (tokens : Option ℕ) × (text : String) × (execute n tokens text ≡ o)

    -- The outcomes are those of the attempts from a number on.
    unfoldable pub AreAttempts : ℕ → List (Outcome M R) → Type 0
    AreAttempts n [] = Unit
    AreAttempts n (o ∷ os) = IsAttempt n o × AreAttempts (n + 1) os

    -- How the loop ended: what was retried, and the last attempt, with which it ends.
    pub record Ends (n : ℕ) (room : ℕ) (run : Option (Outcome M R × List (Effect M R)))
        : Type 0 where
      pub outcome : Outcome M R
      pub effects : List (Effect M R)
      pub retried : List (Outcome M R)
      pub last : Outcome M R
      pub returns : run ≡ some (outcome, effects)
      pub attempts : AreAttempts n retried
      pub persists : persisted effects ≡ map delta retried
      pub last_attempt : IsAttempt (n + length retried) last
      pub ends_with : delta outcome ≡ delta last
      pub within : length retried ≤ room

    IsAttempt-at : {m n : ℕ} {o : Outcome M R} → m ≡ n → IsAttempt m o → IsAttempt n o
    IsAttempt-at {o} e a = subst (λ k. IsAttempt k o) e a

    run-break :
        (fuel n : ℕ) (s : LoopState) {o : Outcome M R}
        → round scale c s (execute n s.attempt_max_tokens (attempt_prompt s prompt)) ≡ break_with o
        → run_retry_loop execute scale c prompt (suc fuel) n s ≡ some (o, [])
    unfolding run_retry_loop
    run-break fuel n s e = rw (e, run_retry_loop) refl

    run-again :
        (fuel n : ℕ) (s : LoopState) {t : LoopState} {effects later : List (Effect M R)}
        {o : Outcome M R}
        → round scale c s (execute n s.attempt_max_tokens (attempt_prompt s prompt))
          ≡ again t effects
        → run_retry_loop execute scale c prompt fuel (n + 1) t ≡ some (o, later)
        → run_retry_loop execute scale c prompt (suc fuel) n s ≡ some (o, effects ++ later)
    unfolding run_retry_loop
    run-again fuel n s e r = rw (e, run_retry_loop) (rw r refl)

    -- From any state within its budgets, as much fuel as retries are left and one more is enough.
    loop-Ends :
        (fuel n room : ℕ) (s : LoopState)
        → IsWithin c s
        → used s + room ≡ budget c
        → room < fuel
        → Ends n room (run_retry_loop execute scale c prompt fuel n s)
    unfolding AreAttempts persisted
    loop-Ends zero n room s w b h = absurd (omega arith)
    loop-Ends (suc fuel) n room s w b h =
        let outcome = execute n s.attempt_max_tokens (attempt_prompt s prompt) in
        let k = round-Counts scale c s w outcome in
        elim (Round-cases (round scale c s outcome)) [
          | inl (o, e) ↦ record {
            outcome = o;
            effects = [];
            retried = [];
            last = outcome;
            returns = run-break fuel n s e;
            attempts = tt;
            persists = refl;
            last_attempt =
                IsAttempt-at (omega arith) (s.attempt_max_tokens, attempt_prompt s prompt, refl);
            ends_with = subst (Counts c s outcome) e k;
            within = omega arith;
          }
          | inr (t, effects, e) ↦
              let (w', u, one) = subst (Counts c s outcome) e k in
              let later = loop-Ends fuel (n + 1) (room - 1) t w' (omega arith) (omega arith) in
              record {
                outcome = later.outcome;
                effects = effects ++ later.effects;
                retried = outcome ∷ later.retried;
                last = later.last;
                returns = run-again fuel n s e later.returns;
                attempts = ((s.attempt_max_tokens, attempt_prompt s prompt, refl), later.attempts);
                persists =
                    persisted-append effects later.effects ∙ persisted-both one later.persists;
                last_attempt = IsAttempt-at (omega arith) later.last_attempt;
                ends_with = later.ends_with;
                within = omega (arith, later.within);
              }
        ]

    -- Whatever the attempts come to, the loop ends: `max_retries` and eight attempts are enough. Each
    -- attempt but the last is handed over to be persisted, once and in order, with its own messages,
    -- the length of the history before it and its tool records, and nothing else is; there are `max_retries` and seven retries at most; and the
    -- outcome has the messages and records of the last attempt, whose number is that of the retries.
    pub run_retry_loop-Ends :
        Ends 0 (budget c) (run_retry_loop execute scale c prompt (budget c + 1) 0 start)
    run_retry_loop-Ends =
        loop-Ends (budget c + 1) 0 (budget c) start (omega arith) (omega arith) (omega arith)

-- A retry with raised tokens has more of them than the attempt before it when the scale grows its
-- argument, and no more than the cap, a 32-bit number.
raised_max_tokens-bounds :
    (scale : ℕ → ℕ) (c : Config) (s : LoopState) (kind : CompletionErrorKind) (base raised : ℕ)
    → ((n : ℕ) → n < scale n)
    → raise_cap c < 2 ^ 32
    → effective_max_tokens c s ≡ some base
    → raised_max_tokens scale c s kind ≡ some raised
    → (base < raised) × (raised ≤ raise_cap c)
unfolding raised_max_tokens
raised_max_tokens-bounds scale c s kind base raised grow small e r = ground (arith, grow base, e, r)
