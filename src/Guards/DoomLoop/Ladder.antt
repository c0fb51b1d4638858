-- ===== src/Guards/DoomLoop/Ladder.antt =====
-- The escalation over a turn attempt: the same call made again and again from a fresh state.
use nu_agent.Prelude.{
  ℕ, zero, suc, ◌-◌, ◌≡◌, refl, ◌∙◌, ap, none, some, String, leb, if◌then◌else◌, replicate,
  replicate-append_one, arith,
}
use nu_agent.Guards.DoomLoop.{
  Signature, DoomLoopState, DoomLoopDetection, new, level, check_and_record,
}
use nu_agent.Guards.DoomLoop.Window.{trailing-replicate, check_and_record_lem}

module _ (canonicalize_args : String → String) (name args : String) where
  -- The state after `k` calls of one tool with one list of arguments.
  unfoldable pub repeat_calls : ℕ → DoomLoopState
  repeat_calls zero = new
  repeat_calls (suc k) = (check_and_record canonicalize_args (repeat_calls k) name args).0

  abbrev sig : Signature
  sig = (name, canonicalize_args args)

  abbrev repeated : ℕ → DoomLoopState
  repeated k = record { recent_signatures = replicate k sig; escalation_count = k - 4 }

  step_repeated :
      (k : ℕ)
      → check_and_record canonicalize_args (repeated k) name args
        ≡ (repeated (suc k), (if leb 4 k then some (level (k - 3) name) else none))
  step_repeated k =
      check_and_record_lem canonicalize_args (repeated k) name args
      ∙ rw (replicate-append_one k sig, trailing-replicate sig (suc k)) (ground arith)

  repeat_calls_lem : (k : ℕ) → repeat_calls k ≡ repeated k
  unfolding repeat_calls
  repeat_calls_lem zero = refl
  repeat_calls_lem (suc k) =
      ap (λ s. (check_and_record canonicalize_args s name args).0) (repeat_calls_lem k)
      ∙ ap (λ r. r.0) (step_repeated k)

  -- From a fresh state the first four identical calls pass, the fifth is steered, the sixth and
  -- the seventh are steered more strongly, and every later one stops the run.
  repeat_calls-ladder :
      (k : ℕ)
      → (check_and_record canonicalize_args (repeat_calls k) name args).1 ≡ (
          if leb k 3
          then none
          else if leb k 4
          then some (DoomLoopDetection.first name)
          else if leb k 6
          then some (DoomLoopDetection.backoff name)
          else some (DoomLoopDetection.stopped name))
  unfolding level
  repeat_calls-ladder k = rw (repeat_calls_lem k, step_repeated k) (ground arith)
