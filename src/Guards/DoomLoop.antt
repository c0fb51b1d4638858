-- ===== src/Guards/DoomLoop.antt =====
-- The doom loop guard (crates/agnt-core/src/hook/doom_loop.rs): a tool called again and again with
-- the same arguments. The canonical form of the arguments is an argument of the definitions here;
-- `Guards.Canonical` models it.
pub mod Window
pub mod Ladder
use nu_agent.Prelude.{
  ℕ, suc, ◌+◌, ◌-◌, Bool, true, false, not, ◌&&◌, List, [], ◌∷◌, ◌++◌, Option, none, some, String,
  Eq, ◌==◌, string_eq, ltb, leb, if◌then◌else◌, length, drop, all, concat,
}
use nu_agent.Protocol.{SystemMessage, SystemKind, DispatchAction}

abbrev pub doom_loop_threshold : ℕ
doom_loop_threshold = 5

abbrev pub doom_loop_backoff_limit : ℕ
doom_loop_backoff_limit = 2

abbrev pub Signature : Type 0
Signature = String × String

unfoldable pub signature_eq : Signature → Signature → Bool
signature_eq a b = a.0 == b.0 && a.1 == b.1

pub record DoomLoopState : Type 0 where
  pub recent_signatures : List Signature
  pub escalation_count : ℕ

pub data DoomLoopDetection : Type 0 where
  first : String → DoomLoopDetection
  backoff : String → DoomLoopDetection
  stopped : String → DoomLoopDetection

abbrev pub new : DoomLoopState
new = record { recent_signatures = []; escalation_count = 0 }

unfoldable pub reset : DoomLoopState → DoomLoopState
reset s = record s { recent_signatures = []; escalation_count = 0 }

-- `last_n.iter().all(|sig| sig == first)`.
unfoldable pub all_same : List Signature → Bool
all_same [] = true
all_same (x ∷ xs) = all (λ y. signature_eq y x) (x ∷ xs)

-- The level of the n-th detection of a turn attempt.
unfoldable pub level : ℕ → String → DoomLoopDetection
level n name =
    if leb n 1 && leb 1 n
    then DoomLoopDetection.first name
    else if leb n (1 + doom_loop_backoff_limit)
    then DoomLoopDetection.backoff name
    else DoomLoopDetection.stopped name

module _ (canonicalize_args : String → String) where
  unfoldable pub check_and_record :
      DoomLoopState → String → String → DoomLoopState × Option DoomLoopDetection
  check_and_record s name args =
      let sigs = s.recent_signatures ++ (name, canonicalize_args args) ∷ [] in
      let pushed : DoomLoopState = record s { recent_signatures = sigs } in
      if ltb (length sigs) doom_loop_threshold
      then (pushed, none)
      else if not (all_same (drop (length sigs - doom_loop_threshold) sigs))
      then (pushed, none)
      else (
        record pushed { escalation_count = s.escalation_count + 1 },
        some (level (s.escalation_count + 1) name),
      )

abbrev detected_message : String → String
detected_message tool = concat (
    "Doom loop detected: '" ∷ tool
    ∷ "' called 5 times with identical arguments. Are you really sure you need so many tool calls? Reconsider your approach."
    ∷ [])

abbrev persisted_message : String → String
persisted_message tool = concat (
    "Doom loop persisted: '" ∷ tool
    ∷ "' triggered repeated loop detections. Change your approach: use different arguments, a different tool, or ask the user for guidance."
    ∷ [])

abbrev stopped_message : String → String
stopped_message tool = concat (
    "Doom loop stopped: '" ∷ tool ∷ "' kept looping after repeated steering. The run was stopped."
    ∷ [])

-- What a detection becomes: the answer to the call, and the warning on the UI bus.
unfoldable pub answer : Option DoomLoopDetection → Option DispatchAction × List SystemMessage
answer none = (none, [])
answer (some (DoomLoopDetection.first tool)) = (
  some (DispatchAction.skip (detected_message tool)),
  record { kind = SystemKind.warning; text = detected_message tool } ∷ [],
)
answer (some (DoomLoopDetection.backoff tool)) = (
  some (DispatchAction.skip (persisted_message tool)),
  record { kind = SystemKind.warning; text = persisted_message tool } ∷ [],
)
answer (some (DoomLoopDetection.stopped tool)) =
    (some (DispatchAction.stop (stopped_message tool)), [])

-- `DoomLoopDetector::check_and_record`: the new state, the action, and what is sent on the bus.
unfoldable pub detector_check :
    (String → String)
    → DoomLoopState
    → String
    → String
    → DoomLoopState × Option DispatchAction × List SystemMessage
detector_check canonicalize_args s name args =
    let (s', detected) = check_and_record canonicalize_args s name args in
    let (action, sent) = answer detected in (s', action, sent)
