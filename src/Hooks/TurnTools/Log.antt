-- ===== src/Hooks/TurnTools/Log.antt =====
-- The log of a turn keeps one record for a call, and the results that it was given.
use nu_agent.Prelude.{
  false, ◌||◌, List, [], ◌∷◌, ◌++◌, Option, none, some, String, ◌==◌, string_eq, ==_refl, ==_iff,
  ◌≡◌, inl, inr, refl, ◌∙◌, arith, Bool-cases, All, if◌then◌else◌,
}
use nu_agent.Hooks.TurnTools.{
  TurnToolRecord, SettledToolCall, TurnToolLog, is_recorded, dispatched, record_call, settle,
  record_result,
}

pub data LogOp : Type 0 where
  call : String → String → String → LogOp
  result : String → String → String → SettledToolCall → LogOp

unfoldable pub log_step : TurnToolLog → LogOp → TurnToolLog
log_step log (call id name args) = record_call id name args log
log_step log (result id name args settled) = record_result id name args settled log

unfoldable pub log_run : TurnToolLog → List LogOp → TurnToolLog
log_run log [] = log
log_run log (op ∷ ops) = log_run (log_step log op) ops

-- The record of a call.
unfoldable pub find_record : String → TurnToolLog → Option TurnToolRecord
find_record id [] = none
find_record id (r ∷ rs) = if r.call_id == id then some r else find_record id rs

-- No two records are of one call.
unfoldable pub IsDistinct : TurnToolLog → Type 0
IsDistinct [] = Unit
IsDistinct (r ∷ rs) = (is_recorded r.call_id rs ≡ false) × IsDistinct rs

is_recorded-append_one :
    (id : String) (log : TurnToolLog) (r : TurnToolRecord)
    → is_recorded id (log ++ r ∷ []) ≡ (is_recorded id log || (r.call_id == id))
unfolding is_recorded
is_recorded-append_one id [] r = ground arith
is_recorded-append_one id (x ∷ log) r = ground (arith, is_recorded-append_one id log r)

append_one-IsDistinct :
    (log : TurnToolLog) (r : TurnToolRecord)
    → is_recorded r.call_id log ≡ false
    → IsDistinct log
    → IsDistinct (log ++ r ∷ [])
unfolding IsDistinct is_recorded
append_one-IsDistinct [] r h d = (refl, tt)
append_one-IsDistinct (x ∷ log) r h d = (
  rw (is_recorded-append_one x.call_id log r)
      (ground (arith, d.0, h, ==_iff x.call_id r.call_id, ==_iff r.call_id x.call_id)),
  append_one-IsDistinct log r (ground (arith, h)) d.1,
)

record_call-IsDistinct :
    (id name args : String) (log : TurnToolLog)
    → IsDistinct log
    → IsDistinct (record_call id name args log)
unfolding record_call
record_call-IsDistinct id name args log d = elim (Bool-cases (is_recorded id log)) [
  | inl there ↦ rw there d
  | inr fresh ↦ rw fresh (append_one-IsDistinct log (dispatched id name args) fresh d)
]

is_recorded-record_result :
    (id name args other : String) (s : SettledToolCall) (log : TurnToolLog)
    → is_recorded other (record_result id name args s log)
      ≡ (is_recorded other log || (id == other))
unfolding is_recorded record_result
is_recorded-record_result id name args other s [] = ground arith
is_recorded-record_result id name args other s (r ∷ log) = ground (
  arith,
  is_recorded-record_result id name args other s log,
  ==_iff r.call_id id,
  ==_iff r.call_id other,
  ==_iff id other,
)

record_result-IsDistinct :
    (id name args : String) (s : SettledToolCall) (log : TurnToolLog)
    → IsDistinct log
    → IsDistinct (record_result id name args s log)
unfolding IsDistinct record_result is_recorded
record_result-IsDistinct id name args s [] d = (refl, tt)
record_result-IsDistinct id name args s (r ∷ log) d = elim (Bool-cases (r.call_id == id)) [
  | inl same ↦ rw same d
  | inr other ↦ rw other (
    rw (is_recorded-record_result id name args r.call_id s log)
        (ground (arith, d.0, other, ==_iff id r.call_id, ==_iff r.call_id id)),
    record_result-IsDistinct id name args s log d.1,
  )
]

-- The record reports these results.
pub record Reports (s : SettledToolCall) (r : TurnToolRecord) : Type 0 where
  pub result : r.result ≡ some s.result
  pub success : r.success ≡ some s.success
  pub status : r.status ≡ some s.status
  pub error_kind : r.error_kind ≡ s.error_kind

-- The call has a record with these results.
abbrev pub HasSettled : String → SettledToolCall → TurnToolLog → Type 0
HasSettled id s log = (r : TurnToolRecord) × (find_record id log ≡ some r) × Reports s r

settle-Reports : (s : SettledToolCall) (r : TurnToolRecord) → Reports s (settle s r)
settle-Reports s r = record { result = refl; success = refl; status = refl; error_kind = refl }

-- The operation gives the call no result.
abbrev pub LeavesResult : String → LogOp → Type 0
LeavesResult id (call _ _ _) = Unit
LeavesResult id (result other _ _ _) = (other == id) ≡ false

find_record-append :
    (id : String) (log new : TurnToolLog) {r : TurnToolRecord}
    → find_record id log ≡ some r
    → find_record id (log ++ new) ≡ some r
unfolding find_record
find_record-append id [] new e = cc
find_record-append id (x ∷ log) new {r = r} e =
    ground (arith, find_record-append id log new {r = r})

find_record-record_call :
    (id name args other : String) (log : TurnToolLog) {r : TurnToolRecord}
    → find_record other log ≡ some r
    → find_record other (record_call id name args log) ≡ some r
unfolding record_call
find_record-record_call id name args other log e = elim (Bool-cases (is_recorded id log)) [
  | inl there ↦ rw there e
  | inr fresh ↦ rw fresh (find_record-append other log (dispatched id name args ∷ []) e)
]

find_record-record_result :
    (id name args other : String) (s : SettledToolCall) (log : TurnToolLog)
    → (id == other) ≡ false
    → find_record other (record_result id name args s log) ≡ find_record other log
unfolding find_record record_result
find_record-record_result id name args other s [] h = ground arith
find_record-record_result id name args other s (r ∷ log) h = ground (
  arith,
  find_record-record_result id name args other s log,
  ==_iff r.call_id id,
  ==_iff r.call_id other,
  ==_iff id other,
)

record_result-HasSettled :
    (id name args : String) (s : SettledToolCall) (log : TurnToolLog)
    → HasSettled id s (record_result id name args s log)
unfolding find_record record_result
record_result-HasSettled id name args s [] = (
  settle s (dispatched id name args),
  rw (==_refl id),
  settle-Reports s (dispatched id name args),
)
record_result-HasSettled id name args s (r ∷ log) = elim (Bool-cases (r.call_id == id)) [
  | inl same ↦ rw same (settle s r, rw same, settle-Reports s r)
  | inr other ↦
      let (found, at, rest) = record_result-HasSettled id name args s log in
      rw other (found, rw other at, rest)
]

step-IsDistinct : (log : TurnToolLog) (op : LogOp) → IsDistinct log → IsDistinct (log_step log op)
unfolding log_step
step-IsDistinct log (call id name args) d = record_call-IsDistinct id name args log d
step-IsDistinct log (result id name args s) d = record_result-IsDistinct id name args s log d

step-HasSettled :
    (log : TurnToolLog) (op : LogOp) (id : String) (s : SettledToolCall)
    → LeavesResult id op
    → HasSettled id s log
    → HasSettled id s (log_step log op)
unfolding log_step
step-HasSettled log (call other name args) id s l (r, at, rest) =
    (r, find_record-record_call other name args id log at, rest)
step-HasSettled log (result other name args settled) id s l (r, at, rest) =
    (r, find_record-record_result other name args id settled log l ∙ at, rest)

-- In a log with one record for a call, a result stays with its call: after any operations that give
-- the call no other result there is still one record for a call, and that of this one has the
-- result, its verdicts and its error kind, whether or not the call was ever dispatched.
pub log_run-HasSettled :
    (log : TurnToolLog) (id : String) (s : SettledToolCall) (ops : List LogOp)
    → IsDistinct log
    → HasSettled id s log
    → All (LeavesResult id) ops
    → IsDistinct (log_run log ops) × HasSettled id s (log_run log ops)
unfolding log_run
log_run-HasSettled log id s [] d h l = (d, h)
log_run-HasSettled log id s (op ∷ ops) d h l =
    log_run-HasSettled (log_step log op) id s ops (step-IsDistinct log op d)
      (step-HasSettled log op id s l.0 h) l.1
