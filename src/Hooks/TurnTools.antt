-- ===== src/Hooks/TurnTools.antt =====
-- The log of a turn's tool calls (crates/agnt-core/src/hook/turn_tools.rs). A call's identifier is a
-- text.
pub mod Log
use nu_agent.Prelude.{
  Bool, true, false, not, ◌||◌, List, [], ◌∷◌, ◌++◌, Option, none, some, String, Eq, ◌==◌,
  string_eq, if◌then◌else◌,
}
use nu_agent.Hooks.Events.{ToolStatus}

pub record TurnToolRecord : Type 0 where
  pub call_id : String
  pub name : String
  pub arguments : String
  pub result : Option String
  pub success : Option Bool
  pub error_kind : Option String
  pub status : Option ToolStatus

pub record SettledToolCall : Type 0 where
  pub result : String
  pub success : Bool
  pub status : ToolStatus
  pub error_kind : Option String

abbrev pub TurnToolLog : Type 0
TurnToolLog = List TurnToolRecord

-- `records.iter().any(|record| record.call_id == call_id)`.
unfoldable pub is_recorded : String → TurnToolLog → Bool
is_recorded id [] = false
is_recorded id (r ∷ rs) = r.call_id == id || is_recorded id rs

abbrev pub dispatched : String → String → String → TurnToolRecord
dispatched call_id name arguments = record {
  call_id = call_id;
  name = name;
  arguments = arguments;
  result = none;
  success = none;
  error_kind = none;
  status = none;
}

-- One call is one record.
unfoldable pub record_call : String → String → String → TurnToolLog → TurnToolLog
unfolding is_recorded
record_call call_id name arguments log =
    if is_recorded call_id log then log else log ++ dispatched call_id name arguments ∷ []

abbrev pub settle : SettledToolCall → TurnToolRecord → TurnToolRecord
settle settled r = record r {
  result = some settled.result;
  success = some settled.success;
  error_kind = settled.error_kind;
  status = some settled.status;
}

-- The first record of the call takes the result; a call without one gets a record.
unfoldable pub record_result :
    String → String → String → SettledToolCall → TurnToolLog → TurnToolLog
record_result call_id name arguments settled [] =
    settle settled (dispatched call_id name arguments) ∷ []
record_result call_id name arguments settled (r ∷ rs) =
    let rest = record_result call_id name arguments settled rs in
    if r.call_id == call_id then settle settled r ∷ rs else r ∷ rest

-- The calls, as identifier and name, of a response that were never dispatched.
unfoldable pub undispatched_streamed_calls :
    List (String × String) → TurnToolLog → List (String × String)
unfolding is_recorded
undispatched_streamed_calls [] log = []
undispatched_streamed_calls (call ∷ calls) log =
    let rest = undispatched_streamed_calls calls log in
    if is_recorded call.0 log then rest else call ∷ rest
