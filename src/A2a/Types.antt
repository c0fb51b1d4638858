-- ===== src/A2a/Types.antt =====
-- The data of a task (crates/agnt-a2a/src/types). `J` is `serde_json::Value`; a timestamp is a
-- number of ticks.
use nu_agent.Prelude.{ℕ, List, String, Option, ℤ}
use nu_agent.A2a.TaskState.{TaskState}

pub data Role : Type 0 where
  user agent : Role

pub record FileContent : Type 0 where
  pub url : String
  pub filename : String
  pub media_type : String

pub record DataContent (J : Type 0) : Type 0 where
  pub media_type : String
  pub schema : J

pub data Part (J : Type 0) : Type 0 where
  text : String → Part J
  file : FileContent → Part J
  content : DataContent J → Part J

pub record Message (J : Type 0) : Type 0 where
  pub role : Role
  pub parts : List (Part J)
  pub message_id : String
  pub extensions : Option (List String)
  pub metadata : Option (List (String × J))

pub record Artifact (J : Type 0) : Type 0 where
  pub artifact_id : String
  pub name : Option String
  pub parts : List (Part J)
  pub metadata : Option (List (String × J))

pub record TaskStatus (J : Type 0) : Type 0 where
  pub state : TaskState
  pub timestamp : ℕ
  pub message : Option (Message J)

pub record Task (J : Type 0) : Type 0 where
  pub id : String
  pub context_id : Option String
  pub parent_task_id : Option String
  pub status : TaskStatus J
  pub history : Option (List (Message J))
  pub artifacts : List (Artifact J)
  pub created_at : Option ℕ
  pub metadata : Option (List (String × J))

pub data TaskEvent (J : Type 0) : Type 0 where
  status_changed : String → TaskStatus J → TaskEvent J
  artifact_added : String → Artifact J → TaskEvent J

pub data PushAuthScheme (J : Type 0) : Type 0 where
  bearer : String → PushAuthScheme J
  basic : String → String → PushAuthScheme J
  custom : String → J → PushAuthScheme J

pub record PushAuthenticationInfo (J : Type 0) : Type 0 where
  pub scheme : PushAuthScheme J

pub record PushNotificationConfig (J : Type 0) : Type 0 where
  pub id : String
  pub url : String
  pub task_id : String
  pub authentication : Option (PushAuthenticationInfo J)
  pub created_at : ℕ

-- `A2aError` (crates/agnt-a2a/src/error.rs).
pub data A2aError (J : Type 0) : Type 0 where
  connection_refused timeout task_not_found serialization_error internal : String → A2aError J
  json_rpc_error : ℤ → String → Option J → A2aError J
  invalid_state_transition : TaskState → TaskState → A2aError J

pub data Result (J : Type 0) (A : Type 0) : Type 0 where
  ok : A → Result J A
  err : A2aError J → Result J A
