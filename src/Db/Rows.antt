-- ===== src/Db/Rows.antt =====
-- backend/db/models.py: the rows of the tables `users`, `threads`, `runs`, `messages`,
-- `run_events` and `transaction_outbox`. A date is the number of its microsecond, a cost the
-- number of its millionths, and a JSON column the values that the code reads from it. The column
-- `updated_at` of a run, which every write sets and no transaction reads, is left out.
use super_mew.Prelude.{ℕ, ℤ, String, Option, List}
use super_mew.Errors.{ErrorContract}
use super_mew.Runs.State.{RunStatus, MultitaskStrategy}
use super_mew.Events.Contracts.{RunEventType, MessageStatus, EventData}

pub record User : Type 0 where
  pub id : ℕ
  pub username : String
  pub role : String

-- `metadata_json` of a thread: the keys that the code names
pub record Metadata : Type 0 where
  pub title : Option String
  pub persistent_note : Option String

pub record Thread : Type 0 where
  pub id : ℕ
  pub user_id : ℕ
  pub thread_id : String
  pub version : ℕ
  pub message_count : ℕ
  pub last_sequence : ℕ
  pub metadata_json : Metadata
  pub updated_at : ℕ

-- the columns of a run that no operation writes after its creation
pub record RunRequest : Type 0 where
  pub id : String
  pub thread_ref_id : ℕ
  pub user_id : ℕ
  pub tenant_id : String
  pub channel : String
  pub approved_tools_json : List String
  pub idempotency_key : String
  pub request_hash : String
  pub model_name : String
  pub model_catalog_hash : String
  pub model_snapshot_json : String
  pub on_disconnect : String
  pub multitask_strategy : MultitaskStrategy
  pub supersedes_run_id : Option String
  pub deadline_at : ℕ
  pub created_at : ℕ

pub record SkillPin : Type 0 where
  pub skill_name : Option String
  pub skill_version : Option String
  pub skill_content_hash : Option String
  pub skill_activation_source : Option String

pub record Outcome : Type 0 where
  pub finished_at : Option ℕ
  pub error_code : Option String
  pub error_detail_redacted : Option ErrorContract
  pub input_tokens : ℕ
  pub output_tokens : ℕ
  pub cost : ℤ

pub record Run : Type 0 where
  pub request : RunRequest
  pub open request use *
  pub user_message_id : Option ℕ
  pub assistant_message_id : Option ℕ
  pub status : RunStatus
  pub fencing_token : ℕ
  pub last_event_sequence : ℕ
  pub owner_worker_id : Option String
  pub lease_expires_at : Option ℕ
  pub started_at : Option ℕ
  pub skill : SkillPin
  pub outcome : Outcome

pub data MessageType : Type 0 where
  human ai system other_type : MessageType

pub record Message : Type 0 where
  pub id : ℕ
  pub thread_ref_id : ℕ
  pub run_id : Option String
  pub client_message_id : Option String
  pub sequence : ℕ
  pub message_type : MessageType
  pub content : String
  pub status : MessageStatus
  pub timestamp : ℕ
  pub updated_at : ℕ
  pub rag_trace : Option String

pub record RunEvent : Type 0 where
  pub event_id : String
  pub run_id : String
  pub sequence : ℕ
  pub event_type : RunEventType
  pub payload_json : EventData
  pub created_at : ℕ

-- the payload is the event that the row announces, with the public id of its thread
pub record TransactionOutbox : Type 0 where
  pub id : ℕ
  pub aggregate_id : String
  pub event : RunEvent
  pub thread_id : String
  pub published_at : Option ℕ
  pub attempts : ℕ
  pub created_at : ℕ
