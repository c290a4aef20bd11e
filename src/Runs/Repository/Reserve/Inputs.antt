-- ===== src/Runs/Repository/Reserve/Inputs.antt =====
-- The arguments of `RunRepository.reserve`, and its result.
use super_mew.Prelude.{ℕ, String, Option, none, some, Bool, List, truthy, if◌then◌else◌}
use super_mew.Runs.State.{MultitaskStrategy}
use super_mew.Db.Rows.{RunEvent}
use super_mew.Events.Journal.{Stamp}
use super_mew.Runs.Repository.Record.{RunRecord}

-- what `hash_run_request` hashes
pub record HashInput : Type 0 where
  pub message : String
  pub model_name : String
  pub model_catalog_hash : String
  pub tenant_id : String
  pub channel : String
  pub approved_tools : List String

-- the catalogue of models that a run is pinned to
pub record ModelSnapshot : Type 0 where
  pub catalog_hash : String
  pub json : String

-- the arguments of `reserve`
pub record Request : Type 0 where
  pub username : String
  pub thread_id : String
  pub message : String
  pub idempotency_key : String
  pub request_hash : Option String
  pub expected_thread_version : Option ℕ
  pub model_name : String
  pub model_snapshot : Option ModelSnapshot
  pub on_disconnect : Option String
  pub multitask_strategy : Option MultitaskStrategy
  pub title : Option String
  pub tenant_id : String
  pub channel : String
  pub approved_tools : List String
  pub allow_implicit_thread : Bool

-- the keys that the database and `uuid4` generate for a reservation
pub record Fresh : Type 0 where
  pub thread_key : ℕ
  pub run_id : String
  pub user_message_key : ℕ
  pub assistant_message_key : ℕ
  pub stamp : Stamp

-- `RunReservation`
pub record RunReservation : Type 0 where
  pub run : RunRecord
  pub created : Bool
  pub thread_version : ℕ
  pub created_event : Option RunEvent

-- the arguments after validation, and what is resolved from the settings
pub record Checked : Type 0 where
  pub request : Request
  pub key : String
  pub tenant_id : String
  pub channel : String
  pub approved_tools : List String
  pub snapshot : ModelSnapshot
  pub hash : String
  pub strategy : MultitaskStrategy
  pub on_disconnect : String
  pub deadline : ℕ

abbrev pub or_else {ℓ} : {A : Type ℓ} → Option A → A → A
or_else none d = d
or_else (some a) d = a

-- `value or default`, for a text
abbrev pub text_or : Option String → String → String
text_or none d = d
text_or (some s) d = if truthy s then s else d
