-- ===== src/Runs/Repository/Record.antt =====
-- `RunRecord`, and the checks and the transition that the transactions of `RunRepository` share.
use super_mew.Prelude.{ℕ, ◌*◌, String, Option, none, some, Bool, true, ◌==◌, if◌then◌else◌}
use super_mew.Errors.{app, run_state_conflict}
use super_mew.Runs.State.{RunStatus, MultitaskStrategy, can_transition}
use super_mew.Db.Rows.{Run, SkillPin, Outcome}
use super_mew.Db.Session.{Tx, pure, raise, guard}

-- `RunRecord`: the public view of a run. `skill` and `outcome` group the columns of those names.
pub record RunRecord : Type 0 where
  pub id : String
  pub thread_id : String
  pub status : RunStatus
  pub idempotency_key : String
  pub request_hash : String
  pub multitask_strategy : MultitaskStrategy
  pub fencing_token : ℕ
  pub user_message_id : ℕ
  pub assistant_message_id : ℕ
  pub supersedes_run_id : Option String
  pub model_name : String
  pub model_catalog_hash : String
  pub on_disconnect : String
  pub owner_worker_id : Option String
  pub lease_expires_at : Option ℕ
  pub deadline_at : ℕ
  pub started_at : Option ℕ
  pub skill : SkillPin
  pub outcome : Outcome
  pub created_at : ℕ

-- `int(value or 0)`
abbrev pub or_zero : Option ℕ → ℕ
or_zero none = 0
or_zero (some n) = n

-- `RunRepository._record`
unfoldable pub record_of : Run → String → RunRecord
record_of run thread_id = record {
  id = run.id;
  thread_id = thread_id;
  status = run.status;
  idempotency_key = run.idempotency_key;
  request_hash = run.request_hash;
  multitask_strategy = run.multitask_strategy;
  fencing_token = run.fencing_token;
  user_message_id = or_zero run.user_message_id;
  assistant_message_id = or_zero run.assistant_message_id;
  supersedes_run_id = run.supersedes_run_id;
  model_name = run.model_name;
  model_catalog_hash = run.model_catalog_hash;
  on_disconnect = run.on_disconnect;
  owner_worker_id = run.owner_worker_id;
  lease_expires_at = run.lease_expires_at;
  deadline_at = run.deadline_at;
  started_at = run.started_at;
  skill = run.skill;
  outcome = run.outcome;
  created_at = run.created_at;
}

abbrev pub fencing_holds : Run → Option ℕ → Bool
fencing_holds run none = true
fencing_holds run (some token) = run.fencing_token == token

-- `RunRepository._assert_fencing`
unfoldable pub assert_fencing : Run → Option ℕ → Tx (Unit {0})
assert_fencing run token = guard (fencing_holds run token) (app run_state_conflict)

-- `RunRepository._transition`
unfoldable pub transition : Run → RunStatus → Tx Run
transition run target =
    if can_transition run.status target
    then pure (record run { status = target })
    else raise (app run_state_conflict)

-- The settings that the transactions read. Seconds are counted in microseconds.
pub record Settings : Type 0 where
  pub lease_seconds : ℕ
  pub default_deadline_seconds : ℕ
  pub multitask_strategy : MultitaskStrategy
  pub disconnect_policy : String

abbrev pub micros : ℕ → ℕ
micros seconds = seconds * 1000000

-- `lease_seconds or get_settings().worker.lease_seconds`
abbrev pub lease_or : Option ℕ → Settings → ℕ
lease_or none settings = settings.lease_seconds
lease_or (some n) settings = if n == 0 then settings.lease_seconds else n
