-- ===== src/Runs/Repository/Reserve.antt =====
-- `RunRepository.reserve`: a request becomes a run with its two messages, once for each
-- idempotency key of a thread.
mod Inputs
mod Rows
use Prim.Native.String.{◌++◌ as join}
use super_mew.Prelude.{
  ℕ, suc, ◌+◌, String, Option, none, some, Bool, true, false, not, ◌&&◌, List, str_eq, is_text,
  truthy, truthy?, ◌==◌, find?, max_zero, ℤ, pos, if◌then◌else◌,
}
use super_mew.Errors.{
  Error, Result, ok, err, app, integrity_error, value_error, invalid_request,
  authentication_required, not_found, idempotency_conflict, thread_version_conflict, run_active,
}
use super_mew.Runs.State.{
  RunStatus, queued, pending, MultitaskStrategy, reject, enqueue, cancel_previous, is_active,
}
use super_mew.Events.Contracts.{run_created, EventData, MessageStatus}
use super_mew.Db.Rows.{
  User, Thread, Metadata, Run, RunRequest, SkillPin, Outcome, Message, human, ai, RunEvent,
}
use super_mew.Db.Session.{
  Db, Tx, ◌>>=◌, ◌>>◌, pure, raise, found, gets, guard, insert_run, insert_message, insert_thread,
  save_thread, query_thread,
}
use super_mew.Events.Journal.{Stamp, append_event_in_session}
use super_mew.Runs.Repository.Record.{RunRecord, record_of, Settings, micros}
use super_mew.Runs.Repository.Validate.{
  validate_thread_id, validate_idempotency_key, security_identifier, approved_tools,
}
use super_mew.Runs.Repository.Finalize.{oldest}
pub use Inputs.*
pub use Rows.*

-- `_get_or_create_thread`, for the row that its query found
unfoldable pub get_or_create : Fresh → ℕ → ℕ → Request → Option Thread → Tx Thread
get_or_create fresh now user_id request (some thread) =
    let titled = with_title thread request.title now in
    if untitled thread request.title then (save_thread titled >> pure titled) else pure thread
get_or_create fresh now user_id request none =
    let thread = new_thread fresh.thread_key user_id request.thread_id request.title now in
    if request.allow_implicit_thread
    then (insert_thread thread >> pure thread)
    else raise (app not_found)

-- `_existing_run`
abbrev pub same_key : ℕ → ℕ → String → Run → Bool
same_key user_id thread key r =
    r.user_id == user_id && r.thread_ref_id == thread && str_eq r.idempotency_key key

unfoldable pub query_existing : ℕ → ℕ → String → Db → Option Run
query_existing user_id thread key db = find? (same_key user_id thread key) db.runs

-- `_active_run`
abbrev pub active_in : ℕ → Run → Bool
active_in thread r = r.thread_ref_id == thread && is_active r.status

unfoldable pub query_active : ℕ → Db → Option Run
query_active thread db = oldest (active_in thread) db.runs

-- the status of the new run, and the run that it supersedes
unfoldable pub initial : MultitaskStrategy → Option Run → Tx (RunStatus × Option String)
initial strategy none = pure (pending, none)
initial reject (some active) = raise (app run_active)
initial enqueue (some active) = pure (queued, none)
initial cancel_previous (some active) = pure (queued, some active.id)

-- the part of `reserve` that writes the run, its messages and its thread
unfoldable pub create_run :
    Fresh → ℕ → Checked → ℕ → Thread → RunStatus → Option String → Tx RunReservation
create_run fresh now checked user_id thread status supersedes = do
  let run = new_run fresh now checked user_id thread status supersedes
  insert_run run
  insert_message (user_message fresh now checked thread)
  insert_message (assistant_message fresh now thread status)
  let thread' = extended thread now
  save_thread thread'
  let reserved = record run {
    user_message_id = some fresh.user_message_key;
    assistant_message_id = some fresh.assistant_message_key;
    fencing_token = thread'.version;
  }
  appended ←
      append_event_in_session fresh.stamp reserved checked.request.thread_id run_created (
        EventData.created status fresh.user_message_key fresh.assistant_message_key
          checked.strategy)
  pure (record {
    run = record_of appended.run checked.request.thread_id;
    created = true;
    thread_version = thread'.version;
    created_event = some appended.event;
  })

abbrev pub version_holds : Option ℕ → Thread → Bool
version_holds none thread = true
version_holds (some v) thread = thread.version == v

-- the part of `reserve` after the query for an existing run
unfoldable pub reserve_run : Fresh → ℕ → Checked → ℕ → Thread → Option Run → Tx RunReservation
reserve_run fresh now checked user_id thread (some existing) =
    if str_eq existing.request_hash checked.hash
    then pure (repeated existing checked.request.thread_id thread)
    else raise (app idempotency_conflict)
reserve_run fresh now checked user_id thread none = do
  guard (version_holds checked.request.expected_thread_version thread) (app thread_version_conflict)
  active ← gets (query_active thread.id)
  (status, supersedes) ← initial checked.strategy active
  create_run fresh now checked user_id thread status supersedes

-- the transaction of `reserve`
unfoldable pub reserve_in_transaction : Fresh → ℕ → Checked → Tx RunReservation
reserve_in_transaction fresh now checked = do
  user ←
      found (λ db. find? (names_user checked.request.username) db.users)
        (app authentication_required)
  row ← gets (λ db. find? (names_thread user.id checked.request.thread_id) db.threads)
  thread ← get_or_create fresh now user.id checked.request row
  existing ← gets (query_existing user.id thread.id checked.key)
  reserve_run fresh now checked user.id thread existing

-- `_load_reservation`
unfoldable pub load_reservation : Checked → Db → Option RunReservation
load_reservation checked db = elim (find? (names_user checked.request.username) db.users) [
  | none ↦ none
  | some user ↦ elim (find? (names_thread user.id checked.request.thread_id) db.threads) [
    | none ↦ none
    | some thread ↦ elim (query_existing user.id thread.id checked.key db) [
      | none ↦ none
      | some run ↦ some (repeated run checked.request.thread_id thread)
    ]
  ]
]

-- the reservation that the handler of an `IntegrityError` returns
unfoldable pub recovered : Checked → Option RunReservation → Tx RunReservation
recovered checked none = raise (app run_active)
recovered checked (some r) =
    if str_eq r.run.request_hash checked.hash then pure r else raise (app run_active)

-- `except IntegrityError`: the handler's answer in place of that error
abbrev pub settle {ℓ} : {A : Type ℓ} → Result A → Result A → Result A
settle (ok r) handled = ok r
settle (err integrity_error) handled = handled
settle (err e) handled = err e

-- the handler runs after the rollback
unfoldable pub catch_integrity {ℓ} : {A : Type ℓ} → Tx A → Tx A → Tx A
catch_integrity m handler db = settle (m db) (handler db)

-- The validation of the arguments, before the session is opened. `digest` is SHA-256 over the
-- canonical JSON of its input, and `empty` is `EMPTY_MODEL_CATALOG_SNAPSHOT`.
module _ (digest : HashInput → String) (empty : ModelSnapshot) where
  unfoldable pub check : Settings → Request → Tx Checked
  check settings request = do
    _ ← found (λ _. validate_thread_id request.thread_id) value_error
    key ← found (λ _. validate_idempotency_key request.idempotency_key) (app invalid_request)
    tenant ← found (λ _. security_identifier request.tenant_id 64) (app invalid_request)
    channel ← found (λ _. security_identifier request.channel 32) (app invalid_request)
    tools ← found (λ _. approved_tools request.approved_tools) (app invalid_request)
    let snapshot = or_else request.model_snapshot empty
    let calculated = digest (record {
      message = request.message;
      model_name = request.model_name;
      model_catalog_hash = snapshot.catalog_hash;
      tenant_id = tenant;
      channel = channel;
      approved_tools = tools;
    })
    pure (record {
      request = request;
      key = key;
      tenant_id = tenant;
      channel = channel;
      approved_tools = tools;
      snapshot = snapshot;
      hash = text_or request.request_hash calculated;
      strategy = or_else request.multitask_strategy settings.multitask_strategy;
      on_disconnect = text_or request.on_disconnect settings.disconnect_policy;
      deadline = settings.default_deadline_seconds;
    })

  -- `RunRepository.reserve`
  unfoldable pub reserve : Settings → Fresh → ℕ → Request → Tx RunReservation
  reserve settings fresh now request = do
    checked ← check settings request
    catch_integrity (reserve_in_transaction fresh now checked)
        (gets (load_reservation checked) >>= recovered checked)
