-- ===== src/Runs/Repository/Hold.antt =====
-- The transactions of the worker that holds a run, `heartbeat` and `set_waiting_input`, and the
-- cancellation request `mark_cancelling`.
use super_mew.Prelude.{
  ℕ, ◌+◌, String, Option, none, some, Bool, ◌&&◌, ◌||◌, is_text, ◌∷◌, [], if◌then◌else◌,
}
use super_mew.Errors.{app, run_not_found, run_state_conflict}
use super_mew.Runs.State.{running, cancelling, waiting_input, is_in, same_status, is_terminal}
use super_mew.Events.Contracts.{run_waiting_input, warning_created, EventData, MessageStatus}
use super_mew.Db.Rows.{Run, Message}
use super_mew.Db.Session.{
  Tx, ◌>>=◌, ◌>>◌, pure, found, gets, guard, save_run, save_message, query_message, query_thread,
}
use super_mew.Events.Journal.{Stamp, load_run, load_thread, append_event_in_session, owned_by}
use super_mew.Runs.Repository.Record.{
  RunRecord, record_of, Settings, micros, lease_or, assert_fencing, transition,
}
use super_mew.Runs.Repository.Claim.{return_record}

abbrev pub beats : Run → String → Bool
beats run worker_id =
    is_text run.owner_worker_id worker_id && is_in run.status (running ∷ cancelling ∷ [])

-- `RunRepository.heartbeat`
unfoldable pub heartbeat : Settings → ℕ → String → String → ℕ → Option ℕ → Tx RunRecord
heartbeat settings now run_id worker_id fencing_token lease_seconds = do
  run ← load_run run_id
  assert_fencing run (some fencing_token)
  guard (beats run worker_id) (app run_state_conflict)
  let renewed = record run {
    lease_expires_at = some (now + micros (lease_or lease_seconds settings));
  }
  save_run renewed
  return_record renewed

-- `if message: message.status = …; message.updated_at = …`
unfoldable pub set_message_status : Option Message → MessageStatus → ℕ → Tx (Unit {0})
set_message_status none status at = pure tt
set_message_status (some m) status at = save_message (record m { status = status; updated_at = at })

-- `RunRepository.set_waiting_input`
unfoldable pub set_waiting_input : ℕ → Stamp → String → String → ℕ → Tx RunRecord
set_waiting_input now stamp run_id worker_id fencing_token = do
  run ← load_run run_id
  assert_fencing run (some fencing_token)
  guard (is_text run.owner_worker_id worker_id) (app run_state_conflict)
  moved ← transition run waiting_input
  let released = record moved { owner_worker_id = none; lease_expires_at = none }
  thread ← load_thread released
  message ← gets (query_message released.assistant_message_id)
  set_message_status message MessageStatus.waiting now
  appended ←
      append_event_in_session stamp released thread.thread_id run_waiting_input
        (EventData.status_only released.status)
  pure (record_of appended.run thread.thread_id)

-- the run of a user: `filter(Run.id == run_id, User.username == username)`
unfoldable pub load_owned : String → String → Tx Run
load_owned username run_id = do
  run ← load_run run_id
  allowed ← gets (owned_by username run)
  guard allowed (app run_not_found)
  pure run

-- the part of `mark_cancelling` after the query
unfoldable pub cancel_run : Stamp → Run → Tx RunRecord
cancel_run stamp run =
    if is_terminal run.status || same_status run.status cancelling then return_record run else do
      moved ← transition run cancelling
      thread ← load_thread moved
      appended ←
          append_event_in_session stamp moved thread.thread_id warning_created
            (EventData.cancel_requested)
      pure (record_of appended.run thread.thread_id)

-- `RunRepository.mark_cancelling`
unfoldable pub mark_cancelling : Stamp → String → String → Tx RunRecord
mark_cancelling stamp username run_id = do
  run ← load_owned username run_id
  thread ← found (query_thread run.thread_ref_id) (app run_not_found)
  cancel_run stamp run
