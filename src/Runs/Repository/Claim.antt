-- ===== src/Runs/Repository/Claim.antt =====
-- `RunRepository.claim`: a worker takes a pending run, or one whose lease has run out.
use super_mew.Prelude.{
  ℕ, suc, ◌+◌, String, Option, none, some, Bool, true, false, ◌&&◌, is_text, leb, if◌then◌else◌,
}
use super_mew.Errors.{app, run_active, run_state_conflict}
use super_mew.Runs.State.{pending, running, same_status}
use super_mew.Events.Contracts.{run_started, EventData}
use super_mew.Db.Rows.{Run}
use super_mew.Db.Session.{Tx, ◌>>=◌, pure, raise}
use super_mew.Events.Journal.{Stamp, load_run, load_thread, append_event_in_session}
use super_mew.Runs.Repository.Record.{RunRecord, record_of, Settings, micros, lease_or, transition}

-- `lease and lease >= now`
abbrev pub is_leased : Option ℕ → ℕ → Bool
is_leased none now = false
is_leased (some t) now = leb now t

-- `not lease or lease >= now`
abbrev pub is_unexpired : Option ℕ → ℕ → Bool
is_unexpired none now = true
is_unexpired (some t) now = leb now t

-- `started_at or now`
abbrev pub or_now : Option ℕ → ℕ → ℕ
or_now none now = now
or_now (some t) now = t

abbrev pub owned : Run → String → ℕ → ℕ → Run
owned run worker_id lease now = record run {
  owner_worker_id = some worker_id;
  fencing_token = suc run.fencing_token;
  lease_expires_at = some (now + lease);
  started_at = some (or_now run.started_at now);
}

unfoldable pub return_record : Run → Tx RunRecord
return_record run = do thread ← load_thread run; pure (record_of run thread.thread_id)

-- the part of `claim` after its guards
unfoldable pub take_over : ℕ → ℕ → Stamp → String → Run → Tx RunRecord
take_over now lease stamp worker_id run = do
  moved ← transition run running
  let taken = owned moved worker_id lease now
  thread ← load_thread taken
  appended ←
      append_event_in_session stamp taken thread.thread_id run_started
        (EventData.started taken.status worker_id taken.fencing_token)
  pure (record_of appended.run thread.thread_id)

-- the part of `claim` after the query
unfoldable pub claim_run : ℕ → ℕ → Stamp → String → Run → Tx RunRecord
claim_run now lease stamp worker_id run =
    if same_status run.status running
    then if is_text run.owner_worker_id worker_id && is_unexpired run.lease_expires_at now
      then return_record run
      else if is_leased run.lease_expires_at now
      then raise (app run_active)
      else take_over now lease stamp worker_id run
    else if same_status run.status pending
    then take_over now lease stamp worker_id run
    else raise (app run_state_conflict)

-- `RunRepository.claim`
unfoldable pub claim : Settings → ℕ → Stamp → String → String → Option ℕ → Tx RunRecord
claim settings now stamp run_id worker_id lease_seconds =
    load_run run_id >>= claim_run now (micros (lease_or lease_seconds settings)) stamp worker_id
