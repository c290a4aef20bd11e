-- ===== src/Runs/Service/Cancellation.antt =====
-- What `request_cancel` of backend/runs/service.py does to a run.
use super_mew.Prelude.{ℕ, String, none, some, true, false, [], ◌∷◌, ◌≡◌, refl, arith}
use super_mew.Errors.{ok}
use super_mew.Runs.State.{RunStatus, queued, pending, waiting_input, cancelled, is_in, is_terminal}
use super_mew.Db.Rows.{Run, Thread}
use super_mew.Db.Session.{Db, ◌>>=◌, query_run, query_thread}
use super_mew.Db.Session.Runs.{Keyed}
use super_mew.Events.Journal.{Stamp, load_run, owned_by}
use super_mew.Runs.Repository.Record.{RunRecord, record_of}
use super_mew.Runs.Repository.Hold.{load_owned}
use super_mew.Runs.Repository.Finalize.{Stamps, ended, finalize, effective_ending, effective_target}
use super_mew.Runs.System.Endings.{finalize_ended}
use super_mew.Runs.Service.{joined, get, cancel_as, request_cancel, user_cancels}

-- what a read of a run that its user owns gives
get_lem :
    (username run_id : String) (db : Db) (r : Run) (t : Thread)
    → query_run run_id db ≡ some r
    → query_thread r.thread_ref_id db ≡ some t
    → owned_by username r db ≡ true
    → get username run_id db ≡ ok (record_of r t.thread_id, db)
unfolding get load_owned joined load_run ◌>>=◌
get_lem username run_id db r t q u o = ground arith

-- the row of a run that its user cancelled, by its counter
abbrev final_row : Run → ℕ → ℕ → Run
final_row r now n =
    record (ended (record r { status = effective_target r cancelled })
      (effective_ending r cancelled user_cancels) now) { last_event_sequence = n }

waits_alive :
    (s : RunStatus) → is_in s (queued ∷ pending ∷ waiting_input ∷ []) ≡ true → is_terminal s ≡ false
waits_alive RunStatus.queued h = refl
waits_alive RunStatus.pending h = refl
waits_alive RunStatus.running h = refl
waits_alive RunStatus.waiting_input h = refl
waits_alive RunStatus.cancelling h = refl
waits_alive RunStatus.succeeded h = cc
waits_alive RunStatus.failed h = cc
waits_alive RunStatus.cancelled h = cc

-- If a user asks to cancel a run of theirs that is read as queued, pending or waiting for
-- input, with its thread, and, whatever came between, the run is not terminal in the tables
-- where it is then written, whose runs have different ids, and the call returns: then the run
-- is stored as cancelled under the same request, with no lease and with the error code
-- RUN_CANCELLED.
pub request_cancel_lem :
    (now : ℕ) (stamps : Stamps) (stamp : Stamp) (username run_id : String) (seen db db' : Db)
    (r r' : Run) (t : Thread) (rec : RunRecord)
    → query_run run_id seen ≡ some r
    → query_thread r.thread_ref_id seen ≡ some t
    → owned_by username r seen ≡ true
    → is_in r.status (queued ∷ pending ∷ waiting_input ∷ []) ≡ true
    → Keyed db.runs
    → query_run run_id db ≡ some r'
    → is_terminal r'.status ≡ false
    → request_cancel now stamps stamp username run_id seen db ≡ ok (rec, db')
    → (end : Run) × (query_run run_id db' ≡ some end)
      × (end.request ≡ r'.request)
      × (end.status ≡ cancelled)
      × (end.lease_expires_at ≡ none)
      × (end.outcome.error_code ≡ some "RUN_CANCELLED")
unfolding request_cancel cancel_as record_of
request_cancel_lem now stamps stamp username run_id seen db db' r r' t rec q u o w k q' a e =
    let seen_run = get_lem username run_id seen r t q u o in
    let open_run = waits_alive r.status w in
    let f : finalize now stamps run_id cancelled user_cancels none none db ≡ ok (rec, db') =
      ground arith in
    let stands =
      finalize_ended now stamps run_id cancelled user_cancels none none db r' rec db' k q' a f in
    let s = stands.1.1 in (final_row r' now stands.1.0, s, refl, ground arith, refl, ground arith)
