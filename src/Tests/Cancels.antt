-- ===== src/Tests/Cancels.antt =====
-- Concrete cancellations and routes: backend/runs/service.py and backend/rate_limits/policy.py.
use super_mew.Prelude.{Option, none, some, true, false, [], ◌∷◌, ◌≡◌, refl}
use super_mew.Errors.{Result, ok, err}
use super_mew.Runs.State.{cancelled, queued, pending, waiting_input, is_in, is_terminal}
use super_mew.Db.Rows.{Run, Thread}
use super_mew.Db.Session.{Db, query_run, query_thread}
use super_mew.Db.Session.Runs.{Keyed}
use super_mew.Events.Journal.{owned_by}
use super_mew.Runs.System.{Op, perform_all}
use super_mew.Runs.Repository.Record.{RunRecord, record_of}
use super_mew.Runs.Service.{joined, get, cancel_as, request_cancel}
use super_mew.Runs.Service.Cancellation.{request_cancel_lem}
use super_mew.RateLimits.Policy.{
  default_rules, general_api_policy, thread_run_policy, match_route, before_query,
}
use super_mew.RateLimits.Routes.{run_path, plain, match_route-thread_run}
use super_mew.Tests.Opened.{opened}
use super_mew.Tests.Data.{fresh_db, config, keys, ask, stamp, stamps}
use super_mew.Tests.Leases.{running_run, answered_inbox}

abbrev reserved : Db
reserved = perform_all config (Op.reserve (keys "run_a" 10) 1 (ask "hello" "k1") ∷ []) fresh_db

abbrev row_of : Option Run → Run
row_of none = running_run
row_of (some r) = r

abbrev thread_of : Option Thread → Thread
thread_of none = answered_inbox
thread_of (some t) = t

abbrev run_row : Run
run_row = row_of (query_run "run_a" reserved)

abbrev thread_row : Thread
thread_row = thread_of (query_thread run_row.thread_ref_id reserved)

has_run : query_run "run_a" reserved ≡ some run_row
unfolding opened
has_run = refl

has_thread : query_thread run_row.thread_ref_id reserved ≡ some thread_row
unfolding opened
has_thread = refl

abbrev after : Result (RunRecord × Db) → Db
after (ok (r, db)) = db
after (err e) = fresh_db

abbrev record_or : RunRecord → Result (RunRecord × Db) → RunRecord
record_or d (ok (r, db)) = r
record_or d (err e) = d

abbrev cancelled_db : Db
cancelled_db = after (request_cancel 9 stamps (stamp "evt_x" 93) "alice" "run_a" reserved reserved)

reserved-Keyed : Keyed reserved.runs
unfolding opened
reserved-Keyed = (refl, tt)

owned_row : owned_by "alice" run_row reserved ≡ true
unfolding opened
owned_row = refl

waits_row : is_in run_row.status (queued ∷ pending ∷ waiting_input ∷ []) ≡ true
unfolding opened
waits_row = refl

alive_row : is_terminal run_row.status ≡ false
unfolding opened
alive_row = refl

abbrev no_record : RunRecord
no_record = record_of run_row ""

was_cancelled :
    request_cancel 9 stamps (stamp "evt_x" 93) "alice" "run_a" reserved reserved
    ≡ ok (
      record_or no_record
          (request_cancel 9 stamps (stamp "evt_x" 93) "alice" "run_a" reserved reserved),
      cancelled_db,
    )
unfolding opened joined get cancel_as request_cancel
was_cancelled = refl

request_cancel_lem_example :
    (end : Run) × (query_run "run_a" cancelled_db ≡ some end)
    × (end.request ≡ run_row.request)
    × (end.status ≡ cancelled)
    × (end.lease_expires_at ≡ none)
    × (end.outcome.error_code ≡ some "RUN_CANCELLED")
request_cancel_lem_example =
    request_cancel_lem 9 stamps (stamp "evt_x" 93) "alice" "run_a" reserved reserved cancelled_db
      run_row run_row thread_row
      (record_or no_record
        (request_cancel 9 stamps (stamp "evt_x" 93) "alice" "run_a" reserved reserved))
      has_run has_thread owned_row waits_row reserved-Keyed has_run alive_row was_cancelled

plain_letters : plain "letters" ≡ true
unfolding plain
plain_letters = refl

query_gone : before_query "?x=/auth/login" ≡ ""
unfolding before_query
query_gone = refl

match_route-thread_run_example :
    match_route
      (λ s. "POST")
      default_rules
      general_api_policy
      " post "
      (run_path "letters" true false "?x=/auth/login")
    ≡ thread_run_policy
match_route-thread_run_example =
    match_route-thread_run (λ s. "POST") " post " "letters" "?x=/auth/login" true false refl
      plain_letters refl query_gone
