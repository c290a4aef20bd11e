-- ===== src/Tests/Executions.antt =====
-- A concrete execution that its user cancels: backend/runs/cancellation.py.
use super_mew.Prelude.{Option, none, some, true, false, [], ◌∷◌, ◌≡◌, refl}
use super_mew.Errors.{Result, ok, err}
use super_mew.Db.Rows.{Run}
use super_mew.Db.Session.{Db, query_run}
use super_mew.Db.Session.Runs.{Keyed}
use super_mew.Runs.System.{Op, perform_all}
use super_mew.Runs.Service.{joined, get_internal}
use super_mew.Runs.Execution.{
  CancellationToken, shutdown, user, ownership_lost, priority, request, interrupted,
  interrupted_error, fail, ignore_conflict, settle_cancelled, settle, execute,
}
use super_mew.Runs.Execution.Settlement.{IsOver, execute_settles}
use super_mew.Runs.Execution.Reasons.{request_all, request_all-highest}
use super_mew.Tests.Opened.{opened}
use super_mew.Tests.Data.{fresh_db, config, keys, ask, stamp, stamps}
use super_mew.Tests.Leases.{running_run}

unfoldable opened_execution : Unit {0}
unfolding opened joined get_internal request fail ignore_conflict settle_cancelled settle execute
opened_execution = tt

abbrev claimed_db : Db
claimed_db =
    perform_all config
      (Op.reserve (keys "run_a" 10) 1 (ask "hello" "k1")
        ∷ Op.claim 3 (stamp "evt_c" 30) "run_a" "w1" none
        ∷ [])
      fresh_db

abbrev row_of : Option Run → Run
row_of none = running_run
row_of (some r) = r

abbrev claimed_row : Run
claimed_row = row_of (query_run "run_a" claimed_db)

abbrev quiet : CancellationToken
quiet = record { event = false; partial_chunks = "so far" ∷ []; reason = none }

abbrev stopped : CancellationToken
stopped = request user quiet

abbrev the_end : Result Db
the_end =
    execute (λ db. db) (λ e. interrupted_error) 9 stamps "run_a" claimed_row.fencing_token true
      interrupted_error quiet stopped interrupted claimed_db

abbrev end_db : Result Db → Db
end_db (ok db) = db
end_db (err e) = fresh_db

claimed_db-Keyed : Keyed claimed_db.runs
unfolding opened_execution
claimed_db-Keyed = (refl, tt)

ended : the_end ≡ ok (end_db the_end)
unfolding opened_execution
ended = refl

execute_settles_example : IsOver "run_a" (end_db the_end)
unfolding request
execute_settles_example =
    execute_settles (λ db. db) (λ e. interrupted_error) 9 stamps "run_a" claimed_row.fencing_token
      true interrupted_error quiet stopped interrupted claimed_db (end_db the_end) claimed_db-Keyed
      claimed_db-Keyed refl ended

request_all-highest_example :
    (priority (request_all (shutdown ∷ ownership_lost ∷ user ∷ []) quiet).reason ≡ 3)
    × ((request_all (shutdown ∷ ownership_lost ∷ user ∷ []) quiet).event ≡ true)
request_all-highest_example = request_all-highest (shutdown ∷ ownership_lost ∷ user ∷ []) quiet
