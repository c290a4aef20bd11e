-- ===== src/Tests/Idempotency.antt =====
-- alice repeats the request of her answered run.
use super_mew.Prelude.{none, some, false, List, [], ◌∷◌, ◌≡◌, ◌≢◌, ◌⊎◌, refl}
use super_mew.Errors.{ok, err, app, idempotency_conflict}
use super_mew.Runs.State.{pending, succeeded, enqueue}
use super_mew.Db.Rows.{Run}
use super_mew.Runs.Repository.Reserve.{Checked, query_existing, reserve}
use super_mew.Runs.Repository.Record.{record_of}
use super_mew.Runs.System.{Op, perform_all}
use super_mew.Runs.System.Idempotency.{reserve-repeats}
use super_mew.Tests.Opened.{opened}
use super_mew.Tests.Data.{alice, config, snapshot, keys, ask, answer, stamp, stamps}
use super_mew.Tests.Leases.{running_run, asked_db, answered_inbox}

abbrev pending_run : Run
pending_run = record running_run {
  status = pending;
  fencing_token = 2;
  last_event_sequence = 1;
  owner_worker_id = none;
  lease_expires_at = none;
  started_at = none;
}

abbrev checked : Checked
checked = record {
  request = ask "hello" "k1";
  key = "k1";
  tenant_id = "default";
  channel = "run";
  approved_tools = [];
  snapshot = snapshot;
  hash = "hello";
  strategy = enqueue;
  on_disconnect = "continue";
  deadline = 600;
}

abbrev work : List Op
work =
    Op.claim 3 (stamp "evt_c" 30) "run_a" "w1" none
    ∷ Op.finalize 4 stamps "run_a" succeeded answer (some 3) none
    ∷ []

reserve-repeats_example :
    (r' : Run) × (r'.request ≡ pending_run.request)
    × (query_existing 1 7 "k1" (perform_all config work asked_db) ≡ some r')
    × (((pending_run.request_hash ≡ checked.hash)
          × (reserve config.digest config.empty config.settings
                (keys "run_z" 99)
                9
                (ask "hello" "k1")
                (perform_all config work asked_db)
              ≡ ok (
                record {
                  run = record_of r' "inbox";
                  created = false;
                  thread_version = 2;
                  created_event = none;
                },
                perform_all config work asked_db,
              )))
        ⊎ ((pending_run.request_hash ≢ checked.hash)
            × (reserve config.digest config.empty config.settings
                  (keys "run_z" 99)
                  9
                  (ask "hello" "k1")
                  (perform_all config work asked_db)
                ≡ err (app idempotency_conflict))))
unfolding opened asked_db
reserve-repeats_example =
    reserve-repeats config work asked_db (keys "run_z" 99) 9 (ask "hello" "k1") checked alice
      answered_inbox pending_run (refl, tt) refl refl refl refl refl
