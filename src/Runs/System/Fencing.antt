-- ===== src/Runs/System/Fencing.antt =====
-- A worker that has lost its run can write nothing to it, and a lease keeps other workers out.
use super_mew.Prelude.{ℕ, ◌<◌, String, Option, some, true, List, ◌≡◌, arith}
use super_mew.Errors.{err, app, run_state_conflict}
use super_mew.Runs.State.{RunStatus, is_terminal}
use super_mew.Events.Contracts.{RunEventType, EventData}
use super_mew.Db.Rows.{Run}
use super_mew.Db.Session.{Db, ◌>>=◌, query_run}
use super_mew.Db.Session.Runs.{Keyed}
use super_mew.Events.Journal.{Stamp, load_run, append}
use super_mew.Runs.Repository.Record.{Settings, assert_fencing}
use super_mew.Runs.Repository.Hold.{heartbeat, set_waiting_input}
use super_mew.Runs.Repository.Finalize.{Stamps, Ending, finalize}
use super_mew.Runs.Repository.Skill.{pin_skill_activation}
use super_mew.Runs.System.{Config, Op, perform_all}
use super_mew.Runs.System.History.{perform_all-Descends}

module _ (db : Db) (run_id : String) (r : Run) (token : ℕ) where
  module _ (q : query_run run_id db ≡ some r) (stale : token < r.fencing_token) where
    heartbeat-stale :
        (settings : Settings) (now : ℕ) (worker_id : String) (lease : Option ℕ)
        → heartbeat settings now run_id worker_id token lease db ≡ err (app run_state_conflict)
    unfolding heartbeat load_run assert_fencing ◌>>=◌
    heartbeat-stale settings now worker_id lease = ground arith

    set_waiting_input-stale :
        (now : ℕ) (stamp : Stamp) (worker_id : String)
        → set_waiting_input now stamp run_id worker_id token db ≡ err (app run_state_conflict)
    unfolding set_waiting_input load_run assert_fencing ◌>>=◌
    set_waiting_input-stale now stamp worker_id = ground arith

    pin_skill_activation-stale :
        (worker_id name version content_hash source : String)
        → pin_skill_activation run_id worker_id token name version content_hash source db
          ≡ err (app run_state_conflict)
    unfolding pin_skill_activation load_run assert_fencing ◌>>=◌
    pin_skill_activation-stale worker_id name version content_hash source = ground arith

    append-stale :
        (stamp : Stamp) (ty : RunEventType) (d : EventData) (worker_id : String)
        → append stamp run_id ty d (some worker_id) (some token) db ≡ err (app run_state_conflict)
    unfolding append load_run ◌>>=◌
    append-stale stamp ty d worker_id = ground arith

    finalize-stale :
        (now : ℕ) (stamps : Stamps) (target : RunStatus) (ending : Ending) (expired : Option ℕ)
        → is_terminal target ≡ true
        → finalize now stamps run_id target ending (some token) expired db
          ≡ err (app run_state_conflict)
    unfolding finalize load_run assert_fencing ◌>>=◌
    finalize-stale now stamps target ending expired t = ground arith

-- Every write of the worker that holds `token` is refused, and nothing is written.
pub record FencedOut (db : Db) (run_id : String) (token : ℕ) : Type 0 where
  pub no_heartbeat :
      (settings : Settings) (now : ℕ) (worker_id : String) (lease : Option ℕ)
      → heartbeat settings now run_id worker_id token lease db ≡ err (app run_state_conflict)
  pub no_waiting :
      (now : ℕ) (stamp : Stamp) (worker_id : String)
      → set_waiting_input now stamp run_id worker_id token db ≡ err (app run_state_conflict)
  pub no_skill :
      (worker_id name version content_hash source : String)
      → pin_skill_activation run_id worker_id token name version content_hash source db
        ≡ err (app run_state_conflict)
  pub no_event :
      (stamp : Stamp) (ty : RunEventType) (d : EventData) (worker_id : String)
      → append stamp run_id ty d (some worker_id) (some token) db ≡ err (app run_state_conflict)
  pub no_end :
      (now : ℕ) (stamps : Stamps) (target : RunStatus) (ending : Ending) (expired : Option ℕ)
      → is_terminal target ≡ true
      → finalize now stamps run_id target ending (some token) expired db
        ≡ err (app run_state_conflict)

-- Once the token of a run, among runs of different ids, has passed a worker's token, then
-- after any further of the eight transactions of runs every heartbeat, wait for input, skill pin, event and end in
-- a terminal status that the worker sends under its token raises RUN_STATE_CONFLICT.
pub stale_token-FencedOut :
    (c : Config) (ops : List Op) (db : Db) (run_id : String) (r : Run) (token : ℕ)
    → Keyed db.runs
    → query_run run_id db ≡ some r
    → token < r.fencing_token
    → FencedOut (perform_all c ops db) run_id token
stale_token-FencedOut c ops db run_id r token k q stale =
    let (r', q', d) = perform_all-Descends c ops db run_id r k q in
    let later : token < r'.fencing_token = omega (arith, d.fencing) in
    let db' = perform_all c ops db in
    record {
      no_heartbeat = heartbeat-stale db' run_id r' token q' later;
      no_waiting = set_waiting_input-stale db' run_id r' token q' later;
      no_skill = pin_skill_activation-stale db' run_id r' token q' later;
      no_event = append-stale db' run_id r' token q' later;
      no_end = finalize-stale db' run_id r' token q' later;
    }
