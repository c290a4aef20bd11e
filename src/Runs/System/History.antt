-- ===== src/Runs/System/History.antt =====
-- What holds over every history of the run subsystem.
use super_mew.Prelude.{String, some, List, [], ◌∷◌, ◌≡◌, refl}
use super_mew.Errors.{Result, ok, err}
use super_mew.Db.Rows.{Run}
use super_mew.Db.Session.{Db, Tx, query_run}
use super_mew.Db.Session.Runs.{Keyed}
use super_mew.Runs.Evolution.{Evolves, stay, after}
use super_mew.Runs.Evolution.Invariants.{
  Evolves-Keyed, IsJournaled, Evolves-IsJournaled, Mirrors, Evolves-Mirrors,
}
use super_mew.Runs.Evolution.Descent.{Descends, Evolves-Descends}
use super_mew.Runs.Moves.Ownership.{
  Moves, claim-Moves, heartbeat-Moves, set_waiting_input-Moves, mark_cancelling-Moves, append-Moves,
  pin_skill_activation-Moves,
}
use super_mew.Runs.Moves.Ending.{finalize-Moves}
use super_mew.Runs.Moves.Reservation.{reserve-Moves}
use super_mew.Runs.System.{Config, Op, left_by, perform, perform_all}

left_by-Moves {ℓ} : {A : Type ℓ} (m : Tx A) (db : Db) → Moves db m db → Evolves db (left_by m db)
left_by-Moves {A} m db h = go (m db) h.at
  where
    go :
        (x : Result (A × Db))
        → ((a : A) (db' : Db) → x ≡ ok (a, db') → Evolves db db')
        → Evolves db (elim x [ ok (a, db') ↦ db' | err e ↦ db ])
    go (ok (a, db')) k = k a db' refl
    go (err e) k = stay

pub perform-Evolves :
    (c : Config) (op : Op) (db : Db) → Keyed db.runs → Evolves db (perform c op db)
unfolding perform
perform-Evolves c (Op.reserve fresh now request) db k =
    left_by-Moves _ db (reserve-Moves c.digest c.empty c.settings fresh now request db)
perform-Evolves c (Op.claim now stamp run_id worker_id lease) db k =
    left_by-Moves _ db (claim-Moves c.settings now stamp run_id worker_id lease db)
perform-Evolves c (Op.heartbeat now run_id worker_id token lease) db k =
    left_by-Moves _ db (heartbeat-Moves c.settings now run_id worker_id token lease db)
perform-Evolves c (Op.set_waiting_input now stamp run_id worker_id token) db k =
    left_by-Moves _ db (set_waiting_input-Moves now stamp run_id worker_id token db)
perform-Evolves c (Op.mark_cancelling stamp username run_id) db k =
    left_by-Moves _ db (mark_cancelling-Moves stamp username run_id db)
perform-Evolves c (Op.finalize now stamps run_id target ending token expired) db k =
    left_by-Moves _ db (finalize-Moves now stamps run_id target ending token expired db k)
perform-Evolves c (Op.pin_skill_activation run_id worker_id token name version hash source) db k =
    left_by-Moves _ db
      (pin_skill_activation-Moves run_id worker_id token name version hash source db)
perform-Evolves c (Op.append stamp run_id ty d worker_id token) db k =
    left_by-Moves _ db (append-Moves stamp run_id ty d worker_id token db)

pub perform_all-Evolves :
    (c : Config) (ops : List Op) (db : Db) → Keyed db.runs → Evolves db (perform_all c ops db)
unfolding perform_all
perform_all-Evolves c [] db k = stay
perform_all-Evolves c (op ∷ ops) db k =
    let e = perform-Evolves c op db k in
    after e (perform_all-Evolves c ops (perform c op db) (Evolves-Keyed e k))

-- Whatever of the eight transactions of runs are run, in any order and whether they return or
-- raise, on tables whose runs have different ids: if the events of every run were numbered
-- 1, 2, … up to the run's counter before, they are so after.
pub perform_all-IsJournaled :
    (c : Config) (ops : List Op) (db : Db)
    → Keyed db.runs
    → IsJournaled db
    → IsJournaled (perform_all c ops db)
perform_all-IsJournaled c ops db k = Evolves-IsJournaled (perform_all-Evolves c ops db k)

-- the outbox beside the journal, where no thread is deleted
pub perform_all-Mirrors :
    (c : Config) (ops : List Op) (db : Db)
    → Keyed db.runs
    → Mirrors db
    → Mirrors (perform_all c ops db)
perform_all-Mirrors c ops db k = Evolves-Mirrors (perform_all-Evolves c ops db k)

-- the run of an id, where no thread is deleted
pub perform_all-Descends :
    (c : Config) (ops : List Op) (db : Db) (run_id : String) (r : Run)
    → Keyed db.runs
    → query_run run_id db ≡ some r
    → (r' : Run) × (query_run run_id (perform_all c ops db) ≡ some r') × Descends r r'
perform_all-Descends c ops db run_id r k q =
    Evolves-Descends run_id (perform_all-Evolves c ops db k) q
