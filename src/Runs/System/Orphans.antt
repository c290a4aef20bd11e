-- ===== src/Runs/System/Orphans.antt =====
-- What the sweep of orphans does to the tables.
use super_mew.Prelude.{
  ℕ, suc, ◌≤◌, String, none, some, false, List, [], ◌∷◌, ◌≡◌, ◌≢◌, ◌⊎◌, inl, inr, refl, arith,
  select,
}
use super_mew.Errors.{Result, ok, err, app, run_state_conflict}
use super_mew.Runs.State.{
  RunStatus, queued, pending, running, waiting_input, cancelling, succeeded, failed, cancelled,
  is_in,
}
use super_mew.Db.Rows.{Run}
use super_mew.Db.Session.{Db, ◌>>=◌, query_run}
use super_mew.Db.Session.Runs.{Keyed}
use super_mew.Events.Journal.{load_run}
use super_mew.Runs.Repository.Record.{RunRecord, assert_fencing}
use super_mew.Runs.Repository.Finalize.{lease_is_over, finalize, finalize_run}
use super_mew.Runs.Repository.Reconcile.{
  Turn, is_orphan, fail_orphan, next_turn, Sweep, sweep, reconcile_orphans,
}
use super_mew.Runs.Evolution.{Evolves, stay, after}
use super_mew.Runs.Evolution.Invariants.{
  Evolves-Keyed, IsJournaled, Evolves-IsJournaled, Mirrors, Evolves-Mirrors,
}
use super_mew.Runs.Moves.Ending.{finalize-Moves}
use super_mew.Runs.System.Single.{IsSingle, Evolves-IsSingle}

next_turn-Evolves :
    (rest : Db → Sweep) (r : Run) (db : Db) (x : Result (RunRecord × Db))
    → ((a : RunRecord) (db' : Db) → x ≡ ok (a, db') → Evolves db db')
    → Keyed db.runs
    → ((db' : Db) → Keyed db'.runs → Evolves db' (rest db').db)
    → Evolves db (next_turn rest r db x).db
next_turn-Evolves rest r db (ok (a, db')) moved k later =
    let e = moved a db' refl in after e (later db' (Evolves-Keyed e k))
next_turn-Evolves rest r db (err (app c)) moved k later = later db k
next_turn-Evolves rest r db (err _) moved k later = stay

sweep-Evolves :
    (limit : ℕ) (turns : ℕ → Turn) (i : ℕ) (rs : List Run) (db : Db)
    → Keyed db.runs
    → Evolves db (sweep limit turns i rs db).db
unfolding sweep fail_orphan
sweep-Evolves limit turns i [] db k = stay
sweep-Evolves limit turns i (r ∷ rs) db k =
    next_turn-Evolves (sweep limit turns (suc i) rs) r db _
      (finalize-Moves (turns i).now (turns i).stamps r.id failed _ (some r.fencing_token)
        (some limit) db k).at
      k λ db' k'. sweep-Evolves limit turns (suc i) rs db' k'

-- Whatever runs the sweep ends, and wherever it stops, on tables whose runs have different
-- ids: if the events of every run were numbered 1, 2, … up to its counter, the outbox held the
-- events of the journal in order, and no thread had two active runs, then all this holds of
-- the tables that the sweep leaves.
pub reconcile_orphans-keeps :
    (limit : ℕ) (turns : ℕ → Turn) (db : Db)
    → Keyed db.runs
    → IsJournaled db
    → Mirrors db
    → IsSingle db
    → IsJournaled (reconcile_orphans limit turns db).db
      × Mirrors (reconcile_orphans limit turns db).db
      × IsSingle (reconcile_orphans limit turns db).db
unfolding reconcile_orphans
reconcile_orphans-keeps limit turns db k journaled mirrors single =
    let e = sweep-Evolves limit turns 0 (select (is_orphan limit) db.runs) db k in
    (Evolves-IsJournaled e journaled, Evolves-Mirrors e mirrors, Evolves-IsSingle e k single)

is_idle :
    (s : RunStatus) → s ≢ running → s ≢ cancelling → is_in s (running ∷ cancelling ∷ []) ≡ false
is_idle queued p c = refl
is_idle pending p c = refl
is_idle running p c = absurd (p refl)
is_idle waiting_input p c = refl
is_idle cancelling p c = absurd (c refl)
is_idle succeeded p c = refl
is_idle failed p c = refl
is_idle cancelled p c = refl

-- The sweep ends no run that a worker has renewed, given up or taken over since it was listed:
-- if, at its turn, the run has no lease, or one that ends at the limit or later, or is neither
-- running nor being cancelled, or has another token, then the turn raises RUN_STATE_CONFLICT
-- and writes nothing.
pub fail_orphan-renewed :
    (limit : ℕ) (turn : Turn) (run_id : String) (token : ℕ) (db : Db) (r : Run)
    → query_run run_id db ≡ some r
    → (r.lease_expires_at ≡ none)
      ⊎ (((t : ℕ) × (r.lease_expires_at ≡ some t) × (limit ≤ t))
          ⊎ (((r.status ≢ running) × (r.status ≢ cancelling)) ⊎ (r.fencing_token ≢ token)))
    → fail_orphan limit turn run_id token db ≡ err (app run_state_conflict)
unfolding fail_orphan finalize finalize_run load_run assert_fencing ◌>>=◌
fail_orphan-renewed limit turn run_id token db r q (inl gone) = ground arith
fail_orphan-renewed limit turn run_id token db r q (inr (inl (t, e, late))) =
    let kept : lease_is_over (some t) limit ≡ false = ground arith in
    let held : lease_is_over r.lease_expires_at limit ≡ false = rw e kept in ground arith
fail_orphan-renewed limit turn run_id token db r q (inr (inr (inl (p, c)))) =
    let idle = is_idle r.status p c in ground arith
fail_orphan-renewed limit turn run_id token db r q (inr (inr (inr other))) = ground arith
