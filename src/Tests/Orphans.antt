-- ===== src/Tests/Orphans.antt =====
-- The sweep of orphans over a run that a worker holds.
use super_mew.Prelude.{none, List, [], ◌∷◌, ◌≡◌, refl, inl, inr, arith}
use super_mew.Errors.{err, app, run_state_conflict}
use super_mew.Db.Session.{Db}
use super_mew.Db.Session.Runs.{Keyed}
use super_mew.Runs.Repository.Reconcile.{Turn, fail_orphan, sweep, reconcile_orphans}
use super_mew.Runs.Evolution.Invariants.{IsJournaled, Mirrors}
use super_mew.Runs.System.{Op, perform_all}
use super_mew.Runs.System.History.{perform_all-IsJournaled, perform_all-Mirrors}
use super_mew.Runs.System.Single.{IsSingle, perform_all-IsSingle}
use super_mew.Runs.System.Orphans.{reconcile_orphans-keeps, fail_orphan-renewed}
use super_mew.Tests.Opened.{opened}
use super_mew.Tests.Data.{config, fresh_db, keys, ask, stamp, stamps}
use super_mew.Tests.Histories.{fresh-IsJournaled, fresh-IsSingle}
use super_mew.Tests.Leases.{running_run, claimed, claimed_row}

abbrev held : List Op
held =
    Op.reserve (keys "run_a" 10) 1 (ask "hello" "k1")
    ∷ Op.claim 3 (stamp "evt_c" 30) "run_a" "w1" none
    ∷ []

abbrev held_db : Db
held_db = perform_all config held fresh_db

abbrev turn : Turn
turn = record { now = 40000000; stamps = stamps }

held_db-Keyed : Keyed held_db.runs
unfolding opened
held_db-Keyed = (refl, tt)

-- the lease ended at 30000003
recovered : (reconcile_orphans 40000000 (λ i. turn) held_db).recovered ≡ "run_a" ∷ []
unfolding opened reconcile_orphans sweep fail_orphan
recovered = refl

reconcile_orphans-keeps_example :
    IsJournaled (reconcile_orphans 40000000 (λ i. turn) held_db).db
    × Mirrors (reconcile_orphans 40000000 (λ i. turn) held_db).db
    × IsSingle (reconcile_orphans 40000000 (λ i. turn) held_db).db
reconcile_orphans-keeps_example =
    reconcile_orphans-keeps 40000000 (λ i. turn) held_db held_db-Keyed
      (perform_all-IsJournaled config held fresh_db tt fresh-IsJournaled)
      (perform_all-Mirrors config held fresh_db tt refl)
      (perform_all-IsSingle config held fresh_db tt fresh-IsSingle)

fail_orphan-renewed_example : fail_orphan 20 turn "run_a" 3 claimed ≡ err (app run_state_conflict)
fail_orphan-renewed_example =
    fail_orphan-renewed 20 turn "run_a" 3 claimed running_run claimed_row
      (inr (inl (30000003, refl, omega arith)))
