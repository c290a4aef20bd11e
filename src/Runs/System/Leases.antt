-- ===== src/Runs/System/Leases.antt =====
-- What a successful claim gives: the run is the worker's, and no other's until the lease is over.
use super_mew.Prelude.{
  ℕ, ◌≤◌, String, Option, none, some, Bool, true, false, is_text, ◌&&◌, ◌⊎◌, inl, inr, ◌≡◌, ◌≢◌,
  refl, sym, ap, subst, ◌∙◌, arith, eq_iff,
}
use super_mew.Errors.{ok, err, app, run_active}
use super_mew.Runs.State.{running, pending, same_status, is_terminal}
use super_mew.Runs.State.Laws.{same_status_iff}
use super_mew.Db.Rows.{Run}
use super_mew.Db.Session.{Db, ◌>>=◌, query_run}
use super_mew.Db.Session.Ensures.{
  Ensures, Ensures-pure, Ensures-raise, Ensures-if, Ensures-bind, bind-found,
}
use super_mew.Events.Journal.{Stamp, load_run, load_thread}
use super_mew.Runs.Repository.Record.{RunRecord, record_of, Settings}
use super_mew.Runs.Repository.Claim.{
  is_leased, is_unexpired, return_record, take_over, claim_run, claim,
}
use super_mew.Runs.Evolution.Rules.{id-query_run, bind-transition, edited, Ensures-append}
use super_mew.Runs.Moves.Ownership.{running_alive, pending_alive, not_failing}

-- the run is running, and the record's worker, token and lease are those of its row
pub record Claimed (run_id worker_id : String) (rec : RunRecord) (db : Db) : Type 0 where
  pub row : Run
  pub stored : query_run run_id db ≡ some row
  pub status : row.status ≡ running
  pub owner : row.owner_worker_id ≡ some worker_id
  pub token : rec.fencing_token ≡ row.fencing_token
  pub lease : rec.lease_expires_at ≡ row.lease_expires_at

take_over-Claimed :
    (now lease : ℕ) (stamp : Stamp) (worker_id k : String) (run : Run) (db : Db)
    → query_run k db ≡ some run
    → same_status run.status running ≡ true ⊎ (same_status run.status pending ≡ true)
    → Ensures (λ rec db'. Claimed k worker_id rec db') (take_over now lease stamp worker_id run) db
unfolding take_over load_thread record_of
take_over-Claimed now lease stamp worker_id k run db q s = bind-transition run running _ db λ t.
    bind-found _ _ _ db λ thread _.
      Ensures-bind _ _ db
        (Ensures-append stamp _ _ _ _ db (
          edited k db run _ q (alive s) refl (not_failing run.status running refl t) (omega arith)
            refl))
        λ a db' (e, p, st). Ensures-pure _ db' (record {
          row = a.run;
          stored =
              subst (λ i. query_run i db' ≡ some a.run) (id-query_run k db q)
                (st ∙ ap some (sym e));
          status = ap (λ (r : Run). r.status) e;
          owner = ap (λ (r : Run). r.owner_worker_id) e;
          token = refl;
          lease = refl;
        })
  where
    alive :
        same_status run.status running ≡ true ⊎ (same_status run.status pending ≡ true)
        → is_terminal run.status ≡ false
    alive (inl h) = running_alive run.status h
    alive (inr h) = pending_alive run.status h

kept-Claimed :
    (worker_id k : String) (now : ℕ) (run : Run) (db : Db)
    → query_run k db ≡ some run
    → same_status run.status running ≡ true
    → (is_text run.owner_worker_id worker_id && is_unexpired run.lease_expires_at now) ≡ true
    → Ensures (λ rec db'. Claimed k worker_id rec db') (return_record run) db
unfolding return_record load_thread record_of
kept-Claimed worker_id k now run db q s h = bind-found _ _ _ db λ thread _.
    Ensures-pure _ db (record {
      row = run;
      stored = q;
      status = (same_status_iff run.status running).0 s;
      owner = owner_of run.owner_worker_id (is_unexpired run.lease_expires_at now) h;
      token = refl;
      lease = refl;
    })
  where
    owner_of :
        (o : Option String) (b : Bool) → (is_text o worker_id && b) ≡ true → o ≡ some worker_id
    owner_of none b h = cc
    owner_of (some w) b h = ground (arith, eq_iff w worker_id)

claim_run-Claimed :
    (now lease : ℕ) (stamp : Stamp) (worker_id k : String) (run : Run) (db : Db)
    → query_run k db ≡ some run
    → Ensures (λ rec db'. Claimed k worker_id rec db') (claim_run now lease stamp worker_id run) db
unfolding claim_run
claim_run-Claimed now lease stamp worker_id k run db q =
    Ensures-if (same_status run.status running) _ _ db
      (λ r.
        Ensures-if (is_text run.owner_worker_id worker_id && is_unexpired run.lease_expires_at now)
          _ _ db (λ h. kept-Claimed worker_id k now run db q r h)
          λ _.
            Ensures-if (is_leased run.lease_expires_at now) _ _ db (λ _. Ensures-raise _ db)
              λ _. take_over-Claimed now lease stamp worker_id k run db q (inl r))
      λ _.
        Ensures-if (same_status run.status pending) _ _ db
          (λ w. take_over-Claimed now lease stamp worker_id k run db q (inr w))
          λ _. Ensures-raise _ db

-- If a claim returns, the run is in the table as running, its owner is the worker, and the token
-- and the lease in the record are those of the table.
pub claim-Claimed :
    (settings : Settings) (now : ℕ) (stamp : Stamp) (run_id worker_id : String)
    (lease_seconds : Option ℕ) (db : Db) (rec : RunRecord) (db' : Db)
    → claim settings now stamp run_id worker_id lease_seconds db ≡ ok (rec, db')
    → Claimed run_id worker_id rec db'
unfolding claim load_run
claim-Claimed settings now stamp run_id worker_id lease_seconds db rec db' e =
    (bind-found {R = λ rec db'. Claimed run_id worker_id rec db'} _ _ _ db
        λ run q. claim_run-Claimed now _ stamp worker_id run_id run db q).at
      rec db' e

-- In the tables that a successful claim leaves, and while the lease that it gave is not over,
-- no other worker's claim succeeds: it raises RUN_ACTIVE.
pub claim_excludes_others :
    (settings : Settings) (now : ℕ) (stamp : Stamp) (run_id worker_id : String)
    (lease_seconds : Option ℕ) (db : Db) (rec : RunRecord) (db' : Db) (expiry : ℕ) (other_now : ℕ)
    (other_stamp : Stamp) (other : String) (other_lease : Option ℕ)
    → claim settings now stamp run_id worker_id lease_seconds db ≡ ok (rec, db')
    → rec.lease_expires_at ≡ some expiry
    → other_now ≤ expiry
    → worker_id ≢ other
    → claim settings other_now other_stamp run_id other other_lease db' ≡ err (app run_active)
unfolding claim claim_run load_run ◌>>=◌
claim_excludes_others settings now stamp run_id worker_id lease_seconds db rec db' expiry other_now
      other_stamp other other_lease e l n w =
    let c = claim-Claimed settings now stamp run_id worker_id lease_seconds db rec db' e in
    ground (arith, c.stored, c.status, c.owner, c.lease, eq_iff worker_id other)
