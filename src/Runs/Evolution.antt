-- ===== src/Runs/Evolution.antt =====
-- How the tables may change: the moves that every transaction of the run subsystem is made of.
pub mod Invariants
pub mod Descent
pub mod Rules
use super_mew.Prelude.{
  ℕ, suc, ◌≤◌, String, Option, none, some, Bool, true, false, not, ◌&&◌, List, [], ◌∷◌, ◌++◌, ◌≡◌,
  refl, replace, exists?, arith,
}
use super_mew.Runs.State.{RunStatus, cancelling, failed, same_status, is_terminal, can_transition}
use super_mew.Db.Rows.{Run, Thread, Message, RunEvent, TransactionOutbox}
use super_mew.Db.Session.{Db, has_id, query_run, clashes_other, clashes}

-- The transitions that the transactions make: those of the table, except that a run that is being
-- cancelled does not fail.
unfoldable pub moves_to : RunStatus → RunStatus → Bool
unfolding can_transition
moves_to s t = can_transition s t && not (same_status s cancelling && same_status t failed)

-- one write of a run
pub record RunStep (r r' : Run) : Type 0 where
  pub request : r'.request ≡ r.request
  pub status : moves_to r.status r'.status ≡ true
  pub fencing : r.fencing_token ≤ r'.fencing_token
  pub frozen :
      is_terminal r.status ≡ true → r' ≡ record r { last_event_sequence = r'.last_event_sequence }

-- One or more moves: a run is written with no event or with one, threads or messages are written,
-- or a run with a new key is inserted. A write of a run breaks no unique constraint.
pub data Evolves : Db → Db → Type 0 where
  stay : {db : Db} → Evolves db db
  after : {a b c : Db} → Evolves a b → Evolves b c → Evolves a c
  write :
      {db : Db} (r r' : Run)
      → query_run r.id db ≡ some r
      → RunStep r r'
      → r'.last_event_sequence ≡ r.last_event_sequence
      → exists? (clashes_other r') db.runs ≡ false
      → Evolves db (record db { runs = replace (has_id r'.id) r' db.runs })
  log :
      {db : Db} (r r' : Run) (e : RunEvent) (o : TransactionOutbox)
      → query_run r.id db ≡ some r
      → RunStep r r'
      → r'.last_event_sequence ≡ suc r.last_event_sequence
      → exists? (clashes_other r') db.runs ≡ false
      → e.run_id ≡ r.id
      → e.sequence ≡ r'.last_event_sequence
      → o.event ≡ e
      → Evolves db (record db {
        runs = replace (has_id r'.id) r' db.runs;
        events = db.events ++ e ∷ [];
        outbox = db.outbox ++ o ∷ [];
      })
  beside :
      {db : Db} (threads : List Thread) (messages : List Message)
      → Evolves db (record db { threads = threads; messages = messages })
  open_run :
      {db : Db} (r : Run)
      → exists? (has_id r.id) db.runs ≡ false
      → exists? (clashes r) db.runs ≡ false
      → r.last_event_sequence ≡ 0
      → Evolves db (record db { runs = db.runs ++ r ∷ [] })

-- a run is one step from itself
pub RunStep-refl : (r : Run) → RunStep r r
unfolding moves_to
RunStep-refl r = ground arith
