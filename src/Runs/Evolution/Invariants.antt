-- ===== src/Runs/Evolution/Invariants.antt =====
-- What every move keeps: keys, the numbering of the journal, the outbox beside it, the end of a
-- run, and the order of its statuses and tokens.
use super_mew.Prelude.{
  ℕ, zero, suc, String, Option, none, some, Bool, false, List, [], ◌∷◌, ◌++◌, map, ◌≡◌, sym, ap,
  subst, replace, select, find?, exists?, arith, str_eq, eq_iff, if◌then◌else◌,
}
use mathlib.Core.List.{map-append}
use super_mew.Db.Rows.{Run, RunRequest, RunEvent, TransactionOutbox}
use super_mew.Db.Session.{Db, has_id, query_run}
use super_mew.Db.Session.Runs.{
  Keyed, query-replace, query-append, Keyed-replace, Keyed-append, find-eq-none,
}
use super_mew.Runs.Evolution.{RunStep, Evolves, stay, after, write, log, beside, open_run}

pub Evolves-Keyed : {a b : Db} → Evolves a b → Keyed a.runs → Keyed b.runs
Evolves-Keyed stay h = h
Evolves-Keyed (after p q) h = Evolves-Keyed q (Evolves-Keyed p h)
Evolves-Keyed (write {db} r r' _ _ _ _) h = Keyed-replace r' db.runs h
Evolves-Keyed (log {db} r r' _ _ _ _ _ _ _ _ _) h = Keyed-replace r' db.runs h
Evolves-Keyed (beside _ _) h = h
Evolves-Keyed (open_run {db} r fresh _ _) h = Keyed-append r db.runs fresh h

-- the numbers of the events of a run, in the order in which they were written
abbrev of_run : String → RunEvent → Bool
of_run k e = str_eq e.run_id k

abbrev pub sequences : String → List RunEvent → List ℕ
sequences k es = map (λ (e : RunEvent). e.sequence) (select (of_run k) es)

-- 1, 2, …, n
abbrev pub up_to : ℕ → List ℕ
up_to zero = []
up_to (suc n) = up_to n ++ suc n ∷ []

abbrev pub counter : Option Run → ℕ
counter none = 0
counter (some r) = r.last_event_sequence

-- The events of every run are numbered from 1 with no gap, up to the run's counter.
pub record IsJournaled (db : Db) : Type 0 where
  pub numbers : (k : String) → sequences k db.events ≡ up_to (counter (query_run k db))

sequences-append :
    (k : String) (es : List RunEvent) (e : RunEvent)
    → sequences k (es ++ e ∷ [])
      ≡ (if str_eq e.run_id k then sequences k es ++ e.sequence ∷ [] else sequences k es)
unfolding select
sequences-append k [] e = ground arith
sequences-append k (x ∷ es) e = ground (arith, sequences-append k es e)

-- the query for any key after a write of the run that `r` was
pub query-write :
    (k : String) (db : Db) (r r' : Run)
    → query_run r.id db ≡ some r
    → RunStep r r'
    → find? (has_id k) (replace (has_id r'.id) r' db.runs)
      ≡ (if str_eq r.id k then some r' else query_run k db)
unfolding query_run
query-write k db r r' q s =
    let e : r'.id ≡ r.id = ap (λ (p : RunRequest). p.id) s.request in
    subst
      (λ i.
        find? (has_id k) (replace (has_id r'.id) r' db.runs)
        ≡ (if str_eq i k then some r' else query_run k db))
      e (query-replace k r' db.runs {s = r} (subst (λ i. query_run i db ≡ some r) (sym e) q))

journal-write :
    (k : String) (db : Db) (r r' : Run)
    → query_run r.id db ≡ some r
    → RunStep r r'
    → r'.last_event_sequence ≡ r.last_event_sequence
    → sequences k db.events ≡ up_to (counter (query_run k db))
    → sequences k db.events
      ≡ up_to (counter (query_run k (record db { runs = replace (has_id r'.id) r' db.runs })))
unfolding query_run
journal-write k db r r' q s n h = ground (arith, query-write k db r r' q s, eq_iff r.id k)

journal-log :
    (k : String) (db : Db) (r r' : Run) (e : RunEvent)
    → query_run r.id db ≡ some r
    → RunStep r r'
    → r'.last_event_sequence ≡ suc r.last_event_sequence
    → e.run_id ≡ r.id
    → e.sequence ≡ r'.last_event_sequence
    → sequences k db.events ≡ up_to (counter (query_run k db))
    → sequences k (db.events ++ e ∷ [])
      ≡ up_to (counter (query_run k (record db { runs = replace (has_id r'.id) r' db.runs })))
unfolding query_run
journal-log k db r r' e q s n u v h = ground (
  arith,
  query-write k db r r' q s,
  eq_iff r.id k,
  eq_iff e.run_id k,
  sequences-append k db.events e,
)

journal-open :
    (k : String) (db : Db) (r : Run)
    → exists? (has_id r.id) db.runs ≡ false
    → r.last_event_sequence ≡ 0
    → sequences k db.events ≡ up_to (counter (query_run k db))
    → sequences k db.events ≡ up_to (counter (query_run k (record db { runs = db.runs ++ r ∷ [] })))
unfolding query_run
journal-open k db r fresh z h =
    ground (arith, query-append k r db.runs fresh, eq_iff r.id k, find-eq-none r.id db.runs fresh)

pub Evolves-IsJournaled : {a b : Db} → Evolves a b → IsJournaled a → IsJournaled b
unfolding query_run
Evolves-IsJournaled stay h = h
Evolves-IsJournaled (after p q) h = Evolves-IsJournaled q (Evolves-IsJournaled p h)
Evolves-IsJournaled (write {db} r r' q s n c) h = record {
  numbers = λ k. journal-write k db r r' q s n (h.numbers k);
}
Evolves-IsJournaled (log {db} r r' e o q s n c u v w) h = record {
  numbers = λ k. journal-log k db r r' e q s n u v (h.numbers k);
}
Evolves-IsJournaled (beside _ _) h = record { numbers = h.numbers }
Evolves-IsJournaled (open_run {db} r fresh c z) h = record {
  numbers = λ k. journal-open k db r fresh z (h.numbers k);
}

-- The outbox holds the events of the journal, each once and in their order.
abbrev pub Mirrors : Db → Type 0
Mirrors db = map (λ (o : TransactionOutbox). o.event) db.outbox ≡ db.events

pub Evolves-Mirrors : {a b : Db} → Evolves a b → Mirrors a → Mirrors b
Evolves-Mirrors stay h = h
Evolves-Mirrors (after p q) h = Evolves-Mirrors q (Evolves-Mirrors p h)
Evolves-Mirrors (write _ _ _ _ _ _) h = h
Evolves-Mirrors (log {db} r r' e o _ _ _ _ _ _ w) h = rw (map-append, h, w)
Evolves-Mirrors (beside _ _) h = h
Evolves-Mirrors (open_run _ _ _ _) h = h
