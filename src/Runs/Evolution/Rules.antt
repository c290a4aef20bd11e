-- ===== src/Runs/Evolution/Rules.antt =====
-- How the steps of a transaction move the tables: the copy of a run that the caller holds, and
-- one rule for each step of the run repository.
use super_mew.Prelude.{
  ◌≤◌, suc, String, some, true, false, [], ◌∷◌, ◌++◌, ◌≡◌, refl, sym, ap, subst, ◌∙◌, exists?,
  replace, find?, eq_refl,
}
use super_mew.Runs.State.{RunStatus, is_terminal, can_transition}
use super_mew.Events.Contracts.{RunEventType, EventData}
use super_mew.Db.Rows.{Run, RunRequest, Thread, Message, RunEvent}
use super_mew.Db.Session.{
  Db, Tx, ◌>>=◌, has_id, query_run, clashes_other, save_run, insert_event, insert_outbox,
  save_message, save_thread,
}
use super_mew.Db.Session.Runs.{id-query}
use super_mew.Db.Session.Ensures.{
  Ensures, Ensures-pure, Ensures-bind, bind-write_unless, bind-if, bind-pure, bind-raise,
}
use super_mew.Events.Journal.{
  Stamp, JournalAppend, append_event_in_session, numbered, next_event, announce,
}
use super_mew.Runs.Repository.Record.{transition}
use super_mew.Runs.Evolution.{
  moves_to, RunStep, RunStep-refl, Evolves, stay, after, write, log, beside,
}
use super_mew.Runs.Evolution.Invariants.{query-write}

-- The caller's copy of a run: one step from the row in the table, and not yet numbered.
pub record Held (run : Run) (db : Db) : Type 0 where
  pub row : Run
  pub stored : query_run run.id db ≡ some row
  pub step : RunStep row run
  pub unnumbered : run.last_event_sequence ≡ row.last_event_sequence

-- The tables have evolved from `start`, and `run` is held over them.
pub record Progress (start : Db) (run : Run) (db : Db) : Type 0 where
  pub path : Evolves start db
  pub held : Held run db

pub id-query_run : (k : String) (db : Db) {r : Run} → query_run k db ≡ some r → r.id ≡ k
unfolding query_run
id-query_run k db h = id-query k db.runs h

-- the row under the key that it has
pub stored_key :
    (k : String) (db : Db) {r : Run} → query_run k db ≡ some r → query_run r.id db ≡ some r
stored_key k db {r} h = subst (λ i. query_run i db ≡ some r) (sym (id-query_run k db h)) h

-- a row just loaded is held
pub loaded : (k : String) (db : Db) {r : Run} → query_run k db ≡ some r → Progress db r db
loaded k db {r} h = record {
  path = stay;
  held = record { row = r; stored = stored_key k db h; step = RunStep-refl r; unnumbered = refl };
}

RunStep-numbered : {r run : Run} → RunStep r run → RunStep r (numbered run)
RunStep-numbered {r} {run} s = record {
  request = s.request;
  status = s.status;
  fencing = s.fencing;
  frozen = λ h.
      ap (λ (x : Run). record x { last_event_sequence = suc run.last_event_sequence }) (s.frozen h);
}

-- after its write a run is the row of its key
stored_anew :
    (db : Db) (r run : Run)
    → query_run run.id db ≡ some r
    → RunStep r run
    → find? (has_id run.id) (replace (has_id run.id) run db.runs) ≡ some run
stored_anew db r run h s =
    query-write run.id db r run (stored_key run.id db h) s
    ∙ rw (id-query_run run.id db h, eq_refl run.id)

-- Appending an event writes the held run, which is then held anew with its next number.
pub Ensures-append :
    (stamp : Stamp) (run : Run) (thread_id : String) (ty : RunEventType) (d : EventData)
    {start : Db} (db : Db)
    → Progress start run db
    → Ensures
        (λ (a : JournalAppend) db'.
          (a.run ≡ numbered run)
          × Progress start (numbered run) db'
          × (query_run run.id db' ≡ some (numbered run)))
        (append_event_in_session stamp run thread_id ty d)
        db
unfolding append_event_in_session save_run insert_event insert_outbox query_run
Ensures-append stamp run thread_id ty d {start} db p = bind-write_unless _ _ _ db λ c.
    bind-write_unless _ _ _ _ λ _.
      bind-write_unless _ _ _ _
        λ _. Ensures-pure _ _ (refl, advanced c, stored_anew db h.row (numbered run) h.stored step)
  where
    h : Held run db
    h = p.held

    event : RunEvent
    event = next_event stamp run ty d

    step : RunStep h.row (numbered run)
    step = RunStep-numbered h.step

    advanced :
        exists? (clashes_other (numbered run)) db.runs ≡ false
        → Progress start (numbered run) (record db {
          runs = replace (has_id run.id) (numbered run) db.runs;
          events = db.events ++ event ∷ [];
          outbox = db.outbox ++ announce stamp thread_id event ∷ [];
        })
    advanced c = record {
      path = after p.path (
          log h.row (numbered run) event (announce stamp thread_id event)
            (stored_key run.id db h.stored) step (ap suc h.unnumbered) c
            (sym (id-query_run run.id db h.stored)) refl refl);
      held = record {
        row = numbered run;
        stored = stored_anew db h.row (numbered run) h.stored step;
        step = RunStep-refl (numbered run);
        unnumbered = refl;
      };
    }

-- A held run that a caller has edited: a run that is not terminal, along the transition table.
pub edited :
    (k : String) (db : Db) (run run' : Run)
    → query_run k db ≡ some run
    → is_terminal run.status ≡ false
    → run'.request ≡ run.request
    → moves_to run.status run'.status ≡ true
    → run.fencing_token ≤ run'.fencing_token
    → run'.last_event_sequence ≡ run.last_event_sequence
    → Progress db run' db
edited k db run run' q open_ e t f n = record {
  path = stay;
  held = record {
    row = run;
    stored =
        subst (λ i. query_run i db ≡ some run) (sym (ap (λ (p : RunRequest). p.id) e))
          (stored_key k db q);
    step = record { request = e; status = t; fencing = f; frozen = λ h. cc (open_, h) };
    unnumbered = n;
  };
}

module _ {κ} {B : Type 0} {R : B → Db → Type κ} where
  pub bind-transition :
      (run : Run) (target : RunStatus) (f : Run → Tx B) (db : Db)
      → (can_transition run.status target ≡ true
          → Ensures R (f (record run { status = target })) db)
      → Ensures R (transition run target >>= f) db
  unfolding transition
  bind-transition run target f db k =
      bind-if (can_transition run.status target) _ _ f db (λ h. bind-pure _ f db (k h))
        (λ _. bind-raise _ f db)

  -- writing a thread or a message moves no run
  pub bind-save_thread :
      (t : Thread) (f : Unit {0} → Tx B) {start : Db} (run : Run) (db : Db)
      → Progress start run db
      → ((db' : Db) → Progress start run db' → Ensures R (f tt) db')
      → Ensures R (save_thread t >>= f) db
  unfolding save_thread query_run
  bind-save_thread t f run db p k = bind-write_unless _ _ f db λ _. k _ (record {
    path = after p.path (beside _ db.messages);
    held = record {
      row = p.held.row;
      stored = p.held.stored;
      step = p.held.step;
      unnumbered = p.held.unnumbered;
    };
  })

  pub bind-save_message :
      (m : Message) (f : Unit {0} → Tx B) {start : Db} (run : Run) (db : Db)
      → Progress start run db
      → ((db' : Db) → Progress start run db' → Ensures R (f tt) db')
      → Ensures R (save_message m >>= f) db
  unfolding save_message query_run
  bind-save_message m f run db p k = bind-write_unless _ _ f db λ _. k _ (record {
    path = after p.path (beside db.threads _);
    held = record {
      row = p.held.row;
      stored = p.held.stored;
      step = p.held.step;
      unnumbered = p.held.unnumbered;
    };
  })

  -- a held run that is written without an event
  pub bind-save_run :
      (run : Run) (f : Unit {0} → Tx B) {start : Db} (db : Db)
      → Progress start run db
      → ((db' : Db) → Progress start run db' → Ensures R (f tt) db')
      → Ensures R (save_run run >>= f) db
  unfolding save_run query_run
  bind-save_run run f db p k = bind-write_unless _ _ f db λ c. k _ (record {
    path = after p.path (write h.row run (stored_key run.id db h.stored) h.step h.unnumbered c);
    held = record {
      row = run;
      stored = stored_anew db h.row run h.stored h.step;
      step = RunStep-refl run;
      unnumbered = refl;
    };
  })
    where
      h : Held run db
      h = p.held

  pub bind-append :
      (stamp : Stamp) (run : Run) (thread_id : String) (ty : RunEventType) (d : EventData)
      (f : JournalAppend → Tx B) {start : Db} (db : Db)
      → Progress start run db
      → ((a : JournalAppend) (db' : Db) → Progress start a.run db' → Ensures R (f a) db')
      → Ensures R (append_event_in_session stamp run thread_id ty d >>= f) db
  bind-append stamp run thread_id ty d f {start} db p k =
      Ensures-bind _ f db (Ensures-append stamp run thread_id ty d db p)
        λ a db' (e, p', _). k a db' (subst (λ r. Progress start r db') (sym e) p')
