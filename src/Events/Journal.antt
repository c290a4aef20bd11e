-- ===== src/Events/Journal.antt =====
-- backend/events/journal.py: events are numbered by their run, and each is written together with
-- its outbox row.
use super_mew.Prelude.{
  ℕ, ℤ, suc, min, max, String, Option, none, some, Bool, true, false, ◌&&◌, List, [], ◌∷◌, str_eq,
  is_text, ltb, ◌==◌, max_zero, find?, select, take, if◌then◌else◌,
}
use super_mew.Errors.{app, attribute_error, no_result_found, run_not_found, run_state_conflict}
use super_mew.Runs.State.{running, cancelling, is_in}
use super_mew.Events.Contracts.{RunEventType, EventData}
use super_mew.Db.Rows.{User, Thread, Run, RunEvent, TransactionOutbox}
use super_mew.Db.Session.{
  Db, Tx, ◌>>=◌, ◌>>◌, pure, found, gets, guard, save_run, insert_event, insert_outbox, query_run,
  query_thread,
}

-- what is generated for an event: its id, the key of its outbox row and the time
pub record Stamp : Type 0 where
  pub event_id : String
  pub outbox_id : ℕ
  pub timestamp : ℕ

-- `JournalAppend`, with the run whose counter has moved on
pub record JournalAppend : Type 0 where
  pub run : Run
  pub event : RunEvent
  pub outbox_id : ℕ

abbrev pub next_event : Stamp → Run → RunEventType → EventData → RunEvent
next_event stamp run event_type data' = record {
  event_id = stamp.event_id;
  run_id = run.id;
  sequence = suc run.last_event_sequence;
  event_type = event_type;
  payload_json = data';
  created_at = stamp.timestamp;
}

abbrev pub announce : Stamp → String → RunEvent → TransactionOutbox
announce stamp thread_id event = record {
  id = stamp.outbox_id;
  aggregate_id = event.run_id;
  event = event;
  thread_id = thread_id;
  published_at = none;
  attempts = 0;
  created_at = stamp.timestamp;
}

abbrev pub numbered : Run → Run
numbered run = record run { last_event_sequence = suc run.last_event_sequence }

-- The flush writes the run, whatever the caller has changed in it, the event and the outbox row.
unfoldable pub append_event_in_session :
    Stamp → Run → String → RunEventType → EventData → Tx JournalAppend
append_event_in_session stamp run thread_id event_type data' =
    let event = next_event stamp run event_type data' in
    do
      save_run (numbered run)
      insert_event event
      insert_outbox (announce stamp thread_id event)
      pure (record { run = numbered run; event = event; outbox_id = stamp.outbox_id })

-- `db.query(Run).filter(Run.id == run_id).with_for_update().first()`, or RUN_NOT_FOUND
unfoldable pub load_run : String → Tx Run
load_run run_id = found (query_run run_id) (app run_not_found)

-- the thread of a run, whose attributes the code reads
unfoldable pub load_thread : Run → Tx Thread
load_thread run = found (query_thread run.thread_ref_id) attribute_error

-- who may write: nobody in particular, or the worker that holds the run under its token
abbrev pub may_write : Option String → Option ℕ → Run → Bool
may_write none none run = true
may_write none (some token) run = false
may_write (some worker) none run = false
may_write (some worker) (some token) run =
    is_text run.owner_worker_id worker
    && run.fencing_token == token
    && is_in run.status (running ∷ cancelling ∷ [])

-- `RunEventJournal.append`
unfoldable pub append :
    Stamp → String → RunEventType → EventData → Option String → Option ℕ → Tx JournalAppend
append stamp run_id event_type data' worker_id fencing_token = do
  run ← load_run run_id
  guard (may_write worker_id fencing_token run) (app run_state_conflict)
  thread ← found (query_thread run.thread_ref_id) no_result_found
  append_event_in_session stamp run thread.thread_id event_type data'

abbrev follows : String → ℕ → RunEvent → Bool
follows run_id after event = str_eq event.run_id run_id && ltb after event.sequence

-- `max(1, min(limit, 1000))`
abbrev pub page_size : ℤ → ℕ
page_size limit = max 1 (min (max_zero limit) 1000)

-- ORDER BY sequence: insertion into the events already in order
unfoldable pub insert_by_sequence : RunEvent → List RunEvent → List RunEvent
insert_by_sequence e [] = e ∷ []
insert_by_sequence e (f ∷ fs) =
    let rest = insert_by_sequence e fs in if ltb e.sequence f.sequence then e ∷ f ∷ fs else f ∷ rest

unfoldable pub order_by_sequence : List RunEvent → List RunEvent
order_by_sequence [] = []
order_by_sequence (e ∷ es) = insert_by_sequence e (order_by_sequence es)

-- The rows of a user: the run is the user's.
abbrev pub owned_by : String → Run → Db → Bool
owned_by username run db = elim (find? (λ (u : User). u.id == run.user_id) db.users) [
  | none ↦ false
  | some u ↦ str_eq u.username username
]

abbrev pub visible : Option String → Run → Db → Bool
visible none run db = true
visible (some username) run db = owned_by username run db

-- The page of `RunEventJournal.read_after`: the joins keep the events of a run that has a thread
-- and, if a user is named, that is the user's.
unfoldable pub page_after : String → ℤ → ℤ → Option String → Db → List RunEvent
page_after run_id after limit username db = elim (query_run run_id db) [
  | none ↦ []
  | some run ↦ elim (query_thread run.thread_ref_id db) [
    | none ↦ []
    | some thread ↦
        if visible username run db
        then (take (page_size limit)
            (order_by_sequence (select (follows run_id (max_zero after)) db.events)))
        else []
  ]
]

-- `RunEventJournal.assert_access`
unfoldable pub assert_access : String → String → Tx String
assert_access username run_id = do
  run ← load_run run_id
  thread ← found (query_thread run.thread_ref_id) (app run_not_found)
  allowed ← gets (owned_by username run)
  guard allowed (app run_not_found)
  pure thread.thread_id

-- an empty page of a named user is checked for access
abbrev checked : String → Option String → List RunEvent → Tx (List RunEvent)
checked run_id (some username) [] = assert_access username run_id >>= λ _. pure []
checked run_id username rows = pure rows

-- `RunEventJournal.read_after`
unfoldable pub read_after : String → ℤ → ℤ → Option String → Tx (List RunEvent)
read_after run_id after limit username =
    gets (page_after run_id after limit username) >>= checked run_id username
