-- ===== src/Db/Session.antt =====
-- A transaction over the tables: it reads and writes a `Db`, and either returns with the new
-- tables or raises, and then nothing is kept (`with db.begin()` rolls back).
pub mod Runs
pub mod Ensures
use super_mew.Prelude.{
  ℕ, String, Option, none, some, Bool, true, false, not, ◌&&◌, ◌||◌, List, [], ◌∷◌, ◌++◌, str_eq,
  is_text, ◌==◌, exists?, find?, replace, if◌then◌else◌,
}
use super_mew.Errors.{Error, app, integrity_error, ErrorCode, Result, ok, err}
use super_mew.Runs.State.{RunStatus, pending, running, waiting_input, cancelling, is_in}
use super_mew.Db.Rows.{User, Thread, Run, Message, RunEvent, TransactionOutbox}

pub record Db : Type 0 where
  pub users : List User
  pub threads : List Thread
  pub runs : List Run
  pub messages : List Message
  pub events : List RunEvent
  pub outbox : List TransactionOutbox

abbrev pub Tx {ℓ} : Type ℓ → Type ℓ
Tx A = Db → Result (A × Db)

module _ {ℓ} {A : Type ℓ} where
  unfoldable pub pure : A → Tx A
  pure a db = ok (a, db)

  unfoldable pub raise : Error → Tx A
  raise e db = err e

  -- the row that a query finds, or the error that its absence raises
  unfoldable pub found : (Db → Option A) → Error → Tx A
  found q e db = elim (q db) [ none ↦ err e | some a ↦ ok (a, db) ]

  unfoldable pub gets : (Db → A) → Tx A
  gets f db = ok (f db, db)

-- raises unless the test holds
unfoldable pub guard : Bool → Error → Tx (Unit {0})
guard true e db = ok (tt, db)
guard false e db = err e

-- a write that is refused where a test holds, as by a unique constraint
unfoldable pub write_unless : (Db → Bool) → (Db → Db) → Tx (Unit {0})
write_unless test change db = if test db then err integrity_error else ok (tt, change db)

module _ {ℓ κ} {A : Type ℓ} {B : Type κ} where
  abbrev continue : Result (A × Db) → (A → Tx B) → Result (B × Db)
  continue (ok (a, db)) f = f a db
  continue (err e) f = err e

  infixl 5 ◌>>=◌
  -- opening this opens the actions above too
  unfoldable pub ◌>>=◌ : Tx A → (A → Tx B) → Tx B
  unfolding pure raise found gets guard write_unless
  ◌>>=◌ m f db = continue (m db) f

infixl 5 ◌>>◌
abbrev pub ◌>>◌ {ℓ} : {B : Type ℓ} → Tx (Unit {0}) → Tx B → Tx B
m >> k = m >>= λ _. k

abbrev pub has_id : String → Run → Bool
has_id id r = str_eq r.id id

abbrev same_id : Option ℕ → Option ℕ → Bool
same_id none _ = false
same_id (some i) none = false
same_id (some i) (some j) = i == j

-- the statuses of the index, which models.py lists
abbrev pub is_indexed : RunStatus → Bool
is_indexed s = is_in s (pending ∷ running ∷ waiting_input ∷ cancelling ∷ [])

-- The unique constraints of `runs` between two rows: `uq_run_user_thread_idempotency`,
-- `uq_run_assistant_message` and `uq_runs_one_active_per_thread`.
unfoldable pub clashes : Run → Run → Bool
clashes r s =
    r.user_id == s.user_id
      && r.thread_ref_id == s.thread_ref_id
      && str_eq r.idempotency_key s.idempotency_key
    || same_id r.assistant_message_id s.assistant_message_id
    || r.thread_ref_id == s.thread_ref_id && is_indexed r.status && is_indexed s.status

unfoldable pub clashes_other : Run → Run → Bool
clashes_other r s = not (has_id r.id s) && clashes r s

-- UPDATE of a run: no other row may clash with the new one.
unfoldable pub save_run : Run → Tx (Unit {0})
save_run r =
    write_unless (λ db. exists? (clashes_other r) db.runs)
      (λ db. record db { runs = replace (has_id r.id) r db.runs })

-- INSERT of a run: its key is new, and no row clashes with it.
unfoldable pub insert_run : Run → Tx (Unit {0})
insert_run r =
    write_unless (λ db. exists? (has_id r.id) db.runs || exists? (clashes r) db.runs)
      (λ db. record db { runs = db.runs ++ r ∷ [] })

abbrev pub has_thread_key : ℕ → Thread → Bool
has_thread_key id t = t.id == id

-- UPDATE of a thread; its key columns do not change
unfoldable pub save_thread : Thread → Tx (Unit {0})
save_thread t =
    write_unless (λ db. false)
      (λ db. record db { threads = replace (has_thread_key t.id) t db.threads })

-- the key and the unique constraint `uq_user_thread`
unfoldable pub thread_clashes : Thread → Thread → Bool
thread_clashes t u = t.id == u.id || t.user_id == u.user_id && str_eq t.thread_id u.thread_id

unfoldable pub insert_thread : Thread → Tx (Unit {0})
insert_thread t =
    write_unless (λ db. exists? (thread_clashes t) db.threads)
      (λ db. record db { threads = db.threads ++ t ∷ [] })

abbrev pub has_message_key : ℕ → Message → Bool
has_message_key id m = m.id == id

-- UPDATE of a message; its key columns do not change
unfoldable pub save_message : Message → Tx (Unit {0})
save_message m =
    write_unless (λ db. false)
      (λ db. record db { messages = replace (has_message_key m.id) m db.messages })

abbrev same_client_id : Option String → Option String → Bool
same_client_id none _ = false
same_client_id (some i) o = is_text o i

-- The key and the unique constraints of `messages`, `uq_message_thread_sequence` and
-- `uq_message_client_id`.
unfoldable pub message_clashes : Message → Message → Bool
message_clashes m n =
    m.id == n.id
    || m.thread_ref_id == n.thread_ref_id && m.sequence == n.sequence
    || m.thread_ref_id == n.thread_ref_id && same_client_id m.client_message_id n.client_message_id

unfoldable pub insert_message : Message → Tx (Unit {0})
insert_message m =
    write_unless (λ db. exists? (message_clashes m) db.messages)
      (λ db. record db { messages = db.messages ++ m ∷ [] })

-- The unique constraints of `run_events`: the column `event_id` and `uq_run_event_sequence`.
unfoldable pub event_clashes : RunEvent → RunEvent → Bool
event_clashes e f =
    str_eq e.event_id f.event_id || str_eq e.run_id f.run_id && e.sequence == f.sequence

unfoldable pub insert_event : RunEvent → Tx (Unit {0})
insert_event e =
    write_unless (λ db. exists? (event_clashes e) db.events)
      (λ db. record db { events = db.events ++ e ∷ [] })

unfoldable pub insert_outbox : TransactionOutbox → Tx (Unit {0})
insert_outbox o =
    write_unless (λ db. exists? (λ p. p.id == o.id) db.outbox)
      (λ db. record db { outbox = db.outbox ++ o ∷ [] })

-- `db.query(Run).filter(Run.id == id).first()`
unfoldable pub query_run : String → Db → Option Run
query_run id db = find? (has_id id) db.runs

unfoldable pub query_thread : ℕ → Db → Option Thread
query_thread id db = find? (has_thread_key id) db.threads

-- a null key finds no message
unfoldable pub query_message : Option ℕ → Db → Option Message
query_message none db = none
query_message (some id) db = find? (has_message_key id) db.messages
