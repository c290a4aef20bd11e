-- ===== src/Threads/Lists.antt =====
-- The reads of backend/threads/repository.py, and the creation and deletion of a thread.
use super_mew.Prelude.{
  ℕ, min, max, ℤ, String, Option, none, some, Bool, true, false, not, ◌&&◌, List, [], ◌∷◌, map,
  max_zero, str_eq, truthy?, ltb, ◌==◌, find?, select, exists?, take, if◌then◌else◌,
}
use super_mew.Errors.{app, authentication_required, run_active}
use super_mew.Runs.State.{is_terminal}
use super_mew.Db.Rows.{User, Thread, Metadata, Run, Message, RunEvent}
use super_mew.Db.Session.{Db, Tx, ◌>>=◌, pure, raise, found, gets, save_thread, has_id}
use super_mew.Threads.Records.{
  MessageRecord, message_record, Stamp, query_user, query_owned, get_or_create_thread,
}

-- `Run.skill_name` by the outer join on the run of a message
abbrev pub skill_of : Db → Option String → Option String
skill_of db none = none
skill_of db (some run_id) = elim (find? (has_id run_id) db.runs) [
  | none ↦ none
  | some r ↦ r.skill.skill_name
]

abbrev pub is_before : Option ℤ → Message → Bool
is_before none m = true
is_before (some b) m = ltb m.sequence (max_zero b)

abbrev pub in_window : ℕ → Option ℤ → Message → Bool
in_window thread before m = m.thread_ref_id == thread && is_before before m

-- ORDER BY sequence DESC: insertion into the messages already in order
unfoldable pub insert_newest : Message → List Message → List Message
insert_newest m [] = m ∷ []
insert_newest m (n ∷ ns) =
    let rest = insert_newest m ns in if ltb m.sequence n.sequence then n ∷ rest else m ∷ n ∷ ns

unfoldable pub newest_first : List Message → List Message
newest_first [] = []
newest_first (m ∷ ms) = insert_newest m (newest_first ms)

-- `max(1, min(limit, 501))`
abbrev pub window_size : ℤ → ℕ
window_size limit = max 1 (min (max_zero limit) 501)

-- the rows that `list_messages_before` takes
unfoldable pub window : ℕ → Option ℤ → ℤ → List Message → List Message
window thread before limit ms =
    take (window_size limit) (newest_first (select (in_window thread before) ms))

-- `list_messages_before`
unfoldable pub list_messages_before :
    String → String → Option ℤ → ℤ → Db → Option (List MessageRecord)
list_messages_before username thread_id before limit db = elim (query_user username db) [
  | none ↦ none
  | some user ↦ elim (query_owned user.id thread_id db) [
    | none ↦ none
    | some thread ↦ some (
        map (λ (m : Message). message_record m thread_id (skill_of db m.run_id))
          (window thread.id before limit db.messages))
  ]
]

abbrev pub titled : Metadata → Bool
titled m = truthy? m.title

abbrev pub titled_as : Thread → Option String → ℕ → Thread
titled_as t title now = record t {
  updated_at = now;
  metadata_json = record { title = title; persistent_note = t.metadata_json.persistent_note };
}

-- the part of `create_thread` for the thread that is there or new; an update sets the date
unfoldable pub set_title : Stamp → Option String → Thread → Tx (Unit {0})
set_title stamp title thread =
    if truthy? title && not (titled thread.metadata_json)
    then save_thread (titled_as thread title stamp.now)
    else pure tt

-- `create_thread`
unfoldable pub create_thread : Stamp → String → String → Option String → Tx (Unit {0})
create_thread stamp username thread_id title = do
  user ← found (query_user username) (app authentication_required)
  let metadata : Metadata = record {
    title = if truthy? title then title else none;
    persistent_note = none;
  }
  thread ← get_or_create_thread stamp user.id thread_id (some metadata)
  set_title stamp title thread

-- a run of a thread that is not over
abbrev pub is_live_in : ℕ → Run → Bool
is_live_in thread r = r.thread_ref_id == thread && not (is_terminal r.status)

-- the deletion of a thread, with its messages, its runs and their events, as the relationships of the
-- rows cascade; the outbox keeps its rows
abbrev pub of_thread : Thread → Run → Bool
of_thread t r = r.thread_ref_id == t.id

abbrev pub is_event_of : List Run → RunEvent → Bool
is_event_of rs e = exists? (λ (r : Run). str_eq r.id e.run_id) rs

-- the key of a message to its run is set to null when the run is deleted
abbrev pub names_run : List Run → Option String → Bool
names_run rs none = false
names_run rs (some run_id) = exists? (has_id run_id) rs

abbrev pub without_run : List Run → Message → Message
without_run rs m = if names_run rs m.run_id then record m { run_id = none } else m

unfoldable pub remove_thread : Thread → Db → Db
remove_thread t db = record db {
  threads = select (λ (u : Thread). not (u.id == t.id)) db.threads;
  messages =
      map (without_run (select (of_thread t) db.runs))
        (select (λ (m : Message). not (m.thread_ref_id == t.id)) db.messages);
  runs = select (λ (r : Run). not (of_thread t r)) db.runs;
  events = select (λ (e : RunEvent). not (is_event_of (select (of_thread t) db.runs) e)) db.events;
}

unfoldable pub delete_row : Option Thread → Tx Bool
delete_row none db = pure false db
delete_row (some t) db =
    if exists? (is_live_in t.id) db.runs
    then raise (app run_active) db
    else pure true (remove_thread t db)

unfoldable pub delete_for : String → Option User → Tx Bool
delete_for thread_id none = pure false
delete_for thread_id (some user) = gets (query_owned user.id thread_id) >>= delete_row

-- `delete_thread`
unfoldable pub delete_thread : String → String → Tx Bool
delete_thread username thread_id = gets (query_user username) >>= delete_for thread_id
