-- ===== src/Threads/Messages.antt =====
-- The writes of messages of backend/threads/repository.py.
use Prim.Native.String.{◌++◌ as join}
use super_mew.Prelude.{
  ℕ, suc, String, Option, none, some, Bool, true, false, ◌&&◌, str_eq, is_text, truthy?, ◌==◌,
  find?, if◌then◌else◌,
}
use super_mew.Errors.{Result, ok, err, app, integrity_error, conflict}
use super_mew.Events.Contracts.{MessageStatus}
use super_mew.Db.Rows.{User, Thread, Metadata, Message, ai}
use super_mew.Db.Session.{
  Db, Tx, ◌>>=◌, ◌>>◌, pure, gets, insert_message, save_message, save_thread,
}
use super_mew.Threads.Records.{
  MessageAppend, MessageRecord, message_record, Stamp, query_user, query_owned,
  get_or_create_thread, assert_version,
}

abbrev pub is_client_message : ℕ → String → Message → Bool
is_client_message thread id m = m.thread_ref_id == thread && is_text m.client_message_id id

-- the message of a client's id, if there is an id
unfoldable pub query_client_message : ℕ → Option String → Db → Option Message
query_client_message thread none db = none
query_client_message thread (some id) db =
    if truthy? (some id) then find? (is_client_message thread id) db.messages else none

abbrev pub new_message : Stamp → Thread → MessageAppend → Message
new_message stamp thread m = record {
  id = stamp.message_key;
  thread_ref_id = thread.id;
  run_id = m.run_id;
  client_message_id = m.client_message_id;
  sequence = suc thread.last_sequence;
  message_type = m.role;
  content = m.content;
  status = m.status;
  timestamp = stamp.now;
  updated_at = stamp.now;
  rag_trace = m.rag_trace;
}

abbrev or_else : Option String → Option String → Option String
or_else none y = y
or_else (some x) y = some x

-- `{**(thread.metadata_json or {}), **metadata}`
abbrev pub merged : Thread → Option Metadata → Metadata
merged t none = t.metadata_json
merged t (some m) = record {
  title = or_else m.title t.metadata_json.title;
  persistent_note = or_else m.persistent_note t.metadata_json.persistent_note;
}

abbrev pub grown : Stamp → Thread → Option Metadata → Thread
grown stamp t metadata = record t {
  last_sequence = suc t.last_sequence;
  message_count = suc t.message_count;
  version = suc t.version;
  metadata_json = merged t metadata;
  updated_at = stamp.now;
}

-- the part of `append_message` after the version, for the message that has the client's id
unfoldable pub append_to :
    Stamp → Thread → MessageAppend → Option Metadata → Option Message → Tx (Option MessageRecord)
append_to stamp thread m metadata (some existing) =
    pure (some (message_record existing thread.thread_id none))
append_to stamp thread m metadata none = do
  insert_message (new_message stamp thread m)
  save_thread (grown stamp thread metadata)
  pure (some (message_record (new_message stamp thread m) thread.thread_id none))

-- the transaction of `append_message`, for the user that is named
unfoldable pub append_for :
    Stamp
    → String
    → MessageAppend
    → Option ℕ
    → Option Metadata
    → Option User
    → Tx (Option MessageRecord)
append_for stamp thread_id m expected metadata none = pure none
append_for stamp thread_id m expected metadata (some user) = do
  thread ← get_or_create_thread stamp user.id thread_id metadata
  assert_version thread expected
  existing ← gets (query_client_message thread.id m.client_message_id)
  append_to stamp thread m metadata existing

-- `except IntegrityError`
abbrev pub as_conflict {ℓ} : {A : Type ℓ} → Result A → Result A
as_conflict (ok a) = ok a
as_conflict (err integrity_error) = err (app conflict)
as_conflict (err e) = err e

-- `append_message`
unfoldable pub append_message :
    Stamp → String → String → MessageAppend → Option ℕ → Option Metadata → Tx (Option MessageRecord)
append_message stamp username thread_id m expected metadata db =
    as_conflict ((gets (query_user username) >>= append_for stamp thread_id m expected metadata) db)

-- `create_assistant_placeholder`
abbrev pub create_assistant_placeholder :
    Stamp → String → String → String → Option ℕ → Tx (Option MessageRecord)
create_assistant_placeholder stamp username thread_id run_id expected =
    append_message stamp username thread_id
      (record {
        role = ai;
        content = "";
        status = MessageStatus.streaming;
        run_id = some run_id;
        client_message_id = some (join run_id ":assistant");
        rag_trace = none;
      })
      expected none

-- a message by its key, in a thread
abbrev pub is_message_of : ℕ → ℕ → Message → Bool
is_message_of id thread m = m.id == id && m.thread_ref_id == thread

abbrev pub same_status? : MessageStatus → MessageStatus → Bool
same_status? MessageStatus.streaming MessageStatus.streaming = true
same_status? MessageStatus.waiting MessageStatus.waiting = true
same_status? MessageStatus.queued MessageStatus.queued = true
same_status? MessageStatus.completed MessageStatus.completed = true
same_status? MessageStatus.incomplete MessageStatus.incomplete = true
same_status? MessageStatus.cancelled MessageStatus.cancelled = true
same_status? MessageStatus.failed MessageStatus.failed = true
same_status? _ _ = false

abbrev same_trace : Option String → Option String → Bool
same_trace none none = true
same_trace (some x) (some y) = str_eq x y
same_trace _ _ = false

abbrev pub is_final : Message → String → MessageStatus → Option String → Bool
is_final m content status trace =
    str_eq m.content content && same_status? m.status status && same_trace m.rag_trace trace

-- the part of `finalize_message` for the message that its query found
unfoldable pub finalize_row :
    ℕ → Thread → String → MessageStatus → Option String → Option Message → Tx (Option MessageRecord)
finalize_row now thread content status trace none = pure none
finalize_row now thread content status trace (some row) =
    if is_final row content status trace
    then pure (some (message_record row thread.thread_id none))
    else do
      let row' = record row {
        content = content;
        status = status;
        rag_trace = trace;
        updated_at = now;
      }
      save_message row'
      save_thread (record thread { updated_at = now })
      pure (some (message_record row' thread.thread_id none))

unfoldable pub finalize_in :
    ℕ → ℕ → String → MessageStatus → Option String → Option Thread → Tx (Option MessageRecord)
finalize_in now message_id content status trace none = pure none
finalize_in now message_id content status trace (some thread) =
    gets (λ db. find? (is_message_of message_id thread.id) db.messages)
    >>= finalize_row now thread content status trace

unfoldable pub finalize_for :
    ℕ
    → String
    → ℕ
    → String
    → MessageStatus
    → Option String
    → Option User
    → Tx (Option MessageRecord)
finalize_for now thread_id message_id content status trace none = pure none
finalize_for now thread_id message_id content status trace (some user) =
    gets (query_owned user.id thread_id) >>= finalize_in now message_id content status trace

-- `finalize_message`
unfoldable pub finalize_message :
    ℕ → String → String → ℕ → String → MessageStatus → Option String → Tx (Option MessageRecord)
finalize_message now username thread_id message_id content status trace =
    gets (query_user username) >>= finalize_for now thread_id message_id content status trace
