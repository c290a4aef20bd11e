-- ===== src/Threads/Records.antt =====
-- The records and the queries of backend/threads/repository.py, and `_get_or_create_thread`. The
-- traces of retrieval are given as `normalize_rag_trace` gives them.
use super_mew.Prelude.{ℕ, String, Option, none, some, Bool, true, ◌&&◌, str_eq, ◌==◌, find?}
use super_mew.Errors.{app, conflict}
use super_mew.Events.Contracts.{MessageStatus}
use super_mew.Db.Rows.{User, Thread, Metadata, Message, MessageType}
use super_mew.Db.Session.{Db, Tx, ◌>>=◌, ◌>>◌, pure, gets, guard, insert_thread}

-- `MessageAppend`
pub record MessageAppend : Type 0 where
  pub role : MessageType
  pub content : String
  pub status : MessageStatus
  pub run_id : Option String
  pub client_message_id : Option String
  pub rag_trace : Option String

-- `MessageRecord`
pub record MessageRecord : Type 0 where
  pub id : ℕ
  pub thread_id : String
  pub sequence : ℕ
  pub role : MessageType
  pub content : String
  pub status : MessageStatus
  pub run_id : Option String
  pub client_message_id : Option String
  pub timestamp : ℕ
  pub updated_at : ℕ
  pub rag_trace : Option String
  pub skill_name : Option String

-- `_record`
abbrev pub message_record : Message → String → Option String → MessageRecord
message_record m thread_id skill_name = record {
  id = m.id;
  thread_id = thread_id;
  sequence = m.sequence;
  role = m.message_type;
  content = m.content;
  status = m.status;
  run_id = m.run_id;
  client_message_id = m.client_message_id;
  timestamp = m.timestamp;
  updated_at = m.updated_at;
  rag_trace = m.rag_trace;
  skill_name = skill_name;
}

-- what is generated: the keys of a message and of a thread, and the time
pub record Stamp : Type 0 where
  pub message_key : ℕ
  pub thread_key : ℕ
  pub now : ℕ

abbrev pub is_named : String → User → Bool
is_named username u = str_eq u.username username

-- `_user`
unfoldable pub query_user : String → Db → Option User
query_user username db = find? (is_named username) db.users

abbrev pub is_owned : ℕ → String → Thread → Bool
is_owned user_id thread_id t = t.user_id == user_id && str_eq t.thread_id thread_id

-- `_thread_query`
unfoldable pub query_owned : ℕ → String → Db → Option Thread
query_owned user_id thread_id db = find? (is_owned user_id thread_id) db.threads

abbrev pub no_metadata : Metadata
no_metadata = record { title = none; persistent_note = none }

abbrev pub metadata_or : Option Metadata → Metadata
metadata_or none = no_metadata
metadata_or (some m) = m

abbrev pub empty_thread : Stamp → ℕ → String → Option Metadata → Thread
empty_thread stamp user_id thread_id metadata = record {
  id = stamp.thread_key;
  user_id = user_id;
  thread_id = thread_id;
  version = 0;
  message_count = 0;
  last_sequence = 0;
  metadata_json = metadata_or metadata;
  updated_at = stamp.now;
}

-- `_get_or_create_thread`, for the row that its query found
unfoldable pub thread_or_new : Stamp → ℕ → String → Option Metadata → Option Thread → Tx Thread
thread_or_new stamp user_id thread_id metadata (some thread) = pure thread
thread_or_new stamp user_id thread_id metadata none =
    let thread = empty_thread stamp user_id thread_id metadata in
    insert_thread thread >> pure thread

unfoldable pub get_or_create_thread : Stamp → ℕ → String → Option Metadata → Tx Thread
get_or_create_thread stamp user_id thread_id metadata =
    gets (query_owned user_id thread_id) >>= thread_or_new stamp user_id thread_id metadata

abbrev pub is_version : Option ℕ → Thread → Bool
is_version none t = true
is_version (some v) t = t.version == v

-- `_assert_version`
unfoldable pub assert_version : Thread → Option ℕ → Tx (Unit {0})
assert_version t expected = guard (is_version expected t) (app conflict)
