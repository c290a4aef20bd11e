-- ===== src/Tests/Threads.antt =====
-- Concrete threads: backend/threads/repository.py.
use super_mew.Prelude.{
  ℕ, min, pos, String, Option, none, some, true, false, [], ◌∷◌, map, length, exists?, ◌≡◌, ◌⊎◌,
  refl,
}
use super_mew.Errors.{Result, ok, err, app, run_active}
use super_mew.Events.Contracts.{MessageStatus}
use super_mew.Db.Rows.{User, Thread, Message, human}
use super_mew.Db.Session.{Db}
use super_mew.Threads.Records.{
  MessageAppend, MessageRecord, message_record, Stamp, query_user, query_owned,
  get_or_create_thread, thread_or_new, assert_version,
}
use super_mew.Threads.Messages.{query_client_message, append_to, append_for, append_message}
use super_mew.Threads.Lists.{
  window, list_messages_before, skill_of, insert_newest, newest_first, delete_thread, remove_thread,
  delete_row, delete_for,
}
use super_mew.Threads.Numbering.{IsNumbered}
use super_mew.Threads.Kept.{append_message-IsNumbered}
use super_mew.Threads.Windows.{falling, list_messages_before-falling}
use super_mew.Threads.Removal.{holds_open, is_gone, delete_thread_lem}
use super_mew.Tests.Opened.{opened}
use super_mew.Tests.Data.{fresh_db}

unfoldable opened_threads : Unit {0}
unfolding opened query_user query_owned get_or_create_thread thread_or_new assert_version
    query_client_message append_to append_for append_message window list_messages_before
    insert_newest newest_first delete_thread remove_thread delete_row delete_for
opened_threads = tt

abbrev said : String → MessageAppend
said text = record {
  role = human;
  content = text;
  status = MessageStatus.completed;
  run_id = none;
  client_message_id = some text;
  rag_trace = none;
}

abbrev at_time : ℕ → Stamp
at_time n = record { message_key = n; thread_key = n; now = n }

abbrev left_by : Result (Option MessageRecord × Db) → Db
left_by (ok (r, db)) = db
left_by (err e) = fresh_db

abbrev given_by : Result (Option MessageRecord × Db) → Option MessageRecord
given_by (ok (r, db)) = r
given_by (err e) = none

abbrev one_db : Db
one_db = left_by (append_message (at_time 11) "alice" "letters" (said "dear") none none fresh_db)

abbrev two_db : Db
two_db = left_by (append_message (at_time 12) "alice" "letters" (said "yours") (some 1) none one_db)

fresh-IsNumbered : IsNumbered fresh_db
unfolding opened_threads
fresh-IsNumbered = refl

first_append :
    append_message (at_time 11) "alice" "letters" (said "dear") none none fresh_db
    ≡ ok (
      given_by (append_message (at_time 11) "alice" "letters" (said "dear") none none fresh_db),
      one_db,
    )
unfolding opened_threads
first_append = refl

append_message-IsNumbered_example : IsNumbered one_db
append_message-IsNumbered_example =
    append_message-IsNumbered (at_time 11) "alice" "letters" (said "dear") none none fresh_db one_db
      (given_by (append_message (at_time 11) "alice" "letters" (said "dear") none none fresh_db))
      fresh-IsNumbered first_append

two-IsNumbered : IsNumbered two_db
unfolding opened_threads
two-IsNumbered = refl

abbrev an_owner : Option User → User
an_owner none = record { id = 0; username = ""; role = "" }
an_owner (some u) = u

abbrev no_thread : Thread
no_thread = record {
  id = 0;
  user_id = 0;
  thread_id = "";
  version = 0;
  message_count = 0;
  last_sequence = 0;
  metadata_json = record { title = none; persistent_note = none };
  updated_at = 0;
}

abbrev a_thread : Option Thread → Thread
a_thread none = no_thread
a_thread (some t) = t

abbrev owner : User
owner = an_owner (query_user "alice" two_db)

abbrev letters : Thread
letters = a_thread (query_owned owner.id "letters" two_db)

has_owner : query_user "alice" two_db ≡ some owner
unfolding opened_threads
has_owner = refl

has_letters : query_owned owner.id "letters" two_db ≡ some letters
unfolding opened_threads
has_letters = refl

list_messages_before-falling_example :
    (list_messages_before "alice" "letters" none (pos 10) two_db
      ≡ some (
          map
            (λ (m : Message). message_record m "letters" (skill_of two_db m.run_id))
            (window letters.id none (pos 10) two_db.messages)))
    × (falling letters.last_sequence (window letters.id none (pos 10) two_db.messages) ≡ true)
    × (length (window letters.id none (pos 10) two_db.messages) ≡ min 10 letters.last_sequence)
list_messages_before-falling_example =
    list_messages_before-falling "alice" "letters" none (pos 10) owner letters two_db two-IsNumbered
      has_owner has_letters

two_messages :
    map (λ (m : Message). m.sequence) (window letters.id none (pos 10) two_db.messages) ≡ 2 ∷ 1 ∷ []
unfolding opened_threads
two_messages = refl

delete_thread_lem_example :
    ((exists? (holds_open letters) two_db.runs ≡ true)
      × (delete_thread "alice" "letters" two_db ≡ err (app run_active)))
    ⊎ ((exists? (holds_open letters) two_db.runs ≡ false)
        × (db' : Db) × (delete_thread "alice" "letters" two_db ≡ ok (true, db'))
        × (is_gone letters db' ≡ true)
        × IsNumbered db')
delete_thread_lem_example =
    delete_thread_lem "alice" "letters" owner letters two_db two-IsNumbered has_owner has_letters
