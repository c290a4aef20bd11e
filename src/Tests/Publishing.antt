-- ===== src/Tests/Publishing.antt =====
-- Concrete runs of the outbox publisher and of the event stream: backend/events.
use super_mew.Prelude.{
  ℕ, zero, suc, ◌+◌, ◌≤◌, min, pos, negsuc, String, Option, none, some, true, false, List, [], ◌∷◌,
  ◌++◌, ◌≡◌, refl, arith, All, ◌≢◌, ◌⊎◌, select, exists?, length, ◌-◌,
}
use super_mew.Events.Contracts.{run_created, other}
use super_mew.Db.Rows.{Run, Thread, RunEvent, TransactionOutbox}
use super_mew.Db.Session.{Db, query_run, query_thread}
use super_mew.Runs.Evolution.Invariants.{IsJournaled}
use super_mew.Runs.System.{perform_all}
use super_mew.Runs.System.History.{perform_all-IsJournaled}
use super_mew.Events.Journal.{assert_access, page_after, page_size}
use super_mew.Events.Page.{numbers, span, climbs, page_after-span}
use super_mew.Events.Bus.{Poll, subscribe}
use super_mew.Events.Stream.{received, ends_once}
use super_mew.Events.Delivery.{of_other, closes, subscribe_delivers}
use super_mew.Errors.{Result, ok, err}
use super_mew.Events.Outbox.{
  Relay, Delivery, delivered, unconfirmed, is_pending, insert_by_id, order_by_id, load_pending,
  publish_item, publish_items, publish_pending,
}
use super_mew.Events.Relay.{writes, attempts, announces, acts, Delivers, acts-Delivers}
use super_mew.Events.Batch.{events_of}
use super_mew.Events.Order.{Waits, ascends, overtaken, unsent}
use super_mew.Events.Sent.{publish_pending_sends}
use super_mew.Events.Drain.{publish_pending_drains}
use super_mew.Tests.Opened.{opened}
use super_mew.Tests.Data.{fresh_db, config, one_answer}
use super_mew.Tests.Histories.{fresh-IsJournaled}
use super_mew.Tests.Leases.{running_run, answered_inbox}

abbrev answered_db : Db
answered_db = perform_all config one_answer fresh_db

answered_db-IsJournaled : IsJournaled answered_db
answered_db-IsJournaled = perform_all-IsJournaled config one_answer fresh_db tt fresh-IsJournaled

abbrev a_run : Option Run → Run
a_run none = running_run
a_run (some r) = r

abbrev a_thread : Option Thread → Thread
a_thread none = answered_inbox
a_thread (some t) = t

abbrev the_run : Run
the_run = a_run (query_run "run_a" answered_db)

abbrev the_thread : Thread
the_thread = a_thread (query_thread the_run.thread_ref_id answered_db)

has_run : query_run "run_a" answered_db ≡ some the_run
unfolding opened
has_run = refl

has_thread : query_thread the_run.thread_ref_id answered_db ≡ some the_thread
unfolding opened
has_thread = refl

page_after-span_example :
    numbers (page_after "run_a" (pos 1) (pos 2) none answered_db)
    ≡ span 1 (min (page_size (pos 2)) (the_run.last_event_sequence - 1))
page_after-span_example =
    page_after-span answered_db "run_a" (pos 1) (pos 2) none the_run the_thread
      answered_db-IsJournaled has_run has_thread refl

page_of_two : numbers (page_after "run_a" (pos 1) (pos 2) none answered_db) ≡ 2 ∷ 3 ∷ []
unfolding opened
page_of_two = refl

abbrev polls : List Poll
polls = record { db = answered_db; checked_at = 3; reset_at = 4 } ∷ []

abbrev the_access : Result (String × Db) → String × Db
the_access x = elim x [ ok a ↦ a | err e ↦ ("", fresh_db) ]

has_access :
    assert_access "alice" "run_a" answered_db
    ≡ ok (the_access (assert_access "alice" "run_a" answered_db))
unfolding opened
has_access = refl

enough_events : 5 ≤ the_run.last_event_sequence
unfolding opened
enough_events = omega arith

subscribe_delivers_example :
    (exists?
        (of_other "run_a")
        (received (subscribe "run_a" 15 "alice" (negsuc 2) 1 answered_db polls))
      ≡ false)
    × (climbs 0 (received (subscribe "run_a" 15 "alice" (negsuc 2) 1 answered_db polls)) ≡ true)
    × (ends_once (received (subscribe "run_a" 15 "alice" (negsuc 2) 1 answered_db polls)) ≡ true)
    × ((exists? closes (received (subscribe "run_a" 15 "alice" (negsuc 2) 1 answered_db polls))
          ≡ true)
        ⊎ (5 ≤ 0 + length (received (subscribe "run_a" 15 "alice" (negsuc 2) 1 answered_db polls))))
subscribe_delivers_example =
    subscribe_delivers "run_a" "alice" 15 1 5 (negsuc 2) answered_db polls
      (the_access (assert_access "alice" "run_a" answered_db)) has_access
      ((answered_db-IsJournaled, the_run, the_thread, has_run, has_thread, enough_events), tt)
      (omega arith)

abbrev an_event : ℕ → String → RunEvent
an_event n id = record {
  event_id = id;
  run_id = "run_a";
  sequence = n;
  event_type = run_created;
  payload_json = other "{}";
  created_at = n;
}

abbrev row : ℕ → String → TransactionOutbox
row n id = record {
  id = n;
  aggregate_id = "run_a";
  event = an_event n id;
  thread_id = "inbox";
  published_at = none;
  attempts = 0;
  created_at = n;
}

abbrev waiting : Relay
waiting = record { outbox = row 2 "e2" ∷ row 1 "e1" ∷ []; sent = [] }

-- the second event is sent, but its confirmation is lost
abbrev lossy : ℕ → Delivery
lossy zero = delivered
lossy (suc n) = unconfirmed

batch : (publish_pending lossy (λ n. n) 10 waiting).1.sent ≡ an_event 1 "e1" ∷ an_event 2 "e2" ∷ []
unfolding publish_pending load_pending order_by_id insert_by_id select publish_items publish_item
batch = refl

acts-Delivers_example : Delivers (
    acts
      (writes (row 3 "e3")
        ∷ attempts unconfirmed 5 2
        ∷ announces delivered 6 3
        ∷ attempts delivered 7 3
        ∷ [])
      waiting)
acts-Delivers_example =
    acts-Delivers
      (writes (row 3 "e3")
        ∷ attempts unconfirmed 5 2
        ∷ announces delivered 6 3
        ∷ attempts delivered 7 3
        ∷ [])
      waiting refl

publish_pending_sends_example :
    (es : List TransactionOutbox) × ((publish_pending lossy (λ n. n) 10 waiting).1.sent
      ≡ [] ++ events_of es)
    × All (Waits waiting.outbox) es
    × (ascends es ≡ true)
    × (exists? (overtaken es) waiting.outbox ≡ false)
    × ((publish_pending lossy (λ n. n) 10 waiting).0 ≤ length es)
    × (length es ≤ suc (publish_pending lossy (λ n. n) 10 waiting).0)
    × (((publish_pending lossy (λ n. n) 10 waiting).0
          ≡ min 10 (length (select unsent waiting.outbox)))
        ⊎ (lossy (publish_pending lossy (λ n. n) 10 waiting).0 ≢ delivered))
publish_pending_sends_example = publish_pending_sends lossy (λ n. n) 10 waiting refl

few : length (select is_pending waiting.outbox) ≤ 10
unfolding select
few = omega arith

publish_pending_drains_example :
    exists? is_pending (publish_pending (λ n. delivered) (λ n. n) 10 waiting).1.outbox ≡ false
publish_pending_drains_example =
    publish_pending_drains (λ n. delivered) (λ n. n) 10 waiting (λ j. refl) refl few
