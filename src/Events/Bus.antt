-- ===== src/Events/Bus.antt =====
-- `PersistentEventBus.subscribe` of backend/events/bus.py. What the loop meets is a list of polls: the
-- tables that each read finds, and the readings of the loop's clock. Between two polls the loop waits
-- for the transport or sleeps; neither gives it anything but time.
use super_mew.Prelude.{
  ℕ, ◌+◌, ℤ, pos, String, none, Bool, true, false, List, [], ◌∷◌, ◌++◌, leb, max_zero,
  if◌then◌else◌,
}
use super_mew.Errors.{Error, Result, ok, err}
use super_mew.Events.Contracts.{RunEventType, run_completed, run_failed, run_cancelled}
use super_mew.Db.Rows.{RunEvent}
use super_mew.Db.Session.{Db}
use super_mew.Events.Journal.{read_after, assert_access}

-- `TERMINAL_EVENT_TYPES`
abbrev pub is_terminal_event : RunEventType → Bool
is_terminal_event run_completed = true
is_terminal_event run_failed = true
is_terminal_event run_cancelled = true
is_terminal_event _ = false

pub record Poll : Type 0 where
  pub db : Db
  pub checked_at : ℕ
  pub reset_at : ℕ

-- what the iterator gives: an event, a heartbeat, or an exception
pub data Item : Type 0 where
  event : RunEvent → Item
  heartbeat : Item
  failed : Error → Item

-- the loop over a page: what is yielded, the cursor after it, and whether a terminal event ended it
pub record Passed : Type 0 where
  pub items : List Item
  pub cursor : ℕ
  pub ended : Bool

abbrev pub yielding : RunEvent → Passed → Passed
yielding e p = record p { items = event e ∷ p.items }

unfoldable pub pass : List RunEvent → ℕ → Passed
pass [] cursor = record { items = []; cursor = cursor; ended = false }
pass (e ∷ es) cursor =
    let skipped = pass es cursor in
    let next = pass es e.sequence in
    if leb e.sequence cursor
    then skipped
    else if is_terminal_event e.event_type
    then record { items = event e ∷ []; cursor = e.sequence; ended = true }
    else yielding e next

abbrev pub is_nil {ℓ} : {A : Type ℓ} → List A → Bool
is_nil [] = true
is_nil (x ∷ xs) = false

module _ (run_id : String) (heartbeat_seconds : ℕ) where
  -- what a poll comes to, with the rest of the stream by its cursor and its deadline
  unfoldable pub on_page :
      Poll → ℕ → ℕ → (ℕ → ℕ → List Item) → Result (List RunEvent × Db) → List Item
  on_page p cursor deadline rest (err e) = failed e ∷ []
  on_page p cursor deadline rest (ok (events, db)) =
      let passed = pass events cursor in
      let renewed = p.reset_at + heartbeat_seconds in
      if is_nil events
      then if leb deadline p.checked_at
        then heartbeat ∷ rest cursor renewed
        else rest cursor deadline
      else if passed.ended
      then passed.items
      else passed.items ++ rest passed.cursor renewed

  -- `while True`, from a cursor and a deadline for the heartbeat, over the polls that are made
  unfoldable pub follow : List Poll → ℕ → ℕ → List Item
  follow [] cursor deadline = []
  follow (p ∷ ps) cursor deadline =
      on_page p cursor deadline (follow ps) (read_after run_id (pos cursor) (pos 500) none p.db)

  -- `subscribe`, at a time, on tables where the access is checked first
  unfoldable pub subscribe : String → ℤ → ℕ → Db → List Poll → List Item
  subscribe username after now db ps = elim (assert_access username run_id db) [
    | err e ↦ failed e ∷ []
    | ok r ↦ follow ps (max_zero after) (now + heartbeat_seconds)
  ]
