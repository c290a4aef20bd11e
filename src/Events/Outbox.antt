-- ===== src/Events/Outbox.antt =====
-- `OutboxPublisher` of backend/events/outbox.py, and `PersistentEventBus.publish` and
-- `mark_outbox_published`, which publish from the same table. The transport is what it was given.
use super_mew.Prelude.{
  ℕ, suc, none, some, Bool, true, false, List, [], ◌∷◌, ◌++◌, ltb, ◌==◌, take, select,
  if◌then◌else◌,
}
use super_mew.Db.Rows.{RunEvent, TransactionOutbox}

-- the table of the outbox, and the events that the transport took, in order
pub record Relay : Type 0 where
  pub outbox : List TransactionOutbox
  pub sent : List RunEvent

-- how an attempt to publish an item comes out: the transport takes the event and the row is marked;
-- the payload or the transport raises; or the event is taken, and the call or the mark raises
pub data Delivery : Type 0 where
  delivered undelivered unconfirmed : Delivery

abbrev pub is_pending : TransactionOutbox → Bool
is_pending o = elim (o.published_at) [ none ↦ true | some _ ↦ false ]

-- ORDER BY id
unfoldable pub insert_by_id : TransactionOutbox → List TransactionOutbox → List TransactionOutbox
insert_by_id o [] = o ∷ []
insert_by_id o (p ∷ ps) =
    let rest = insert_by_id o ps in if ltb o.id p.id then o ∷ p ∷ ps else p ∷ rest

unfoldable pub order_by_id : List TransactionOutbox → List TransactionOutbox
order_by_id [] = []
order_by_id (o ∷ os) = insert_by_id o (order_by_id os)

-- `_load_pending`
unfoldable pub load_pending : ℕ → List TransactionOutbox → List TransactionOutbox
load_pending limit os = take limit (order_by_id (select is_pending os))

abbrev pub published : ℕ → TransactionOutbox → TransactionOutbox
published now o = if is_pending o then record o { published_at = some now } else o

-- `_mark_published`, and `mark_outbox_published` of the journal
unfoldable pub mark_published : ℕ → ℕ → List TransactionOutbox → List TransactionOutbox
mark_published id now [] = []
mark_published id now (o ∷ os) =
    let rest = mark_published id now os in if o.id == id then published now o ∷ os else o ∷ rest

-- `_mark_attempt`
unfoldable pub mark_attempt : ℕ → List TransactionOutbox → List TransactionOutbox
mark_attempt id [] = []
mark_attempt id (o ∷ os) =
    let rest = mark_attempt id os in
    if o.id == id then record o { attempts = suc o.attempts } ∷ os else o ∷ rest

-- the body of the loop of `publish_pending` for an item, which carries what its row carried
unfoldable pub publish_item : Delivery → ℕ → TransactionOutbox → Relay → Bool × Relay
publish_item delivered now o r =
    (true, record { outbox = mark_published o.id now r.outbox; sent = r.sent ++ o.event ∷ [] })
publish_item undelivered now o r = (false, record r { outbox = mark_attempt o.id r.outbox })
publish_item unconfirmed now o r =
    (false, record { outbox = mark_attempt o.id r.outbox; sent = r.sent ++ o.event ∷ [] })

-- the loop of `publish_pending`, where the i-th attempt comes out as `outcome i` says
unfoldable pub publish_items :
    (ℕ → Delivery) → (ℕ → ℕ) → ℕ → List TransactionOutbox → Relay → ℕ × Relay
publish_items outcome now i [] r = (i, r)
publish_items outcome now i (o ∷ os) r =
    let (more, r1) = publish_item (outcome i) (now i) o r in
    if more then publish_items outcome now (suc i) os r1 else (i, r1)

-- `publish_pending` with a batch size
unfoldable pub publish_pending : (ℕ → Delivery) → (ℕ → ℕ) → ℕ → Relay → ℕ × Relay
publish_pending outcome now limit r = publish_items outcome now 0 (load_pending limit r.outbox) r

-- the part of `PersistentEventBus.publish` after the event is appended: whatever is raised is dropped,
-- and no attempt is counted
unfoldable pub announce_event : Delivery → ℕ → TransactionOutbox → Relay → Relay
announce_event delivered now o r = (publish_item delivered now o r).1
announce_event undelivered now o r = r
announce_event unconfirmed now o r = record r { sent = r.sent ++ o.event ∷ [] }
