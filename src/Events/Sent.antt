-- ===== src/Events/Sent.antt =====
-- What `publish_pending` of backend/events/outbox.py hands to the transport.
use super_mew.Prelude.{
  ℕ, zero, suc, ◌≤◌, min, true, false, List, [], ◌∷◌, ◌++◌, length, exists?, take, select, ◌≡◌, ◌≢◌,
  ◌⊎◌, inl, inr, refl, ◌∙◌, arith, Bool-cases, All,
}
use super_mew.Db.Rows.{TransactionOutbox}
use super_mew.Events.Outbox.{
  Relay, Delivery, delivered, is_pending, order_by_id, load_pending, publish_pending,
}
use super_mew.Events.Batch.{events_of, publish_items-prefix, among, missed, distinct_keys}
use super_mew.Events.Order.{
  unsent, pending_unsent, select-unsent, Waits, ascends, above, overtaken, select-Waits, order-All,
  take-All, order-ascends, select-distinct, take-absent, take-ascends, prefix_above,
}
use super_mew.Events.Drain.{pending_covered, order_by_id-among, missed_alike, order_by_id-length}

length-take {ℓ} : {A : Type ℓ} (n : ℕ) (xs : List A) → length (take n xs) ≡ min n (length xs)
length-take zero [] = refl
length-take zero (x ∷ xs) = ground arith
length-take (suc n) [] = ground arith
length-take (suc n) (x ∷ xs) = let rest = length-take n xs in ground arith

-- a prefix of a prefix of rows in order leaves out only what is above it
none_overtaken :
    (k limit : ℕ) (qs os : List TransactionOutbox)
    → ascends qs ≡ true
    → exists? (missed qs) os ≡ false
    → exists? (overtaken (take k (take limit qs))) os ≡ false
none_overtaken k limit qs [] a h = refl
none_overtaken k limit qs (o ∷ os) a h =
    let rest = none_overtaken k limit qs os a (ground arith) in
    let same = pending_unsent o in
    elim (Bool-cases (is_pending o)) [
      | inr e ↦ ground arith
      | inl e ↦
          let ys = take limit qs in
          let outer = prefix_above o limit qs a (ground arith) in
          elim (Bool-cases (among ys o)) [
            | inl f ↦ let inner = prefix_above o k ys (take-ascends limit qs a) f in ground arith
            | inr f ↦ let none = take-absent (above o.id) k ys (ground arith) in ground arith
          ]
    ]

-- However the attempts of a batch come out, on an outbox whose rows have different ids: what
-- the transport is handed, after what it had, are the events of rows of the outbox that wait,
-- with ids that rise, so none twice, and no waiting row that is left out has a lower id than
-- one of them; they are as many as `publish_pending` counts, or one more, whose confirmation
-- was lost; and it counts the lesser of what the batch may hold and what waits, or the attempt
-- after those that it counts was not delivered.
pub publish_pending_sends :
    (outcome : ℕ → Delivery) (now : ℕ → ℕ) (limit : ℕ) (r : Relay)
    → distinct_keys r.outbox ≡ true
    → (es : List TransactionOutbox) × ((publish_pending outcome now limit r).1.sent
        ≡ r.sent ++ events_of es)
      × All (Waits r.outbox) es
      × (ascends es ≡ true)
      × (exists? (overtaken es) r.outbox ≡ false)
      × ((publish_pending outcome now limit r).0 ≤ length es)
      × (length es ≤ suc (publish_pending outcome now limit r).0)
      × (((publish_pending outcome now limit r).0 ≡ min limit (length (select unsent r.outbox)))
          ⊎ (outcome (publish_pending outcome now limit r).0 ≢ delivered))
unfolding publish_pending load_pending
publish_pending_sends outcome now limit r d =
    let ps = select is_pending r.outbox in
    let qs = order_by_id ps in
    let sorted = order-ascends ps (select-distinct r.outbox d) in
    let waiting = order-All (Waits r.outbox) ps (select-Waits r.outbox d) in
    let covered =
      missed_alike qs ps r.outbox (λ o. order_by_id-among o ps) ∙ pending_covered r.outbox in
    let (k, x, b, y, z, w) = publish_items-prefix outcome now 0 (take limit qs) r in
    let size = length-take limit qs in
    let sent = length-take k (take limit qs) in
    let all = order_by_id-length ps in
    let same = select-unsent r.outbox in
    (
      take k (take limit qs),
      x,
      take-All (Waits r.outbox) k (take limit qs) (take-All (Waits r.outbox) limit qs waiting),
      take-ascends k (take limit qs) (take-ascends limit qs sorted),
      none_overtaken k limit qs r.outbox sorted covered,
      ground arith,
      ground arith,
      ground arith,
    )
