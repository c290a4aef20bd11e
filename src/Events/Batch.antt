-- ===== src/Events/Batch.antt =====
-- The loop of `publish_pending` of backend/events/outbox.py over the rows of a batch.
use super_mew.Prelude.{
  ℕ, suc, ◌+◌, ◌≤◌, Bool, true, false, not, ◌&&◌, List, [], ◌∷◌, ◌++◌, map, length, ◌==◌, ◌≢◌,
  exists?, take, ◌≡◌, ◌⊎◌, inl, inr, refl, sym, ap, subst, arith, Bool-cases, eq_of_test,
}
use super_mew.Db.Rows.{RunEvent, TransactionOutbox}
use super_mew.Events.Outbox.{
  Relay, Delivery, delivered, undelivered, unconfirmed, is_pending, mark_published, publish_item,
  publish_items,
}
use super_mew.Events.Relay.{has_key}

abbrev pub events_of : List TransactionOutbox → List RunEvent
events_of os = map (λ (o : TransactionOutbox). o.event) os

append_assoc {ℓ} : {A : Type ℓ} (xs ys zs : List A) → (xs ++ ys) ++ zs ≡ xs ++ (ys ++ zs)
append_assoc [] ys zs = refl
append_assoc (x ∷ xs) ys zs = ap (λ l. x ∷ l) (append_assoc xs ys zs)

append_nil {ℓ} : {A : Type ℓ} (xs : List A) → xs ++ [] ≡ xs
append_nil [] = refl
append_nil (x ∷ xs) = ap (λ l. x ∷ l) (append_nil xs)

Delivery-cases : (d : Delivery) → (d ≡ delivered) ⊎ ((d ≡ undelivered) ⊎ (d ≡ unconfirmed))
Delivery-cases delivered = inl refl
Delivery-cases undelivered = inr (inl refl)
Delivery-cases unconfirmed = inr (inr refl)

-- a batch hands over a prefix, and stops short only where an attempt is not delivered
pub publish_items-prefix :
    (outcome : ℕ → Delivery) (now : ℕ → ℕ) (i : ℕ) (os : List TransactionOutbox) (r : Relay)
    → (k : ℕ) × ((publish_items outcome now i os r).1.sent ≡ r.sent ++ events_of (take k os))
      × (k ≤ length os)
      × ((publish_items outcome now i os r).0 ≤ i + k)
      × (i + k ≤ suc (publish_items outcome now i os r).0)
      × (((publish_items outcome now i os r).0 ≡ i + length os)
          ⊎ (outcome (publish_items outcome now i os r).0 ≢ delivered))
unfolding publish_items publish_item
publish_items-prefix outcome now i [] r =
    (0, sym (append_nil r.sent), omega arith, omega arith, omega arith, inl (omega arith))
publish_items-prefix outcome now i (o ∷ os) r =
    let r1 = (publish_item delivered (now i) o r).1 in
    let (k, x, b, y, z, w) = publish_items-prefix outcome now (suc i) os r1 in
    let joined = append_assoc r.sent (o.event ∷ []) (events_of (take k os)) in
    elim (Delivery-cases (outcome i)) [
      | inl e ↦ (suc k, ground arith, ground arith, ground arith, ground arith, ground arith)
      | inr (inl e) ↦ (
        0,
        ground (arith, append_nil r.sent),
        ground arith,
        ground arith,
        ground arith,
        inr (λ d. ground arith),
      )
      | inr (inr e) ↦
          (1, ground arith, ground arith, ground arith, ground arith, inr (λ d. ground arith))
    ]

-- a row of the id of one among some
abbrev pub among : List TransactionOutbox → TransactionOutbox → Bool
among os o = exists? (λ (p : TransactionOutbox). p.id == o.id) os

-- a pending row that is not among some
abbrev pub missed : List TransactionOutbox → TransactionOutbox → Bool
missed os o = is_pending o && not (among os o)

-- no two rows have one id
abbrev pub distinct_keys : List TransactionOutbox → Bool
distinct_keys [] = true
distinct_keys (o ∷ os) = not (exists? (has_key o.id) os) && distinct_keys os

mark_published-keys :
    (k id now : ℕ) (os : List TransactionOutbox)
    → exists? (has_key k) (mark_published id now os) ≡ exists? (has_key k) os
unfolding mark_published
mark_published-keys k id now [] = refl
mark_published-keys k id now (o ∷ os) = ground (arith, mark_published-keys k id now os)

pub mark_published-distinct :
    (id now : ℕ) (os : List TransactionOutbox)
    → distinct_keys os ≡ true
    → distinct_keys (mark_published id now os) ≡ true
unfolding mark_published
mark_published-distinct id now [] h = refl
mark_published-distinct id now (o ∷ os) h =
    ground (arith, mark_published-distinct id now os, mark_published-keys o.id id now os)

-- rows of other ids are not among more when one row is taken off
apart_missed :
    (q : TransactionOutbox) (qs os : List TransactionOutbox)
    → exists? (has_key q.id) os ≡ false
    → exists? (missed (q ∷ qs)) os ≡ exists? (missed qs) os
apart_missed q qs [] h = refl
apart_missed q qs (o ∷ os) h =
    let rest = apart_missed q qs os (ground arith) in
    let other : (q.id == o.id) ≡ false = ground arith in ground arith

pub mark_published-missed :
    (now : ℕ) (q : TransactionOutbox) (qs os : List TransactionOutbox)
    → distinct_keys os ≡ true
    → exists? (missed (q ∷ qs)) os ≡ false
    → exists? (missed qs) (mark_published q.id now os) ≡ false
unfolding mark_published
mark_published-missed now q qs [] d h = refl
mark_published-missed now q qs (o ∷ os) d h = elim (Bool-cases (o.id == q.id)) [
  | inl e ↦
      let same = eq_of_test o.id q.id e in
      let alone : exists? (has_key q.id) os ≡ false =
        subst (λ i. exists? (has_key i) os ≡ false) same (ground arith) in
      let rest = apart_missed q qs os alone in ground arith
  | inr e ↦
      let rest = mark_published-missed now q qs os (ground arith) (ground arith) in
      let other : (q.id == o.id) ≡ false = ground arith in ground arith
]
