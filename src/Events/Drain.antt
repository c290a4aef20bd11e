-- ===== src/Events/Drain.antt =====
-- The pending rows after a batch of `publish_pending` of backend/events/outbox.py.
use super_mew.Prelude.{
  ℕ, zero, suc, ◌≤◌, true, false, ◌||◌, List, [], ◌∷◌, length, ◌==◌, exists?, take, select, ◌≡◌,
  refl, arith, sym, subst, Bool-cases, inl, inr,
}
use super_mew.Db.Rows.{TransactionOutbox}
use super_mew.Events.Outbox.{
  Relay, Delivery, delivered, is_pending, insert_by_id, order_by_id, load_pending, publish_item,
  publish_items, publish_pending,
}
use super_mew.Events.Batch.{
  among, missed, distinct_keys, mark_published-distinct, mark_published-missed,
}

publish_items-missed :
    (outcome : ℕ → Delivery) (now : ℕ → ℕ) (i : ℕ) (qs : List TransactionOutbox) (r : Relay)
    → ((j : ℕ) → outcome j ≡ delivered)
    → distinct_keys r.outbox ≡ true
    → exists? (missed qs) r.outbox ≡ false
    → exists? (missed []) (publish_items outcome now i qs r).1.outbox ≡ false
unfolding publish_items publish_item
publish_items-missed outcome now i [] r a d h = h
publish_items-missed outcome now i (q ∷ qs) r a d h =
    let r1 = (publish_item delivered (now i) q r).1 in
    let rest =
      publish_items-missed outcome now (suc i) qs r1 a
        (mark_published-distinct q.id (now i) r.outbox d)
        (mark_published-missed (now i) q qs r.outbox d h) in
    let taken = a i in ground arith

missed_none :
    (os : List TransactionOutbox) → exists? (missed []) os ≡ false → exists? is_pending os ≡ false
missed_none [] h = refl
missed_none (o ∷ os) h = ground (arith, missed_none os)

missed_more :
    (q : TransactionOutbox) (qs os : List TransactionOutbox)
    → exists? (missed qs) os ≡ false
    → exists? (missed (q ∷ qs)) os ≡ false
missed_more q qs [] h = refl
missed_more q qs (o ∷ os) h = ground (arith, missed_more q qs os)

pub pending_covered :
    (os : List TransactionOutbox) → exists? (missed (select is_pending os)) os ≡ false
unfolding select
pending_covered [] = refl
pending_covered (o ∷ os) =
    let rest = pending_covered os in
    let more = missed_more o (select is_pending os) os rest in
    let own : (o.id == o.id) ≡ true = ground arith in
    elim (Bool-cases (is_pending o)) [ inl e ↦ ground arith | inr e ↦ ground arith ]

insert_by_id-among :
    (o p : TransactionOutbox) (os : List TransactionOutbox)
    → among (insert_by_id p os) o ≡ ((p.id == o.id) || among os o)
unfolding insert_by_id
insert_by_id-among o p [] = ground arith
insert_by_id-among o p (q ∷ os) = let rest = insert_by_id-among o p os in ground arith

pub order_by_id-among :
    (o : TransactionOutbox) (os : List TransactionOutbox) → among (order_by_id os) o ≡ among os o
unfolding order_by_id
order_by_id-among o [] = refl
order_by_id-among o (p ∷ os) =
    let rest = order_by_id-among o os in
    let here = insert_by_id-among o p (order_by_id os) in ground arith

pub missed_alike :
    (ps qs os : List TransactionOutbox)
    → ((o : TransactionOutbox) → among ps o ≡ among qs o)
    → exists? (missed ps) os ≡ exists? (missed qs) os
missed_alike ps qs [] h = refl
missed_alike ps qs (o ∷ os) h = let rest = missed_alike ps qs os h in let here = h o in ground arith

insert_by_id-length :
    (o : TransactionOutbox) (os : List TransactionOutbox)
    → length (insert_by_id o os) ≡ suc (length os)
unfolding insert_by_id
insert_by_id-length o [] = refl
insert_by_id-length o (p ∷ os) = let rest = insert_by_id-length o os in ground arith

pub order_by_id-length : (os : List TransactionOutbox) → length (order_by_id os) ≡ length os
unfolding order_by_id
order_by_id-length [] = refl
order_by_id-length (o ∷ os) =
    let rest = order_by_id-length os in
    let here = insert_by_id-length o (order_by_id os) in ground arith

take_all {ℓ} : {A : Type ℓ} (n : ℕ) (xs : List A) → length xs ≤ n → take n xs ≡ xs
take_all zero [] h = refl
take_all zero (x ∷ xs) h = ground arith
take_all (suc n) [] h = refl
take_all (suc n) (x ∷ xs) h = let rest = take_all n xs (omega arith) in ground arith

-- If every attempt is delivered, the rows of the outbox have different ids and no more of them
-- are pending than the batch may hold, then no row is pending after `publish_pending`.
pub publish_pending_drains :
    (outcome : ℕ → Delivery) (now : ℕ → ℕ) (limit : ℕ) (r : Relay)
    → ((j : ℕ) → outcome j ≡ delivered)
    → distinct_keys r.outbox ≡ true
    → length (select is_pending r.outbox) ≤ limit
    → exists? is_pending (publish_pending outcome now limit r).1.outbox ≡ false
unfolding publish_pending load_pending
publish_pending_drains outcome now limit r a d l =
    let ps = select is_pending r.outbox in
    let whole = take_all limit (order_by_id ps) (omega (arith, order_by_id-length ps)) in
    let covered = missed_alike (order_by_id ps) ps r.outbox (λ o. order_by_id-among o ps) in
    let found = pending_covered r.outbox in
    let known : exists? (missed (take limit (order_by_id ps))) r.outbox ≡ false =
      subst (λ qs. exists? (missed qs) r.outbox ≡ false) (sym whole) (ground arith) in
    let qs = take limit (order_by_id ps) in
    missed_none (publish_items outcome now 0 qs r).1.outbox
      (publish_items-missed outcome now 0 qs r a d known)
