-- ===== src/Events/Order.antt =====
-- The order in which `_load_pending` of backend/events/outbox.py reads the rows that wait.
use super_mew.Prelude.{
  ℕ, zero, suc, ◌≤◌, Option, none, some, Bool, true, false, not, ◌&&◌, ◌||◌, List, [], ◌∷◌, ◌==◌,
  ltb, leb, find?, exists?, take, select, ◌≡◌, inl, inr, refl, subst, arith, Bool-cases,
  Option-cases, All, eq_of_test,
}
use super_mew.Db.Rows.{TransactionOutbox}
use super_mew.Events.Outbox.{is_pending, insert_by_id, order_by_id}
use super_mew.Events.Relay.{has_key}
use super_mew.Events.Batch.{among, distinct_keys}

-- each id is below all those after it
abbrev pub at_most : ℕ → TransactionOutbox → Bool
at_most k o = leb o.id k

abbrev pub ascends : List TransactionOutbox → Bool
ascends [] = true
ascends (o ∷ os) = not (exists? (at_most o.id) os) && ascends os

-- a row of the table that is not published
abbrev pub Waits : List TransactionOutbox → TransactionOutbox → Type 0
Waits os o = (find? (has_key o.id) os ≡ some o) × (o.published_at ≡ none)

-- a row that waits, and of which a later one was taken instead
abbrev pub above : ℕ → TransactionOutbox → Bool
above k o = ltb k o.id

abbrev no_date : Option ℕ → Bool
no_date none = true
no_date (some _) = false

abbrev pub unsent : TransactionOutbox → Bool
unsent o = no_date o.published_at

abbrev pub overtaken : List TransactionOutbox → TransactionOutbox → Bool
overtaken es o = unsent o && not (among es o) && exists? (above o.id) es

pub pending_unsent : (o : TransactionOutbox) → is_pending o ≡ unsent o
pending_unsent o = elim (Option-cases o.published_at) [ inl e ↦ rw e refl | inr (d, e) ↦ rw e refl ]

pub select-unsent : (os : List TransactionOutbox) → select is_pending os ≡ select unsent os
unfolding select
select-unsent [] = refl
select-unsent (o ∷ os) = let rest = select-unsent os in let here = pending_unsent o in ground arith

find-key :
    (k : ℕ) (os : List TransactionOutbox) (o : TransactionOutbox)
    → find? (has_key k) os ≡ some o
    → exists? (has_key k) os ≡ true
unfolding find?
find-key k [] o f = cc
find-key k (p ∷ os) o f = ground (arith, find-key k os o)

Waits-cons :
    (p : TransactionOutbox) (os : List TransactionOutbox)
    → exists? (has_key p.id) os ≡ false
    → (qs : List TransactionOutbox) → All (Waits os) qs
    → All (Waits (p ∷ os)) qs
unfolding find?
Waits-cons p os a [] w = tt
Waits-cons p os a (q ∷ qs) w =
    let there = find-key q.id os q w.0.0 in
    let rest = Waits-cons p os a qs w.1 in
    elim (Bool-cases (p.id == q.id)) [
      | inl e ↦
          let same = eq_of_test p.id q.id e in
          absurd (cc (subst (λ k. exists? (has_key k) os ≡ false) same a, there))
      | inr e ↦ ((ground arith, w.0.1), rest)
    ]

pub select-Waits :
    (os : List TransactionOutbox) → distinct_keys os ≡ true → All (Waits os) (select is_pending os)
unfolding select find?
select-Waits [] d = tt
select-Waits (o ∷ os) d =
    let rest =
      Waits-cons o os (ground arith) (select is_pending os) (select-Waits os (ground arith)) in
    elim (Bool-cases (is_pending o)) [
      | inl e ↦ rw e ((ground arith, ground arith), rest)
      | inr e ↦ rw e rest
    ]

insert-All :
    (P : TransactionOutbox → Type 0) (o : TransactionOutbox) (os : List TransactionOutbox)
    → P o
    → All P os
    → All P (insert_by_id o os)
unfolding insert_by_id
insert-All P o [] h a = (h, tt)
insert-All P o (p ∷ os) h a =
    let rest = insert-All P o os h a.1 in
    elim (Bool-cases (ltb o.id p.id)) [ inl e ↦ rw e (h, a) | inr e ↦ rw e (a.0, rest) ]

pub order-All :
    (P : TransactionOutbox → Type 0) (os : List TransactionOutbox)
    → All P os
    → All P (order_by_id os)
unfolding order_by_id
order-All P [] a = tt
order-All P (o ∷ os) a = insert-All P o (order_by_id os) a.0 (order-All P os a.1)

pub take-All :
    (P : TransactionOutbox → Type 0) (n : ℕ) (os : List TransactionOutbox)
    → All P os
    → All P (take n os)
take-All P zero [] a = tt
take-All P zero (o ∷ os) a = tt
take-All P (suc n) [] a = tt
take-All P (suc n) (o ∷ os) a = (a.0, take-All P n os a.1)

insert-at_most :
    (k : ℕ) (o : TransactionOutbox) (os : List TransactionOutbox)
    → exists? (at_most k) (insert_by_id o os) ≡ (leb o.id k || exists? (at_most k) os)
unfolding insert_by_id
insert-at_most k o [] = ground arith
insert-at_most k o (p ∷ os) = let rest = insert-at_most k o os in ground arith

at_most_below :
    (j k : ℕ) (os : List TransactionOutbox)
    → j ≤ k
    → exists? (at_most k) os ≡ false
    → exists? (at_most j) os ≡ false
at_most_below j k [] h e = refl
at_most_below j k (o ∷ os) h e = ground (arith, at_most_below j k os)

insert-ascends :
    (o : TransactionOutbox) (os : List TransactionOutbox)
    → exists? (has_key o.id) os ≡ false
    → ascends os ≡ true
    → ascends (insert_by_id o os) ≡ true
unfolding insert_by_id
insert-ascends o [] a h = refl
insert-ascends o (p ∷ os) a h =
    let rest = insert-ascends o os (ground arith) (ground arith) in
    let lower = insert-at_most p.id o os in
    elim (Bool-cases (ltb o.id p.id)) [
      | inl e ↦ let low = at_most_below o.id p.id os (ground arith) (ground arith) in ground arith
      | inr e ↦ ground arith
    ]

insert-key :
    (k : ℕ) (o : TransactionOutbox) (os : List TransactionOutbox)
    → exists? (has_key k) (insert_by_id o os) ≡ (o.id == k || exists? (has_key k) os)
unfolding insert_by_id
insert-key k o [] = ground arith
insert-key k o (p ∷ os) = let rest = insert-key k o os in ground arith

order-key :
    (k : ℕ) (os : List TransactionOutbox)
    → exists? (has_key k) (order_by_id os) ≡ exists? (has_key k) os
unfolding order_by_id
order-key k [] = refl
order-key k (o ∷ os) = ground (arith, order-key k os, insert-key k o (order_by_id os))

pub order-ascends :
    (os : List TransactionOutbox) → distinct_keys os ≡ true → ascends (order_by_id os) ≡ true
unfolding order_by_id
order-ascends [] d = refl
order-ascends (o ∷ os) d =
    let keys = order-key o.id os in
    insert-ascends o (order_by_id os) (ground arith) (order-ascends os (ground arith))

select-absent :
    (k : ℕ) (os : List TransactionOutbox)
    → exists? (has_key k) os ≡ false
    → exists? (has_key k) (select is_pending os) ≡ false
unfolding select
select-absent k [] h = refl
select-absent k (o ∷ os) h = ground (arith, select-absent k os)

pub select-distinct :
    (os : List TransactionOutbox)
    → distinct_keys os ≡ true
    → distinct_keys (select is_pending os) ≡ true
unfolding select
select-distinct [] d = refl
select-distinct (o ∷ os) d =
    let rest = select-distinct os (ground arith) in
    let alone = select-absent o.id os (ground arith) in ground arith

pub take-absent :
    (p : TransactionOutbox → Bool) (n : ℕ) (os : List TransactionOutbox)
    → exists? p os ≡ false
    → exists? p (take n os) ≡ false
take-absent p zero [] h = refl
take-absent p zero (o ∷ os) h = refl
take-absent p (suc n) [] h = refl
take-absent p (suc n) (o ∷ os) h = let rest = take-absent p n os (ground arith) in ground arith

pub take-ascends :
    (n : ℕ) (os : List TransactionOutbox) → ascends os ≡ true → ascends (take n os) ≡ true
take-ascends zero [] h = refl
take-ascends zero (o ∷ os) h = refl
take-ascends (suc n) [] h = refl
take-ascends (suc n) (o ∷ os) h =
    let rest = take-ascends n os (ground arith) in
    let alone = take-absent (at_most o.id) n os (ground arith) in ground arith

among-above :
    (k : ℕ) (o : TransactionOutbox) (os : List TransactionOutbox)
    → exists? (at_most k) os ≡ false
    → among os o ≡ true
    → ltb k o.id ≡ true
among-above k o [] h a = cc
among-above k o (p ∷ os) h a = ground (arith, among-above k o os)

-- of rows in order, what a prefix leaves out is above it
pub prefix_above :
    (o : TransactionOutbox) (n : ℕ) (os : List TransactionOutbox)
    → ascends os ≡ true
    → among os o ≡ true
    → (among (take n os) o || not (exists? (above o.id) (take n os))) ≡ true
prefix_above o zero [] h a = refl
prefix_above o zero (p ∷ os) h a = refl
prefix_above o (suc n) [] h a = cc
prefix_above o (suc n) (p ∷ os) h a = elim (Bool-cases (p.id == o.id)) [
  | inl e ↦ ground arith
  | inr e ↦
      let rest = prefix_above o n os (ground arith) (ground arith) in
      let low = among-above p.id o os (ground arith) (ground arith) in ground arith
]
