-- ===== src/Events/Relay.antt =====
-- The steps of the publishers of backend/events/outbox.py and backend/events/bus.py, in any order.
use super_mew.Prelude.{
  ℕ, none, some, Bool, true, false, not, ◌&&◌, ◌||◌, List, [], ◌∷◌, ◌++◌, ◌==◌, str_eq, eq_refl,
  find?, exists?, ◌≡◌, inl, inr, refl, sym, subst, arith, Bool-cases, Option-cases,
}
use super_mew.Db.Rows.{RunEvent, TransactionOutbox}
use super_mew.Events.Outbox.{
  Relay, Delivery, delivered, undelivered, unconfirmed, is_pending, mark_published, mark_attempt,
  publish_item, announce_event,
}

-- The writes of the journal and the steps of the publishers, in the order in which they happen. A
-- publisher's step names the row that it has loaded; the payload of a row does not change.
pub data Act : Type 0 where
  writes : TransactionOutbox → Act
  attempts : Delivery → ℕ → ℕ → Act
  announces : Delivery → ℕ → ℕ → Act

abbrev pub has_key : ℕ → TransactionOutbox → Bool
has_key id o = o.id == id

unfoldable pub act : Act → Relay → Relay
act (writes o) r = record r { outbox = r.outbox ++ record o { published_at = none } ∷ [] }
act (attempts d now id) r = elim (find? (has_key id) r.outbox) [
  | none ↦ r
  | some o ↦ (publish_item d now o r).1
]
act (announces d now id) r = elim (find? (has_key id) r.outbox) [
  | none ↦ r
  | some o ↦ announce_event d now o r
]

unfoldable pub acts : List Act → Relay → Relay
acts [] r = r
acts (a ∷ more) r = acts more (act a r)

abbrev is_event : RunEvent → RunEvent → Bool
is_event e f = str_eq e.event_id f.event_id

-- a row that is marked and whose event was never sent
abbrev lost : List RunEvent → TransactionOutbox → Bool
lost sent o = not (is_pending o) && not (exists? (is_event o.event) sent)

abbrev pub Delivers : Relay → Type 0
Delivers r = exists? (lost r.sent) r.outbox ≡ false

exists-append {ℓ} :
    {A : Type ℓ} (p : A → Bool) (xs : List A) (y : A)
    → exists? p (xs ++ y ∷ []) ≡ (exists? p xs || p y)
exists-append p [] y = ground arith
exists-append p (x ∷ xs) y = let rest = exists-append p xs y in ground arith

sent_more :
    (sent : List RunEvent) (e : RunEvent) (os : List TransactionOutbox)
    → exists? (lost sent) os ≡ false
    → exists? (lost (sent ++ e ∷ [])) os ≡ false
sent_more sent e [] h = refl
sent_more sent e (o ∷ os) h =
    let rest = sent_more sent e os (ground arith) in
    let more = exists-append (is_event o.event) sent e in ground arith

mark_published_lem :
    (sent : List RunEvent) (id now : ℕ) (o : TransactionOutbox) (os : List TransactionOutbox)
    → find? (has_key id) os ≡ some o
    → exists? (lost sent) os ≡ false
    → exists? (lost (sent ++ o.event ∷ [])) (mark_published id now os) ≡ false
unfolding find? mark_published
mark_published_lem sent id now o [] f h = cc
mark_published_lem sent id now o (p ∷ os) f h = elim (Bool-cases (has_key id p)) [
  | inl e ↦
      let same : p ≡ o = ground arith in
      let more = exists-append (is_event p.event) sent o.event in
      let others = sent_more sent o.event os (ground arith) in
      let own = eq_refl p.event.event_id in
      let known : is_event p.event o.event ≡ true =
        subst (λ x. is_event p.event x.event ≡ true) same own in
      ground arith
  | inr e ↦
      let rest = mark_published_lem sent id now o os (ground arith) (ground arith) in
      let more = exists-append (is_event p.event) sent o.event in ground arith
]

mark_attempt_lem :
    (sent : List RunEvent) (id : ℕ) (os : List TransactionOutbox)
    → exists? (lost sent) os ≡ false
    → exists? (lost sent) (mark_attempt id os) ≡ false
unfolding mark_attempt
mark_attempt_lem sent id [] h = refl
mark_attempt_lem sent id (o ∷ os) h = ground (arith, mark_attempt_lem sent id os)

find-key :
    (id : ℕ) (os : List TransactionOutbox) (o : TransactionOutbox)
    → find? (has_key id) os ≡ some o
    → o.id ≡ id
unfolding find?
find-key id [] o f = cc
find-key id (p ∷ os) o f = ground (arith, find-key id os o)

publish_item-Delivers :
    (d : Delivery) (now id : ℕ) (o : TransactionOutbox) (r : Relay)
    → find? (has_key id) r.outbox ≡ some o
    → Delivers r
    → Delivers (publish_item d now o r).1
unfolding publish_item
publish_item-Delivers delivered now id o r f h =
    subst (λ i. exists? (lost (r.sent ++ o.event ∷ [])) (mark_published i now r.outbox) ≡ false)
      (sym (find-key id r.outbox o f)) (mark_published_lem r.sent id now o r.outbox f h)
publish_item-Delivers undelivered now id o r f h = mark_attempt_lem r.sent o.id r.outbox h
publish_item-Delivers unconfirmed now id o r f h =
    mark_attempt_lem (r.sent ++ o.event ∷ []) o.id r.outbox (sent_more r.sent o.event r.outbox h)

announce_event-Delivers :
    (d : Delivery) (now id : ℕ) (o : TransactionOutbox) (r : Relay)
    → find? (has_key id) r.outbox ≡ some o
    → Delivers r
    → Delivers (announce_event d now o r)
unfolding announce_event
announce_event-Delivers delivered now id o r f h = publish_item-Delivers delivered now id o r f h
announce_event-Delivers undelivered now id o r f h = h
announce_event-Delivers unconfirmed now id o r f h = sent_more r.sent o.event r.outbox h

act-Delivers : (a : Act) (r : Relay) → Delivers r → Delivers (act a r)
unfolding act
act-Delivers (writes o) r h =
    let more = exists-append (lost r.sent) r.outbox (record o { published_at = none }) in
    ground arith
act-Delivers (attempts d now id) r h = elim (Option-cases (find? (has_key id) r.outbox)) [
  | inl e ↦ ground arith
  | inr (o, e) ↦ ground (arith, publish_item-Delivers d now id o r e h)
]
act-Delivers (announces d now id) r h = elim (Option-cases (find? (has_key id) r.outbox)) [
  | inl e ↦ ground arith
  | inr (o, e) ↦ ground (arith, announce_event-Delivers d now id o r e h)
]

-- Whatever rows are written and however the steps of the publisher and of the event bus come
-- between, with deliveries that succeed, fail or are lost halfway: if every row that is marked
-- as published had its event handed to the transport before, so it is after.
pub acts-Delivers : (l : List Act) (r : Relay) → Delivers r → Delivers (acts l r)
unfolding acts
acts-Delivers [] r h = h
acts-Delivers (a ∷ more) r h = acts-Delivers more (act a r) (act-Delivers a r h)
