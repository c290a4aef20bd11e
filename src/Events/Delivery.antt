-- ===== src/Events/Delivery.antt =====
-- That a subscriber of backend/events/bus.py receives the events of its run.
use super_mew.Prelude.{
  ℕ, suc, ◌+◌, ◌*◌, ◌-◌, ◌≤◌, min, ℤ, pos, String, none, some, Bool, true, false, not, ◌||◌, ◌&&◌,
  List, [], ◌∷◌, ◌++◌, length, str_eq, ltb, exists?, select, take, max_zero, ◌≡◌, ◌⊎◌, inl, inr,
  refl, sym, subst, arith, Bool-cases, Option-cases, All,
}
use super_mew.Errors.{ok}
use super_mew.Db.Rows.{Run, Thread, RunEvent}
use super_mew.Db.Session.{Db, ◌>>=◌, query_run, query_thread}
use super_mew.Runs.Evolution.Invariants.{IsJournaled}
use super_mew.Events.Journal.{read_after, assert_access, page_after, page_size}
use super_mew.Events.Page.{
  numbers, span, climbs, climbs-order, journal-above, page_after-climbs, page_after-span,
}
use super_mew.Events.Bus.{Poll, pass, yielding, is_nil, on_page, follow, subscribe}
use super_mew.Events.Stream.{
  closing, closing-terminal, received, ends_once, received-append, subscribe_in_order,
}

-- an event of another run
abbrev pub of_other : String → RunEvent → Bool
of_other run_id e = not (str_eq e.run_id run_id)

abbrev pub closes : RunEvent → Bool
closes e = closing e.event_type

-- a read finds the run, with its thread, and `n` events of it at least
abbrev pub Serves : String → ℕ → Poll → Type 0
Serves run_id n p =
    IsJournaled p.db
    × (r : Run) × (t : Thread) × (query_run run_id p.db ≡ some r)
    × (query_thread r.thread_ref_id p.db ≡ some t)
    × (n ≤ r.last_event_sequence)

length-span : (a n : ℕ) (es : List RunEvent) → numbers es ≡ span a n → length es ≡ n
length-span a ℕ.zero [] h = refl
length-span a (suc n) [] h = cc
length-span a ℕ.zero (e ∷ es) h = cc
length-span a (suc n) (e ∷ es) h =
    let rest = length-span (suc a) n es (ground arith) in ground arith

exists-both {ℓ} :
    {A : Type ℓ} (p : A → Bool) (xs ys : List A)
    → exists? p (xs ++ ys) ≡ (exists? p xs || exists? p ys)
exists-both p [] ys = refl
exists-both p (x ∷ xs) ys = let rest = exists-both p xs ys in ground arith

length-both {ℓ} : {A : Type ℓ} (xs ys : List A) → length (xs ++ ys) ≡ length xs + length ys
length-both [] ys = omega arith
length-both (x ∷ xs) ys = let rest = length-both xs ys in omega (arith, rest)

-- a page that climbs is yielded whole, or up to its first terminal event
pass_whole :
    (es : List RunEvent) (c : ℕ)
    → climbs c es ≡ true
    → (((pass es c).ended ≡ true) × (exists? closes (received (pass es c).items) ≡ true))
      ⊎ (((pass es c).ended ≡ false)
          × (length (received (pass es c).items) ≡ length es)
          × ((pass es c).cursor ≡ c + length es))
unfolding pass
pass_whole [] c h = inr (refl, refl, omega arith)
pass_whole (e ∷ es) c h =
    let here : e.sequence ≡ suc c = ground arith in
    let last = closing-terminal e.event_type in
    let rest = pass_whole es e.sequence (ground arith) in
    elim (Bool-cases (closes e)) [
      | inl t ↦ inl (ground arith, ground arith)
      | inr t ↦
          let p : pass (e ∷ es) c ≡ yielding e (pass es e.sequence) = ground arith in
          elim rest [
            | inl (x, y) ↦ inl (ground arith, ground arith)
            | inr (x, y, z) ↦ inr (ground arith, ground arith, ground arith)
          ]
    ]

pass-own :
    (run_id : String) (es : List RunEvent) (c : ℕ)
    → exists? (of_other run_id) es ≡ false
    → exists? (of_other run_id) (received (pass es c).items) ≡ false
unfolding pass
pass-own run_id [] c h = refl
pass-own run_id (e ∷ es) c h =
    let skipped = pass-own run_id es c (ground arith) in
    let next = pass-own run_id es e.sequence (ground arith) in ground arith

select-own :
    (run_id : String) (c : ℕ) (es : List RunEvent)
    → exists?
        (of_other run_id)
        (select (λ (e : RunEvent). str_eq e.run_id run_id && ltb c e.sequence) es)
      ≡ false
unfolding select
select-own run_id c [] = refl
select-own run_id c (e ∷ es) = let rest = select-own run_id c es in ground arith

take-own :
    (run_id : String) (n : ℕ) (es : List RunEvent)
    → exists? (of_other run_id) es ≡ false
    → exists? (of_other run_id) (take n es) ≡ false
take-own run_id ℕ.zero [] h = refl
take-own run_id ℕ.zero (e ∷ es) h = refl
take-own run_id (suc n) [] h = refl
take-own run_id (suc n) (e ∷ es) h = let rest = take-own run_id n es (ground arith) in ground arith

page-own :
    (db : Db) (run_id : String) (after limit : ℤ)
    → IsJournaled db
    → exists? (of_other run_id) (page_after run_id after limit none db) ≡ false
unfolding page_after
page-own db run_id after limit j =
    let c = max_zero after in
    let es = select (λ (e : RunEvent). str_eq e.run_id run_id && ltb c e.sequence) db.events in
    let (x, y) = journal-above db run_id c j in
    let sorted = climbs-order c es x in
    let own = take-own run_id (page_size limit) es (select-own run_id c db.events) in
    elim (Option-cases (query_run run_id db)) [
      | inl e ↦ ground arith
      | inr (run, e) ↦ elim (Option-cases (query_thread run.thread_ref_id db)) [
        | inl f ↦ ground arith
        | inr (thread, f) ↦ ground arith
      ]
    ]

module _ (run_id : String) (heartbeat_seconds n : ℕ) where
  follow-own :
      (ps : List Poll) (cursor deadline : ℕ)
      → All (Serves run_id n) ps
      → exists? (of_other run_id) (received (follow run_id heartbeat_seconds ps cursor deadline))
        ≡ false
  unfolding follow on_page read_after ◌>>=◌
  follow-own [] cursor deadline js = refl
  follow-own (p ∷ ps) cursor deadline js =
      let page = page_after run_id (pos cursor) (pos 500) none p.db in
      let items = (pass page cursor).items in
      let renewed = p.reset_at + heartbeat_seconds in
      let own = pass-own run_id page cursor (page-own p.db run_id (pos cursor) (pos 500) js.0.0) in
      let later = follow-own ps (pass page cursor).cursor renewed js.1 in
      let beat = follow-own ps cursor renewed js.1 in
      let wait = follow-own ps cursor deadline js.1 in
      let more = follow run_id heartbeat_seconds ps (pass page cursor).cursor renewed in
      let split = received-append items more in
      let joined = exists-both (of_other run_id) (received items) (received more) in ground arith

  follow-reaches :
      (ps : List Poll) (cursor deadline : ℕ)
      → All (Serves run_id n) ps
      → n ≤ cursor + 500 * length ps
      → (exists? closes (received (follow run_id heartbeat_seconds ps cursor deadline)) ≡ true)
        ⊎ (n ≤ cursor + length (received (follow run_id heartbeat_seconds ps cursor deadline)))
  unfolding follow on_page read_after ◌>>=◌
  follow-reaches [] cursor deadline js b = inr (omega (arith, b))
  follow-reaches (p ∷ ps) cursor deadline js b =
      let page = page_after run_id (pos cursor) (pos 500) none p.db in
      let items = (pass page cursor).items in
      let renewed = p.reset_at + heartbeat_seconds in
      let more = follow run_id heartbeat_seconds ps (pass page cursor).cursor renewed in
      let (j, r, t, q, qt, enough) = js.0 in
      let size =
        length-span cursor (min 500 (r.last_event_sequence - cursor)) page
          (page_after-span p.db run_id (pos cursor) (pos 500) none r t j q qt refl) in
      let known = page_after-climbs p.db run_id (pos cursor) (pos 500) none j in
      let split = received-append items more in
      let joined = exists-both closes (received items) (received more) in
      let sum = length-both (received items) (received more) in
      elim (Bool-cases (is_nil page)) [
        | inl e ↦ let none_left : n ≤ cursor = ground arith in inr (omega (arith, none_left))
        | inr e ↦ elim (pass_whole page cursor known) [
          | inl (x, y) ↦ inl (ground arith)
          | inr (x, y, z) ↦
              let left : n ≤ (pass page cursor).cursor + 500 * length ps = ground arith in
              elim (follow-reaches ps (pass page cursor).cursor renewed js.1 left) [
                | inl u ↦ inl (ground arith)
                | inr u ↦ inr (ground arith)
              ]
        ]
      ]

journaled :
    (run_id : String) (n : ℕ) (ps : List Poll)
    → All (Serves run_id n) ps
    → All (λ (p : Poll). IsJournaled p.db) ps
journaled run_id n [] js = tt
journaled run_id n (p ∷ ps) js = (js.0.0, journaled run_id n ps js.1)

granted-follow :
    (run_id username : String) (heartbeat_seconds now : ℕ) (after : ℤ) (db : Db) (ps : List Poll)
    (access : String × Db)
    → assert_access username run_id db ≡ ok access
    → subscribe run_id heartbeat_seconds username after now db ps
      ≡ follow run_id heartbeat_seconds ps (max_zero after) (now + heartbeat_seconds)
unfolding subscribe
granted-follow run_id username heartbeat_seconds now after db ps access a = ground arith

-- If a subscriber has access to a run, and every read finds the run with its thread, the events
-- of every run numbered with no gap up to the run's counter, and that of the run at least `n`,
-- and as many reads are made as pages of 500 lead from the cursor to `n`: then the subscriber
-- receives events of that run alone, one after the other from the cursor with no gap and none
-- twice, and nothing after a terminal one; and it receives a terminal one or all up to `n`.
pub subscribe_delivers :
    (run_id username : String) (heartbeat_seconds now n : ℕ) (after : ℤ) (db : Db) (ps : List Poll)
    (access : String × Db)
    → assert_access username run_id db ≡ ok access
    → All (Serves run_id n) ps
    → n ≤ max_zero after + 500 * length ps
    → (exists?
          (of_other run_id)
          (received (subscribe run_id heartbeat_seconds username after now db ps))
        ≡ false)
      × (climbs
            (max_zero after)
            (received (subscribe run_id heartbeat_seconds username after now db ps))
          ≡ true)
      × (ends_once (received (subscribe run_id heartbeat_seconds username after now db ps)) ≡ true)
      × ((exists? closes (received (subscribe run_id heartbeat_seconds username after now db ps))
            ≡ true)
          ⊎ (n
              ≤ max_zero after
                + length (received (subscribe run_id heartbeat_seconds username after now db ps))))
subscribe_delivers run_id username heartbeat_seconds now n after db ps access a js b =
    let (x, y) =
      subscribe_in_order run_id username heartbeat_seconds now after db ps
        (journaled run_id n ps js) in
    let deadline = now + heartbeat_seconds in
    let own = follow-own run_id heartbeat_seconds n ps (max_zero after) deadline js in
    let reached = follow-reaches run_id heartbeat_seconds n ps (max_zero after) deadline js b in
    let same = sym (granted-follow run_id username heartbeat_seconds now after db ps access a) in
    (
      subst (λ is. exists? (of_other run_id) (received is) ≡ false) same own,
      x,
      y,
      subst
          (λ is.
            (exists? closes (received is) ≡ true) ⊎ (n ≤ max_zero after + length (received is)))
          same reached,
    )
