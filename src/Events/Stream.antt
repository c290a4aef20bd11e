-- ===== src/Events/Stream.antt =====
-- The order in which a subscriber of backend/events/bus.py receives events.
use super_mew.Prelude.{
  ℕ, suc, ◌+◌, ℤ, pos, String, none, Bool, true, false, not, ◌&&◌, ◌||◌, List, [], ◌∷◌, ◌++◌,
  max_zero, if◌then◌else◌, ◌≡◌, inl, inr, refl, ap, arith, Bool-cases, All, both_true,
}
use super_mew.Errors.{Result, ok, err}
use super_mew.Events.Contracts.{RunEventType, run_completed, run_failed, run_cancelled}
use super_mew.Db.Rows.{RunEvent}
use super_mew.Db.Session.{Db, ◌>>=◌}
use super_mew.Runs.Evolution.Invariants.{IsJournaled}
use super_mew.Events.Journal.{read_after, assert_access, page_after}
use super_mew.Events.Page.{climbs, page_after-climbs}
use super_mew.Events.Bus.{
  is_terminal_event, Poll, Item, event, heartbeat, failed, pass, yielding, is_nil, on_page, follow,
  subscribe,
}

-- the events of a stream
abbrev pub received : List Item → List RunEvent
received [] = []
received (event e ∷ is) = e ∷ received is
received (heartbeat ∷ is) = received is
received (failed _ ∷ is) = received is

-- the types of event with which a run ends
abbrev pub closing : RunEventType → Bool
closing run_completed = true
closing run_failed = true
closing run_cancelled = true
closing _ = false

pub closing-terminal : (t : RunEventType) → closing t ≡ is_terminal_event t
closing-terminal _ = refl

-- only the last event is terminal, if any
abbrev pub ends_once : List RunEvent → Bool
ends_once [] = true
ends_once (e ∷ es) = (not (closing e.event_type) || is_nil es) && ends_once es

pub received-append : (xs ys : List Item) → received (xs ++ ys) ≡ received xs ++ received ys
received-append [] ys = refl
received-append (event e ∷ xs) ys = ap (λ zs. e ∷ zs) (received-append xs ys)
received-append (heartbeat ∷ xs) ys = received-append xs ys
received-append (failed _ ∷ xs) ys = received-append xs ys

pub append_nil {ℓ} : {A : Type ℓ} (xs : List A) → xs ++ [] ≡ xs
append_nil [] = refl
append_nil (x ∷ xs) = ap (λ ys. x ∷ ys) (append_nil xs)

-- a stream that climbs goes on where a page has left the cursor, and a page that ends needs no rest
pass_lem :
    (es : List RunEvent) (c : ℕ) (more : List RunEvent)
    → climbs c es ≡ true
    → (climbs (pass es c).cursor more && ends_once more) ≡ true
    → ((climbs c (received (pass es c).items ++ (if (pass es c).ended then [] else more))
          && ends_once (received (pass es c).items ++ (if (pass es c).ended then [] else more)))
        ≡ true)
unfolding pass
pass_lem [] c more h m = m
pass_lem (e ∷ es) c more h m =
    let here : e.sequence ≡ suc c = ground arith in
    let last = closing-terminal e.event_type in
    let rest = pass_lem es e.sequence more (ground arith) in
    elim (Bool-cases (is_terminal_event e.event_type)) [
      | inl t ↦ ground arith
      | inr t ↦
          let p : pass (e ∷ es) c ≡ yielding e (pass es e.sequence) = ground arith in ground arith
    ]

module _ (run_id : String) (heartbeat_seconds : ℕ) where
  follow_lem :
      (ps : List Poll) (cursor deadline : ℕ)
      → All (λ (p : Poll). IsJournaled p.db) ps
      → (climbs cursor (received (follow run_id heartbeat_seconds ps cursor deadline))
          && ends_once (received (follow run_id heartbeat_seconds ps cursor deadline)))
        ≡ true
  unfolding follow on_page read_after ◌>>=◌
  follow_lem [] cursor deadline js = refl
  follow_lem (p ∷ ps) cursor deadline js =
      let page = page_after run_id (pos cursor) (pos 500) none p.db in
      let known = page_after-climbs p.db run_id (pos cursor) (pos 500) none js.0 in
      let renewed = p.reset_at + heartbeat_seconds in
      let later = follow_lem ps (pass page cursor).cursor renewed js.1 in
      let beat = follow_lem ps cursor renewed js.1 in
      let wait = follow_lem ps cursor deadline js.1 in
      let joined = pass_lem page cursor _ known later in
      let split =
        received-append (pass page cursor).items
          (follow run_id heartbeat_seconds ps (pass page cursor).cursor renewed) in
      let alone = append_nil (received (pass page cursor).items) in ground arith

-- the order of what a subscriber receives
pub subscribe_in_order :
    (run_id username : String) (heartbeat_seconds now : ℕ) (after : ℤ) (db : Db) (ps : List Poll)
    → All (λ (p : Poll). IsJournaled p.db) ps
    → (climbs
          (max_zero after)
          (received (subscribe run_id heartbeat_seconds username after now db ps))
        ≡ true)
      × (ends_once (received (subscribe run_id heartbeat_seconds username after now db ps)) ≡ true)
unfolding subscribe
subscribe_in_order run_id username heartbeat_seconds now after db ps js =
    let followed =
      follow_lem run_id heartbeat_seconds ps (max_zero after) (now + heartbeat_seconds) js in
    let (x, y) = both_true _ _ followed in go x y (assert_access username run_id db) refl
  where
    go :
        climbs (max_zero after) (
            received
              (follow run_id heartbeat_seconds ps (max_zero after) (now + heartbeat_seconds)))
          ≡ true
        → ends_once (
            received
              (follow run_id heartbeat_seconds ps (max_zero after) (now + heartbeat_seconds)))
          ≡ true
        → (r : Result (String × Db)) → assert_access username run_id db ≡ r
        → (climbs
              (max_zero after)
              (received (subscribe run_id heartbeat_seconds username after now db ps))
            ≡ true)
          × (ends_once (received (subscribe run_id heartbeat_seconds username after now db ps))
              ≡ true)
    go x y (ok (t, d)) e = (ground arith, ground arith)
    go x y (err f) e = (ground arith, ground arith)
