-- ===== src/Runs/Moves/Ending.antt =====
-- `finalize` moves the tables only as `Evolves` allows.
use super_mew.Prelude.{
  ℕ, String, Option, none, some, Bool, true, false, not, List, [], ◌∷◌, ◌≡◌, refl, arith, inl, inr,
  Bool-cases, subst, find?, str_eq, eq_iff, eq_refl, ltb,
}
use super_mew.Runs.State.{RunStatus, queued, pending, same_status, is_terminal, can_transition}
use super_mew.Events.Contracts.{MessageStatus}
use super_mew.Db.Rows.{Run, Message}
use super_mew.Db.Session.{Db, Tx, ◌>>=◌, query_run, has_id, save_message}
use super_mew.Db.Session.Runs.{Keyed, find-eq-none}
use super_mew.Db.Session.Ensures.{
  Ensures, Ensures-pure, Ensures-raise, Ensures-if, Ensures-bind, Ensures-write_unless, bind-found,
  bind-guard, bind-gets, bind-pure,
}
use super_mew.Events.Journal.{Stamp, load_run, load_thread}
use super_mew.Runs.Repository.Record.{assert_fencing}
use super_mew.Runs.Repository.Hold.{set_message_status}
use super_mew.Runs.Repository.Finalize.{
  Ending, Stamps, still_orphan, cancels, waits_in, earlier, oldest, promote, promote_next_queued,
  close_message, has_usage, append_usage, end_run, finalize_run, finalize, effective_target,
}
use super_mew.Runs.Evolution.{moves_to, Evolves, stay, after, beside}
use super_mew.Runs.Evolution.Invariants.{Evolves-Keyed}
use super_mew.Runs.Evolution.Rules.{
  Progress, edited, bind-transition, bind-save_message, bind-save_thread, bind-save_run,
  bind-append,
}
use super_mew.Runs.Moves.Ownership.{Moves, return_record-Moves}

-- a keyed row that is found behind another is found past it
find-behind :
    (x r : Run) (rs : List Run)
    → Keyed (x ∷ rs)
    → find? (has_id r.id) rs ≡ some r
    → find? (has_id r.id) (x ∷ rs) ≡ some r
unfolding find?
find-behind x r rs k f = elim (Bool-cases (str_eq x.id r.id)) [
  | inl e ↦ absurd (
      cc (
        f,
        subst (λ i. find? (has_id i) rs ≡ none) ((eq_iff x.id r.id).0 e) (find-eq-none x.id rs k.0),
      ))
  | inr e ↦ rw e f
]

-- The row that a query for the oldest finds passes its test, and is the row of its key.
pub oldest-stored :
    (p : Run → Bool) (rs : List Run) (r : Run)
    → Keyed rs
    → oldest p rs ≡ some r
    → (find? (has_id r.id) rs ≡ some r) × (p r ≡ true)
unfolding oldest
oldest-stored p [] r k h = cc
oldest-stored p (x ∷ rs) r k h = elim (Bool-cases (p x)) [
  | inr e ↦ let (f, t) = oldest-stored p rs r k.1 (ground arith) in (find-behind x r rs k f, t)
  | inl e ↦ go (oldest p rs) refl (ground arith) e (λ s q. oldest-stored p rs s k.1 q)
]
  where
    head : x ≡ r → p x ≡ true → (find? (has_id r.id) (x ∷ rs) ≡ some r) × (p r ≡ true)
    head q e =
        subst (λ z. (find? (has_id z.id) (x ∷ rs) ≡ some z) × (p z ≡ true)) q
          (unfold find? in rw (eq_refl x.id), e)

    go :
        (o : Option Run)
        → oldest p rs ≡ o
        → earlier x o ≡ r
        → p x ≡ true
        → ((s : Run) → oldest p rs ≡ some s → (find? (has_id s.id) rs ≡ some s) × (p s ≡ true))
        → (find? (has_id r.id) (x ∷ rs) ≡ some r) × (p r ≡ true)
    go none u v e ih = head v e
    go (some s) u v e ih = elim (Bool-cases (ltb s.created_at x.created_at)) [
      | inl l ↦
          subst (λ z. (find? (has_id z.id) (x ∷ rs) ≡ some z) × (p z ≡ true)) (rw l at v)
            (find-behind x s rs k (ih s u).0, (ih s u).1)
      | inr l ↦ head (rw l at v) e
    ]

waits_in_queued :
    (thread : ℕ) (r : Run) → waits_in thread r ≡ true → same_status r.status queued ≡ true
waits_in_queued thread r h = ground arith

waiting_is_open : (s : RunStatus) → same_status s queued ≡ true → is_terminal s ≡ false
waiting_is_open s h = ground arith

queued_to_pending : (s : RunStatus) → same_status s queued ≡ true → moves_to s pending ≡ true
unfolding moves_to
queued_to_pending s h = ground arith

set_message_status-Moves :
    (o : Option Message) (status : MessageStatus) (at : ℕ) (run : Run) {start : Db} (db : Db)
    → Progress start run db
    → Moves start (set_message_status o status at) db
unfolding set_message_status save_message
set_message_status-Moves none status at run db p = Ensures-pure tt db p.path
set_message_status-Moves (some m) status at run db p =
    Ensures-write_unless _ _ db λ _. after p.path (beside db.threads _)

pub promote-Moves :
    (now thread : ℕ) {start : Db} (db : Db)
    → Keyed db.runs
    → Evolves start db
    → Moves start (promote_next_queued thread now) db
unfolding promote_next_queued promote query_run
promote-Moves now thread {start} db k path =
    bind-gets _ _ db (go (oldest (waits_in thread) db.runs) refl)
  where
    go :
        (o : Option Run)
        → oldest (waits_in thread) db.runs ≡ o
        → Ensures (λ _ db'. Evolves start db') (promote now o) db
    go none e = Ensures-pure tt db path
    go (some r) e =
        let (f, w) = oldest-stored (waits_in thread) db.runs r k e in
        bind-save_run _ _ db
          (record {
            path = path;
            held =
                (edited r.id db r (record r { status = pending }) f
                  (waiting_is_open r.status (waits_in_queued thread r w)) refl
                  (queued_to_pending r.status (waits_in_queued thread r w)) (omega arith)
                  refl).held;
          })
          λ db1 p. bind-gets _ _ db1 (set_message_status-Moves _ _ now _ db1 p)

module _ {κ} {B : Type 0} {R : B → Db → Type κ} where
  pub bind-close_message :
      (o : Option Message) (target : RunStatus) (ending : Ending) (at : ℕ) (f : Unit {0} → Tx B)
      {start : Db} (run : Run) (db : Db)
      → Progress start run db
      → ((db' : Db) → Progress start run db' → Ensures R (f tt) db')
      → Ensures R (close_message o target ending at >>= f) db
  unfolding close_message
  bind-close_message none target ending at f run db p k = bind-pure tt f db (k db p)
  bind-close_message (some m) target ending at f run db p k = bind-save_message _ f run db p k

  pub bind-append_usage :
      (stamp : Stamp) (ending : Ending) (thread_id : String) (run : Run) (f : Run → Tx B)
      {start : Db} (db : Db)
      → Progress start run db
      → ((run' : Run) (db' : Db) → Progress start run' db' → Ensures R (f run') db')
      → Ensures R (append_usage stamp ending thread_id run >>= f) db
  unfolding append_usage
  bind-append_usage stamp ending thread_id run f {start} db p k =
      Ensures-bind {Q = λ run' db'. Progress start run' db'} _ f db
        (Ensures-if (has_usage ending) _ _ db
          (λ _. bind-append stamp run thread_id _ _ _ db p λ a db' p'. Ensures-pure a.run db' p')
          (λ _. Ensures-pure run db p))
        k

-- the effective target ends a run that is being cancelled as cancelled
pub effective : (run : Run) (target : RunStatus) → cancels run (effective_target run target) ≡ false
effective run target = ground arith

pub keeps_cancelling :
    (run : Run) (target : RunStatus)
    → cancels run target ≡ false
    → can_transition run.status target ≡ true
    → moves_to run.status target ≡ true
unfolding moves_to
keeps_cancelling run target n h = ground arith

end_run-Moves :
    (now : ℕ) (stamps : Stamps) (target : RunStatus) (ending : Ending) (assistant : Option Message)
    (k : String) (run : Run) (db : Db)
    → Keyed db.runs
    → query_run k db ≡ some run
    → is_terminal run.status ≡ false
    → cancels run target ≡ false
    → Moves db (end_run now stamps target ending assistant run) db
unfolding end_run load_thread
end_run-Moves now stamps target ending assistant k run db keyed q alive settled =
    bind-transition run target _ db λ t.
      bind-close_message assistant target ending now _ _ db
        (edited k db run _ q alive refl (keeps_cancelling run target settled t) (omega arith) refl)
        λ db1 p1. bind-found _ _ _ db1 λ thread _. bind-save_thread _ _ _ db1 p1 λ db2 p2.
          bind-append_usage _ ending _ _ _ db2 p2 λ run2 db3 p3.
            bind-append _ _ _ _ _ _ db3 p3 λ a db4 p4. bind-append _ _ _ _ _ _ db4 p4 λ b db5 p5.
              Ensures-bind _ _ db5 (promote-Moves now _ db5 (Evolves-Keyed p5.path keyed) p5.path)
                λ _ db6 path. Ensures-pure _ db6 path

finalize_run-Moves :
    (now : ℕ) (stamps : Stamps) (target : RunStatus) (ending : Ending) (expired_before : Option ℕ)
    (assistant : Option Message) (k : String) (run : Run) (db : Db)
    → Keyed db.runs
    → query_run k db ≡ some run
    → Moves db (finalize_run now stamps target ending expired_before assistant run) db
unfolding finalize_run
finalize_run-Moves now stamps target ending expired_before assistant k run db keyed q =
    Ensures-if (not (still_orphan expired_before run)) _ _ db (λ _. Ensures-raise _ db)
      λ _.
        Ensures-if (is_terminal run.status) _ _ db
          (λ _.
            Ensures-if (same_status run.status target) _ _ db (λ _. return_record-Moves run db stay)
              λ _. Ensures-raise _ db)
          λ alive.
            end_run-Moves now stamps _ _ assistant k run db keyed q alive (effective run target)

pub finalize-Moves :
    (now : ℕ) (stamps : Stamps) (run_id : String) (target : RunStatus) (ending : Ending)
    (fencing_token expired_before : Option ℕ) (db : Db)
    → Keyed db.runs
    → Moves db (finalize now stamps run_id target ending fencing_token expired_before) db
unfolding finalize load_run assert_fencing
finalize-Moves now stamps run_id target ending fencing_token expired_before db keyed =
    bind-guard _ _ _ db λ _. bind-found _ _ _ db λ run q. bind-gets _ _ db (
      bind-guard _ _ _ db
        λ _. finalize_run-Moves now stamps target ending expired_before _ run_id run db keyed q)
