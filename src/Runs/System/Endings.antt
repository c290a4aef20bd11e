-- ===== src/Runs/System/Endings.antt =====
-- The steps of the end of a run.
use mathlib.Core.Option.{some-injective}
use super_mew.Prelude.{
  ℕ, String, Option, none, some, true, false, not, ◌≡◌, refl, sym, ap, subst, ◌∙◌, arith,
  if◌then◌else◌,
}
use super_mew.Errors.{ok, err, app, run_state_conflict}
use super_mew.Runs.State.{RunStatus, same_status, is_terminal}
use super_mew.Events.Contracts.{RunEventType, EventData}
use super_mew.Db.Rows.{Run, Thread, Message}
use super_mew.Db.Session.{Db, ◌>>=◌, query_run, query_thread}
use super_mew.Db.Session.Runs.{Keyed}
use super_mew.Db.Session.Ensures.{
  Ensures, Ensures-pure, Ensures-raise, Ensures-if, Ensures-bind, Ensures-mono, bind-found,
  bind-guard, bind-gets,
}
use super_mew.Events.Journal.{
  Stamp, JournalAppend, append_event_in_session, numbered, load_run, load_thread,
}
use super_mew.Runs.Repository.Record.{RunRecord, record_of, assert_fencing, fencing_holds}
use super_mew.Runs.Repository.Claim.{return_record}
use super_mew.Runs.Repository.Finalize.{
  Stamps, Ending, has_usage, append_usage, promote_next_queued, still_orphan, cancels,
  effective_target, effective_ending, ended, end_run, finalize_run, finalize,
}
use super_mew.Runs.Evolution.{stay}
use super_mew.Runs.Evolution.Invariants.{Evolves-Keyed}
use super_mew.Runs.Evolution.Descent.{Evolves-Descends}
use super_mew.Runs.Evolution.Rules.{
  Progress, id-query_run, edited, bind-transition, bind-save_thread, Ensures-append,
}
use super_mew.Runs.Moves.Ending.{bind-close_message, promote-Moves, keeps_cancelling, effective}

-- the call for a terminal run
pub finalize_terminal :
    (now : ℕ) (stamps : Stamps) (run_id : String) (target : RunStatus) (ending : Ending)
    (token : Option ℕ) (db : Db) (r : Run) (t : Thread)
    → query_run run_id db ≡ some r
    → query_thread r.thread_ref_id db ≡ some t
    → is_terminal r.status ≡ true
    → is_terminal target ≡ true
    → fencing_holds r token ≡ true
    → finalize now stamps run_id target ending token none db ≡ (
        if same_status r.status target
        then ok (record_of r t.thread_id, db)
        else err (app run_state_conflict))
unfolding finalize finalize_run load_run load_thread assert_fencing return_record ◌>>=◌
finalize_terminal now stamps run_id target ending token db r t q qt over over' f = ground arith

-- equal but for the counter of events
abbrev Same : Run → Run → Type 0
Same want r = r ≡ record want { last_event_sequence = r.last_event_sequence }

Same-numbered : (want r : Run) → Same want r → Same want (numbered r)
Same-numbered want r h = ap numbered h

append-Same :
    (stamp : Stamp) (want run : Run) (thread_id : String) (ty : RunEventType) (d : EventData)
    {start : Db} (db : Db)
    → Progress start run db
    → Same want run
    → Ensures
        (λ (a : JournalAppend) db'.
          Progress start a.run db' × Same want a.run × (query_run want.id db' ≡ some a.run))
        (append_event_in_session stamp run thread_id ty d)
        db
append-Same stamp want run thread_id ty d {start} db p s =
    Ensures-mono (Ensures-append stamp run thread_id ty d db p) λ a db' (e, p', st). (
      subst (λ r. Progress start r db') (sym e) p',
      subst (Same want) (sym e) (Same-numbered want run s),
      subst (λ i. query_run i db' ≡ some a.run) (ap (λ (r : Run). r.id) s) (st ∙ ap some (sym e)),
    )

usage-Same :
    (stamp : Stamp) (ending : Ending) (thread_id : String) (want run : Run) {start : Db} (db : Db)
    → Progress start run db
    → Same want run
    → Ensures
        (λ run' db'. Progress start run' db' × Same want run')
        (append_usage stamp ending thread_id run)
        db
unfolding append_usage
usage-Same stamp ending thread_id want run db p s =
    Ensures-if (has_usage ending) _ _ db
      (λ _.
        Ensures-bind _ _ db (append-Same stamp want run thread_id _ _ db p s)
          λ a db' (p', s', _). Ensures-pure a.run db' (p', s'))
      λ _. Ensures-pure run db (p, s)

-- the row of a key, up to its counter
abbrev pub Stands : String → Run → Db → Type 0
Stands k want db = (n : ℕ) × (query_run k db ≡ some (record want { last_event_sequence = n }))

promote-Stands :
    (now thread : ℕ) (k : String) (want row : Run) (db : Db)
    → Keyed db.runs
    → query_run k db ≡ some row
    → Same want row
    → is_terminal want.status ≡ true
    → Ensures (λ _ db'. Stands k want db') (promote_next_queued thread now) db
promote-Stands now thread k want row db keyed q s over =
    Ensures-mono (promote-Moves now thread db keyed stay) λ _ db' path.
      let (r', q', d) = Evolves-Descends k path q in
      let over' = ap (λ (r : Run). is_terminal r.status) s ∙ over in
      (
        r'.last_event_sequence,
        q'
            ∙ ap some (
                d.frozen over'
                ∙ ap (λ (r : Run). record r { last_event_sequence = r'.last_event_sequence }) s),
      )

end_run-Stands :
    (now : ℕ) (stamps : Stamps) (target : RunStatus) (ending : Ending) (assistant : Option Message)
    (k : String) (run : Run) (db : Db)
    → Keyed db.runs
    → query_run k db ≡ some run
    → is_terminal run.status ≡ false
    → is_terminal target ≡ true
    → cancels run target ≡ false
    → Ensures
        (λ _ db'. Stands k (ended (record run { status = target }) ending now) db')
        (end_run now stamps target ending assistant run)
        db
unfolding end_run load_thread
end_run-Stands now stamps target ending assistant k run db keyed q alive over settled =
    let want = ended (record run { status = target }) ending now in
    bind-transition run target _ db λ t.
      bind-close_message assistant target ending now _ _ db
        (edited k db run _ q alive refl (keeps_cancelling run target settled t) (omega arith) refl)
        λ db1 p1. bind-found _ _ _ db1 λ thread _. bind-save_thread _ _ _ db1 p1 λ db2 p2.
          Ensures-bind _ _ db2 (usage-Same _ ending _ want want db2 p2 refl) λ run2 db3 (p3, s3).
            Ensures-bind _ _ db3 (append-Same _ want run2 _ _ _ db3 p3 s3) λ a db4 (p4, s4, _).
              Ensures-bind _ _ db4 (append-Same _ want a.run _ _ _ db4 p4 s4) λ b db5 (p5, s5, q5).
                Ensures-bind _ _ db5
                  (promote-Stands now _ k want b.run db5 (Evolves-Keyed p5.path keyed)
                    (subst (λ i. query_run i db5 ≡ some b.run) (id-query_run k db q) q5) s5 over)
                  λ _ db6 stands. Ensures-pure _ db6 stands

effective-terminal :
    (r : Run) (target : RunStatus)
    → is_terminal target ≡ true
    → is_terminal (effective_target r target) ≡ true
effective-terminal r target over = ground arith

-- a call that returns ends the run by the code's own routines
pub finalize_ended :
    (now : ℕ) (stamps : Stamps) (run_id : String) (target : RunStatus) (ending : Ending)
    (token expired : Option ℕ) (db : Db) (r : Run) (rec : RunRecord) (db' : Db)
    → Keyed db.runs
    → query_run run_id db ≡ some r
    → is_terminal r.status ≡ false
    → finalize now stamps run_id target ending token expired db ≡ ok (rec, db')
    → (is_terminal target ≡ true)
      × Stands run_id
          (ended
            (record r { status = effective_target r target })
            (effective_ending r target ending)
            now)
          db'
unfolding finalize load_run assert_fencing finalize_run
finalize_ended now stamps run_id target ending token expired db r rec db' keyed q alive e =
    (bind-guard
        {R = λ _ db'.
          (is_terminal target ≡ true)
          × Stands run_id
              (ended (record r { status = effective_target r target })
                (effective_ending r target ending) now)
              db'}
        _ _ _ db
        λ over. bind-found _ _ _ db λ run q'. bind-gets _ _ db (
          bind-guard _ _ _ db λ _.
            Ensures-if (not (still_orphan expired run)) _ _ db (λ _. Ensures-raise _ db)
              λ _.
                let same : r ≡ run = some-injective _ _ (sym q ∙ q') in
                let alive' = subst (λ (x : Run). is_terminal x.status ≡ false) same alive in
                Ensures-if (is_terminal run.status) _ _ db
                  (λ b. record { at = λ a db' x. cc (alive', b) })
                  λ _.
                    Ensures-mono
                      (end_run-Stands now stamps (effective_target run target)
                        (effective_ending run target ending) _ run_id run db keyed q' alive'
                        (effective-terminal run target over) (effective run target))
                      λ _ db' s. (
                        over,
                        subst
                            (λ (x : Run).
                              Stands run_id
                                (ended (record x { status = effective_target x target })
                                  (effective_ending x target ending) now)
                                db')
                            (sym same) s,
                      ))).at
      rec db' e
