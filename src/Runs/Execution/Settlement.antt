-- ===== src/Runs/Execution/Settlement.antt =====
-- The run after `execute` of backend/runs/cancellation.py.
use super_mew.Prelude.{
  ℕ, String, Option, none, some, Bool, true, false, if◌then◌else◌, ◌≡◌, inl, inr, refl, sym, subst,
  arith, Bool-cases, Option-cases,
}
use super_mew.Errors.{Error, ErrorContract, Result, ok, err, app, run_state_conflict}
use super_mew.Runs.State.{RunStatus, cancelled, failed, succeeded, is_terminal}
use super_mew.Db.Rows.{Run}
use super_mew.Db.Session.{Db, ◌>>=◌, query_run, query_thread}
use super_mew.Db.Session.Runs.{Keyed}
use super_mew.Events.Journal.{load_run, load_thread}
use super_mew.Runs.Repository.Record.{RunRecord, record_of, assert_fencing}
use super_mew.Runs.Repository.Claim.{return_record}
use super_mew.Runs.Repository.Finalize.{
  Ending, Stamps, ended, effective_target, effective_ending, finalize, finalize_run,
}
use super_mew.Runs.System.Endings.{finalize_ended}
use super_mew.Runs.Service.{joined, get_internal}
use super_mew.Runs.Execution.{
  Reason, shutdown, user, ownership_lost, CancellationToken, completed, waits_for_input, RunnerEnd,
  returned, interrupted, failed_with, body_end, left_or, ignore_conflict, fail, settle_cancelled,
  settle, execute,
}

-- the run is there and over
abbrev pub IsOver : String → Db → Type 0
IsOver run_id db = (r : Run) × (query_run run_id db ≡ some r) × (is_terminal r.status ≡ true)

same_row :
    (now : ℕ) (stamps : Stamps) (run_id : String) (target : RunStatus) (ending : Ending)
    (token : Option ℕ) (db db' : Db) (r : Run) (rec : RunRecord)
    → query_run run_id db ≡ some r
    → is_terminal r.status ≡ true
    → finalize now stamps run_id target ending token none db ≡ ok (rec, db')
    → db' ≡ db
unfolding finalize finalize_run load_run load_thread assert_fencing return_record ◌>>=◌
same_row now stamps run_id target ending token db db' r rec q over e =
    elim (Option-cases (query_thread r.thread_ref_id db)) [
      | inl t ↦ ground arith
      | inr (t, u) ↦ ground arith
    ]

no_row :
    (now : ℕ) (stamps : Stamps) (run_id : String) (target : RunStatus) (ending : Ending)
    (token : Option ℕ) (db db' : Db) (rec : RunRecord)
    → query_run run_id db ≡ none
    → finalize now stamps run_id target ending token none db ≡ ok (rec, db')
    → IsOver run_id db'
unfolding finalize load_run ◌>>=◌
no_row now stamps run_id target ending token db db' rec q e = ground arith

abbrev final_row : Run → RunStatus → Ending → ℕ → ℕ → Run
final_row r target ending now n =
    record (ended (record r { status = effective_target r target })
      (effective_ending r target ending) now) { last_event_sequence = n }

target_over :
    (r : Run) (target : RunStatus)
    → is_terminal target ≡ true
    → is_terminal (effective_target r target) ≡ true
target_over r target h = ground arith

-- a run that a call has ended is over
finalize-IsOver :
    (now : ℕ) (stamps : Stamps) (run_id : String) (target : RunStatus) (ending : Ending)
    (token : Option ℕ) (db db' : Db) (rec : RunRecord)
    → Keyed db.runs
    → finalize now stamps run_id target ending token none db ≡ ok (rec, db')
    → IsOver run_id db'
finalize-IsOver now stamps run_id target ending token db db' rec k e =
    elim (Option-cases (query_run run_id db)) [
      | inl q ↦ no_row now stamps run_id target ending token db db' rec q e
      | inr (r, q) ↦ elim (Bool-cases (is_terminal r.status)) [
        | inl over ↦
            let same = same_row now stamps run_id target ending token db db' r rec q over e in
            subst (IsOver run_id) (sym same) (r, q, over)
        | inr open_run ↦
            let stands =
              finalize_ended now stamps run_id target ending token none db r rec db' k q open_run
                e in
            (final_row r target ending now stands.1.0, stands.1.1, target_over r target stands.0)
      ]
    ]

-- a conflict is ignored where the run is over
ignored-IsOver :
    (run_id : String) (e : Error) (db db' : Db)
    → ignore_conflict run_id e db ≡ ok db'
    → IsOver run_id db'
unfolding ignore_conflict get_internal joined load_run record_of ◌>>=◌
ignored-IsOver run_id (app run_state_conflict) db db' e =
    elim (Option-cases (query_run run_id db)) [
      | inl q ↦ ground arith
      | inr (r, q) ↦ elim (Option-cases (query_thread r.thread_ref_id db)) [
        | inl u ↦ ground arith
        | inr (t, u) ↦
            let same : db' ≡ db = ground arith in
            let over : is_terminal r.status ≡ true = ground arith in
            subst (IsOver run_id) (sym same) (r, q, over)
      ]
    ]
ignored-IsOver run_id e db db' h = ground arith

left-IsOver :
    (now : ℕ) (stamps : Stamps) (run_id : String) (target : RunStatus) (ending : Ending)
    (token : Option ℕ) (db db' : Db) (f : Error → Result Db)
    → Keyed db.runs
    → ((e : Error) → f e ≡ ok db' → IsOver run_id db')
    → left_or (finalize now stamps run_id target ending token none db) f ≡ ok db'
    → IsOver run_id db'
left-IsOver now stamps run_id target ending token db db' f k g h =
    go (finalize now stamps run_id target ending token none db) refl h
  where
    go :
        (x : Result (RunRecord × Db))
        → finalize now stamps run_id target ending token none db ≡ x
        → left_or x f ≡ ok db'
        → IsOver run_id db'
    go (ok (rec, db2)) e h =
        let same : db2 ≡ db' = ground arith in
        subst (IsOver run_id) same
          (finalize-IsOver now stamps run_id target ending token db db2 rec k e)
    go (err x) e h = g x h

module _ (between : Db → Db) (error_of : Error → ErrorContract) (now : ℕ) (stamps : Stamps)
    (run_id : String) (fencing_token : ℕ) (durable : Bool) where
  fail-IsOver :
      (t : CancellationToken) (x : ErrorContract) (db db' : Db)
      → Keyed db.runs
      → fail between error_of now stamps run_id fencing_token durable t x db ≡ ok db'
      → IsOver run_id db'
  unfolding fail
  fail-IsOver t x db db' k h =
      left-IsOver now stamps run_id failed _ (some fencing_token) db db' (λ x. err x) k
        (λ e h. cc h) h

  settle_cancelled-IsOver :
      (t : CancellationToken) (r : Option Reason) (db db' : Db)
      → Keyed db.runs
      → (r ≡ some ownership_lost → IsOver run_id db')
      → settle_cancelled between error_of now stamps run_id fencing_token durable t r db ≡ ok db'
      → IsOver run_id db'
  unfolding settle_cancelled
  settle_cancelled-IsOver t none db db' k l h =
      left-IsOver now stamps run_id failed _ (some fencing_token) db db' _ k
        (λ e h. ignored-IsOver run_id e (between db) db' h) h
  settle_cancelled-IsOver t (some shutdown) db db' k l h =
      left-IsOver now stamps run_id failed _ (some fencing_token) db db' _ k
        (λ e h. ignored-IsOver run_id e (between db) db' h) h
  settle_cancelled-IsOver t (some user) db db' k l h =
      left-IsOver now stamps run_id cancelled _ (some fencing_token) db db' _ k
        (λ e h. ignored-IsOver run_id e (between db) db' h) h
  settle_cancelled-IsOver t (some ownership_lost) db db' k l h = l refl

  -- the ends of a call that may leave the run open
  abbrev pub may_leave : CancellationToken → RunnerEnd → Bool
  may_leave t (returned waits_for_input) = true
  may_leave t interrupted = elim (t.reason) [ some ownership_lost ↦ true | _ ↦ false ]
  may_leave t e = false

  settle-IsOver :
      (x : ErrorContract) (t : CancellationToken) (e : RunnerEnd) (db db' : Db)
      → Keyed db.runs
      → Keyed (between db).runs
      → may_leave t e ≡ false
      → settle between error_of now stamps run_id fencing_token durable x t e db ≡ ok db'
      → IsOver run_id db'
  unfolding settle
  settle-IsOver x t (returned (completed content rag_trace token)) db db' k k' l h =
      left-IsOver now stamps run_id succeeded _ _ db db' _ k
        (λ e h. fail-IsOver t (error_of e) (between db) db' k' h) h
  settle-IsOver x t (returned waits_for_input) db db' k k' l h = cc
  settle-IsOver x t interrupted db db' k k' l h =
      settle_cancelled-IsOver t t.reason db db' k (λ r. cc (rw r at l)) h
  settle-IsOver x t (failed_with e) db db' k k' l h = fail-IsOver t e db db' k h

  -- If `execute` returns, on tables whose runs have different ids, and so have they after
  -- whatever others do between two of its transactions, then the run is there and terminal in
  -- the tables that it leaves, unless its runner ended waiting for input or it was cancelled
  -- because the ownership was lost.
  pub execute_settles :
      (x : ErrorContract) (before after : CancellationToken) (e : RunnerEnd) (db db' : Db)
      → Keyed db.runs
      → Keyed (between db).runs
      → may_leave (if before.event then before else after) (body_end before after e) ≡ false
      → execute between error_of now stamps run_id fencing_token durable x before after e db
        ≡ ok db'
      → IsOver run_id db'
  unfolding execute
  execute_settles x before after e db db' k k' l h =
      settle-IsOver x (if before.event then before else after) (body_end before after e) db db' k k'
        l h
