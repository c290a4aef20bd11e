-- ===== src/Runs/System/Outcome.antt =====
-- How a run ends, and that it ends once.
use super_mew.Prelude.{
  ℕ, String, Option, none, some, true, false, max_zero, List, ◌≡◌, ◌≢◌, ◌⊎◌, inl, inr, refl, sym,
  ap, ◌∙◌, arith, Bool-cases,
}
use super_mew.Errors.{ok, err, app, run_state_conflict}
use super_mew.Runs.State.{RunStatus, cancelling, cancelled, same_status, is_terminal}
use super_mew.Runs.State.Laws.{same_status_iff}
use super_mew.Db.Rows.{Run, Thread}
use super_mew.Db.Session.{Db, query_run, query_thread}
use super_mew.Db.Session.Runs.{Keyed}
use super_mew.Runs.Repository.Record.{RunRecord, record_of, fencing_holds}
use super_mew.Runs.Repository.Finalize.{
  Stamps, Ending, cancelled_public_error, effective_target, effective_ending, finalize,
}
use super_mew.Runs.System.{Config, Op, perform_all}
use super_mew.Runs.System.History.{perform_all-Descends}
use super_mew.Runs.System.Endings.{finalize_ended, finalize_terminal}

-- the status that a call for a target leaves, by the status before
abbrev pub final_status : RunStatus → RunStatus → RunStatus
final_status cancelling target = cancelled
final_status _ target = target

-- what the call says of the error, or what is said of a cancellation
abbrev pub final_error {ℓ} : {A : Type ℓ} → RunStatus → RunStatus → A → Option A → Option A
final_error cancelling cancelled c given = given
final_error cancelling _ c given = some c
final_error _ _ c given = given

final-effective :
    (s : RunStatus) (target : RunStatus) (run : Run) (ending : Ending)
    → run.status ≡ s
    → (effective_target run target ≡ final_status s target)
      × ((effective_ending run target ending).error_code
          ≡ final_error s target "RUN_CANCELLED" ending.error_code)
      × ((effective_ending run target ending).error_detail_redacted
          ≡ final_error s target cancelled_public_error ending.error_detail_redacted)
      × ((effective_ending run target ending).input_tokens ≡ ending.input_tokens)
      × ((effective_ending run target ending).output_tokens ≡ ending.output_tokens)
      × ((effective_ending run target ending).cost ≡ ending.cost)
final-effective cancelling cancelled run ending h = rw h (refl, refl, refl, refl, refl, refl)
final-effective cancelling _ run ending h = rw h (refl, refl, refl, refl, refl, refl)
final-effective _ target run ending h = rw h (refl, refl, refl, refl, refl, refl)

-- If a call that ends a run that is not terminal, among runs of different ids, returns, the
-- target is terminal, and the row of the run is what it was but for these fields: the status is
-- the target, or cancelled if the run was being cancelled; there is no lease; the end is dated
-- by the call; the error and its detail are those of the call, or those of RUN_CANCELLED if the
-- run was being cancelled and the target is another; the tokens are those of the call and none
-- below 0; the cost is that of the call; and the counter of events may differ.
pub finalize_ends :
    (now : ℕ) (stamps : Stamps) (run_id : String) (target : RunStatus) (ending : Ending)
    (token expired : Option ℕ) (db : Db) (r : Run) (rec : RunRecord) (db' : Db)
    → Keyed db.runs
    → query_run run_id db ≡ some r
    → is_terminal r.status ≡ false
    → finalize now stamps run_id target ending token expired db ≡ ok (rec, db')
    → (is_terminal target ≡ true)
      × (n : ℕ) × (query_run run_id db'
          ≡ some (record r {
            status = final_status r.status target;
            lease_expires_at = none;
            last_event_sequence = n;
            outcome = record {
              finished_at = some now;
              error_code = final_error r.status target "RUN_CANCELLED" ending.error_code;
              error_detail_redacted =
                  final_error r.status target cancelled_public_error ending.error_detail_redacted;
              input_tokens = max_zero ending.input_tokens;
              output_tokens = max_zero ending.output_tokens;
              cost = ending.cost;
            };
          }))
finalize_ends now stamps run_id target ending token expired db r rec db' keyed q alive e =
    let (over, (n, stored)) =
      finalize_ended now stamps run_id target ending token expired db r rec db' keyed q alive e in
    let (a, b, c, d, f, g) = final-effective r.status target r ending refl in
    (over, n, stored ∙ rw (a, b, c, d, f, g) refl)

token_holds :
    (r : Run) (token : Option ℕ)
    → (token ≡ none) ⊎ (token ≡ some r.fencing_token)
    → fencing_holds r token ≡ true
token_holds r token (inl e) = rw e refl
token_holds r token (inr e) = rw e (ground arith)

-- Once a run, among runs of different ids, is terminal, then after any further of the eight
-- transactions of runs, if its thread is there, a call to `finalize` for a terminal target,
-- with the token that the run had or none and with no lease limit, writes nothing: it returns
-- the record of the run as it was when it ended if the target is the status that it ended with,
-- and raises RUN_STATE_CONFLICT if not.
pub finalize_once :
    (c : Config) (ops : List Op) (db : Db) (now : ℕ) (stamps : Stamps) (run_id : String)
    (target : RunStatus) (ending : Ending) (token : Option ℕ) (r : Run) (t : Thread)
    → Keyed db.runs
    → query_run run_id db ≡ some r
    → is_terminal r.status ≡ true
    → query_thread r.thread_ref_id (perform_all c ops db) ≡ some t
    → is_terminal target ≡ true
    → (token ≡ none) ⊎ (token ≡ some r.fencing_token)
    → ((target ≡ r.status)
        × (finalize now stamps run_id target ending token none (perform_all c ops db)
            ≡ ok (record_of r t.thread_id, perform_all c ops db)))
      ⊎ ((target ≢ r.status)
          × (finalize now stamps run_id target ending token none (perform_all c ops db)
              ≡ err (app run_state_conflict)))
unfolding record_of
finalize_once c ops db now stamps run_id target ending token r t keyed q over qt final held =
    let (r', q', d) = perform_all-Descends c ops db run_id r keyed q in
    let same = d.frozen over in
    let stored = q' ∙ ap some same in
    let kept = record r { last_event_sequence = r'.last_event_sequence } in
    let answer =
      finalize_terminal now stamps run_id target ending token (perform_all c ops db) kept t stored
        qt over final (token_holds r token held) in
    elim (Bool-cases (same_status r.status target)) [
      | inl e ↦ inl (sym ((same_status_iff r.status target).0 e), answer ∙ rw e refl)
      | inr n ↦ inr (λ e. cc ((same_status_iff r.status target).1 (sym e), n), answer ∙ rw n refl)
    ]
