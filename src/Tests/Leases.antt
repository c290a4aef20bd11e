-- ===== src/Tests/Leases.antt =====
-- A run that a worker has claimed, and one that is answered.
use super_mew.Prelude.{
  ◌↔◌, ℕ, pos, none, some, List, [], ◌∷◌, ◌≡◌, ◌≢◌, ◌⊎◌, inr, refl, arith, true, eq_iff,
}
use super_mew.Errors.{ok, err, app, run_active, run_state_conflict}
use super_mew.Runs.State.{
  RunStatus, running, succeeded, failed, enqueue, can_transition, is_terminal,
}
use super_mew.Runs.State.Laws.{terminal_iff_stuck}
use super_mew.Db.Rows.{Run, Thread}
use super_mew.Db.Session.{Db, query_run, query_thread}
use super_mew.Runs.Repository.Record.{RunRecord, record_of}
use super_mew.Db.Session.Runs.{Keyed}
use super_mew.Runs.Repository.Claim.{claim}
use super_mew.Runs.Repository.Finalize.{finalize}
use super_mew.Runs.System.{Op, perform_all}
use super_mew.Runs.System.Fencing.{FencedOut, stale_token-FencedOut}
use super_mew.Runs.System.Leases.{Claimed, claim-Claimed, claim_excludes_others}
use super_mew.Runs.System.Outcome.{finalize_ends, finalize_once}
use super_mew.Tests.Opened.{opened}
use super_mew.Tests.Data.{fresh_db, config, keys, ask, answer, stamp, stamps, inbox}

unfoldable pub asked_db : Db
asked_db = perform_all config (Op.reserve (keys "run_a" 10) 1 (ask "hello" "k1") ∷ []) fresh_db

unfoldable pub claimed : Db
claimed = perform_all config (Op.claim 3 (stamp "evt_c" 30) "run_a" "w1" none ∷ []) asked_db

abbrev pub running_run : Run
running_run = record {
  request = record {
    id = "run_a";
    thread_ref_id = 7;
    user_id = 1;
    tenant_id = "default";
    channel = "run";
    approved_tools_json = [];
    idempotency_key = "k1";
    request_hash = "hello";
    model_name = "m";
    model_catalog_hash = "0";
    model_snapshot_json = "{}";
    on_disconnect = "continue";
    multitask_strategy = enqueue;
    supersedes_run_id = none;
    deadline_at = 600000001;
    created_at = 1;
  };
  user_message_id = some 10;
  assistant_message_id = some 11;
  status = running;
  fencing_token = 3;
  last_event_sequence = 2;
  owner_worker_id = some "w1";
  lease_expires_at = some 30000003;
  started_at = some 3;
  skill = record {
    skill_name = none;
    skill_version = none;
    skill_content_hash = none;
    skill_activation_source = none;
  };
  outcome = record {
    finished_at = none;
    error_code = none;
    error_detail_redacted = none;
    input_tokens = 0;
    output_tokens = 0;
    cost = pos 0;
  };
}

pub claimed_row : query_run "run_a" claimed ≡ some running_run
unfolding opened asked_db claimed
claimed_row = refl

abbrev later : List Op
later =
    Op.finalize 4 stamps "run_a" succeeded answer (some 3) none
    ∷ Op.claim 5 (stamp "evt_d" 40) "run_a" "w2" none
    ∷ []

stale_token-FencedOut_example : FencedOut (perform_all config later claimed) "run_a" 2
unfolding opened asked_db claimed
stale_token-FencedOut_example =
    stale_token-FencedOut config later claimed "run_a" running_run 2 (refl, tt) claimed_row
      (omega arith)

abbrev claimed_record : RunRecord
claimed_record = record_of running_run "inbox"

the_claim :
    claim config.settings 3 (stamp "evt_c" 30) "run_a" "w1" none asked_db
    ≡ ok (claimed_record, claimed)
unfolding opened asked_db claimed
the_claim = refl

claim-Claimed_example : Claimed "run_a" "w1" claimed_record claimed
claim-Claimed_example =
    claim-Claimed config.settings 3 (stamp "evt_c" 30) "run_a" "w1" none asked_db claimed_record
      claimed the_claim

claim_excludes_others_example :
    claim config.settings 9 (stamp "evt_d" 40) "run_a" "w2" none claimed ≡ err (app run_active)
unfolding record_of
claim_excludes_others_example =
    claim_excludes_others config.settings 3 (stamp "evt_c" 30) "run_a" "w1" none asked_db
      claimed_record claimed 30000003 9 (stamp "evt_d" 40) "w2" none the_claim refl (omega arith)
      (λ e. cc ((eq_iff "w1" "w2").1 e))

unfoldable answered : Db
answered =
    perform_all config (Op.finalize 4 stamps "run_a" succeeded answer (some 3) none ∷ []) claimed

abbrev answered_run : Run
answered_run = record running_run {
  status = succeeded;
  last_event_sequence = 5;
  lease_expires_at = none;
  outcome = record {
    finished_at = some 4;
    error_code = none;
    error_detail_redacted = none;
    input_tokens = 3;
    output_tokens = 5;
    cost = pos 0;
  };
}

answered_row : query_run "run_a" answered ≡ some answered_run
unfolding opened asked_db claimed answered
answered_row = refl

abbrev pub answered_inbox : Thread
answered_inbox = record inbox { version = 2; message_count = 2; last_sequence = 2; updated_at = 4 }

abbrev after_end : List Op
after_end =
    Op.claim 5 (stamp "evt_d" 40) "run_a" "w2" none
    ∷ Op.finalize 6 stamps "run_a" failed answer none none
    ∷ []

still_there : query_thread 7 (perform_all config after_end answered) ≡ some answered_inbox
unfolding opened asked_db claimed answered
still_there = refl

answered-Keyed : Keyed answered.runs
unfolding opened asked_db claimed answered
answered-Keyed = (refl, tt)

finalize_once_example :
    ((failed ≡ succeeded)
      × (finalize 9 stamps "run_a" failed answer
            (some 3)
            none
            (perform_all config after_end answered)
          ≡ ok (record_of answered_run "inbox", perform_all config after_end answered)))
    ⊎ ((failed ≢ succeeded)
        × (finalize 9 stamps "run_a" failed answer
              (some 3)
              none
              (perform_all config after_end answered)
            ≡ err (app run_state_conflict)))
finalize_once_example =
    finalize_once config after_end answered 9 stamps "run_a" failed answer (some 3) answered_run
      answered_inbox answered-Keyed answered_row refl still_there refl (inr refl)

terminal_iff_stuck_example :
    (is_terminal failed ≡ true) ↔ ((t : RunStatus) → can_transition failed t ≡ true → t ≡ failed)
terminal_iff_stuck_example = terminal_iff_stuck failed

the_end :
    finalize 4 stamps "run_a" succeeded answer (some 3) none claimed
    ≡ ok (record_of answered_run "inbox", answered)
unfolding opened asked_db claimed answered
the_end = refl

pub claimed-Keyed : Keyed claimed.runs
unfolding opened asked_db claimed
claimed-Keyed = (refl, tt)

finalize_ends_example :
    (is_terminal succeeded ≡ true)
    × (n : ℕ) × (query_run "run_a" answered
        ≡ some (record running_run {
          status = succeeded;
          lease_expires_at = none;
          last_event_sequence = n;
          outcome = record {
            finished_at = some 4;
            error_code = none;
            error_detail_redacted = none;
            input_tokens = 3;
            output_tokens = 5;
            cost = pos 0;
          };
        }))
finalize_ends_example =
    finalize_ends 4 stamps "run_a" succeeded answer (some 3) none claimed running_run
      (record_of answered_run "inbox") answered claimed-Keyed claimed_row refl the_end
