-- ===== src/Runs/Service.antt =====
-- `RunService` of backend/runs/service.py, and `get` and `get_internal` of backend/runs/repository.py.
-- A call of `request_cancel` is two transactions: other ones may come between.
pub mod Cancellation
use super_mew.Prelude.{
  ℕ, String, Option, none, some, Bool, true, false, ◌&&◌, ◌||◌, List, [], ◌∷◌, ◌++◌, ℤ, pos,
  truthy?, if◌then◌else◌,
}
use super_mew.Errors.{ErrorContract, Result, ok, err, app, run_not_found}
use super_mew.Runs.State.{
  RunStatus, succeeded, failed, cancelled, queued, pending, waiting_input, is_in, is_terminal,
}
use super_mew.Db.Rows.{Run, Thread}
use super_mew.Db.Session.{Db, Tx, ◌>>=◌, pure, raise, found, query_thread}
use super_mew.Events.Journal.{Stamp, load_run}
use super_mew.Runs.Repository.Record.{RunRecord, record_of}
use super_mew.Runs.Repository.Hold.{load_owned, mark_cancelling}
use super_mew.Runs.Repository.Finalize.{Ending, Stamps, cancelled_public_error, finalize}

-- the join of a run with its thread
unfoldable pub joined : Run → Tx RunRecord
joined run = do
  thread ← found (query_thread run.thread_ref_id) (app run_not_found)
  pure (record_of run thread.thread_id)

-- `RunRepository.get`
unfoldable pub get : String → String → Tx RunRecord
get username run_id = load_owned username run_id >>= joined

-- `RunRepository.get_internal`
unfoldable pub get_internal : String → Tx RunRecord
get_internal run_id = load_run run_id >>= joined

-- `complete_run`
abbrev pub complete_run :
    ℕ → Stamps → String → String → Option ℕ → ℤ → ℤ → ℤ → Option String → Tx RunRecord
complete_run now stamps run_id content token input_tokens output_tokens cost rag_trace =
    finalize now stamps run_id succeeded
      (record {
        content = content;
        error_code = none;
        error_detail_redacted = none;
        input_tokens = input_tokens;
        output_tokens = output_tokens;
        cost = cost;
        rag_trace = rag_trace;
        partial = false;
      })
      token none

abbrev text_or : Option String → String → String
text_or none d = d
text_or (some s) d = if truthy? (some s) then s else d

-- the error of `fail_run` that is given none; the code that is given has the form of an error code
abbrev pub execution_failed : Option String → Option String → ErrorContract
execution_failed error_code message = record {
  code = text_or error_code "RUN_EXECUTION_FAILED";
  message = text_or message "运行失败，请稍后重试。";
  retryable = true;
  category = some "run";
  stage = some "execution";
  provider = none;
  retry_after = none;
}

abbrev contract_or : Option ErrorContract → ErrorContract → ErrorContract
contract_or none d = d
contract_or (some e) d = e

-- `fail_run`; the error that is given is the public error, or that of the exception
abbrev pub fail_run :
    ℕ
    → Stamps
    → String
    → Option String
    → Option String
    → Option ErrorContract
    → Option ℕ
    → Bool
    → Tx RunRecord
fail_run now stamps run_id error_code message public_error token partial =
    let resolved = contract_or public_error (execution_failed error_code message) in
    finalize now stamps run_id failed
      (record {
        content = text_or message resolved.message;
        error_code = some resolved.code;
        error_detail_redacted = some resolved;
        input_tokens = pos 0;
        output_tokens = pos 0;
        cost = pos 0;
        rag_trace = none;
        partial = partial;
      })
      token none

-- the ending of a run that its user cancels
abbrev pub user_cancels : Ending
user_cancels = record {
  content = cancelled_public_error.message;
  error_code = some cancelled_public_error.code;
  error_detail_redacted = some cancelled_public_error;
  input_tokens = pos 0;
  output_tokens = pos 0;
  cost = pos 0;
  rag_trace = none;
  partial = true;
}

-- the second transaction of `request_cancel`, for the record that was read
unfoldable pub cancel_as : ℕ → Stamps → Stamp → String → String → RunRecord → Tx RunRecord
cancel_as now stamps stamp username run_id current =
    if is_terminal current.status
    then pure current
    else if is_in current.status (queued ∷ pending ∷ waiting_input ∷ [])
    then finalize now stamps run_id cancelled user_cancels none none
    else mark_cancelling stamp username run_id

-- `request_cancel`: the run is read in tables `seen`, and then it is written
unfoldable pub request_cancel : ℕ → Stamps → Stamp → String → String → Db → Tx RunRecord
request_cancel now stamps stamp username run_id seen db = elim (get username run_id seen) [
  | err e ↦ err e
  | ok (current, seen') ↦ cancel_as now stamps stamp username run_id current db
]
