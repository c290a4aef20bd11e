-- ===== src/Runs/Repository/Finalize.antt =====
-- `RunRepository.finalize`, which ends a run and promotes the next queued one.
use super_mew.Prelude.{
  ℕ, ℤ, String, Option, none, some, Bool, true, false, not, ◌&&◌, ◌||◌, List, [], ◌∷◌, ◌==◌, ltb,
  max_zero, nonzero, if◌then◌else◌,
}
use super_mew.Errors.{ErrorContract, app, run_state_conflict, value_error}
use super_mew.Runs.State.{
  RunStatus, queued, pending, running, cancelling, succeeded, failed, cancelled, is_in, is_terminal,
  same_status,
}
use super_mew.Events.Contracts.{
  RunEventType, usage_updated, message_completed, run_completed, run_failed, run_cancelled,
  EventData, MessageStatus,
}
use super_mew.Db.Rows.{Run, Message}
use super_mew.Db.Session.{
  Tx, ◌>>=◌, ◌>>◌, pure, raise, gets, guard, save_run, save_thread, save_message, query_message,
}
use super_mew.Events.Journal.{Stamp, load_run, load_thread, append_event_in_session}
use super_mew.Runs.Repository.Record.{RunRecord, record_of, assert_fencing, transition}
use super_mew.Runs.Repository.Claim.{return_record}
use super_mew.Runs.Repository.Hold.{set_message_status}

-- the arguments of `finalize` behind the run and the target
pub record Ending : Type 0 where
  pub content : String
  pub error_code : Option String
  pub error_detail_redacted : Option ErrorContract
  pub input_tokens : ℤ
  pub output_tokens : ℤ
  pub cost : ℤ
  pub rag_trace : Option String
  pub partial : Bool

-- the stamps of the three events that `finalize` may append
pub record Stamps : Type 0 where
  pub usage : Stamp
  pub message : Stamp
  pub terminal : Stamp

-- `_cancelled_public_error().contract()`
abbrev pub cancelled_public_error : ErrorContract
cancelled_public_error = record {
  code = "RUN_CANCELLED";
  message = "运行已由用户取消。";
  retryable = false;
  category = some "run";
  stage = some "cancellation";
  provider = none;
  retry_after = none;
}

-- `_message_status`
unfoldable pub message_status : RunStatus → Bool → MessageStatus
message_status target partial =
    if partial
    then MessageStatus.incomplete
    else if same_status target succeeded
    then MessageStatus.completed
    else if same_status target cancelled
    then MessageStatus.cancelled
    else MessageStatus.failed

-- the rows of the thread that wait, oldest first: `order_by(Run.created_at.asc()).first()`
abbrev pub waits_in : ℕ → Run → Bool
waits_in thread r = r.thread_ref_id == thread && same_status r.status queued

abbrev pub earlier : Run → Option Run → Run
earlier r none = r
earlier r (some s) = if ltb s.created_at r.created_at then s else r

unfoldable pub oldest : (Run → Bool) → List Run → Option Run
oldest p [] = none
oldest p (r ∷ rs) = let rest = oldest p rs in if p r then some (earlier r rest) else rest

-- `_promote_next_queued`, for the row that its query found
unfoldable pub promote : ℕ → Option Run → Tx (Unit {0})
promote now none = pure tt
promote now (some r) = do
  save_run (record r { status = pending })
  message ← gets (query_message r.assistant_message_id)
  set_message_status message MessageStatus.streaming now

-- `_promote_next_queued`
unfoldable pub promote_next_queued : ℕ → ℕ → Tx (Unit {0})
promote_next_queued thread now = gets (λ db. oldest (waits_in thread) db.runs) >>= promote now

-- the lease check of `reconcile_orphans`: the run is still held, and its lease has run out
abbrev pub lease_is_over : Option ℕ → ℕ → Bool
lease_is_over none limit = false
lease_is_over (some t) limit = ltb t limit

abbrev pub still_orphan : Option ℕ → Run → Bool
still_orphan none run = true
still_orphan (some limit) run =
    is_in run.status (running ∷ cancelling ∷ []) && lease_is_over run.lease_expires_at limit

-- a run that is being cancelled ends as cancelled, whatever the target
abbrev pub cancels : Run → RunStatus → Bool
cancels run target = same_status run.status cancelling && not (same_status target cancelled)

abbrev pub effective_target : Run → RunStatus → RunStatus
effective_target run target = if cancels run target then cancelled else target

abbrev pub effective_ending : Run → RunStatus → Ending → Ending
effective_ending run target ending =
    if cancels run target
    then (record ending {
      content = if ending.partial then ending.content else cancelled_public_error.message;
      error_code = some cancelled_public_error.code;
      error_detail_redacted = some cancelled_public_error;
      partial = true;
    })
    else ending

abbrev pub ended : Run → Ending → ℕ → Run
ended run ending now = record run {
  lease_expires_at = none;
  outcome = record {
    finished_at = some now;
    error_code = ending.error_code;
    error_detail_redacted = ending.error_detail_redacted;
    input_tokens = max_zero ending.input_tokens;
    output_tokens = max_zero ending.output_tokens;
    cost = ending.cost;
  };
}

-- `if assistant: …`
unfoldable pub close_message : Option Message → RunStatus → Ending → ℕ → Tx (Unit {0})
close_message none target ending now = pure tt
close_message (some m) target ending now = save_message (record m {
  content = ending.content;
  status = message_status target ending.partial;
  rag_trace = ending.rag_trace;
  updated_at = now;
})

-- `if input_tokens or output_tokens or Decimal(str(cost)) != Decimal("0")`
abbrev pub has_usage : Ending → Bool
has_usage ending =
    nonzero ending.input_tokens || nonzero ending.output_tokens || nonzero ending.cost

unfoldable pub append_usage : Stamp → Ending → String → Run → Tx Run
append_usage stamp ending thread_id run =
    if has_usage ending
    then (append_event_in_session stamp run thread_id usage_updated
          (EventData.usage run.outcome.input_tokens run.outcome.output_tokens run.outcome.cost)
        >>= λ appended. pure appended.run)
    else pure run

abbrev pub terminal_type : RunStatus → RunEventType
terminal_type succeeded = run_completed
terminal_type failed = run_failed
terminal_type _ = run_cancelled

-- the part of `finalize` after its guards, for the effective target and ending
unfoldable pub end_run : ℕ → Stamps → RunStatus → Ending → Option Message → Run → Tx RunRecord
end_run now stamps target ending assistant run = do
  moved ← transition run target
  let run1 = ended moved ending now
  close_message assistant target ending now
  thread ← load_thread run1
  save_thread (record thread { updated_at = now })
  run2 ← append_usage stamps.usage ending thread.thread_id run1
  completed ← append_event_in_session stamps.message run2 thread.thread_id message_completed (
      EventData.message run2.assistant_message_id ending.content
        (message_status target ending.partial) ending.rag_trace)
  closed ←
      append_event_in_session stamps.terminal completed.run thread.thread_id (terminal_type target)
        (EventData.terminal completed.run.status completed.run.outcome.error_code
          ending.error_detail_redacted completed.run.assistant_message_id)
  promote_next_queued thread.id now
  pure (record_of closed.run thread.thread_id)

-- the part of `finalize` after the queries and the check of the token
unfoldable pub finalize_run :
    ℕ → Stamps → RunStatus → Ending → Option ℕ → Option Message → Run → Tx RunRecord
finalize_run now stamps target ending expired_before assistant run =
    if not (still_orphan expired_before run)
    then raise (app run_state_conflict)
    else if is_terminal run.status
    then if same_status run.status target then return_record run else raise (app run_state_conflict)
    else end_run now stamps (effective_target run target) (effective_ending run target ending)
        assistant run

-- `RunRepository.finalize`
unfoldable pub finalize :
    ℕ → Stamps → String → RunStatus → Ending → Option ℕ → Option ℕ → Tx RunRecord
finalize now stamps run_id target ending fencing_token expired_before = do
  guard (is_terminal target) value_error
  run ← load_run run_id
  assistant ← gets (query_message run.assistant_message_id)
  assert_fencing run fencing_token
  finalize_run now stamps target ending expired_before assistant run
