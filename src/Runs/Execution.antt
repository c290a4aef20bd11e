-- ===== src/Runs/Execution.antt =====
-- The cancellation tokens and `RunExecutionManager.execute` of backend/runs/cancellation.py. What a
-- runner does is how it ends, and the token as it is then; `between` is what others do to the tables
-- between two transactions of the call, and `error_of` is `public_error_from_exception`.
pub mod Settlement
pub mod Reasons
use Prim.Native.String.{◌++◌ as join}
use super_mew.Prelude.{
  ℕ, String, Option, none, some, Bool, true, false, not, ◌&&◌, ◌||◌, List, [], ◌∷◌, ◌++◌, ltb,
  truthy, ◌≡◌, pos, if◌then◌else◌,
}
use super_mew.Errors.{Error, ErrorContract, Result, ok, err, app, run_state_conflict}
use super_mew.Runs.State.{RunStatus, cancelled, waiting_input, pending, running, is_in, is_terminal}
use super_mew.Db.Session.{Db, Tx}
use super_mew.Runs.Repository.Record.{RunRecord}
use super_mew.Runs.Repository.Finalize.{Ending, Stamps, cancelled_public_error, finalize}
use super_mew.Runs.Service.{get_internal, complete_run, fail_run, user_cancels}

-- the reasons of a cancellation
pub data Reason : Type 0 where
  shutdown user ownership_lost : Reason

-- `_CANCELLATION_REASON_PRIORITY`, one more; the code has -1 for no reason
abbrev pub priority : Option Reason → ℕ
priority none = 0
priority (some shutdown) = 1
priority (some user) = 2
priority (some ownership_lost) = 3

-- `CancellationToken`
pub record CancellationToken : Type 0 where
  pub event : Bool
  pub partial_chunks : List String
  pub reason : Option Reason

abbrev pub joined_chunks : List String → String
joined_chunks [] = ""
joined_chunks (c ∷ cs) = join c (joined_chunks cs)

-- `partial_content`
abbrev pub partial_content : CancellationToken → String
partial_content t = joined_chunks t.partial_chunks

-- `append_partial`
abbrev pub append_partial : String → CancellationToken → CancellationToken
append_partial content t =
    if truthy content then record t { partial_chunks = t.partial_chunks ++ content ∷ [] } else t

-- `CancellationToken.request`
unfoldable pub request : Reason → CancellationToken → CancellationToken
request reason t = record t {
  event = true;
  reason = if ltb (priority t.reason) (priority (some reason)) then some reason else t.reason;
}

-- `RunExecutionOutcome`
pub data Outcome : Type 0 where
  completed : String → Option String → Option ℕ → Outcome
  waits_for_input : Outcome

-- how the runner ends: with an outcome, by its cancellation, or by an exception of a public error
pub data RunnerEnd : Type 0 where
  returned : Outcome → RunnerEnd
  interrupted : RunnerEnd
  failed_with : ErrorContract → RunnerEnd

-- how the body of `try` ends, with the checkpoints before and after the runner
abbrev pub body_end : CancellationToken → CancellationToken → RunnerEnd → RunnerEnd
body_end before after e = if before.event then interrupted else elim e [
  | returned o ↦ if after.event then interrupted else returned o
  | interrupted ↦ interrupted
  | failed_with x ↦ failed_with x
]

-- the error of a run that a shutdown interrupts
abbrev pub interrupted_error : ErrorContract
interrupted_error = record {
  code = "RUN_INTERRUPTED";
  message = "运行因服务重启而中断。";
  retryable = true;
  category = some "run";
  stage = some "shutdown";
  provider = none;
  retry_after = none;
}

abbrev pub content_or : CancellationToken → String → String
content_or t message = if truthy (partial_content t) then partial_content t else message

-- `_ignore_conflict_if_terminal`, on the tables as they are then
abbrev pub as_settled : Error → Result (RunRecord × Db) → Db → Result Db
as_settled e (ok (current, db')) db = if is_terminal current.status then ok db else err e
as_settled e (err e') db = err e'

unfoldable pub ignore_conflict : String → Error → Db → Result Db
ignore_conflict run_id (app run_state_conflict) db =
    as_settled (app run_state_conflict) (get_internal run_id db) db
ignore_conflict run_id e db = err e

-- what a transaction leaves, or what its error leads to
abbrev pub left_or : Result (RunRecord × Db) → (Error → Result Db) → Result Db
left_or (ok (r, db)) f = ok db
left_or (err e) f = f e

abbrev token_or : Option ℕ → ℕ → Option ℕ
token_or none fencing_token = some fencing_token
token_or (some n) fencing_token = if ltb 0 n then some n else some fencing_token

module _ (between : Db → Db) (error_of : Error → ErrorContract) (now : ℕ) (stamps : Stamps)
    (run_id : String) (fencing_token : ℕ) (durable : Bool) where
  -- `except Exception`
  unfoldable pub fail : CancellationToken → ErrorContract → Db → Result Db
  fail t e db =
      left_or
        (fail_run now stamps run_id none (some (content_or t e.message)) (some e)
          (some fencing_token) (truthy (partial_content t)) db)
        (λ x. err x)

  -- an exception of the body that a transaction raised
  abbrev pub recover : CancellationToken → Db → Error → Result Db
  recover t db e = fail t (error_of e) (between db)

  -- `outcome.kind == "waiting_input"`: the run must be at a pause that is durable
  abbrev pub check_pause :
      CancellationToken → ErrorContract → Db → Result (RunRecord × Db) → Result Db
  check_pause t runtime_error db (err e) = recover t db e
  check_pause t runtime_error db (ok (current, db')) =
      if is_in current.status (waiting_input ∷ pending ∷ running ∷ []) && durable
      then ok db
      else fail t runtime_error (between db)

  -- `except asyncio.CancelledError`
  unfoldable pub settle_cancelled : CancellationToken → Option Reason → Db → Result Db
  settle_cancelled t (some ownership_lost) db = ok db
  settle_cancelled t (some user) db =
      left_or
        (finalize now stamps run_id cancelled
          (record user_cancels { content = content_or t cancelled_public_error.message })
          (some fencing_token) none db)
        (λ e. ignore_conflict run_id e (between db))
  settle_cancelled t reason db =
      left_or
        (fail_run now stamps run_id none (some (content_or t interrupted_error.message))
          (some interrupted_error) (some fencing_token) (truthy (partial_content t)) db)
        (λ e. ignore_conflict run_id e (between db))

  -- the end of `execute`, by how its body ended
  unfoldable pub settle : ErrorContract → CancellationToken → RunnerEnd → Db → Result Db
  settle runtime_error t (returned (completed content rag_trace token)) db =
      left_or
        (complete_run now stamps run_id content (token_or token fencing_token) (pos 0) (pos 0)
          (pos 0) rag_trace db)
        (recover t db)
  settle runtime_error t (returned waits_for_input) db =
      check_pause t runtime_error db (get_internal run_id db)
  settle runtime_error t interrupted db = settle_cancelled t t.reason db
  settle runtime_error t (failed_with e) db = fail t e db

  -- `execute`
  unfoldable pub execute :
      ErrorContract → CancellationToken → CancellationToken → RunnerEnd → Db → Result Db
  execute runtime_error before after e =
      settle runtime_error (if before.event then before else after) (body_end before after e)
