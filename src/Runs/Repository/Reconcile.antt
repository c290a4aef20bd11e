-- ===== src/Runs/Repository/Reconcile.antt =====
-- `RunRepository.reconcile_orphans`: the runs whose lease has run out are failed, one by one.
use super_mew.Prelude.{
  ℕ, suc, pos, String, Option, none, some, Bool, true, ◌&&◌, List, [], ◌∷◌, select,
}
use super_mew.Errors.{Error, Result, ok, err, app}
use super_mew.Runs.State.{running, cancelling, failed, is_in}
use super_mew.Db.Rows.{Run}
use super_mew.Db.Session.{Db, Tx}
use super_mew.Runs.Repository.Record.{RunRecord}
use super_mew.Runs.Repository.Finalize.{Ending, Stamps, lease_is_over, finalize}

-- what a run that has lost its worker is ended with
abbrev pub orphan_ending : Ending
orphan_ending = record {
  content = "运行所属 worker 已失联，任务未完成。";
  error_code = some "ORPHAN_RUN";
  error_detail_redacted = some (record {
    code = "ORPHAN_RUN";
    message = "运行所属 worker 已失联，任务未完成。";
    retryable = true;
    category = some "run";
    stage = some "ownership";
    provider = none;
    retry_after = none;
  });
  input_tokens = pos 0;
  output_tokens = pos 0;
  cost = pos 0;
  rag_trace = none;
  partial = true;
}

-- the rows of the query for candidates
abbrev pub is_orphan : ℕ → Run → Bool
is_orphan limit r =
    is_in r.status (running ∷ cancelling ∷ []) && lease_is_over r.lease_expires_at limit

-- what a turn of the loop takes from outside: the clock of `finalize` and the stamps of its events
pub record Turn : Type 0 where
  pub now : ℕ
  pub stamps : Stamps

unfoldable pub fail_orphan : ℕ → Turn → String → ℕ → Tx RunRecord
fail_orphan limit turn run_id token =
    finalize turn.now turn.stamps run_id failed orphan_ending (some token) (some limit)

-- what the loop leaves: the runs recovered, the tables, and the error that stopped it, if any
pub record Sweep : Type 0 where
  pub recovered : List String
  pub db : Db
  pub stopped : Option Error

abbrev recover : String → Sweep → Sweep
recover run_id s = record s { recovered = run_id ∷ s.recovered }

-- the end of one turn: an `AppError` is passed over, and any other error stops the loop
abbrev pub next_turn : (Db → Sweep) → Run → Db → Result (RunRecord × Db) → Sweep
next_turn rest r db (ok (_, db')) = recover r.id (rest db')
next_turn rest r db (err (app _)) = rest db
next_turn rest r db (err e) = record { recovered = []; db = db; stopped = some e }

-- the loop over the candidates, from the turn of a number on
unfoldable pub sweep : ℕ → (ℕ → Turn) → ℕ → List Run → Db → Sweep
sweep limit turns i [] db = record { recovered = []; db = db; stopped = none }
sweep limit turns i (r ∷ rs) db =
    next_turn (sweep limit turns (suc i) rs) r db
      (fail_orphan limit (turns i) r.id r.fencing_token db)

unfoldable pub reconcile_orphans : ℕ → (ℕ → Turn) → Db → Sweep
reconcile_orphans limit turns db = sweep limit turns 0 (select (is_orphan limit) db.runs) db
