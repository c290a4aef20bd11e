-- ===== src/Runs/System.antt =====
-- The run subsystem as a whole: any number of clients and workers send it transactions, which the
-- row locks put in an order. An order is a list of operations, and an operation that raises
-- leaves the tables as they were.
pub mod History
pub mod Deletions
pub mod Removals
pub mod Fencing
pub mod Endings
pub mod Outcome
pub mod Leases
pub mod Orphans
pub mod Single
pub mod Idempotency
use super_mew.Prelude.{ℕ, String, Option, List, [], ◌∷◌}
use super_mew.Errors.{Result, ok, err}
use super_mew.Runs.State.{RunStatus}
use super_mew.Events.Contracts.{RunEventType, EventData}
use super_mew.Db.Session.{Db, Tx}
use super_mew.Events.Journal
use super_mew.Events.Journal.{Stamp}
use super_mew.Runs.Repository.Record.{Settings}
use super_mew.Runs.Repository.Claim
use super_mew.Runs.Repository.Hold
use super_mew.Runs.Repository.Finalize
use super_mew.Runs.Repository.Finalize.{Stamps, Ending}
use super_mew.Runs.Repository.Reserve
use super_mew.Runs.Repository.Reserve.{HashInput, ModelSnapshot, Fresh, Request}
use super_mew.Runs.Repository.Skill

-- what the subsystem is configured with
pub record Config : Type 0 where
  pub digest : HashInput → String
  pub empty : ModelSnapshot
  pub settings : Settings

-- the transactions, with their arguments in the order of their functions
pub data Op : Type 0 where
  reserve : Fresh → ℕ → Request → Op
  claim : ℕ → Stamp → String → String → Option ℕ → Op
  heartbeat : ℕ → String → String → ℕ → Option ℕ → Op
  set_waiting_input : ℕ → Stamp → String → String → ℕ → Op
  mark_cancelling : Stamp → String → String → Op
  finalize : ℕ → Stamps → String → RunStatus → Ending → Option ℕ → Option ℕ → Op
  pin_skill_activation : String → String → ℕ → String → String → String → String → Op
  append : Stamp → String → RunEventType → EventData → Option String → Option ℕ → Op

-- the tables after a transaction
abbrev pub left_by {ℓ} : {A : Type ℓ} → Tx A → Db → Db
left_by m db = elim (m db) [ ok (a, db') ↦ db' | err e ↦ db ]

unfoldable pub perform : Config → Op → Db → Db
perform c (reserve fresh now request) =
    left_by (Reserve.reserve c.digest c.empty c.settings fresh now request)
perform c (claim now stamp run_id worker_id lease) =
    left_by (Claim.claim c.settings now stamp run_id worker_id lease)
perform c (heartbeat now run_id worker_id token lease) =
    left_by (Hold.heartbeat c.settings now run_id worker_id token lease)
perform c (set_waiting_input now stamp run_id worker_id token) =
    left_by (Hold.set_waiting_input now stamp run_id worker_id token)
perform c (mark_cancelling stamp username run_id) =
    left_by (Hold.mark_cancelling stamp username run_id)
perform c (finalize now stamps run_id target ending token expired) =
    left_by (Finalize.finalize now stamps run_id target ending token expired)
perform c (pin_skill_activation run_id worker_id token name version content_hash source) =
    left_by (Skill.pin_skill_activation run_id worker_id token name version content_hash source)
perform c (append stamp run_id ty d worker_id token) =
    left_by (Journal.append stamp run_id ty d worker_id token)

unfoldable pub perform_all : Config → List Op → Db → Db
perform_all c [] db = db
perform_all c (op ∷ ops) db = perform_all c ops (perform c op db)
