-- ===== src/Runs/Moves/Ownership.antt =====
-- `claim`, `heartbeat`, `set_waiting_input`, `mark_cancelling` and `RunEventJournal.append` move
-- the tables only as `Evolves` allows.
use super_mew.Prelude.{
  ℕ, String, Option, none, some, Bool, true, false, is_text, ◌&&◌, ◌||◌, ◌≡◌, refl, arith,
}
use super_mew.Runs.State.{
  RunStatus, pending, running, waiting_input, cancelling, failed, same_status, is_terminal,
  can_transition,
}
use super_mew.Events.Contracts.{RunEventType, EventData, MessageStatus}
use super_mew.Db.Rows.{Run, Message}
use super_mew.Db.Session.{Db, Tx, ◌>>=◌, query_run}
use super_mew.Db.Session.Ensures.{
  Ensures, Ensures-pure, Ensures-raise, Ensures-if, Ensures-bind, Ensures-mono, bind-found,
  bind-guard, bind-gets, bind-pure,
}
use super_mew.Events.Journal.{Stamp, load_run, load_thread, append}
use super_mew.Runs.Repository.Record.{Settings, assert_fencing}
use super_mew.Runs.Repository.Claim.{
  is_leased, is_unexpired, return_record, take_over, claim_run, claim,
}
use super_mew.Runs.Repository.Hold.{
  heartbeat, set_message_status, set_waiting_input, load_owned, cancel_run, mark_cancelling,
}
use super_mew.Runs.Repository.Skill.{is_pinned, same_pin, pin_run, pin_skill_activation}
use super_mew.Runs.Evolution.{moves_to, Evolves, stay}
use super_mew.Runs.Evolution.Rules.{
  Progress, loaded, edited, Ensures-append, bind-transition, bind-save_message, bind-save_run,
  bind-append,
}

-- the tables after `m`, if it returns, have evolved from `start`
abbrev pub Moves {ℓ} : {A : Type ℓ} → Db → Tx A → Db → Type ℓ
Moves start m db = Ensures (λ _ db'. Evolves start db') m db

pub return_record-Moves :
    (run : Run) {start : Db} (db : Db) → Evolves start db → Moves start (return_record run) db
unfolding return_record load_thread
return_record-Moves run db h = bind-found _ _ _ db λ thread _. Ensures-pure _ db h

-- only a run that is not terminal can wait for input
waits_alive :
    (run : Run) → can_transition run.status waiting_input ≡ true → is_terminal run.status ≡ false
unfolding can_transition
waits_alive run t = ground arith

pub not_failing :
    (s t : RunStatus)
    → same_status t failed ≡ false
    → can_transition s t ≡ true
    → moves_to s t ≡ true
unfolding moves_to
not_failing s t n h = ground arith

stays : (s : RunStatus) → moves_to s s ≡ true
unfolding moves_to
stays s = ground arith

and-left : (a b : Bool) → (a && b) ≡ true → a ≡ true
and-left a b h = ground arith

pub running_alive : (s : RunStatus) → same_status s running ≡ true → is_terminal s ≡ false
running_alive s h = ground arith

pub pending_alive : (s : RunStatus) → same_status s pending ≡ true → is_terminal s ≡ false
pending_alive s h = ground arith

open_alive : (s t : RunStatus) → (is_terminal s || same_status s t) ≡ false → is_terminal s ≡ false
open_alive s t h = ground arith

take_over-Moves :
    (now lease : ℕ) (stamp : Stamp) (worker_id k : String) (run : Run) (db : Db)
    → query_run k db ≡ some run
    → is_terminal run.status ≡ false
    → Moves db (take_over now lease stamp worker_id run) db
unfolding take_over load_thread
take_over-Moves now lease stamp worker_id k run db q alive = bind-transition run running _ db λ t.
    bind-found _ _ _ db λ thread _.
      bind-append stamp _ _ _ _ _ db
        (edited k db run _ q alive refl (not_failing run.status running refl t) (omega arith) refl)
        λ a db' p. Ensures-pure _ db' p.path

claim_run-Moves :
    (now lease : ℕ) (stamp : Stamp) (worker_id k : String) (run : Run) (db : Db)
    → query_run k db ≡ some run
    → Moves db (claim_run now lease stamp worker_id run) db
unfolding claim_run
claim_run-Moves now lease stamp worker_id k run db q =
    Ensures-if (same_status run.status running) _ _ db
      (λ r.
        Ensures-if (is_text run.owner_worker_id worker_id && is_unexpired run.lease_expires_at now)
          _ _ db (λ _. return_record-Moves run db stay)
          λ _.
            Ensures-if (is_leased run.lease_expires_at now) _ _ db (λ _. Ensures-raise _ db)
              λ _.
                take_over-Moves now lease stamp worker_id k run db q (running_alive run.status r))
      λ _.
        Ensures-if (same_status run.status pending) _ _ db
          (λ w. take_over-Moves now lease stamp worker_id k run db q (pending_alive run.status w))
          λ _. Ensures-raise _ db

pub claim-Moves :
    (settings : Settings) (now : ℕ) (stamp : Stamp) (run_id worker_id : String)
    (lease_seconds : Option ℕ) (db : Db)
    → Moves db (claim settings now stamp run_id worker_id lease_seconds) db
unfolding claim load_run
claim-Moves settings now stamp run_id worker_id lease_seconds db =
    bind-found _ _ _ db λ run q. claim_run-Moves now _ stamp worker_id run_id run db q

pub heartbeat-Moves :
    (settings : Settings) (now : ℕ) (run_id worker_id : String) (fencing_token : ℕ)
    (lease_seconds : Option ℕ) (db : Db)
    → Moves db (heartbeat settings now run_id worker_id fencing_token lease_seconds) db
unfolding heartbeat load_run assert_fencing can_transition
heartbeat-Moves settings now run_id worker_id fencing_token lease_seconds db =
    bind-found _ _ _ db λ run q. bind-guard _ _ _ db λ _. bind-guard _ _ _ db λ b.
      bind-save_run _ _ db
        (edited run_id db run _ q (ground arith) refl (stays run.status) (omega arith) refl)
        λ db' p. return_record-Moves _ db' p.path

module _ {κ} {B : Type 0} {R : B → Db → Type κ} where
  pub bind-set_message_status :
      (o : Option Message) (status : MessageStatus) (at : ℕ) (f : Unit {0} → Tx B) {start : Db}
      (run : Run) (db : Db)
      → Progress start run db
      → ((db' : Db) → Progress start run db' → Ensures R (f tt) db')
      → Ensures R (set_message_status o status at >>= f) db
  unfolding set_message_status
  bind-set_message_status none status at f run db p k = bind-pure tt f db (k db p)
  bind-set_message_status (some m) status at f run db p k = bind-save_message _ f run db p k

pub set_waiting_input-Moves :
    (now : ℕ) (stamp : Stamp) (run_id worker_id : String) (fencing_token : ℕ) (db : Db)
    → Moves db (set_waiting_input now stamp run_id worker_id fencing_token) db
unfolding set_waiting_input load_run load_thread assert_fencing
set_waiting_input-Moves now stamp run_id worker_id fencing_token db = bind-found _ _ _ db λ run q.
    bind-guard _ _ _ db λ _. bind-guard _ _ _ db λ _. bind-transition run waiting_input _ db λ t.
      bind-found _ _ _ db λ thread _. bind-gets _ _ db (
        bind-set_message_status _ _ now _ _ db
          (edited run_id db run _ q (waits_alive run t) refl
            (not_failing run.status waiting_input refl t) (omega arith) refl)
          λ db' p. bind-append stamp _ _ _ _ _ db' p λ a db2 p'. Ensures-pure _ db2 p'.path)

cancel_run-Moves :
    (stamp : Stamp) (k : String) (run : Run) (db : Db)
    → query_run k db ≡ some run
    → Moves db (cancel_run stamp run) db
unfolding cancel_run load_thread
cancel_run-Moves stamp k run db q =
    Ensures-if _ _ _ db (λ _. return_record-Moves run db stay)
      λ n. bind-transition run cancelling _ db λ t. bind-found _ _ _ db λ thread _.
        bind-append stamp _ _ _ _ _ db
          (edited k db run _ q (open_alive run.status cancelling n) refl
            (not_failing run.status cancelling refl t) (omega arith) refl)
          λ a db' p. Ensures-pure _ db' p.path

pub mark_cancelling-Moves :
    (stamp : Stamp) (username run_id : String) (db : Db)
    → Moves db (mark_cancelling stamp username run_id) db
unfolding mark_cancelling load_owned load_run
mark_cancelling-Moves stamp username run_id db =
    Ensures-bind {Q = λ run db'. (db' ≡ db) × (query_run run_id db ≡ some run)} _ _ db
      (bind-found _ _ _ db
        λ run q. bind-gets _ _ db (bind-guard _ _ _ db λ _. Ensures-pure run db (refl, q)))
      λ run db' (e, q).
        rw e (bind-found _ _ _ db λ thread _. cancel_run-Moves stamp run_id run db q)

pub append-Moves :
    (stamp : Stamp) (run_id : String) (ty : RunEventType) (d : EventData)
    (worker_id : Option String) (fencing_token : Option ℕ) (db : Db)
    → Moves db (append stamp run_id ty d worker_id fencing_token) db
unfolding append load_run load_thread
append-Moves stamp run_id ty d worker_id fencing_token db = bind-found _ _ _ db λ run q.
    bind-guard _ _ _ db λ _. bind-found _ _ _ db λ thread _.
      Ensures-mono (Ensures-append stamp run _ ty d db (loaded run_id db q)) λ a db' p. p.1.path

pin_run-Moves :
    (k : String) (run : Run) (name version content_hash source : String) (db : Db)
    → query_run k db ≡ some run
    → is_terminal run.status ≡ false
    → Moves db (pin_run run name version content_hash source) db
unfolding pin_run
pin_run-Moves k run name version content_hash source db q alive =
    Ensures-if (is_pinned run.skill) _ _ db
      (λ _.
        Ensures-if (same_pin run.skill name version content_hash source) _ _ db
          (λ _. return_record-Moves run db stay) λ _. Ensures-raise _ db)
      λ _.
        bind-save_run _ _ db (edited k db run _ q alive refl (stays run.status) (omega arith) refl)
          λ db' p. return_record-Moves _ db' p.path

pub pin_skill_activation-Moves :
    (run_id worker_id : String) (fencing_token : ℕ) (name version content_hash source : String)
    (db : Db)
    → Moves db
        (pin_skill_activation run_id worker_id fencing_token name version content_hash source)
        db
unfolding pin_skill_activation load_run assert_fencing
pin_skill_activation-Moves run_id worker_id fencing_token name version content_hash source db =
    bind-found _ _ _ db λ run q. bind-guard _ _ _ db λ _. bind-guard _ _ _ db λ held.
      pin_run-Moves run_id run name version content_hash source db q
        (running_alive run.status (and-left (same_status run.status running) _ held))
