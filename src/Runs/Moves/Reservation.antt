-- ===== src/Runs/Moves/Reservation.antt =====
-- `reserve` moves the tables only as `Evolves` allows.
use super_mew.Prelude.{
  ℕ, ◌≤◌, String, Option, none, some, Bool, true, false, ◌⊎◌, inl, inr, ◌||◌, ◌≡◌, refl, sym, ap,
  ◌∙◌, subst, arith, exists?, find?, eq_refl, str_eq, [], ◌∷◌, ◌++◌,
}
use super_mew.Errors.{
  Result, ok, err, app, value_error, attribute_error, no_result_found, integrity_error,
}
use super_mew.Runs.State.{
  RunStatus, MultitaskStrategy, reject, enqueue, cancel_previous, is_terminal,
}
use super_mew.Db.Rows.{Run, RunRequest, Thread, Message}
use super_mew.Db.Session.{
  Db, Tx, ◌>>=◌, query_run, has_id, clashes, insert_run, insert_message, insert_thread, save_thread,
}
use super_mew.Db.Session.Runs.{query-append}
use super_mew.Db.Session.Ensures.{
  Ensures, Ensures-pure, Ensures-raise, Ensures-if, Ensures-bind, bind-found, bind-guard, bind-gets,
  bind-write_unless,
}
use super_mew.Runs.Repository.Record.{Settings}
use super_mew.Runs.Repository.Reserve.{
  HashInput, ModelSnapshot, Request, Fresh, RunReservation, Checked, untitled, get_or_create,
  initial, new_run, create_run, reserve_run, reserve_in_transaction, recovered, settle,
  catch_integrity, check, reserve,
}
use super_mew.Runs.Evolution.{moves_to, Evolves, stay, after, beside, open_run}
use super_mew.Runs.Evolution.Rules.{Progress, bind-append, bind-save_thread}
use super_mew.Runs.Moves.Ownership.{Moves}

or-false : (a b : Bool) → (a || b) ≡ false → (a ≡ false) × (b ≡ false)
or-false a b h = ground arith

can_stay : (s : RunStatus) → moves_to s s ≡ true
unfolding moves_to
can_stay s = ground arith

-- a run just inserted is held, with its message keys and its token
inserted :
    (start db : Db) (r r' : Run)
    → Evolves start db
    → (exists? (has_id r.id) db.runs || exists? (clashes r) db.runs) ≡ false
    → r.last_event_sequence ≡ 0
    → r'.request ≡ r.request
    → r'.status ≡ r.status
    → r.fencing_token ≤ r'.fencing_token
    → r'.last_event_sequence ≡ 0
    → is_terminal r.status ≡ false
    → Progress start r' (record db { runs = db.runs ++ r ∷ [] })
unfolding query_run
inserted start db r r' path c z e s f n alive =
    let (fresh, free) = or-false _ _ c in
    record {
      path = after path (open_run r fresh free z);
      held = record {
        row = r;
        stored =
            subst (λ i. find? (has_id i) (db.runs ++ r ∷ []) ≡ some r)
              (sym (ap (λ (p : RunRequest). p.id) e))
              (query-append r.id r db.runs fresh ∙ rw (eq_refl r.id));
        step = record {
          request = e;
          status = rw s (can_stay r.status);
          fencing = f;
          frozen = λ h. cc (alive, h);
        };
        unnumbered = n ∙ sym z;
      };
    }

module _ {κ} {B : Type 0} {R : B → Db → Type κ} where
  bind-insert_message :
      (m : Message) (f : Unit {0} → Tx B) {start : Db} (run : Run) (db : Db)
      → Progress start run db
      → ((db' : Db) → Progress start run db' → Ensures R (f tt) db')
      → Ensures R (insert_message m >>= f) db
  unfolding insert_message query_run
  bind-insert_message m f run db p k = bind-write_unless _ _ f db λ _. k _ (record {
    path = after p.path (beside db.threads _);
    held = record {
      row = p.held.row;
      stored = p.held.stored;
      step = p.held.step;
      unnumbered = p.held.unnumbered;
    };
  })

get_or_create-Moves :
    (fresh : Fresh) (now user_id : ℕ) (request : Request) (o : Option Thread) (db : Db)
    → Moves db (get_or_create fresh now user_id request o) db
unfolding get_or_create save_thread insert_thread
get_or_create-Moves fresh now user_id request (some thread) db =
    Ensures-if (untitled thread request.title) _ _ db
      (λ _. bind-write_unless _ _ _ db λ _. Ensures-pure _ _ (beside _ db.messages))
      λ _. Ensures-pure thread db stay
get_or_create-Moves fresh now user_id request none db =
    Ensures-if request.allow_implicit_thread _ _ db
      (λ _. bind-write_unless _ _ _ db λ _. Ensures-pure _ _ (beside _ db.messages))
      λ _. Ensures-raise _ db

create_run-Moves :
    (fresh : Fresh) (now : ℕ) (checked : Checked) (user_id : ℕ) (thread : Thread)
    (status : RunStatus) (supersedes : Option String) {start : Db} (db : Db)
    → Evolves start db
    → is_terminal status ≡ false
    → Moves start (create_run fresh now checked user_id thread status supersedes) db
unfolding create_run insert_run
create_run-Moves fresh now checked user_id thread status supersedes {start} db path alive =
    bind-write_unless _ _ _ db λ c.
      bind-insert_message _ _ _ _
        (inserted start db (new_run fresh now checked user_id thread status supersedes) _ path c
          refl refl refl (omega arith) refl alive)
        λ db1 p1. bind-insert_message _ _ _ db1 p1 λ db2 p2.
          bind-save_thread _ _ _ db2 p2
            λ db3 p3. bind-append _ _ _ _ _ _ db3 p3 λ a db4 p4. Ensures-pure _ db4 p4.path

-- a new run is pending or queued
initial-alive :
    (strategy : MultitaskStrategy) (o : Option Run) (db : Db)
    → Ensures
        (λ (p : RunStatus × Option String) db'. (db' ≡ db) × (is_terminal p.0 ≡ false))
        (initial strategy o)
        db
unfolding initial
initial-alive strategy none db = Ensures-pure _ db (refl, refl)
initial-alive reject (some r) db = Ensures-raise _ db
initial-alive enqueue (some r) db = Ensures-pure _ db (refl, refl)
initial-alive cancel_previous (some r) db = Ensures-pure _ db (refl, refl)

reserve_run-Moves :
    (fresh : Fresh) (now : ℕ) (checked : Checked) (user_id : ℕ) (thread : Thread) (o : Option Run)
    {start : Db} (db : Db)
    → Evolves start db
    → Moves start (reserve_run fresh now checked user_id thread o) db
unfolding reserve_run
reserve_run-Moves fresh now checked user_id thread (some r) db path =
    Ensures-if (str_eq r.request_hash checked.hash) _ _ db (λ _. Ensures-pure _ db path)
      λ _. Ensures-raise _ db
reserve_run-Moves fresh now checked user_id thread none db path = bind-guard _ _ _ db λ _.
    bind-gets _ _ db (
      Ensures-bind _ _ db (initial-alive checked.strategy _ db)
        λ (status, supersedes) db' (e, alive).
          rw e (create_run-Moves fresh now checked user_id thread status supersedes db path alive))

reserve_in_transaction-Moves :
    (fresh : Fresh) (now : ℕ) (checked : Checked) (db : Db)
    → Moves db (reserve_in_transaction fresh now checked) db
unfolding reserve_in_transaction
reserve_in_transaction-Moves fresh now checked db = bind-found _ _ _ db λ user _. bind-gets _ _ db (
    Ensures-bind _ _ db (get_or_create-Moves fresh now user.id checked.request _ db)
      λ thread db' path.
        bind-gets _ _ db' (reserve_run-Moves fresh now checked user.id thread _ db' path))

recovered-Moves :
    (checked : Checked) (o : Option RunReservation) (db : Db) → Moves db (recovered checked o) db
unfolding recovered
recovered-Moves checked none db = Ensures-raise _ db
recovered-Moves checked (some r) db =
    Ensures-if (str_eq r.run.request_hash checked.hash) _ _ db (λ _. Ensures-pure r db stay)
      λ _. Ensures-raise _ db

settle-cases {ℓ} :
    {A : Type ℓ} (x y : Result A) {a : A} → settle x y ≡ ok a → (x ≡ ok a) ⊎ (y ≡ ok a)
settle-cases (ok r) y e = inl e
settle-cases (err integrity_error) y e = inr e
settle-cases (err value_error) y e = cc
settle-cases (err attribute_error) y e = cc
settle-cases (err no_result_found) y e = cc
settle-cases (err (app c)) y e = cc

catch-Moves {ℓ} :
    {A : Type ℓ} (m handler : Tx A) (db : Db)
    → Moves db m db
    → Moves db handler db
    → Moves db (catch_integrity m handler) db
unfolding catch_integrity
catch-Moves m handler db h k = record {
  at = λ a db' e. elim (settle-cases (m db) (handler db) e) [
    | inl p ↦ h.at a db' p
    | inr p ↦ k.at a db' p
  ];
}

module _ (digest : HashInput → String) (empty : ModelSnapshot) where
  check-keeps :
      (settings : Settings) (request : Request) (db : Db)
      → Ensures (λ (c : Checked) db'. db' ≡ db) (check digest empty settings request) db
  unfolding check
  check-keeps settings request db = bind-found _ _ _ db λ _ _. bind-found _ _ _ db λ _ _.
      bind-found _ _ _ db
        λ _ _. bind-found _ _ _ db λ _ _. bind-found _ _ _ db λ _ _. Ensures-pure _ db refl

  pub reserve-Moves :
      (settings : Settings) (fresh : Fresh) (now : ℕ) (request : Request) (db : Db)
      → Moves db (reserve digest empty settings fresh now request) db
  unfolding reserve
  reserve-Moves settings fresh now request db =
      Ensures-bind _ _ db (check-keeps settings request db) λ checked db' e. rw e (
        catch-Moves _ _ db (reserve_in_transaction-Moves fresh now checked db)
          (bind-gets _ _ db (recovered-Moves checked _ db)))
