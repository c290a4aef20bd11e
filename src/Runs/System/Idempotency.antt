-- ===== src/Runs/System/Idempotency.antt =====
-- A key of a thread names one run for good.
use mathlib.Core.Option.{some-injective}
use super_mew.Prelude.{
  ℕ, String, some, Bool, true, false, List, [], ◌∷◌, ◌++◌, ◌≡◌, refl, sym, ap, subst, ◌∙◌, arith,
  str_eq, eq_iff, ◌≢◌, none, ◌==◌, ◌&&◌, inl, inr, ◌⊎◌, Bool-cases, find?, replace, if◌then◌else◌,
}
use super_mew.Errors.{Result, ok, err, app, idempotency_conflict}
use super_mew.Db.Rows.{User, Thread, Run, RunRequest}
use super_mew.Db.Session.{Db, ◌>>=◌, gets, has_id, query_run}
use super_mew.Db.Session.Runs.{Keyed}
use super_mew.Runs.Repository.Record.{record_of}
use super_mew.Runs.Repository.Reserve.{
  Request, Fresh, Checked, RunReservation, repeated, untitled, names_user, names_thread, same_key,
  query_existing, get_or_create, reserve_run, reserve_in_transaction, catch_integrity, settle,
  load_reservation, recovered, check, reserve,
}
use super_mew.Runs.Evolution.{Evolves, stay, after, write, log, beside, open_run}
use super_mew.Runs.System.{Config, Op, perform_all}
use super_mew.Runs.System.History.{perform_all-Evolves}

-- a test that reads the request of a run alone
abbrev OnRequest : (Run → Bool) → Type 0
OnRequest p = (r s : Run) → r.request ≡ s.request → p r ≡ p s

abbrev Found : (Run → Bool) → Run → List Run → Type 0
Found p r rs = (r' : Run) × (find? p rs ≡ some r') × (r'.request ≡ r.request)

find-append :
    (p : Run → Bool) (rs : List Run) (x : Run) {r : Run}
    → find? p rs ≡ some r
    → find? p (rs ++ x ∷ []) ≡ some r
unfolding find?
find-append p [] x h = cc
find-append p (y ∷ rs) x {r} h = ground (arith, find-append p rs x {r = r})

-- an UPDATE that keeps the request of the row changes no query of requests
find-replace :
    (p : Run → Bool) (rs : List Run) (s s' : Run) {r : Run}
    → OnRequest p
    → find? (has_id s'.id) rs ≡ some s
    → s'.request ≡ s.request
    → find? p rs ≡ some r
    → Found p r (replace (has_id s'.id) s' rs)
unfolding find? replace
find-replace p [] s s' on q e h = cc
find-replace p (x ∷ rs) s s' {r} on q e h =
    go (λ q' h'. find-replace p rs s s' on q' e h') (Bool-cases (has_id s'.id x)) (Bool-cases (p x))
  where
    go :
        (find? (has_id s'.id) rs ≡ some s
          → find? p rs ≡ some r
          → Found p r (replace (has_id s'.id) s' rs))
        → (has_id s'.id x ≡ true) ⊎ (has_id s'.id x ≡ false)
        → (p x ≡ true) ⊎ (p x ≡ false)
        → Found p r (replace (has_id s'.id) s' (x ∷ rs))
    go later (inl a) (inl b) =
        let here = some-injective _ _ (rw a at q) in
        let asked = on s' x (e ∙ ap (λ (r : Run). r.request) (sym here)) ∙ b in
        let found = some-injective _ _ (rw b at h) in
        rw a (
          s',
          rw asked refl,
          e ∙ ap (λ (r : Run). r.request) (sym here) ∙ ap (λ (r : Run). r.request) found,
        )
    go later (inl a) (inr b) =
        let here = some-injective _ _ (rw a at q) in
        let asked = on s' x (e ∙ ap (λ (r : Run). r.request) (sym here)) ∙ b in
        rw a (r, rw asked (rw b at h), refl)
    go later (inr a) (inl b) =
        let found = some-injective _ _ (rw b at h) in
        rw a (x, rw b refl, ap (λ (r : Run). r.request) found)
    go later (inr a) (inr b) =
        let (r', h', d) = later (rw a at q) (rw b at h) in rw a (r', rw b h', d)

Evolves-Found :
    (p : Run → Bool)
    → OnRequest p
    → {a b : Db} {r : Run} → Evolves a b
    → find? p a.runs ≡ some r
    → Found p r b.runs
unfolding query_run
Evolves-Found p on {r = r} stay h = (r, h, refl)
Evolves-Found p on (after e f) h =
    let (s, hs, d) = Evolves-Found p on e h in
    let (t, ht, d') = Evolves-Found p on f hs in (t, ht, d' ∙ d)
Evolves-Found p on (write {db} s s' q step n _) h =
    find-replace p db.runs s s' on
      (subst (λ (i : RunRequest). find? (has_id i.id) db.runs ≡ some s) (sym step.request) q)
      step.request h
Evolves-Found p on (log {db} s s' _ _ q step n _ _ _ _) h =
    find-replace p db.runs s s' on
      (subst (λ (i : RunRequest). find? (has_id i.id) db.runs ≡ some s) (sym step.request) q)
      step.request h
Evolves-Found p on {r = r} (beside _ _) h = (r, h, refl)
Evolves-Found p on {r = r} (open_run {db} s fresh _ _) h = (r, find-append p db.runs s h, refl)

same_key-OnRequest : (user thread : ℕ) (key : String) → OnRequest (same_key user thread key)
same_key-OnRequest user thread key r s e =
    ap
      (λ (q : RunRequest).
        q.user_id == user && q.thread_ref_id == thread && str_eq q.idempotency_key key)
      e

-- what `reserve` answers to a key that has its run
abbrev repeats : Run → Checked → Thread → Db → Result (RunReservation × Db)
repeats r checked thread db =
    if str_eq r.request_hash checked.hash
    then ok (repeated r checked.request.thread_id thread, db)
    else err (app idempotency_conflict)

-- the handler of an `IntegrityError` has nothing to settle there
settle-repeats :
    (r : Run) (checked : Checked) (thread : Thread) (db : Db)
    (handled : Result (RunReservation × Db))
    → settle (repeats r checked thread db) handled ≡ repeats r checked thread db
settle-repeats r checked thread db handled = go (str_eq r.request_hash checked.hash)
  where
    go :
        (b : Bool)
        → settle
            (if b
              then ok (repeated r checked.request.thread_id thread, db)
              else err (app idempotency_conflict))
            handled
          ≡ (if b
              then ok (repeated r checked.request.thread_id thread, db)
              else err (app idempotency_conflict))
    go true = refl
    go false = refl

module _ (db : Db) (fresh : Fresh) (now : ℕ) (checked : Checked) (user : User) (thread : Thread)
    (r : Run) where
  module _ (held : find? (same_key user.id thread.id checked.key) db.runs ≡ some r)
      (named : find? (names_user checked.request.username) db.users ≡ some user)
      (placed : find? (names_thread user.id checked.request.thread_id) db.threads ≡ some thread)
      (titled : untitled thread checked.request.title ≡ false) where
    transaction_repeats : reserve_in_transaction fresh now checked db ≡ repeats r checked thread db
    unfolding reserve_in_transaction get_or_create query_existing reserve_run ◌>>=◌
    transaction_repeats = ground arith

    existing_repeats :
        (c : Config) (request : Request)
        → check c.digest c.empty c.settings request db ≡ ok (checked, db)
        → reserve c.digest c.empty c.settings fresh now request db ≡ repeats r checked thread db
    unfolding reserve catch_integrity ◌>>=◌
    existing_repeats c request passes = rw passes (
        ap (λ x. settle x ((gets (load_reservation checked) >>= recovered checked) db))
          transaction_repeats
        ∙ settle-repeats r checked thread db _)

-- Once a key of a user's thread has a run, among runs of different ids, then after any further
-- of the eight transactions of runs a request under that key, that passes the checks and finds its user and its
-- thread with a title or brings none, writes nothing: the key still names a run of the same
-- request, and if the hash is that of its request the reservation holds the record of that run
-- as it then stands, the version of the thread, and neither a new run nor an event, and if not
-- IDEMPOTENCY_CONFLICT is raised.
pub reserve-repeats :
    (c : Config) (ops : List Op) (db : Db) (fresh : Fresh) (now : ℕ) (request : Request)
    (checked : Checked) (user : User) (thread : Thread) (r : Run)
    → Keyed db.runs
    → query_existing user.id thread.id checked.key db ≡ some r
    → check c.digest c.empty c.settings request (perform_all c ops db)
      ≡ ok (checked, perform_all c ops db)
    → find? (names_user checked.request.username) (perform_all c ops db).users ≡ some user
    → find? (names_thread user.id checked.request.thread_id) (perform_all c ops db).threads
      ≡ some thread
    → untitled thread checked.request.title ≡ false
    → (r' : Run) × (r'.request ≡ r.request)
      × (query_existing user.id thread.id checked.key (perform_all c ops db) ≡ some r')
      × (((r.request_hash ≡ checked.hash)
            × (reserve c.digest c.empty c.settings fresh now request (perform_all c ops db)
                ≡ ok (
                  record {
                    run = record_of r' checked.request.thread_id;
                    created = false;
                    thread_version = thread.version;
                    created_event = none;
                  },
                  perform_all c ops db,
                )))
          ⊎ ((r.request_hash ≢ checked.hash)
              × (reserve c.digest c.empty c.settings fresh now request (perform_all c ops db)
                  ≡ err (app idempotency_conflict))))
unfolding query_existing
reserve-repeats c ops db fresh now request checked user thread r keyed held passes named placed
      titled =
    let (r', h, e) =
      Evolves-Found (same_key user.id thread.id checked.key)
        (same_key-OnRequest user.id thread.id checked.key) (perform_all-Evolves c ops db keyed)
        held in
    let answer =
      existing_repeats (perform_all c ops db) fresh now checked user thread r' h named placed titled
        c request passes in
    let hashes = ap (λ (q : RunRequest). q.request_hash) e in
    (
      r',
      e,
      h,
      elim (Bool-cases (str_eq r'.request_hash checked.hash)) [
        | inl y ↦ inl (sym hashes ∙ (eq_iff _ _).0 y, answer ∙ rw y refl)
        | inr n ↦ inr (
          λ same. cc ((eq_iff r'.request_hash checked.hash).1 (hashes ∙ same), n),
          answer ∙ rw n refl,
        )
      ],
    )
