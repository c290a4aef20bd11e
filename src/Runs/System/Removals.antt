-- ===== src/Runs/System/Removals.antt =====
-- What becomes of runs and of events over histories in which threads are deleted.
use super_mew.Prelude.{
  String, none, some, Bool, true, not, List, [], ◌∷◌, ◌++◌, map, ◌≡◌, ◌⊎◌, inl, inr, refl, sym, ap,
  subst, select, Bool-cases,
}
use mathlib.Core.List.{map-append}
use super_mew.Errors.{ok}
use super_mew.Runs.State.{is_terminal}
use super_mew.Db.Rows.{Run, RunEvent, TransactionOutbox}
use super_mew.Db.Session.{Db, query_run}
use super_mew.Db.Session.Runs.{Keyed}
use super_mew.Threads.Lists.{delete_thread, remove_thread, of_thread, is_event_of}
use super_mew.Runs.Evolution.{Evolves, stay, after, write, log, beside, open_run}
use super_mew.Runs.Evolution.Descent.{Descends, Descends-refl, Descends-trans, Evolves-Descends}
use super_mew.Runs.System.{Config}
use super_mew.Runs.System.History.{perform-Evolves}
use super_mew.Runs.System.Deletions.{
  Change, runs, deletes, change, change_all, delete_thread-cases, change-Keyed, kept_or_gone,
}

-- Somewhere in a history a run, which descended from `r` and was terminal, went with its thread.
pub record Deleted (c : Config) (xs : List Change) (db : Db) (run_id : String) (r : Run)
    : Type 0 where
  pub before : List Change
  pub later : List Change
  pub username : String
  pub thread_id : String
  pub split : xs ≡ before ++ deletes username thread_id ∷ later
  pub run : Run
  pub found : query_run run_id (change_all c before db) ≡ some run
  pub descent : Descends r run
  pub over : is_terminal run.status ≡ true
  pub left : Db
  pub deletion : delete_thread username thread_id (change_all c before db) ≡ ok (true, left)
  pub gone : query_run run_id left ≡ none

Deleted-cons :
    (c : Config) (x : Change) (xs : List Change) (db : Db) (run_id : String) (r r1 : Run)
    → Descends r r1
    → Deleted c xs (change c x db) run_id r1
    → Deleted c (x ∷ xs) db run_id r
unfolding change_all
Deleted-cons c x xs db run_id r r1 d h = record {
  before = x ∷ h.before;
  later = h.later;
  username = h.username;
  thread_id = h.thread_id;
  split = ap (λ ys. x ∷ ys) h.split;
  run = h.run;
  found = h.found;
  descent = Descends-trans d h.descent;
  over = h.over;
  left = h.left;
  deletion = h.deletion;
  gone = h.gone;
}

abbrev StaysOrGoes : Config → List Change → Db → String → Run → Type 0
StaysOrGoes c xs db run_id r =
    ((r' : Run) × (query_run run_id (change_all c xs db) ≡ some r') × Descends r r')
    ⊎ Deleted c xs db run_id r

goes_on :
    (c : Config) (x : Change) (xs : List Change) (db : Db) (run_id : String) (r r1 : Run)
    → Descends r r1
    → StaysOrGoes c xs (change c x db) run_id r1
    → StaysOrGoes c (x ∷ xs) db run_id r
unfolding change_all
goes_on c x xs db run_id r r1 d (inl (r', q, d')) = inl (r', q, Descends-trans d d')
goes_on c x xs db run_id r r1 d (inr h) = inr (Deleted-cons c x xs db run_id r r1 d h)

-- Whatever of the eight transactions of runs and of the deletions of threads are made, in any
-- order and whether they return or raise, on tables whose runs have different ids: a run that
-- is there is there after, with the same request, a status that the transitions lead to, a
-- token and a counter that have not fallen, and, if it was terminal, nothing but the counter
-- changed; or at some point it had come, by such steps, to be terminal, and a deletion of a
-- thread, which returned true, took it.
pub change_all-Descends :
    (c : Config) (xs : List Change) (db : Db) (run_id : String) (r : Run)
    → Keyed db.runs
    → query_run run_id db ≡ some r
    → ((r' : Run) × (query_run run_id (change_all c xs db) ≡ some r') × Descends r r')
      ⊎ Deleted c xs db run_id r
unfolding change_all change remove_thread query_run
change_all-Descends c [] db run_id r k q = inl (r, q, Descends-refl r)
change_all-Descends c (runs op ∷ xs) db run_id r k q =
    let (r1, q1, d) = Evolves-Descends run_id (perform-Evolves c op db k) q in
    goes_on c (runs op) xs db run_id r r1 d (
      change_all-Descends c xs (change c (runs op) db) run_id r1 (change-Keyed c (runs op) db k) q1)
change_all-Descends c (deletes username thread_id ∷ xs) db run_id r k q =
    let x = deletes username thread_id in
    let k' = change-Keyed c x db k in
    let on = λ (q' : query_run run_id (change c x db) ≡ some r).
      goes_on c x xs db run_id r r (Descends-refl r)
        (change_all-Descends c xs (change c x db) run_id r k' q') in
    elim (delete_thread-cases username thread_id db) [
      | inl e ↦ on (subst (λ (d : Db). query_run run_id d ≡ some r) (sym e) q)
      | inr (t, free, e, left) ↦ elim (kept_or_gone run_id t db.runs r k free q) [
        | inl there ↦ on (subst (λ (d : Db). query_run run_id d ≡ some r) (sym left) there)
        | inr (over, none_left) ↦ inr (record {
          before = [];
          later = xs;
          username = username;
          thread_id = thread_id;
          split = refl;
          run = r;
          found = q;
          descent = Descends-refl r;
          over = over;
          left = remove_thread t db;
          deletion = e;
          gone = none_left;
        })
      ]
    ]

-- Some events among others, in the same order.
pub data Within : List RunEvent → List RunEvent → Type 0 where
  done : Within [] []
  kept : (e : RunEvent) {xs ys : List RunEvent} → Within xs ys → Within (e ∷ xs) (e ∷ ys)
  passed : (e : RunEvent) {xs ys : List RunEvent} → Within xs ys → Within xs (e ∷ ys)

Within-append :
    (e : RunEvent) {xs ys : List RunEvent} → Within xs ys → Within (xs ++ e ∷ []) (ys ++ e ∷ [])
Within-append e done = kept e done
Within-append e (kept x w) = kept x (Within-append e w)
Within-append e (passed y w) = passed y (Within-append e w)

Within-select :
    (p : RunEvent → Bool) {xs ys : List RunEvent} → Within xs ys → Within (select p xs) ys
unfolding select
Within-select p done = done
Within-select p (kept x w) = elim (Bool-cases (p x)) [
  | inl e ↦ rw e (kept x (Within-select p w))
  | inr e ↦ rw e (passed x (Within-select p w))
]
Within-select p (passed y w) = passed y (Within-select p w)

-- the events of the journal are events of the outbox, in the same order
abbrev pub Announced : Db → Type 0
Announced db = Within db.events (map (λ (o : TransactionOutbox). o.event) db.outbox)

Evolves-Announced : {a b : Db} → Evolves a b → Announced a → Announced b
Evolves-Announced stay h = h
Evolves-Announced (after p q) h = Evolves-Announced q (Evolves-Announced p h)
Evolves-Announced (write _ _ _ _ _ _) h = h
Evolves-Announced (log {db} r r' e o _ _ _ _ _ _ w) h = rw (map-append, w) (Within-append e h)
Evolves-Announced (beside _ _) h = h
Evolves-Announced (open_run _ _ _ _) h = h

-- Whatever of the eight transactions of runs and of the deletions of threads are made on tables
-- whose runs have different ids: if the events of the journal were events of the outbox, in
-- the same order and each its own, they are so after.
pub change_all-Announced :
    (c : Config) (xs : List Change) (db : Db)
    → Keyed db.runs
    → Announced db
    → Announced (change_all c xs db)
unfolding change_all change remove_thread
change_all-Announced c [] db k h = h
change_all-Announced c (runs op ∷ xs) db k h =
    change_all-Announced c xs (change c (runs op) db) (change-Keyed c (runs op) db k)
      (Evolves-Announced (perform-Evolves c op db k) h)
change_all-Announced c (deletes username thread_id ∷ xs) db k h =
    let x = deletes username thread_id in
    let on = change_all-Announced c xs (change c x db) (change-Keyed c x db k) in
    elim (delete_thread-cases username thread_id db) [
      | inl e ↦ on (subst Announced (sym e) h)
      | inr (t, free, e, left) ↦ on (
          subst Announced (sym left) (
            Within-select (λ (v : RunEvent). not (is_event_of (select (of_thread t) db.runs) v)) h))
    ]
