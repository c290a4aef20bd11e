-- ===== src/Runs/System/Deletions.antt =====
-- Histories in which threads are deleted, by `delete_thread` of backend/threads/repository.py,
-- between the transactions of runs.
use super_mew.Prelude.{
  String, none, some, Bool, true, false, not, List, [], ◌∷◌, ◌≡◌, ◌⊎◌, inl, inr, refl, sym, subst,
  arith, eq_iff, find?, select, exists?, Bool-cases, Option-cases,
}
use super_mew.Errors.{ok}
use super_mew.Runs.State.{is_terminal}
use super_mew.Db.Rows.{Thread, Run}
use super_mew.Db.Session.{Db, ◌>>=◌, has_id}
use super_mew.Db.Session.Runs.{Keyed, find-eq-none}
use super_mew.Threads.Records.{query_user, query_owned}
use super_mew.Threads.Lists.{
  is_live_in, of_thread, remove_thread, delete_row, delete_for, delete_thread,
}
use super_mew.Runs.Evolution.Invariants.{Evolves-Keyed}
use super_mew.Runs.System.{Config, Op, left_by, perform}
use super_mew.Runs.System.History.{perform-Evolves}

pub data Change : Type 0 where
  runs : Op → Change
  deletes : String → String → Change

unfoldable pub change : Config → Change → Db → Db
change c (runs op) = perform c op
change c (deletes username thread_id) = left_by (delete_thread username thread_id)

unfoldable pub change_all : Config → List Change → Db → Db
change_all c [] db = db
change_all c (x ∷ xs) db = change_all c xs (change c x db)

-- a deletion leaves the tables as they were, or removes a thread of which no run is live
abbrev pub Removes : String → String → Db → Type 0
Removes username thread_id db =
    (t : Thread) × (exists? (is_live_in t.id) db.runs ≡ false)
    × (delete_thread username thread_id db ≡ ok (true, remove_thread t db))
    × (left_by (delete_thread username thread_id) db ≡ remove_thread t db)

pub delete_thread-cases :
    (username thread_id : String) (db : Db)
    → (left_by (delete_thread username thread_id) db ≡ db) ⊎ Removes username thread_id db
unfolding delete_thread delete_for delete_row ◌>>=◌
delete_thread-cases username thread_id db = elim (Option-cases (query_user username db)) [
  | inl e ↦ inl (ground arith)
  | inr (user, e) ↦ elim (Option-cases (query_owned user.id thread_id db)) [
    | inl f ↦ inl (ground arith)
    | inr (t, f) ↦ elim (Bool-cases (exists? (is_live_in t.id) db.runs)) [
      | inl live ↦ inl (ground arith)
      | inr free ↦ inr (t, free, ground arith, ground arith)
    ]
  ]
]

select-absent :
    (k : String) (p : Run → Bool) (rs : List Run)
    → exists? (has_id k) rs ≡ false
    → exists? (has_id k) (select p rs) ≡ false
unfolding select
select-absent k p [] h = refl
select-absent k p (r ∷ rs) h = ground (arith, select-absent k p rs)

select-Keyed : (p : Run → Bool) (rs : List Run) → Keyed rs → Keyed (select p rs)
unfolding select
select-Keyed p [] k = tt
select-Keyed p (r ∷ rs) k =
    let rest = select-Keyed p rs k.1 in
    let alone = select-absent r.id p rs k.0 in
    elim (Bool-cases (p r)) [ inl e ↦ rw e (alone, rest) | inr e ↦ rw e rest ]

pub change-Keyed : (c : Config) (x : Change) (db : Db) → Keyed db.runs → Keyed (change c x db).runs
unfolding change remove_thread
change-Keyed c (runs op) db k = Evolves-Keyed (perform-Evolves c op db k) k
change-Keyed c (deletes username thread_id) db k =
    elim (delete_thread-cases username thread_id db) [
      | inl e ↦ subst (λ (d : Db). Keyed d.runs) (sym e) k
      | inr (t, free, _, e) ↦
          subst (λ (d : Db). Keyed d.runs) (sym e)
            (select-Keyed (λ (r : Run). not (of_thread t r)) db.runs k)
    ]

-- a run of other threads stays; a run of the thread goes, and it was terminal
pub kept_or_gone :
    (k : String) (t : Thread) (rs : List Run) (r : Run)
    → Keyed rs
    → exists? (is_live_in t.id) rs ≡ false
    → find? (has_id k) rs ≡ some r
    → (find? (has_id k) (select (λ (x : Run). not (of_thread t x)) rs) ≡ some r)
      ⊎ ((is_terminal r.status ≡ true)
          × (find? (has_id k) (select (λ (x : Run). not (of_thread t x)) rs) ≡ none))
unfolding find? select
kept_or_gone k t [] r u free q = cc
kept_or_gone k t (x ∷ rs) r u free q = elim (Bool-cases (has_id k x)) [
  | inr e ↦ elim (kept_or_gone k t rs r u.1 (ground arith) (ground arith)) [
    | inl a ↦ inl (ground arith)
    | inr (a, b) ↦ inr (a, ground arith)
  ]
  | inl e ↦ elim (Bool-cases (of_thread t x)) [
    | inr o ↦ inl (ground arith)
    | inl o ↦
        let name = (eq_iff x.id k).0 e in
        let alone = subst (λ i. exists? (has_id i) rs ≡ false) name u.0 in
        let absent = select-absent k (λ (y : Run). not (of_thread t y)) rs alone in
        let gone = find-eq-none k (select (λ (y : Run). not (of_thread t y)) rs) absent in
        let same : x ≡ r = ground arith in
        inr (subst (λ (y : Run). is_terminal y.status ≡ true) same (ground arith), ground arith)
  ]
]
