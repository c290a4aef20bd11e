-- ===== src/Threads/Removal.antt =====
-- The deletion of a thread of backend/threads/repository.py.
use super_mew.Prelude.{
  ℕ, suc, String, some, Bool, true, false, not, ◌&&◌, List, [], ◌∷◌, ◌==◌, select, map, count,
  exists?, ◌≡◌, ◌⊎◌, inl, inr, refl, arith, Bool-cases,
}
use super_mew.Errors.{ok, err, app, run_active}
use super_mew.Runs.State.{RunStatus, succeeded, failed, cancelled, is_terminal}
use super_mew.Db.Rows.{User, Thread, Run, Message}
use super_mew.Db.Session.{Db, ◌>>=◌, has_thread_key}
use super_mew.Threads.Records.{query_user, query_owned}
use super_mew.Threads.Lists.{
  is_live_in, of_thread, names_run, without_run, remove_thread, delete_row, delete_for,
  delete_thread,
}
use super_mew.Threads.Numbering.{
  IsNumbered, mine, miscounts, numbered_from, distinct_threads, orphan,
}

abbrev other_thread : ℕ → Thread → Bool
other_thread k u = not (u.id == k)

abbrev elsewhere : ℕ → Message → Bool
elsewhere k m = not (m.thread_ref_id == k)

numbered_elsewhere :
    (k t n : ℕ) (ms : List Message)
    → (t == k) ≡ false
    → (numbered_from t n (select (elsewhere k) ms) ≡ numbered_from t n ms)
      × (count (mine t) (select (elsewhere k) ms) ≡ count (mine t) ms)
unfolding select count
numbered_elsewhere k t n [] h = (refl, refl)
numbered_elsewhere k t n (m ∷ ms) h =
    let (x, y) = numbered_elsewhere k t n ms h in
    let (x', y') = numbered_elsewhere k t (suc n) ms h in
    elim (Bool-cases (m.thread_ref_id == k)) [
      | inl e ↦
          let o : (m.thread_ref_id == t) ≡ false = ground arith in (ground arith, ground arith)
      | inr e ↦ (ground arith, ground arith)
    ]

miscounts-elsewhere :
    (k : ℕ) (ts : List Thread) (ms : List Message)
    → exists? (miscounts ms) ts ≡ false
    → exists? (miscounts (select (elsewhere k) ms)) (select (other_thread k) ts) ≡ false
unfolding select
miscounts-elsewhere k [] ms h = refl
miscounts-elsewhere k (t ∷ ts) ms h =
    let rest = miscounts-elsewhere k ts ms (ground arith) in
    elim (Bool-cases (t.id == k)) [
      | inl e ↦ ground arith
      | inr e ↦ let (x, y) = numbered_elsewhere k t.id 0 ms e in ground arith
    ]

keys_elsewhere :
    (k j : ℕ) (ts : List Thread)
    → exists? (has_thread_key j) (select (other_thread k) ts)
      ≡ (not (j == k) && exists? (has_thread_key j) ts)
unfolding select
keys_elsewhere k j [] = ground arith
keys_elsewhere k j (t ∷ ts) = let rest = keys_elsewhere k j ts in ground arith

distinct_elsewhere :
    (k : ℕ) (ts : List Thread)
    → distinct_threads ts ≡ true
    → distinct_threads (select (other_thread k) ts) ≡ true
unfolding select
distinct_elsewhere k [] h = refl
distinct_elsewhere k (t ∷ ts) h =
    let rest = distinct_elsewhere k ts (ground arith) in
    let keys = keys_elsewhere k t.id ts in ground arith

orphans_elsewhere :
    (k : ℕ) (ts : List Thread) (ms : List Message)
    → exists? (orphan ts) ms ≡ false
    → exists? (orphan (select (other_thread k) ts)) (select (elsewhere k) ms) ≡ false
unfolding select
orphans_elsewhere k ts [] h = refl
orphans_elsewhere k ts (m ∷ ms) h =
    let rest = orphans_elsewhere k ts ms (ground arith) in
    let keys = keys_elsewhere k m.thread_ref_id ts in ground arith

-- what is said of numbers and threads does not look at the runs of messages
numbered_without :
    (rs : List Run) (t n : ℕ) (ms : List Message)
    → (numbered_from t n (map (without_run rs) ms) ≡ numbered_from t n ms)
      × (count (mine t) (map (without_run rs) ms) ≡ count (mine t) ms)
unfolding count
numbered_without rs t n [] = (refl, refl)
numbered_without rs t n (m ∷ ms) =
    let (x, y) = numbered_without rs t n ms in
    let (x', y') = numbered_without rs t (suc n) ms in
    elim (Bool-cases (names_run rs m.run_id)) [
      | inl e ↦ (ground arith, ground arith)
      | inr e ↦ (ground arith, ground arith)
    ]

miscounts-without :
    (rs : List Run) (ts : List Thread) (ms : List Message)
    → exists? (miscounts (map (without_run rs) ms)) ts ≡ exists? (miscounts ms) ts
miscounts-without rs [] ms = refl
miscounts-without rs (t ∷ ts) ms =
    let rest = miscounts-without rs ts ms in
    let (x, y) = numbered_without rs t.id 0 ms in ground arith

exists-without :
    (rs : List Run) (p : Message → Bool) (ms : List Message)
    → ((m : Message) → p (without_run rs m) ≡ p m)
    → exists? p (map (without_run rs) ms) ≡ exists? p ms
exists-without rs p [] h = refl
exists-without rs p (m ∷ ms) h = let rest = exists-without rs p ms h in rw (h m, rest) refl

mine-without : (rs : List Run) (k : ℕ) (m : Message) → mine k (without_run rs m) ≡ mine k m
mine-without rs k m = elim (Bool-cases (names_run rs m.run_id)) [
  | inl e ↦ rw e refl
  | inr e ↦ rw e refl
]

orphan-without :
    (rs : List Run) (ts : List Thread) (m : Message) → orphan ts (without_run rs m) ≡ orphan ts m
orphan-without rs ts m = elim (Bool-cases (names_run rs m.run_id)) [
  | inl e ↦ rw e refl
  | inr e ↦ rw e refl
]

remove_thread-IsNumbered : (t : Thread) (db : Db) → IsNumbered db → IsNumbered (remove_thread t db)
unfolding remove_thread
remove_thread-IsNumbered t db h =
    let x = miscounts-elsewhere t.id db.threads db.messages (ground arith) in
    let y = distinct_elsewhere t.id db.threads (ground arith) in
    let z = orphans_elsewhere t.id db.threads db.messages (ground arith) in
    let rs = select (of_thread t) db.runs in
    let ts = select (other_thread t.id) db.threads in
    let ms = select (elsewhere t.id) db.messages in
    let x' = miscounts-without rs ts ms in
    let z' = exists-without rs (orphan ts) ms (orphan-without rs ts) in ground arith

none_mine : (k : ℕ) (ms : List Message) → exists? (mine k) (select (elsewhere k) ms) ≡ false
unfolding select
none_mine k [] = refl
none_mine k (m ∷ ms) = let rest = none_mine k ms in ground arith

none_run :
    (t : Thread) (rs : List Run)
    → exists? (of_thread t) (select (λ (r : Run). not (of_thread t r)) rs) ≡ false
unfolding select
none_run t [] = refl
none_run t (r ∷ rs) = let rest = none_run t rs in ground arith

abbrev pub holds_run : Thread → Run → Bool
holds_run t r = r.thread_ref_id == t.id

-- what is left of a thread: its row, messages or runs
abbrev pub is_gone : Thread → Db → Bool
is_gone t db =
    not (exists? (has_thread_key t.id) db.threads)
    && not (exists? (mine t.id) db.messages)
    && not (exists? (holds_run t) db.runs)

-- a run of a thread that has neither succeeded nor failed nor been cancelled
abbrev pub is_unfinished : RunStatus → Bool
is_unfinished succeeded = false
is_unfinished failed = false
is_unfinished cancelled = false
is_unfinished _ = true

abbrev pub holds_open : Thread → Run → Bool
holds_open t r = r.thread_ref_id == t.id && is_unfinished r.status

unfinished-live : (s : RunStatus) → is_unfinished s ≡ not (is_terminal s)
unfinished-live succeeded = refl
unfinished-live failed = refl
unfinished-live cancelled = refl
unfinished-live _ = refl

open-live : (t : Thread) (rs : List Run) → exists? (is_live_in t.id) rs ≡ exists? (holds_open t) rs
open-live t [] = refl
open-live t (r ∷ rs) =
    let rest = open-live t rs in let here = unfinished-live r.status in ground arith

-- In tables where every thread numbers its messages from 1 with no gap and counts them, threads
-- have different keys and each message has its thread, `delete_thread` of a thread that is
-- there raises RUN_ACTIVE if a run of it is open, which is that it has neither succeeded nor
-- failed nor been cancelled; and if none is, it returns true and leaves neither the row of the
-- thread nor a message or a run of it, and the tables in the same good order.
pub delete_thread_lem :
    (username thread_id : String) (user : User) (t : Thread) (db : Db)
    → IsNumbered db
    → query_user username db ≡ some user
    → query_owned user.id thread_id db ≡ some t
    → ((exists? (holds_open t) db.runs ≡ true)
        × (delete_thread username thread_id db ≡ err (app run_active)))
      ⊎ ((exists? (holds_open t) db.runs ≡ false)
          × (db' : Db) × (delete_thread username thread_id db ≡ ok (true, db'))
          × (is_gone t db' ≡ true)
          × IsNumbered db')
unfolding delete_thread delete_for delete_row ◌>>=◌ remove_thread
delete_thread_lem username thread_id user t db k q o =
    let live = open-live t db.runs in
    elim (Bool-cases (exists? (holds_open t) db.runs)) [
      | inl e ↦ inl (e, ground arith)
      | inr e ↦
          let x = keys_elsewhere t.id t.id db.threads in
          let y = none_mine t.id db.messages in
          let z = none_run t db.runs in
          let rs = select (of_thread t) db.runs in
          let ms = select (elsewhere t.id) db.messages in
          let y' = exists-without rs (mine t.id) ms (mine-without rs t.id) in
          let own : (t.id == t.id) ≡ true = ground arith in
          inr (e, remove_thread t db, ground arith, ground arith, remove_thread-IsNumbered t db k)
    ]
