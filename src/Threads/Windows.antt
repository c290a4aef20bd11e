-- ===== src/Threads/Windows.antt =====
-- The windows of `list_messages_before` of backend/threads/repository.py, over a thread whose messages
-- are numbered.
use super_mew.Prelude.{
  ℕ, zero, suc, ◌+◌, ◌-◌, min, max, ℤ, max_zero, String, Option, none, some, Bool, true, false,
  ◌&&◌, List, [], ◌∷◌, ◌++◌, map, length, ltb, ◌==◌, select, count, take, exists?, find?, ◌≡◌, inl,
  inr, refl, ap, subst, ◌∙◌, arith, Bool-cases,
}
use super_mew.Db.Rows.{User, Thread, Message}
use super_mew.Db.Session.{Db}
use super_mew.Threads.Records.{message_record, query_user, query_owned, is_owned}
use super_mew.Threads.Lists.{
  in_window, insert_newest, newest_first, window_size, window, list_messages_before, skill_of,
}
use super_mew.Threads.Numbering.{IsNumbered, mine, counts, miscounts, numbered_from}

-- how many numbers up to `n` are before a bound
abbrev pub below : Option ℤ → ℕ → ℕ
below none n = n
below (some b) n = min n (max_zero b - 1)

abbrev rising : ℕ → List Message → Bool
rising n [] = true
rising n (m ∷ ms) = m.sequence == suc n && rising (suc n) ms

-- numbered downwards from a number
abbrev pub falling : ℕ → List Message → Bool
falling n [] = true
falling n (m ∷ ms) = m.sequence == n && falling (n - 1) ms

abbrev later : ℕ → List Message → Bool
later n [] = true
later n (m ∷ ms) = ltb n m.sequence && later n ms

empty_rising : (n : ℕ) (ms : List Message) → length ms ≡ 0 → rising n ms ≡ true
empty_rising n [] h = refl
empty_rising n (m ∷ ms) h = ground arith

window-rising :
    (t n : ℕ) (before : Option ℤ) (ms : List Message)
    → numbered_from t n ms ≡ true
    → (rising n (select (in_window t before) ms) ≡ true)
      × (n + length (select (in_window t before) ms) ≡ max n (below before (n + count (mine t) ms)))
unfolding select count
window-rising t n none [] h = (refl, omega arith)
window-rising t n (some b) [] h = (refl, omega arith)
window-rising t n none (m ∷ ms) h = elim (Bool-cases (mine t m)) [
  | inl e ↦
      let (x, y) = window-rising t (suc n) none ms (ground arith) in (ground arith, ground arith)
  | inr e ↦ let (x, y) = window-rising t n none ms (ground arith) in (ground arith, ground arith)
]
window-rising t n (some b) (m ∷ ms) h = elim (Bool-cases (mine t m)) [
  | inl e ↦
      let (x, y) = window-rising t (suc n) (some b) ms (ground arith) in
      let here : m.sequence ≡ suc n = ground arith in
      let keep = empty_rising n (select (in_window t (some b)) ms) in
      elim (Bool-cases (ltb (suc n) (max_zero b))) [
        | inl o ↦ (ground arith, ground arith)
        | inr o ↦
            let none_left : length (select (in_window t (some b)) ms) ≡ 0 = ground arith in
            let kept = keep none_left in (ground arith, ground arith)
      ]
  | inr e ↦
      let (x, y) = window-rising t n (some b) ms (ground arith) in (ground arith, ground arith)
]

insert-last :
    (m : Message) (ms : List Message)
    → later m.sequence ms ≡ true
    → insert_newest m ms ≡ ms ++ m ∷ []
unfolding insert_newest
insert-last m [] h = refl
insert-last m (k ∷ ms) h = let rest = insert-last m ms (ground arith) in ground arith

append-later :
    (n : ℕ) (ms : List Message) (m : Message)
    → later (suc n) ms ≡ true
    → m.sequence ≡ suc n
    → later n (ms ++ m ∷ []) ≡ true
append-later n [] m h e = ground arith
append-later n (k ∷ ms) m h e = let rest = append-later n ms m (ground arith) e in ground arith

append-falling :
    (n : ℕ) (ms : List Message) (m : Message)
    → falling n ms ≡ true
    → m.sequence ≡ n - length ms
    → (falling n (ms ++ m ∷ []) ≡ true) × (length (ms ++ m ∷ []) ≡ suc (length ms))
append-falling n [] m h e = (ground arith, refl)
append-falling n (k ∷ ms) m h e =
    let (x, y) = append-falling (n - 1) ms m (ground arith) (omega (arith, e)) in
    (ground arith, ground arith)

newest_first-falling :
    (n : ℕ) (ms : List Message)
    → rising n ms ≡ true
    → (falling (n + length ms) (newest_first ms) ≡ true)
      × (length (newest_first ms) ≡ length ms)
      × (later n (newest_first ms) ≡ true)
unfolding newest_first
newest_first-falling n [] h = (refl, refl, refl)
newest_first-falling n (m ∷ ms) h =
    let (x, y, z) = newest_first-falling (suc n) ms (ground arith) in
    let here : m.sequence ≡ suc n = ground arith in
    let last = insert-last m (newest_first ms) (ground arith) in
    let more = append-later n (newest_first ms) m z here in
    let total : n + length (m ∷ ms) ≡ suc n + length ms = omega arith in
    let (x', y') =
      append-falling (suc n + length ms) (newest_first ms) m x (omega (arith, here, y)) in
    (ground arith, ground arith, ground arith)

take-falling :
    (n k : ℕ) (ms : List Message)
    → falling n ms ≡ true
    → (falling n (take k ms) ≡ true) × (length (take k ms) ≡ min k (length ms))
take-falling n zero ms h = (refl, omega arith)
take-falling n (suc k) [] h = (refl, omega arith)
take-falling n (suc k) (m ∷ ms) h =
    let (x, y) = take-falling (n - 1) k ms (ground arith) in (ground arith, ground arith)

found-counts :
    (user_id : ℕ) (thread_id : String) (ts : List Thread) (ms : List Message) (t : Thread)
    → exists? (miscounts ms) ts ≡ false
    → find? (is_owned user_id thread_id) ts ≡ some t
    → counts ms t ≡ true
unfolding find?
found-counts user_id thread_id [] ms t h f = cc
found-counts user_id thread_id (u ∷ ts) ms t h f =
    elim (Bool-cases (is_owned user_id thread_id u)) [
      | inl e ↦
          let same : u ≡ t = ground arith in subst (λ x. counts ms x ≡ true) same (ground arith)
      | inr e ↦ found-counts user_id thread_id ts ms t (ground arith) (ground arith)
    ]

-- In tables where every thread numbers its messages from 1 with no gap and counts them, threads
-- have different keys and each message has its thread, `list_messages_before` of a thread that
-- is there returns the records of messages numbered downwards with no gap from the last before
-- the bound, or from the last of the thread if there is no bound: as many as the limit allows,
-- or all.
pub list_messages_before-falling :
    (username thread_id : String) (before : Option ℤ) (limit : ℤ) (user : User) (t : Thread)
    (db : Db)
    → IsNumbered db
    → query_user username db ≡ some user
    → query_owned user.id thread_id db ≡ some t
    → let ms = window t.id before limit db.messages in
      (list_messages_before username thread_id before limit db
        ≡ some (map (λ (m : Message). message_record m thread_id (skill_of db m.run_id)) ms))
      × (falling (below before t.last_sequence) ms ≡ true)
      × (length ms ≡ min (window_size limit) (below before t.last_sequence))
unfolding list_messages_before window query_owned
list_messages_before-falling username thread_id before limit user t db k q o =
    let counted =
      found-counts user.id thread_id db.threads db.messages t (ground arith) (ground arith) in
    let (x, y) = window-rising t.id 0 before db.messages (ground arith) in
    let es = select (in_window t.id before) db.messages in
    let (x', y', z') = newest_first-falling 0 es x in
    let (x2, y2) = take-falling (0 + length es) (window_size limit) (newest_first es) x' in
    let n : count (mine t.id) db.messages ≡ t.last_sequence = ground arith in
    let n' : 0 + count (mine t.id) db.messages ≡ t.last_sequence = omega (arith, n) in
    let low : max 0 (below before (0 + count (mine t.id) db.messages))
        ≡ below before (0 + count (mine t.id) db.messages) =
      omega arith in
    let all = y ∙ low ∙ ap (below before) n' in
    let ms = take (window_size limit) (newest_first es) in
    let size : length es ≡ below before t.last_sequence = omega (arith, all) in
    (
      ground arith,
      subst (λ i. falling i ms ≡ true) all x2,
      y2 ∙ ap (min (window_size limit)) (y' ∙ size),
    )
