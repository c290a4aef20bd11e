-- ===== src/Threads/Opening.antt =====
-- The numbers of the messages when a thread is added, for backend/threads/repository.py.
use super_mew.Prelude.{
  ℕ, true, false, List, [], ◌∷◌, ◌++◌, count, exists?, ◌≡◌, inl, inr, refl, sym, subst, arith,
  Bool-cases, eq_of_test,
}
use super_mew.Db.Rows.{Thread, Message}
use super_mew.Db.Session.{has_thread_key}
use super_mew.Threads.Numbering.{
  mine, numbered_from, miscounts, distinct_threads, orphan, is_kept, exists-append,
}

-- a thread that is new has no message
no_message :
    (k n : ℕ) (ts : List Thread) (ms : List Message)
    → exists? (has_thread_key k) ts ≡ false
    → exists? (orphan ts) ms ≡ false
    → (numbered_from k n ms ≡ true) × (count (mine k) ms ≡ 0)
unfolding count
no_message k n ts [] a h = (refl, refl)
no_message k n ts (m ∷ ms) a h = elim (Bool-cases (mine k m)) [
  | inl e ↦
      let gone =
        subst (λ i. exists? (has_thread_key i) ts ≡ false) (sym (eq_of_test m.thread_ref_id k e))
          a in
      (ground arith, ground arith)
  | inr e ↦ let (x, y) = no_message k n ts ms a (ground arith) in (ground arith, ground arith)
]

orphan-more :
    (ts : List Thread) (t : Thread) (ms : List Message)
    → exists? (orphan ts) ms ≡ false
    → exists? (orphan (ts ++ t ∷ [])) ms ≡ false
orphan-more ts t [] h = refl
orphan-more ts t (m ∷ ms) h =
    let rest = orphan-more ts t ms (ground arith) in
    let here = exists-append (has_thread_key m.thread_ref_id) ts t in ground arith

distinct-append :
    (ts : List Thread) (t : Thread)
    → distinct_threads ts ≡ true
    → exists? (has_thread_key t.id) ts ≡ false
    → distinct_threads (ts ++ t ∷ []) ≡ true
distinct-append [] t d a = refl
distinct-append (u ∷ ts) t d a =
    let rest = distinct-append ts t (ground arith) (ground arith) in
    let here = exists-append (has_thread_key u.id) ts t in ground arith

-- the tables after a thread without messages
pub is_kept-opened :
    (t : Thread) (ts : List Thread) (ms : List Message)
    → is_kept ts ms ≡ true
    → exists? (has_thread_key t.id) ts ≡ false
    → t.last_sequence ≡ 0
    → t.message_count ≡ 0
    → is_kept (ts ++ t ∷ []) ms ≡ true
is_kept-opened t ts ms h a l k =
    let (x, y) = no_message t.id 0 ts ms a (ground arith) in
    let more = exists-append (miscounts ms) ts t in
    let apart = distinct-append ts t (ground arith) a in
    let owned = orphan-more ts t ms (ground arith) in ground arith
