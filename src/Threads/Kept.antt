-- ===== src/Threads/Kept.antt =====
-- The numbers of the messages under `append_message` of backend/threads/repository.py.
use super_mew.Prelude.{
  ℕ, String, Option, none, some, true, false, List, [], ◌∷◌, ◌++◌, ◌==◌, find?, exists?, ◌≡◌, inl,
  inr, refl, subst, arith, Bool-cases, eq_of_test,
}
use super_mew.Errors.{Error, Result, ok, err, app, integrity_error}
use super_mew.Db.Rows.{User, Thread, Metadata, Message}
use super_mew.Db.Session.{
  Db, insert_message, insert_thread, save_thread, thread_clashes, has_thread_key,
}
use super_mew.Db.Session.Ensures.{
  Ensures, Ensures-pure, Ensures-bind, bind-gets, bind-guard, bind-write_unless,
}
use super_mew.Threads.Records.{
  MessageAppend, MessageRecord, Stamp, query_user, query_owned, empty_thread, thread_or_new,
  get_or_create_thread, is_owned, assert_version,
}
use super_mew.Threads.Messages.{
  query_client_message, new_message, grown, append_to, append_for, as_conflict, append_message,
}
use super_mew.Threads.Numbering.{IsNumbered, distinct_threads, is_kept-grown}
use super_mew.Threads.Opening.{is_kept-opened}

find-found :
    (k : ℕ) (ts : List Thread) (t : Thread)
    → find? (has_thread_key k) ts ≡ some t
    → exists? (has_thread_key k) ts ≡ true
unfolding find?
find-found k [] t f = cc
find-found k (u ∷ ts) t f = ground (arith, find-found k ts t)

find-last :
    (ts : List Thread) (t : Thread)
    → exists? (has_thread_key t.id) ts ≡ false
    → find? (has_thread_key t.id) (ts ++ t ∷ []) ≡ some t
unfolding find?
find-last [] t a = let own : (t.id == t.id) ≡ true = ground arith in ground arith
find-last (u ∷ ts) t a = let rest = find-last ts t (ground arith) in ground arith

no_clash :
    (t : Thread) (ts : List Thread)
    → exists? (thread_clashes t) ts ≡ false
    → exists? (has_thread_key t.id) ts ≡ false
unfolding thread_clashes
no_clash t [] h = refl
no_clash t (u ∷ ts) h = ground (arith, no_clash t ts)

-- a row that a query finds is the one of its key
find-owned :
    (user_id : ℕ) (thread_id : String) (ts : List Thread) (t : Thread)
    → distinct_threads ts ≡ true
    → find? (is_owned user_id thread_id) ts ≡ some t
    → find? (has_thread_key t.id) ts ≡ some t
unfolding find?
find-owned user_id thread_id [] t d f = cc
find-owned user_id thread_id (u ∷ ts) t d f = elim (Bool-cases (is_owned user_id thread_id u)) [
  | inl e ↦
      let same : u ≡ t = ground arith in
      let own : (u.id == u.id) ≡ true = ground arith in
      subst (λ x. find? (has_thread_key x.id) (u ∷ ts) ≡ some x) same (ground arith)
  | inr e ↦
      let rest = find-owned user_id thread_id ts t (ground arith) (ground arith) in
      elim (Bool-cases (u.id == t.id)) [
        | inl k ↦
            let there = find-found t.id ts t rest in
            let gone =
              subst (λ i. exists? (has_thread_key i) ts ≡ false) (eq_of_test u.id t.id k)
                (ground arith) in
            cc
        | inr k ↦ ground arith
      ]
]

-- the thread that is there is numbered, and so are the tables
abbrev Found : Thread → Db → Type 0
Found t db = IsNumbered db × (find? (has_thread_key t.id) db.threads ≡ some t)

get_or_create_thread-Found :
    (stamp : Stamp) (user_id : ℕ) (thread_id : String) (metadata : Option Metadata) (db : Db)
    → IsNumbered db
    → Ensures Found (get_or_create_thread stamp user_id thread_id metadata) db
unfolding get_or_create_thread thread_or_new insert_thread query_owned
get_or_create_thread-Found stamp user_id thread_id metadata db k =
    bind-gets (query_owned user_id thread_id) _ db
      (go (find? (is_owned user_id thread_id) db.threads) refl)
  where
    go :
        (o : Option Thread)
        → find? (is_owned user_id thread_id) db.threads ≡ o
        → Ensures Found (thread_or_new stamp user_id thread_id metadata o) db
    go (some t) e =
        Ensures-pure t db (k, find-owned user_id thread_id db.threads t (ground arith) e)
    go none e =
        let t = empty_thread stamp user_id thread_id metadata in
        bind-write_unless _ _ _ db (λ c.
          let a = no_clash t db.threads c in
          Ensures-pure t _
            (is_kept-opened t db.threads db.messages k a refl refl, find-last db.threads t a))

append_to-IsNumbered :
    (stamp : Stamp) (t : Thread) (m : MessageAppend) (metadata : Option Metadata)
    (o : Option Message) (db : Db)
    → Found t db
    → Ensures (λ r db'. IsNumbered db') (append_to stamp t m metadata o) db
unfolding append_to insert_message save_thread
append_to-IsNumbered stamp t m metadata (some x) db k = Ensures-pure _ db k.0
append_to-IsNumbered stamp t m metadata none db k = bind-write_unless _ _ _ db (λ c.
    bind-write_unless _ _ _ _ (λ c'. Ensures-pure _ _ (
      is_kept-grown t (grown stamp t metadata) db.threads db.messages (new_message stamp t m) k.0
        k.1 refl refl refl refl refl)))

append_for-IsNumbered :
    (stamp : Stamp) (thread_id : String) (m : MessageAppend) (expected : Option ℕ)
    (metadata : Option Metadata) (o : Option User) (db : Db)
    → IsNumbered db
    → Ensures (λ r db'. IsNumbered db') (append_for stamp thread_id m expected metadata o) db
unfolding append_for assert_version
append_for-IsNumbered stamp thread_id m expected metadata none db k = Ensures-pure none db k
append_for-IsNumbered stamp thread_id m expected metadata (some user) db k =
    Ensures-bind (get_or_create_thread stamp user.id thread_id metadata) _ db
      (get_or_create_thread-Found stamp user.id thread_id metadata db k)
      (λ t db' f. bind-guard _ _ _ db' (λ v. bind-gets _ _ db' (
        append_to-IsNumbered stamp t m metadata (query_client_message t.id m.client_message_id db')
          db' f)))

returned {ℓ} : {A : Type ℓ} (x : Result A) (a : A) → as_conflict x ≡ ok a → x ≡ ok a
returned (ok b) a e = e
returned (err integrity_error) a e = cc
returned (err (app c)) a e = cc
returned (err Error.value_error) a e = cc
returned (err Error.attribute_error) a e = cc
returned (err Error.no_result_found) a e = cc

-- If `append_message` returns, in tables where every thread numbers its messages from 1 with no
-- gap and counts them, threads have different keys and each message has its thread, then so it
-- is in the tables that it leaves.
pub append_message-IsNumbered :
    (stamp : Stamp) (username thread_id : String) (m : MessageAppend) (expected : Option ℕ)
    (metadata : Option Metadata) (db db' : Db) (r : Option MessageRecord)
    → IsNumbered db
    → append_message stamp username thread_id m expected metadata db ≡ ok (r, db')
    → IsNumbered db'
unfolding append_message
append_message-IsNumbered stamp username thread_id m expected metadata db db' r k e =
    let kept =
      bind-gets (query_user username) _ db
        (append_for-IsNumbered stamp thread_id m expected metadata (query_user username db) db k) in
    kept.at r db' (returned _ (r, db') e)
