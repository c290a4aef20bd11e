-- ===== src/Threads/Numbering.antt =====
-- The numbers of the messages of a thread of backend/threads/repository.py.
use super_mew.Prelude.{
  ℕ, suc, ◌+◌, some, Bool, true, false, not, ◌&&◌, ◌||◌, List, [], ◌∷◌, ◌++◌, ◌==◌, count, find?,
  exists?, replace, if◌then◌else◌, ◌≡◌, inl, inr, refl, sym, subst, ◌∙◌, arith, Bool-cases,
  eq_of_test,
}
use super_mew.Db.Rows.{Thread, Message}
use super_mew.Db.Session.{Db, has_thread_key}

-- the messages of a thread, from the first number that is left
abbrev pub numbered_from : ℕ → ℕ → List Message → Bool
numbered_from t n [] = true
numbered_from t n (m ∷ ms) =
    if m.thread_ref_id == t
    then m.sequence == suc n && numbered_from t (suc n) ms
    else numbered_from t n ms

abbrev pub mine : ℕ → Message → Bool
mine t m = m.thread_ref_id == t

-- the messages of a thread are numbered 1, 2, … and the thread counts them
abbrev pub counts : List Message → Thread → Bool
counts ms t =
    numbered_from t.id 0 ms
    && count (mine t.id) ms == t.last_sequence
    && t.message_count == t.last_sequence

-- a thread that does not count its messages
abbrev pub miscounts : List Message → Thread → Bool
miscounts ms t = not (counts ms t)

abbrev pub distinct_threads : List Thread → Bool
distinct_threads [] = true
distinct_threads (t ∷ ts) = not (exists? (has_thread_key t.id) ts) && distinct_threads ts

-- a message without its thread
abbrev pub orphan : List Thread → Message → Bool
orphan ts m = not (exists? (has_thread_key m.thread_ref_id) ts)

-- every thread counts its messages, threads have different keys, and each message has its thread
abbrev pub is_kept : List Thread → List Message → Bool
is_kept ts ms =
    not (exists? (miscounts ms) ts) && distinct_threads ts && not (exists? (orphan ts) ms)

abbrev pub IsNumbered : Db → Type 0
IsNumbered db = is_kept db.threads db.messages ≡ true

numbered-append :
    (t n : ℕ) (ms : List Message) (m : Message)
    → numbered_from t n (ms ++ m ∷ [])
      ≡ (numbered_from t n ms && (not (mine t m) || m.sequence == suc (n + count (mine t) ms)))
unfolding count
numbered-append t n [] m = ground arith
numbered-append t n (k ∷ ms) m =
    let rest = numbered-append t n ms m in
    let next = numbered-append t (suc n) ms m in
    elim (Bool-cases (mine t k)) [
      | inl e ↦
          let same : suc (suc n + count (mine t) ms) ≡ suc (n + (1 + count (mine t) ms)) =
            omega arith in
          ground arith
      | inr e ↦ ground arith
    ]

count-append :
    (t : ℕ) (ms : List Message) (m : Message)
    → count (mine t) (ms ++ m ∷ [])
      ≡ (if mine t m then suc (count (mine t) ms) else count (mine t) ms)
unfolding count
count-append t [] m = ground arith
count-append t (k ∷ ms) m = let rest = count-append t ms m in ground arith

-- threads that the new message is not of
others_count :
    (ts : List Thread) (ms : List Message) (m : Message)
    → exists? (has_thread_key m.thread_ref_id) ts ≡ false
    → exists? (miscounts (ms ++ m ∷ [])) ts ≡ exists? (miscounts ms) ts
others_count [] ms m h = refl
others_count (t ∷ ts) ms m h =
    let rest = others_count ts ms m (ground arith) in
    let other : mine t.id m ≡ false = ground arith in
    let n = numbered-append t.id 0 ms m in let c = count-append t.id ms m in ground arith

-- a thread that has grown by a message
grown_counts :
    (t g : Thread) (ms : List Message) (m : Message)
    → counts ms t ≡ true
    → g.id ≡ t.id
    → g.last_sequence ≡ suc t.last_sequence
    → g.message_count ≡ suc t.message_count
    → m.thread_ref_id ≡ t.id
    → m.sequence ≡ suc t.last_sequence
    → counts (ms ++ m ∷ []) g ≡ true
grown_counts t g ms m h i l k o s =
    let n = numbered-append t.id 0 ms m in
    let c = count-append t.id ms m in
    subst
      (λ x.
        numbered_from x 0 (ms ++ m ∷ [])
          && count (mine x) (ms ++ m ∷ []) == g.last_sequence
          && g.message_count == g.last_sequence
        ≡ true)
      (sym i) (ground arith)

replace-keys :
    (k : ℕ) (g : Thread) (ts : List Thread)
    → exists? (has_thread_key k) (replace (has_thread_key g.id) g ts)
      ≡ exists? (has_thread_key k) ts
unfolding replace
replace-keys k g [] = refl
replace-keys k g (t ∷ ts) = let rest = replace-keys k g ts in ground arith

replace-distinct :
    (g : Thread) (ts : List Thread)
    → distinct_threads (replace (has_thread_key g.id) g ts) ≡ distinct_threads ts
unfolding replace
replace-distinct g [] = refl
replace-distinct g (t ∷ ts) =
    let rest = replace-distinct g ts in
    let keys = replace-keys t.id g ts in
    elim (Bool-cases (t.id == g.id)) [
      | inl e ↦
          let same =
            subst (λ i. exists? (has_thread_key i) ts ≡ exists? (has_thread_key t.id) ts)
              (eq_of_test t.id g.id e) refl in
          ground arith
      | inr e ↦ ground arith
    ]

replace-counts :
    (t g : Thread) (ts : List Thread) (ms : List Message) (m : Message)
    → find? (has_thread_key t.id) ts ≡ some t
    → exists? (miscounts ms) ts ≡ false
    → distinct_threads ts ≡ true
    → g.id ≡ t.id
    → m.thread_ref_id ≡ t.id
    → (counts ms t ≡ true → counts (ms ++ m ∷ []) g ≡ true)
    → exists? (miscounts (ms ++ m ∷ [])) (replace (has_thread_key g.id) g ts) ≡ false
unfolding replace find?
replace-counts t g [] ms m f h d i o c = cc
replace-counts t g (u ∷ ts) ms m f h d i o c = elim (Bool-cases (u.id == t.id)) [
  | inl e ↦
      let hit : (u.id == g.id) ≡ true = ground arith in
      let same : u ≡ t = ground arith in
      let counted : counts ms t ≡ true = subst (λ x. counts ms x ≡ true) same (ground arith) in
      let found = c counted in
      let key : u.id ≡ m.thread_ref_id = eq_of_test u.id t.id e ∙ sym o in
      let alone = subst (λ k. exists? (has_thread_key k) ts ≡ false) key (ground arith) in
      let rest = others_count ts ms m alone in ground arith
  | inr e ↦
      let missed : (u.id == g.id) ≡ false = ground arith in
      let rest = replace-counts t g ts ms m (ground arith) (ground arith) (ground arith) i o c in
      let other : mine u.id m ≡ false = ground arith in
      let n = numbered-append u.id 0 ms m in let k = count-append u.id ms m in ground arith
]

orphan-append :
    (ts us : List Thread) (ms : List Message)
    → ((k : ℕ) → exists? (has_thread_key k) us ≡ exists? (has_thread_key k) ts)
    → exists? (orphan us) ms ≡ exists? (orphan ts) ms
orphan-append ts us [] a = refl
orphan-append ts us (m ∷ ms) a =
    let rest = orphan-append ts us ms a in let here = a m.thread_ref_id in ground arith

pub exists-append {ℓ} :
    {A : Type ℓ} (p : A → Bool) (xs : List A) (y : A)
    → exists? p (xs ++ y ∷ []) ≡ (exists? p xs || p y)
exists-append p [] y = ground arith
exists-append p (x ∷ xs) y = let rest = exists-append p xs y in ground arith

find-exists :
    (k : ℕ) (ts : List Thread) (t : Thread)
    → find? (has_thread_key k) ts ≡ some t
    → exists? (has_thread_key k) ts ≡ true
unfolding find?
find-exists k [] t f = cc
find-exists k (u ∷ ts) t f = ground (arith, find-exists k ts t)

-- the tables after a message of a thread
pub is_kept-grown :
    (t g : Thread) (ts : List Thread) (ms : List Message) (m : Message)
    → is_kept ts ms ≡ true
    → find? (has_thread_key t.id) ts ≡ some t
    → g.id ≡ t.id
    → g.last_sequence ≡ suc t.last_sequence
    → g.message_count ≡ suc t.message_count
    → m.thread_ref_id ≡ t.id
    → m.sequence ≡ suc t.last_sequence
    → is_kept (replace (has_thread_key g.id) g ts) (ms ++ m ∷ []) ≡ true
is_kept-grown t g ts ms m h f i l k o s =
    let us = replace (has_thread_key g.id) g ts in
    let counted =
      replace-counts t g ts ms m f (ground arith) (ground arith) i o
        (λ c. grown_counts t g ms m c i l k o s) in
    let apart = replace-distinct g ts in
    let owned = orphan-append ts us ms (λ k. replace-keys k g ts) in
    let more = exists-append (orphan us) ms m in
    let there : exists? (has_thread_key m.thread_ref_id) ts ≡ true =
      subst (λ k. exists? (has_thread_key k) ts ≡ true) (sym o) (find-exists t.id ts t f) in
    let kept = replace-keys m.thread_ref_id g ts in ground arith
