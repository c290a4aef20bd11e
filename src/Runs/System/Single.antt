-- ===== src/Runs/System/Single.antt =====
-- A thread has one active run at most.
use super_mew.Prelude.{
  ℕ, ◌+◌, ◌≤◌, Bool, true, false, List, [], ◌∷◌, ◌++◌, ◌≡◌, refl, subst, arith, eq_iff, inl, inr,
  Bool-cases, both_false, replace, count, exists?, if◌then◌else◌,
}
use super_mew.Db.Rows.{Run}
use super_mew.Db.Session.{Db, has_id, clashes, clashes_other}
use super_mew.Db.Session.Runs.{Keyed}
use super_mew.Runs.Repository.Reserve.{active_in}
use super_mew.Runs.Evolution.{Evolves, stay, after, write, log, beside, open_run}
use super_mew.Runs.Evolution.Invariants.{Evolves-Keyed}
use super_mew.Runs.System.{Config, Op, perform_all}
use super_mew.Runs.System.History.{perform_all-Evolves}

-- two active runs of a thread clash
active-clashes :
    (thread : ℕ) (r s : Run)
    → active_in thread r ≡ true
    → clashes r s ≡ false
    → active_in thread s ≡ false
unfolding clashes
active-clashes thread r s a c = ground arith

count-clashes :
    (thread : ℕ) (r : Run) (rs : List Run)
    → active_in thread r ≡ true
    → exists? (clashes r) rs ≡ false
    → count (active_in thread) rs ≡ 0
unfolding count
count-clashes thread r [] a c = refl
count-clashes thread r (x ∷ rs) a c =
    let (head, rest) = both_false (clashes r x) (exists? (clashes r) rs) c in
    rw (active-clashes thread r x a head) (omega (arith, count-clashes thread r rs a rest))

count-append_one :
    (p : Run → Bool) (r : Run) (rs : List Run)
    → count p (rs ++ r ∷ []) ≡ count p rs + (if p r then 1 else 0)
unfolding count
count-append_one p r [] = omega arith
count-append_one p r (x ∷ rs) = omega (arith, count-append_one p r rs)

count-replace_inactive :
    (p : Run → Bool) (r : Run) (rs : List Run)
    → p r ≡ false
    → count p (replace (has_id r.id) r rs) ≤ count p rs
unfolding count replace
count-replace_inactive p r [] h = omega arith
count-replace_inactive p r (x ∷ rs) h = elim (Bool-cases (has_id r.id x)) [
  | inl e ↦ rw (e, h) (omega arith)
  | inr e ↦ rw e (omega (arith, count-replace_inactive p r rs h))
]

count-others :
    (thread : ℕ) (r : Run) (rs : List Run)
    → active_in thread r ≡ true
    → exists? (clashes_other r) rs ≡ false
    → exists? (has_id r.id) rs ≡ false
    → count (active_in thread) rs ≡ 0
unfolding count clashes_other
count-others thread r [] a c k = refl
count-others thread r (x ∷ rs) a c k =
    let (head, rest) = both_false (clashes_other r x) (exists? (clashes_other r) rs) c in
    let (other, others) = both_false (has_id r.id x) (exists? (has_id r.id) rs) k in
    let apart : clashes r x ≡ false = rw other at head in
    rw (active-clashes thread r x a apart) (omega (arith, count-others thread r rs a rest others))

count-replace_active :
    (thread : ℕ) (r : Run) (rs : List Run)
    → active_in thread r ≡ true
    → exists? (clashes_other r) rs ≡ false
    → Keyed rs
    → count (active_in thread) (replace (has_id r.id) r rs) ≤ 1
unfolding count replace clashes_other
count-replace_active thread r [] a c k = omega arith
count-replace_active thread r (x ∷ rs) a c k =
    let (head, rest) = both_false (clashes_other r x) (exists? (clashes_other r) rs) c in
    elim (Bool-cases (has_id r.id x)) [
      | inl e ↦
          let fresh = subst (λ i. exists? (has_id i) rs ≡ false) ((eq_iff x.id r.id).0 e) k.0 in
          rw (e, a) (omega (arith, count-others thread r rs a rest fresh))
      | inr e ↦
          let apart : clashes r x ≡ false = rw e at head in
          rw (e, active-clashes thread r x a apart)
            (omega (arith, count-replace_active thread r rs a rest k.1))
    ]

-- no thread has two active runs
pub record IsSingle (db : Db) : Type 0 where
  pub one : (thread : ℕ) → count (active_in thread) db.runs ≤ 1

replace-one :
    (thread : ℕ) (r : Run) (rs : List Run)
    → count (active_in thread) rs ≤ 1
    → exists? (clashes_other r) rs ≡ false
    → Keyed rs
    → count (active_in thread) (replace (has_id r.id) r rs) ≤ 1
replace-one thread r rs h c k = elim (Bool-cases (active_in thread r)) [
  | inl a ↦ count-replace_active thread r rs a c k
  | inr a ↦ omega (arith, count-replace_inactive (active_in thread) r rs a, h)
]

append-one :
    (thread : ℕ) (r : Run) (rs : List Run)
    → count (active_in thread) rs ≤ 1
    → exists? (clashes r) rs ≡ false
    → count (active_in thread) (rs ++ r ∷ []) ≤ 1
append-one thread r rs h c = elim (Bool-cases (active_in thread r)) [
  | inl a ↦
      let none_before = count-clashes thread r rs a c in
      let sum = count-append_one (active_in thread) r rs in omega (arith, none_before, rw a at sum)
  | inr a ↦ let sum = count-append_one (active_in thread) r rs in omega (arith, h, rw a at sum)
]

pub Evolves-IsSingle : {a b : Db} → Evolves a b → Keyed a.runs → IsSingle a → IsSingle b
Evolves-IsSingle stay k h = h
Evolves-IsSingle (after p q) k h = Evolves-IsSingle q (Evolves-Keyed p k) (Evolves-IsSingle p k h)
Evolves-IsSingle (write {db} r r' _ _ _ c) k h = record {
  one = λ thread. replace-one thread r' db.runs (h.one thread) c k;
}
Evolves-IsSingle (log {db} r r' _ _ _ _ _ c _ _ _) k h = record {
  one = λ thread. replace-one thread r' db.runs (h.one thread) c k;
}
Evolves-IsSingle (beside _ _) k h = record { one = h.one }
Evolves-IsSingle (open_run {db} r _ c _) k h = record {
  one = λ thread. append-one thread r db.runs (h.one thread) c;
}

-- Whatever of the eight transactions of runs are run on tables whose runs have different ids:
-- if no thread had two active runs before, none has after.
pub perform_all-IsSingle :
    (c : Config) (ops : List Op) (db : Db)
    → Keyed db.runs
    → IsSingle db
    → IsSingle (perform_all c ops db)
perform_all-IsSingle c ops db k h = Evolves-IsSingle (perform_all-Evolves c ops db k) k h
