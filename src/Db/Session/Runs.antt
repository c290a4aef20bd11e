-- ===== src/Db/Session/Runs.antt =====
-- The table of runs as a map from ids to rows.
use super_mew.Prelude.{
  String, none, some, false, inl, inr, List, [], ◌∷◌, ◌++◌, ◌≡◌, refl, find?, replace, str_eq,
  eq_iff, eq_refl, arith, Bool-cases, exists?, if◌then◌else◌,
}
use super_mew.Db.Rows.{Run}
use super_mew.Db.Session.{has_id}

-- ids are keys: no two rows have one id
abbrev pub Keyed : List Run → Type 0
Keyed [] = Unit
Keyed (r ∷ rs) = (exists? (has_id r.id) rs ≡ false) × Keyed rs

pub find-replace_self :
    (r : Run) (rs : List Run) {s : Run}
    → find? (has_id r.id) rs ≡ some s
    → find? (has_id r.id) (replace (has_id r.id) r rs) ≡ some r
unfolding find? replace
find-replace_self r [] h = ground arith
find-replace_self r (x ∷ rs) {s} h = ground (arith, find-replace_self r rs {s = s}, eq_refl r.id)

pub find-replace_ne :
    (k : String) (r : Run) (rs : List Run)
    → str_eq r.id k ≡ false
    → find? (has_id k) (replace (has_id r.id) r rs) ≡ find? (has_id k) rs
unfolding find? replace
find-replace_ne k r [] h = refl
find-replace_ne k r (x ∷ rs) h =
    ground (arith, find-replace_ne k r rs h, eq_iff x.id r.id, eq_iff x.id k, eq_iff r.id k)

-- a query for `k` after an UPDATE
pub query-replace :
    (k : String) (r : Run) (rs : List Run) {s : Run}
    → find? (has_id r.id) rs ≡ some s
    → find? (has_id k) (replace (has_id r.id) r rs)
      ≡ (if str_eq r.id k then some r else find? (has_id k) rs)
query-replace k r rs h = elim (Bool-cases (str_eq r.id k)) [
  | inl e ↦ rw e (rw (← (eq_iff r.id k).0 e) (find-replace_self r rs h))
  | inr e ↦ rw e (find-replace_ne k r rs e)
]

-- a query for `k` after an INSERT of a new key
pub query-append :
    (k : String) (r : Run) (rs : List Run)
    → exists? (has_id r.id) rs ≡ false
    → find? (has_id k) (rs ++ r ∷ []) ≡ (if str_eq r.id k then some r else find? (has_id k) rs)
unfolding find?
query-append k r [] h = refl
query-append k r (x ∷ rs) h =
    ground (arith, query-append k r rs, eq_iff x.id r.id, eq_iff x.id k, eq_iff r.id k)

exists-replace :
    (k : String) (r : Run) (rs : List Run)
    → exists? (has_id k) rs ≡ false
    → str_eq r.id k ≡ false
    → exists? (has_id k) (replace (has_id r.id) r rs) ≡ false
unfolding replace
exists-replace k r [] h n = refl
exists-replace k r (x ∷ rs) h n = ground (arith, exists-replace k r rs)

pub Keyed-replace : (r : Run) (rs : List Run) → Keyed rs → Keyed (replace (has_id r.id) r rs)
unfolding replace
Keyed-replace r [] h = tt
Keyed-replace r (x ∷ rs) h = elim (Bool-cases (str_eq x.id r.id)) [
  | inl e ↦ rw e (rw (← (eq_iff x.id r.id).0 e) h.0, h.1)
  | inr e ↦ rw e (
    exists-replace x.id r rs h.0 (ground (arith, eq_iff x.id r.id, eq_iff r.id x.id)),
    Keyed-replace r rs h.1,
  )
]

exists-append :
    (k : String) (r : Run) (rs : List Run)
    → exists? (has_id k) rs ≡ false
    → str_eq r.id k ≡ false
    → exists? (has_id k) (rs ++ r ∷ []) ≡ false
exists-append k r [] h n = ground arith
exists-append k r (x ∷ rs) h n = ground (arith, exists-append k r rs)

pub Keyed-append :
    (r : Run) (rs : List Run) → exists? (has_id r.id) rs ≡ false → Keyed rs → Keyed (rs ++ r ∷ [])
Keyed-append r [] e h = (refl, tt)
Keyed-append r (x ∷ rs) e h = (
  exists-append x.id r rs h.0 (ground (arith, eq_iff x.id r.id, eq_iff r.id x.id)),
  Keyed-append r rs (ground arith) h.1,
)

-- a row with the key is the row that a query finds
pub find-eq-none :
    (k : String) (rs : List Run) → exists? (has_id k) rs ≡ false → find? (has_id k) rs ≡ none
unfolding find?
find-eq-none k [] h = refl
find-eq-none k (x ∷ rs) h = ground (arith, find-eq-none k rs)

-- a query answers with the key that it was asked for
pub id-query : (k : String) (rs : List Run) {r : Run} → find? (has_id k) rs ≡ some r → r.id ≡ k
unfolding find?
id-query k [] h = cc
id-query k (x ∷ rs) {r} h = ground (arith, id-query k rs {r = r}, eq_iff x.id k)
