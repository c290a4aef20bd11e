-- ===== src/Runs/Evolution/Descent.antt =====
-- What becomes of one run over any moves: its status follows the transition table, its token and
-- its counter do not fall, and once terminal it changes no more but for its counter.
use super_mew.Prelude.{
  ◌≤◌, String, some, Bool, true, not, [], ◌∷◌, ◌≡◌, refl, sym, ap, subst, ◌∙◌, arith, str_eq,
  eq_iff, inl, inr, Bool-cases, find?, replace,
}
use mathlib.Core.Option.{some-injective}
use super_mew.Runs.State.{
  RunStatus, queued, cancelling, succeeded, failed, cancelled, same_status, is_in, is_terminal,
}
use super_mew.Db.Rows.{Run}
use super_mew.Db.Session.{Db, has_id, query_run}
use super_mew.Db.Session.Runs.{query-append, find-eq-none}
use super_mew.Runs.Evolution.{moves_to, RunStep, Evolves, stay, after, write, log, beside, open_run}
use super_mew.Runs.Evolution.Invariants.{query-write}

-- The statuses that one status can become, in any number of moves: a queued run anything, a run
-- that is being cancelled nothing but cancelled, a terminal run nothing, any other all but queued.
unfoldable pub can_become : RunStatus → RunStatus → Bool
can_become queued t = true
can_become cancelling t = is_in t (cancelling ∷ cancelled ∷ [])
can_become succeeded t = same_status t succeeded
can_become failed t = same_status t failed
can_become cancelled t = same_status t cancelled
can_become _ t = not (same_status t queued)

can_become-moves_to : (s t : RunStatus) → moves_to s t ≡ true → can_become s t ≡ true
unfolding moves_to can_become
can_become-moves_to queued t h = refl
can_become-moves_to _ t h = ground arith

can_become_trans :
    (s t u : RunStatus) → can_become s t ≡ true → can_become t u ≡ true → can_become s u ≡ true
unfolding can_become
can_become_trans queued t u p q = refl
can_become_trans _ t u p q = ground arith

can_become_refl : (s : RunStatus) → can_become s s ≡ true
unfolding can_become
can_become_refl queued = refl
can_become_refl _ = refl

pub record Descends (r r' : Run) : Type 0 where
  pub request : r'.request ≡ r.request
  pub status : can_become r.status r'.status ≡ true
  pub fencing : r.fencing_token ≤ r'.fencing_token
  pub counter : r.last_event_sequence ≤ r'.last_event_sequence
  pub frozen :
      is_terminal r.status ≡ true → r' ≡ record r { last_event_sequence = r'.last_event_sequence }

pub Descends-refl : (r : Run) → Descends r r
Descends-refl r = record {
  request = refl;
  status = can_become_refl r.status;
  fencing = omega arith;
  counter = omega arith;
  frozen = λ h. refl;
}

pub Descends-trans : {r s t : Run} → Descends r s → Descends s t → Descends r t
Descends-trans {r} {s} {t} p q = record {
  request = q.request ∙ p.request;
  status = can_become_trans r.status s.status t.status p.status q.status;
  fencing = omega arith;
  counter = omega arith;
  frozen = λ h.
      let e : s ≡ record r { last_event_sequence = s.last_event_sequence } = p.frozen h in
      q.frozen (subst (λ (x : Run). is_terminal x.status ≡ true) (sym e) h)
      ∙ ap (λ (x : Run). record x { last_event_sequence = t.last_event_sequence }) e;
}

Descends-step :
    {r r' : Run} → RunStep r r' → r.last_event_sequence ≤ r'.last_event_sequence → Descends r r'
Descends-step {r} {r'} s n = record {
  request = s.request;
  status = can_become-moves_to r.status r'.status s.status;
  fencing = s.fencing;
  counter = n;
  frozen = s.frozen;
}

-- after a write of the run that `r` was, the run of any key descends from what it was
descent-write :
    (k : String) (db : Db) (r r' x : Run)
    → query_run r.id db ≡ some r
    → RunStep r r'
    → r.last_event_sequence ≤ r'.last_event_sequence
    → query_run k db ≡ some x
    → (y : Run) × (find? (has_id k) (replace (has_id r'.id) r' db.runs) ≡ some y) × Descends x y
descent-write k db r r' x q s n h = elim (Bool-cases (str_eq r.id k)) [
  | inl e ↦ (
    r',
    query-write k db r r' q s ∙ rw e,
    subst (λ (z : Run). Descends z r')
        (some-injective r x
          (sym (subst (λ i. query_run i db ≡ some r) ((eq_iff r.id k).0 e) q) ∙ h))
        (Descends-step s n),
  )
  | inr e ↦ (x, query-write k db r r' q s ∙ rw (e, h), Descends-refl x)
]

-- A run stays in the table, and descends from what it was.
pub Evolves-Descends :
    {a b : Db} (k : String) {r : Run}
    → Evolves a b
    → query_run k a ≡ some r
    → (r' : Run) × (query_run k b ≡ some r') × Descends r r'
unfolding query_run
Evolves-Descends k {r = r} stay h = (r, h, Descends-refl r)
Evolves-Descends k (after p q) h =
    let (s, hs, d) = Evolves-Descends k p h in
    let (t, ht, e) = Evolves-Descends k q hs in (t, ht, Descends-trans d e)
Evolves-Descends k {r = x} (write {db} r r' q s n _) h =
    descent-write k db r r' x q s (omega arith) h
Evolves-Descends k {r = x} (log {db} r r' _ _ q s n _ _ _ _) h =
    descent-write k db r r' x q s (omega arith) h
Evolves-Descends k {r = r} (beside _ _) h = (r, h, Descends-refl r)
Evolves-Descends k {r = x} (open_run {db} r fresh _ _) h = (
  x,
  query-append k r db.runs fresh
      ∙ ground (arith, find-eq-none r.id db.runs fresh, eq_iff r.id k, h),
  Descends-refl x,
)
