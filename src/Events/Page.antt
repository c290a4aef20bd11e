-- ===== src/Events/Page.antt =====
-- The pages of backend/events/journal.py, `RunEventJournal.read_after`, over numbered events.
use super_mew.Prelude.{
  ℕ, zero, suc, ◌+◌, ◌-◌, min, max, ℤ, String, Option, some, Bool, true, ◌&&◌, List, [], ◌∷◌, ◌++◌,
  map, length, ltb, ◌==◌, str_eq, max_zero, select, take, ◌≡◌, inl, inr, refl, ap, ◌∙◌, arith,
  Bool-cases, Option-cases,
}
use super_mew.Db.Rows.{Run, Thread, RunEvent}
use super_mew.Db.Session.{Db, query_run, query_thread}
use super_mew.Runs.Evolution.Invariants.{IsJournaled, up_to, counter}
use super_mew.Events.Journal.{insert_by_sequence, order_by_sequence, page_after, page_size, visible}

-- `n` numbers after `a`
abbrev pub span : ℕ → ℕ → List ℕ
span a zero = []
span a (suc n) = suc a ∷ span (suc a) n

abbrev pub numbers : List RunEvent → List ℕ
numbers es = map (λ (e : RunEvent). e.sequence) es

-- the numbers of the events are those after `a`
abbrev pub climbs : ℕ → List RunEvent → Bool
climbs a [] = true
climbs a (e ∷ es) = e.sequence == suc a && climbs (suc a) es

span-snoc : (a n : ℕ) → span a n ++ suc (a + n) ∷ [] ≡ span a (suc n)
span-snoc a zero = ap (λ x. suc x ∷ []) (omega arith)
span-snoc a (suc n) =
    ap (λ xs. suc a ∷ xs)
      (ap (λ x. span (suc a) n ++ suc x ∷ []) (omega arith) ∙ span-snoc (suc a) n)

up_to-span : (n : ℕ) → up_to n ≡ span 0 n
up_to-span zero = refl
up_to-span (suc n) =
    ap (λ xs. xs ++ suc n ∷ []) (up_to-span n)
    ∙ ap (λ x. span 0 n ++ suc x ∷ []) (omega arith)
    ∙ span-snoc 0 n

climbs-span :
    (a n : ℕ) (es : List RunEvent) → numbers es ≡ span a n → (climbs a es ≡ true) × (length es ≡ n)
climbs-span a zero [] h = (refl, refl)
climbs-span a (suc n) [] h = cc
climbs-span a zero (e ∷ es) h = cc
climbs-span a (suc n) (e ∷ es) h =
    let (x, y) = climbs-span (suc a) n es (ground arith) in (ground arith, ground arith)

pub span-climbs :
    (a : ℕ) (es : List RunEvent) → climbs a es ≡ true → numbers es ≡ span a (length es)
span-climbs a [] h = refl
span-climbs a (e ∷ es) h =
    let rest = span-climbs (suc a) es (ground arith) in
    let here : e.sequence ≡ suc a = ground arith in ground arith

-- the events of a run after a number are those of the run, after the number
abbrev above : ℕ → RunEvent → Bool
above c e = ltb c e.sequence

select-above :
    (k : String) (c : ℕ) (es : List RunEvent)
    → select (λ (e : RunEvent). str_eq e.run_id k && ltb c e.sequence) es
      ≡ select (above c) (select (λ (e : RunEvent). str_eq e.run_id k) es)
unfolding select
select-above k c [] = refl
select-above k c (e ∷ es) = let rest = select-above k c es in ground arith

climbs-above :
    (c a : ℕ) (es : List RunEvent)
    → climbs a es ≡ true
    → (climbs (max a c) (select (above c) es) ≡ true)
      × (length (select (above c) es) ≡ a + length es - max a c)
unfolding select
climbs-above c a [] h = (refl, omega arith)
climbs-above c a (e ∷ es) h =
    let (x, y) = climbs-above c (suc a) es (ground arith) in
    let here : e.sequence ≡ suc a = ground arith in
    elim (Bool-cases (ltb c (suc a))) [
      | inl o ↦
          let m : max a c ≡ a = ground arith in
          let m' : max (suc a) c ≡ suc a = ground arith in (ground arith, ground arith)
      | inr o ↦
          let m : max a c ≡ c = ground arith in
          let m' : max (suc a) c ≡ c = ground arith in (ground arith, ground arith)
    ]

pub climbs-order : (a : ℕ) (es : List RunEvent) → climbs a es ≡ true → order_by_sequence es ≡ es
unfolding order_by_sequence insert_by_sequence
climbs-order a [] h = refl
climbs-order a (e ∷ []) h = refl
climbs-order a (e ∷ f ∷ es) h =
    let rest = climbs-order (suc a) (f ∷ es) (ground arith) in ground arith

climbs-take :
    (a n : ℕ) (es : List RunEvent)
    → climbs a es ≡ true
    → (climbs a (take n es) ≡ true) × (length (take n es) ≡ min n (length es))
climbs-take a zero es h = (refl, omega arith)
climbs-take a (suc n) [] h = (refl, omega arith)
climbs-take a (suc n) (e ∷ es) h =
    let (x, y) = climbs-take (suc a) n es (ground arith) in (ground arith, ground arith)

-- the events of a run of a journal, after a number
pub journal-above :
    (db : Db) (k : String) (c : ℕ)
    → IsJournaled db
    → let es = select (λ (e : RunEvent). str_eq e.run_id k && ltb c e.sequence) db.events in
      (climbs c es ≡ true) × (length es ≡ counter (query_run k db) - c)
journal-above db k c j =
    let mine = select (λ (e : RunEvent). str_eq e.run_id k) db.events in
    let n = counter (query_run k db) in
    let (x, y) = climbs-span 0 n mine (j.numbers k ∙ up_to-span n) in
    let (x', y') = climbs-above c 0 mine x in
    let m : max 0 c ≡ c = omega arith in
    let fused = select-above k c db.events in (ground arith, ground arith)

-- In a journal whose events are numbered with no gap up to the counters of their runs, the page
-- of a run that is there with its thread, and that the named user owns if one is named, holds
-- the events after the cursor in order and with no gap: as many as the limit of the page
-- allows, or all up to the counter.
pub page_after-span :
    (db : Db) (run_id : String) (after limit : ℤ) (username : Option String) (run : Run)
    (thread : Thread)
    → IsJournaled db
    → query_run run_id db ≡ some run
    → query_thread run.thread_ref_id db ≡ some thread
    → visible username run db ≡ true
    → numbers (page_after run_id after limit username db)
      ≡ span (max_zero after) (min (page_size limit) (run.last_event_sequence - max_zero after))
unfolding page_after
page_after-span db run_id after limit username run thread j q u v =
    let c = max_zero after in
    let es = select (λ (e : RunEvent). str_eq e.run_id run_id && ltb c e.sequence) db.events in
    let (x, y) = journal-above db run_id c j in
    let (x', y') = climbs-take c (page_size limit) es x in
    let sorted = climbs-order c es x in
    let known : counter (query_run run_id db) ≡ run.last_event_sequence = ap counter q in
    let page : page_after run_id after limit username db ≡ take (page_size limit) es =
      ground arith in
    ap numbers page ∙ span-climbs c (take (page_size limit) es) x' ∙ ap (span c) (ground arith)

-- the page of a run, whatever it is asked for
pub page_after-climbs :
    (db : Db) (run_id : String) (after limit : ℤ) (username : Option String)
    → IsJournaled db
    → climbs (max_zero after) (page_after run_id after limit username db) ≡ true
unfolding page_after
page_after-climbs db run_id after limit username j =
    let c = max_zero after in
    let es = select (λ (e : RunEvent). str_eq e.run_id run_id && ltb c e.sequence) db.events in
    let (x, y) = journal-above db run_id c j in
    let (x', y') = climbs-take c (page_size limit) es x in
    let sorted = climbs-order c es x in
    elim (Option-cases (query_run run_id db)) [
      | inl e ↦ ground arith
      | inr (run, e) ↦ elim (Option-cases (query_thread run.thread_ref_id db)) [
        | inl f ↦ ground arith
        | inr (thread, f) ↦ ground arith
      ]
    ]
