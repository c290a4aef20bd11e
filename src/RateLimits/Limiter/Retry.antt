-- ===== src/RateLimits/Limiter/Retry.antt =====
-- A client that waits as long as it is told is admitted.
use super_mew.Prelude.{
  ℕ, ◌+◌, ◌-◌, ◌*◌, ◌≤◌, ◌≡◌, refl, sym, ap, subst, ◌∙◌, String, Option, some, Bool, true, false,
  leb, ltb, eq_refl, arith, if◌then◌else◌, test_of_le,
}
use super_mew.RateLimits.Contracts.{
  RateLimitPolicy, RateLimitCheck, RateLimitSnapshot, RateLimitDecision, Outcome, done, unavailable,
}
use super_mew.RateLimits.Memory.{
  MemoryWindow, InMemory, unexpired, current, charge, consume_window, consume,
}
use super_mew.RateLimits.Limiter.{
  RateLimiter, memory_adapter, ceil_seconds, retry_of, decide, key_of, check_limit,
}

charge-reset_at :
    (p : RateLimitPolicy) (cost : ℕ) (w : MemoryWindow) → (charge p cost w).reset_at ≡ w.reset_at
charge-reset_at p cost w = go (leb (w.count + cost) p.limit)
  where
    go : (b : Bool) → (if b then record w { count = w.count + cost } else w).reset_at ≡ w.reset_at
    go true = refl
    go false = refl

-- a window that is over at a later time does not bind the call then
consume_window-over :
    (now : ℕ) (key : String) (p : RateLimitPolicy) (cost : ℕ) (w : String → Option MemoryWindow)
    (later : ℕ) (more : ℕ)
    → (consume_window now key p cost w).0.reset_at ≤ later
    → (consume_window later key p more (consume_window now key p cost w).1).0.allowed
      ≡ leb (0 + more) p.limit
unfolding consume_window
consume_window-over now key p cost w later more over =
    let before = current p now (unexpired now (w key)) in
    let ended : leb (charge p cost before).reset_at later ≡ true =
      test_of_le (charge p cost before).reset_at later
        (subst (λ r. r ≤ later) (sym (charge-reset_at p cost before)) over) in
    rw (eq_refl key) (rw ended refl)

-- the wait that a refusal names is not shorter than what is left of the window
retry_of-covers :
    (s : RateLimitSnapshot) → s.allowed ≡ false → s.reset_at ≤ s.observed_at + retry_of s * 1000
retry_of-covers s no_entry = rw no_entry (omega arith)

not_above : (a b : ℕ) → ltb a (a - b) ≡ false
not_above a b = ground arith

retry_of-positive : (s : RateLimitSnapshot) → s.allowed ≡ false → 1 ≤ retry_of s
retry_of-positive s no_entry = rw no_entry (omega arith)

abbrev decision_in : RateLimitDecision → Outcome RateLimitDecision → RateLimitDecision
decision_in d (done d') = d'
decision_in d (unavailable u) = d

module _ (matcher : String → String → RateLimitPolicy)
    (fingerprint : String → String → String) where
  module _ (key_prefix : String) (check : RateLimitCheck) where
    abbrev asked :
        Option ℕ → RateLimiter InMemory → Outcome RateLimitDecision × RateLimiter InMemory
    asked clock l = check_limit matcher fingerprint key_prefix memory_adapter clock check l

    abbrev key : String
    key = key_of matcher fingerprint key_prefix check

    abbrev policy : RateLimitPolicy
    policy = matcher check.method check.path

    abbrev taken :
        ℕ → (String → Option MemoryWindow) → RateLimitSnapshot × (String → Option MemoryWindow)
    taken now w = consume_window now key policy check.cost w

    abbrev decision : RateLimitSnapshot → RateLimitDecision
    decision s = record {
      policy_id = policy.id;
      allowed = s.allowed;
      limit = policy.limit;
      remaining = s.remaining;
      retry_after = retry_of s;
      reset = ceil_seconds s.reset_at;
    }

    abbrev limiter : (String → Option MemoryWindow) → RateLimiter InMemory
    limiter w = record { adapter = record { windows = w; closed = false }; closed = false }

    observed : (now : ℕ) (w : String → Option MemoryWindow) → (taken now w).0.observed_at ≡ now
    unfolding consume_window
    observed now w = refl

    asked_is :
        (now : ℕ) (w : String → Option MemoryWindow)
        → asked (some now) (limiter w) ≡ (done (decision (taken now w).0), limiter (taken now w).1)
    unfolding check_limit consume decide consume_window
    asked_is now w =
        rw
          (not_above policy.limit
            (charge policy check.cost (current policy now (unexpired now (w key)))).count)
          refl

    over_at :
        (now : ℕ) (w : String → Option MemoryWindow) (later : ℕ)
        → (taken now w).0.allowed ≡ false
        → now + retry_of (taken now w).0 * 1000 ≤ later
        → (taken now w).0.reset_at ≤ later
    over_at now w later refused wait =
        let covers = retry_of-covers (taken now w).0 refused in
        let at : (taken now w).0.observed_at ≡ now = observed now w in
        omega (arith, covers, wait, at)

    -- An open limiter over an open in-memory adapter that refuses a client names a wait of at
    -- least a second; the same request, of a cost within the policy's limit, is allowed at any time
    -- that is at least that wait later, if no other request has come between.
    pub check_limit-retry :
        (now later : ℕ) (w : String → Option MemoryWindow) (d : RateLimitDecision)
        (l : RateLimiter InMemory)
        → asked (some now) (limiter w) ≡ (done d, l)
        → d.allowed ≡ false
        → check.cost ≤ policy.limit
        → now + d.retry_after * 1000 ≤ later
        → (1 ≤ d.retry_after)
          × (d' : RateLimitDecision) × (l' : RateLimiter InMemory) × (asked (some later) l
              ≡ (done d', l'))
          × (d'.allowed ≡ true)
    check_limit-retry now later w d l e no_entry fits wait =
        let s = (taken now w).0 in
        let same = sym (asked_is now w) ∙ e in
        let limits : limiter (taken now w).1 ≡ l = ap (λ x. x.1) same in
        let decides : decision s ≡ d = ap (λ x. decision_in (decision s) x.0) same in
        let refused : s.allowed ≡ false =
          ap (λ (x : RateLimitDecision). x.allowed) decides ∙ no_entry in
        let waits : retry_of s ≡ d.retry_after =
          ap (λ (x : RateLimitDecision). x.retry_after) decides in
        let over = over_at now w later refused (omega (arith, waits, wait)) in
        let next = taken later (taken now w).1 in
        (
          subst (λ n. 1 ≤ n) waits (retry_of-positive s refused),
          decision next.0,
          limiter next.1,
          ap (asked (some later)) (sym limits) ∙ asked_is later (taken now w).1,
          consume_window-over now key policy check.cost w later check.cost over
              ∙ test_of_le (0 + check.cost) policy.limit (omega (arith, fits)),
        )
