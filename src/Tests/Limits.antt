-- ===== src/Tests/Limits.antt =====
-- The rate limiter at concrete calls.
use super_mew.Prelude.{
  ℕ, ◌≤◌, String, Option, none, some, Bool, true, false, List, [], ◌∷◌, ◌≡◌, refl, map, arith, ltb,
  str_eq, eq_refl, if◌then◌else◌,
}
use super_mew.RateLimits.Contracts.{
  RateLimitPolicy, IsPolicy, RateLimitCheck, RateLimitSnapshot, RateLimitDecision, Outcome, done,
}
use super_mew.RateLimits.Memory.{MemoryWindow, InMemory, opened_memory, consume_window, consume}
use super_mew.RateLimits.Redis.{Redis, IsRedis, Field, window_start_ms, count}
use super_mew.RateLimits.Limiter.{RateLimiter, memory_adapter, decide, check_limit}
use super_mew.RateLimits.Limiter.Retry.{check_limit-retry}
use super_mew.RateLimits.Counter.{Call, admitted}
use super_mew.RateLimits.Refinement.{InOrder}
use super_mew.RateLimits.Refinement.Adapters.{
  memory_replies, redis_replies, memory_within_limit, redis-memory,
}

abbrev two_a_minute : RateLimitPolicy
two_a_minute = record { id = "two"; limit = 2; window_seconds = 60 }

abbrev policy : String → RateLimitPolicy
policy k = two_a_minute

valid : (k : String) → IsPolicy (policy k)
valid k = record { some_limit = omega arith; some_window = omega arith }

abbrev call : ℕ → ℕ → Call
call at cost = record { at = at; key = "k"; cost = cost }

-- two calls in the first minute are admitted, the third is not, and one in the next minute is
abbrev calls : List Call
calls = call 1000 1 ∷ call 2000 1 ∷ call 59999 1 ∷ call 60000 1 ∷ []

calls-InOrder : InOrder 0 calls
calls-InOrder = (omega arith, (omega arith, (omega arith, (omega arith, tt))))

abbrev allowed_of : Outcome RateLimitSnapshot → Bool
allowed_of (done s) = s.allowed
allowed_of _ = false

calls-replies :
    map allowed_of (memory_replies policy calls opened_memory) ≡ true ∷ true ∷ false ∷ true ∷ []
unfolding memory_replies consume consume_window
calls-replies = refl

memory_within_limit_example :
    (snapshots : List RateLimitSnapshot) × (memory_replies policy calls opened_memory
      ≡ map done snapshots)
    × ((k : String) (n : ℕ) → admitted policy k n calls snapshots ≤ (policy k).limit)
memory_within_limit_example = memory_within_limit policy valid calls calls-InOrder

-- a store with expiring keys
abbrev Entry : Type 0
Entry = Option (ℕ × ℕ × ℕ)

abbrev read : ℕ → Field → Entry → Option ℕ
read now f none = none
read now window_start_ms (some (start, n, expiry)) = if ltb now expiry then some start else none
read now count (some (start, n, expiry)) = if ltb now expiry then some n else none

abbrev store : Redis (String → Entry)
store = record {
  hget = λ now k f s. read now f (s k);
  write = λ k start n expiry s j. if str_eq k j then some (start, n, expiry) else s j;
}

store-IsRedis : IsRedis store
store-IsRedis = record {
  start = λ s k start n expiry t l. rw (eq_refl k) (ground arith);
  held = λ s k start n expiry t l. rw (eq_refl k) (ground arith);
  expired = expired;
  other = λ s k j f start n expiry t e. rw e refl;
}
  where
    expired :
        (s : String → Entry) (k : String) (f : Field) (start n at t : ℕ)
        → at ≤ t
        → store.hget t k f (store.write k start n at s) ≡ none
    expired s k window_start_ms start n at t l = rw (eq_refl k) (ground arith)
    expired s k count start n at t l = rw (eq_refl k) (ground arith)

nothing_held : (t : ℕ) (k : String) (f : Field) → store.hget t k f (λ j. none) ≡ none
nothing_held t k window_start_ms = refl
nothing_held t k count = refl

redis-memory_example :
    redis_replies store policy calls (record { store = λ k. none; closed = false })
    ≡ memory_replies policy calls opened_memory
redis-memory_example =
    redis-memory policy valid store store-IsRedis (λ k. none) nothing_held calls calls-InOrder

-- a limiter that has admitted two calls, and the refusal of the third
abbrev ask_limit : RateLimitCheck
ask_limit = record { method = "GET"; path = "/v1/x"; client_identity = "alice"; cost = 1 }

abbrev full : String → Option MemoryWindow
full k = some (record { count = 2; reset_at = 60000 })

abbrev limiter : (String → Option MemoryWindow) → RateLimiter InMemory
limiter w = record { adapter = record { windows = w; closed = false }; closed = false }

abbrev asked : ℕ → RateLimiter InMemory → Outcome RateLimitDecision × RateLimiter InMemory
asked now l =
    check_limit (λ m p. two_a_minute) (λ i c. c) "supermew" memory_adapter (some now) ask_limit l

abbrev refusal : RateLimitDecision
refusal = record {
  policy_id = "two";
  allowed = false;
  limit = 2;
  remaining = 0;
  retry_after = 58;
  reset = 60;
}

unfoldable refused : RateLimiter InMemory
refused = (asked 2500 (limiter full)).1

the_refusal : asked 2500 (limiter full) ≡ (done refusal, refused)
unfolding refused check_limit consume consume_window decide
the_refusal = refl

check_limit-retry_example :
    (1 ≤ 58)
    × (d' : RateLimitDecision) × (l' : RateLimiter InMemory) × (asked 60500 refused ≡ (done d', l'))
    × (d'.allowed ≡ true)
check_limit-retry_example =
    check_limit-retry (λ m p. two_a_minute) (λ i c. c) "supermew" ask_limit 2500 60500 full refusal
      refused the_refusal refl (omega arith) (omega arith)
