-- ===== src/RateLimits/Limiter.antt =====
-- `RateLimiter` of backend/rate_limits/limiter.py.
pub mod Retry
use Prim.Native.String.{◌++◌ as join}
use super_mew.Prelude.{
  ℕ, ◌+◌, ◌-◌, ◌*◌, ◌/◌, max, String, Option, Bool, true, false, ltb, if◌then◌else◌,
}
use super_mew.RateLimits.Contracts.{
  RateLimitPolicy, RateLimitCheck, RateLimitSnapshot, RateLimitDecision, Unavailable, Outcome, done,
  unavailable,
}
use super_mew.RateLimits.Memory
use super_mew.RateLimits.Memory.{InMemory}
use super_mew.RateLimits.Redis.{Redis, RedisRateLimit, eval_window}

-- `RateLimitAdapter`, over the adapter's own state; the clock is the one that the adapter reads
pub record RateLimitAdapter (A : Type 0) : Type 0 where
  pub consume : Option ℕ → String → RateLimitPolicy → ℕ → A → Outcome RateLimitSnapshot × A

abbrev pub memory_adapter : RateLimitAdapter InMemory
memory_adapter = record { consume = Memory.consume }

abbrev pub redis_adapter : {S : Type 0} → Redis S → RateLimitAdapter (RedisRateLimit S)
redis_adapter r = record { consume = eval_window r }

-- the fields of a limiter that change
pub record RateLimiter (A : Type 0) : Type 0 where
  pub adapter : A
  pub closed : Bool

-- `math.ceil` of a number of milliseconds in seconds
abbrev pub ceil_seconds : ℕ → ℕ
ceil_seconds ms = (ms + 999) / 1000

-- `0 if allowed else max(1, math.ceil(reset_at - observed_at))`
abbrev pub retry_of : RateLimitSnapshot → ℕ
retry_of s = if s.allowed then 0 else max 1 (ceil_seconds (s.reset_at - s.observed_at))

-- the part of `check` after the adapter has answered
unfoldable pub decide : RateLimitPolicy → Outcome RateLimitSnapshot → Outcome RateLimitDecision
decide policy (unavailable u) = unavailable u
decide policy (done s) =
    if ltb policy.limit s.remaining
    then unavailable Unavailable.invalid_adapter_response
    else (done (record {
      policy_id = policy.id;
      allowed = s.allowed;
      limit = policy.limit;
      remaining = s.remaining;
      retry_after = retry_of s;
      reset = ceil_seconds s.reset_at;
    }))

-- `matcher` is the route matcher, and `fingerprint` the keyed SHA-256 of a policy's name and a
-- client's identity.
module _ (matcher : String → String → RateLimitPolicy)
    (fingerprint : String → String → String) where
  module _ (key_prefix : String) where
    -- `RateLimiter._storage_key`
    abbrev pub storage_key : String → String → String
    storage_key policy_id client_identity =
        join key_prefix (
          join ":rate_limit:v1:"
            (join policy_id (join ":" (fingerprint policy_id client_identity))))

    abbrev pub policy_of : RateLimitCheck → RateLimitPolicy
    policy_of check = matcher check.method check.path

    abbrev pub key_of : RateLimitCheck → String
    key_of check = storage_key (policy_of check).id check.client_identity

    -- `RateLimiter.check`
    unfoldable pub check_limit :
        {A : Type 0}
        → RateLimitAdapter A
        → Option ℕ
        → RateLimitCheck
        → RateLimiter A
        → Outcome RateLimitDecision × RateLimiter A
    check_limit {A} a clock check l = go l.closed
      where
        go : Bool → Outcome RateLimitDecision × RateLimiter A
        go true = (unavailable Unavailable.closed, l)
        go false =
            let (reply, adapter) =
              a.consume clock (key_of check) (policy_of check) check.cost l.adapter in
            (decide (policy_of check) reply, record l { adapter = adapter })
