-- ===== src/RateLimits/Redis.antt =====
-- `RedisRateLimitAdapter` of backend/rate_limits/adapters.py, and its Lua script.
use super_mew.Prelude.{
  ℕ, ◌+◌, ◌-◌, ◌%◌, ◌<◌, ◌≤◌, ◌≡◌, String, Option, none, some, Bool, true, false, ◌&&◌, ◌||◌, ◌==◌,
  leb, str_eq, if◌then◌else◌,
}
use super_mew.RateLimits.Contracts.{
  RateLimitPolicy, window_ms, RateLimitSnapshot, Unavailable, Outcome, done, unavailable,
}

pub data Field : Type 0 where
  window_start_ms count : Field

-- The commands of the Redis server that the script uses, on its store: HGET of a field of a key at
-- a time of the server, and HSET of both fields of a key followed by PEXPIREAT.
pub record Redis (S : Type 0) : Type 0 where
  pub hget : ℕ → String → Field → S → Option ℕ
  pub write : String → ℕ → ℕ → ℕ → S → S

-- what Redis documents of them: a field holds what was set until the key expires, then there is
-- no such key, and other keys are left alone
pub record IsRedis {S : Type 0} (r : Redis S) : Type 0 where
  pub start :
      (s : S) (k : String) (start n at t : ℕ)
      → t < at
      → r.hget t k window_start_ms (r.write k start n at s) ≡ some start
  pub held :
      (s : S) (k : String) (start n at t : ℕ)
      → t < at
      → r.hget t k count (r.write k start n at s) ≡ some n
  pub expired :
      (s : S) (k : String) (f : Field) (start n at t : ℕ)
      → at ≤ t
      → r.hget t k f (r.write k start n at s) ≡ none
  pub other :
      (s : S) (k j : String) (f : Field) (start n at t : ℕ)
      → str_eq k j ≡ false
      → r.hget t j f (r.write k start n at s) ≡ r.hget t j f s

-- what the script returns
pub record Reply : Type 0 where
  pub allowed : ℕ
  pub remaining : ℕ
  pub reset_at_ms : ℕ
  pub now_ms : ℕ

-- `tonumber(…) or 0`
abbrev or_zero : Option ℕ → ℕ
or_zero none = 0
or_zero (some n) = n

abbrev is_start : Option ℕ → ℕ → Bool
is_start none start = false
is_start (some n) start = n == start

-- the count that the script goes on from, for the fields that it read
abbrev pub count_from : Option ℕ → Option ℕ → ℕ → ℕ
count_from stored held start = if is_start stored start then or_zero held else 0

-- `RedisRateLimitAdapter`
pub record RedisRateLimit (S : Type 0) : Type 0 where
  pub store : S
  pub closed : Bool

-- the checks of the reply: `_response_integer`, the two ranges and `RateLimitSnapshot.__post_init__`
abbrev pub read_reply : RateLimitPolicy → Reply → Outcome RateLimitSnapshot
read_reply policy reply =
    if (reply.allowed == 0 || reply.allowed == 1)
      && leb reply.remaining policy.limit
      && leb reply.now_ms reply.reset_at_ms
    then (done (record {
      allowed = reply.allowed == 1;
      remaining = reply.remaining;
      reset_at = reply.reset_at_ms;
      observed_at = reply.now_ms;
    }))
    else unavailable Unavailable.invalid_response

module _ {S : Type 0} (r : Redis S) where
  -- the count of the window that starts at `start`
  abbrev pub counted : ℕ → ℕ → String → S → ℕ
  counted now start key s =
      count_from (r.hget now key window_start_ms s) (r.hget now key count s) start

  -- `_FIXED_WINDOW_LUA`, run at the time `now` of the server
  unfoldable pub fixed_window : ℕ → String → ℕ → ℕ → ℕ → S → Reply × S
  fixed_window now key limit window cost s =
      let start = now - now % window in
      let reset_at = start + window in
      let held = counted now start key s in
      let fits = leb (held + cost) limit in
      let charged = if fits then held + cost else held in
      (
        record {
          allowed = if fits then 1 else 0;
          remaining = limit - charged;
          reset_at_ms = reset_at;
          now_ms = now;
        },
        r.write key start charged reset_at s,
      )

  -- `RedisRateLimitAdapter.consume`; the evaluation gives no time of the server if it raises
  unfoldable pub eval_window :
      Option ℕ
      → String
      → RateLimitPolicy
      → ℕ
      → RedisRateLimit S
      → Outcome RateLimitSnapshot × RedisRateLimit S
  eval_window server key policy cost a = go a.closed server
    where
      go : Bool → Option ℕ → Outcome RateLimitSnapshot × RedisRateLimit S
      go true _ = (unavailable Unavailable.closed, a)
      go false none = (unavailable Unavailable.invalid_response, a)
      go false (some now) =
          let (reply, store) = fixed_window now key policy.limit (window_ms policy) cost a.store in
          (read_reply policy reply, record a { store = store })
