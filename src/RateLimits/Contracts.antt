-- ===== src/RateLimits/Contracts.antt =====
-- backend/rate_limits/contracts.py: what a limiter and its adapters exchange. Times are counted in
-- milliseconds.
use super_mew.Prelude.{ℕ, ◌*◌, ◌≤◌, String, Bool}

-- `RateLimitPolicy`
pub record RateLimitPolicy : Type 0 where
  pub id : String
  pub limit : ℕ
  pub window_seconds : ℕ

-- `RateLimitPolicy.__post_init__`: the lower bounds that a policy is refused below
pub record IsPolicy (p : RateLimitPolicy) : Type 0 where
  pub some_limit : 1 ≤ p.limit
  pub some_window : 1 ≤ p.window_seconds

-- a window in milliseconds, as the Redis adapter passes it
abbrev pub window_ms : RateLimitPolicy → ℕ
window_ms p = p.window_seconds * 1000

-- `RateLimitCheck`
pub record RateLimitCheck : Type 0 where
  pub method : String
  pub path : String
  pub client_identity : String
  pub cost : ℕ

-- `RateLimitSnapshot`
pub record RateLimitSnapshot : Type 0 where
  pub allowed : Bool
  pub remaining : ℕ
  pub reset_at : ℕ
  pub observed_at : ℕ

-- `RateLimitDecision`; `retry_after` and `reset` are in seconds
pub record RateLimitDecision : Type 0 where
  pub policy_id : String
  pub allowed : Bool
  pub limit : ℕ
  pub remaining : ℕ
  pub retry_after : ℕ
  pub reset : ℕ

-- the reasons of a `RateLimitUnavailable`
pub data Unavailable : Type 0 where
  closed clock_invalid invalid_adapter_response invalid_response : Unavailable

pub data Outcome {ℓ} (A : Type ℓ) : Type ℓ where
  done : A → Outcome A
  unavailable : Unavailable → Outcome A
