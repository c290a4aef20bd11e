-- ===== src/Providers/Error.antt =====
-- `ProviderCallContext` and `ProviderError` of backend/providers/core.py. A number of seconds is a
-- natural number of some unit; what a caller may hand over besides is spelt out in `Seconds`.
use super_mew.Prelude.{
  ℕ, max, String, Option, none, some, Bool, false, ◌&&◌, ◌||◌, ℤ, pos, negsuc, strip, starts, every,
  len, leb, is_lower, is_upper, is_digit, ◌==◌, if◌then◌else◌,
}
use super_mew.Providers.Codes.{ProviderCode, ProviderOperation, code_spec}

abbrev pub is_alphanumeric : ℕ → Bool
is_alphanumeric c = is_lower c || is_upper c || is_digit c

-- `[A-Za-z0-9._-]`
unfoldable pub is_safe_char : ℕ → Bool
is_safe_char c = is_alphanumeric c || c == b'.' || c == b'_' || c == b'-'

-- `[A-Za-z0-9][A-Za-z0-9._-]{0,63}`
unfoldable pub is_safe : String → Bool
is_safe s = starts is_alphanumeric s && every is_safe_char s && leb (len s) 64

-- `_safe_identifier`
unfoldable pub safe_identifier : String → String → String
safe_identifier value fallback =
    let compact = strip value in if is_safe compact then compact else fallback

-- a float
pub data Seconds : Type 0 where
  finite : ℕ → Seconds
  negative infinite nan : Seconds

-- `_finite_non_negative`
abbrev pub finite_non_negative : Option Seconds → Option ℕ
finite_non_negative (some (finite n)) = some n
finite_non_negative _ = none

-- `ProviderCallContext`: the deadline is a time of the clock, and a probe for cancellation is there
-- or not
pub record ProviderCallContext : Type 0 where
  pub provider : String
  pub operation : ProviderOperation
  pub deadline : Option ℕ
  pub cancellation : Bool

-- `ProviderCallContext(provider=…, operation=…)`
abbrev pub call_context : String → ProviderOperation → ProviderCallContext
call_context provider operation = record {
  provider = provider;
  operation = operation;
  deadline = none;
  cancellation = false;
}

-- `ProviderError`
pub record ProviderError : Type 0 where
  pub code : ProviderCode
  pub message : String
  pub status_code : ℕ
  pub retryable : Bool
  pub provider : String
  pub operation : ProviderOperation
  pub retry_after_seconds : Option ℕ
  pub attempts : ℕ
  pub max_attempts : ℕ

-- `max(n, 1)`
abbrev pub at_least_one : ℤ → ℕ
at_least_one (pos n) = max n 1
at_least_one (negsuc n) = 1

-- `ProviderError.__init__`
unfoldable pub provider_error :
    ProviderCode → ProviderCallContext → Option Seconds → ℤ → ℤ → ProviderError
provider_error code context retry_after attempts max_attempts = record {
  code = code;
  message = (code_spec code).message;
  status_code = (code_spec code).status_code;
  retryable = (code_spec code).retryable;
  provider = safe_identifier context.provider "unknown-provider";
  operation = context.operation;
  retry_after_seconds = finite_non_negative retry_after;
  attempts = at_least_one attempts;
  max_attempts = at_least_one max_attempts;
}

abbrev pub given : Option ℕ → Option Seconds
given none = none
given (some n) = some (finite n)

-- `with_attempts`
abbrev pub with_attempts : ProviderError → ℤ → ℤ → ProviderError
with_attempts e attempts max_attempts =
    provider_error e.code (call_context e.provider e.operation) (given e.retry_after_seconds)
      attempts max_attempts

-- `deadline_exceeded`
abbrev pub deadline_exceeded : ProviderCallContext → ℤ → ℤ → ProviderError
deadline_exceeded context attempts max_attempts =
    provider_error ProviderCode.provider_timeout context none attempts max_attempts
