-- ===== src/Providers/RoundTrip.antt =====
-- `to_snapshot` and `from_snapshot` of backend/providers/core.py, one after the other.
use super_mew.Prelude.{
  ℕ, zero, suc, String, code, Option, none, some, true, false, ℤ, pos, negsuc, is_space, lstrip,
  rstrip, strip, every, starts, len, ◌≡◌, refl, arith, ap, ◌∙◌, both_true,
}
use super_mew.Providers.Codes.{
  ProviderCode, ProviderOperation, code_value, parse_code, operation_value, parse_operation,
  embedding_unavailable, vector_store_unavailable, rerank_timeout, rerank_rate_limited,
  rerank_unavailable, rerank_invalid_response, rerank_circuit_open, model_timeout,
  model_rate_limited, model_unavailable, tool_timeout, tool_unavailable,
  provider_authentication_failed, provider_request_invalid, provider_timeout, policy_denied,
  embedding, vector_search, rerank, model, tool,
}
use super_mew.Providers.Error.{
  is_safe_char, is_safe, safe_identifier, ProviderCallContext, Seconds, finite, negative, infinite,
  nan, finite_non_negative, provider_error, given, at_least_one,
}
use super_mew.Providers.Snapshot.{to_snapshot, from_snapshot, from_code, provider_or, number_or}

parse_code-code_value : (c : ProviderCode) → parse_code (code_value c) ≡ some c
unfolding parse_code
parse_code-code_value embedding_unavailable = refl
parse_code-code_value vector_store_unavailable = refl
parse_code-code_value rerank_timeout = refl
parse_code-code_value rerank_rate_limited = refl
parse_code-code_value rerank_unavailable = refl
parse_code-code_value rerank_invalid_response = refl
parse_code-code_value rerank_circuit_open = refl
parse_code-code_value model_timeout = refl
parse_code-code_value model_rate_limited = refl
parse_code-code_value model_unavailable = refl
parse_code-code_value tool_timeout = refl
parse_code-code_value tool_unavailable = refl
parse_code-code_value provider_authentication_failed = refl
parse_code-code_value provider_request_invalid = refl
parse_code-code_value provider_timeout = refl
parse_code-code_value policy_denied = refl

parse_operation-operation_value :
    (o : ProviderOperation) → parse_operation (operation_value o) ≡ some o
unfolding parse_operation
parse_operation-operation_value embedding = refl
parse_operation-operation_value vector_search = refl
parse_operation-operation_value rerank = refl
parse_operation-operation_value model = refl
parse_operation-operation_value tool = refl

safe_char_lem : (c : ℕ) → is_safe_char c ≡ true → is_space c ≡ false
unfolding is_safe_char is_space
safe_char_lem c h = ground arith

rstrip_lem : (s : String) → every is_safe_char s ≡ true → rstrip s ≡ s
unfolding rstrip every
rstrip_lem String.[] h = refl
rstrip_lem (String.◌∷◌ c s) h =
    let (x, y) = both_true (is_safe_char (code c)) (every is_safe_char s) h in
    let visible = safe_char_lem (code c) x in let rest = rstrip_lem s y in ground arith

lstrip_lem : (s : String) → every is_safe_char s ≡ true → lstrip s ≡ s
unfolding lstrip every
lstrip_lem String.[] h = refl
lstrip_lem (String.◌∷◌ c s) h =
    let (x, y) = both_true (is_safe_char (code c)) (every is_safe_char s) h in
    let visible = safe_char_lem (code c) x in ground arith

strip_safe : (s : String) → is_safe s ≡ true → strip s ≡ s
unfolding strip is_safe
strip_safe s h =
    let e : every is_safe_char s ≡ true = ground arith in
    ap lstrip (rstrip_lem s e) ∙ lstrip_lem s e

safe_identifier_safe : (s f : String) → is_safe s ≡ true → safe_identifier s f ≡ s
unfolding safe_identifier
safe_identifier_safe s f h = let same = strip_safe s h in ground arith

is_safe-safe_identifier : (s f : String) → is_safe f ≡ true → is_safe (safe_identifier s f) ≡ true
unfolding safe_identifier
is_safe-safe_identifier s f h = ground arith

is_safe-provider_or : (s : String) → is_safe s ≡ true → provider_or (some s) ≡ s
unfolding is_safe starts
is_safe-provider_or String.[] h = cc
is_safe-provider_or (String.◌∷◌ c s) h = refl

provider_kept :
    (s f : String)
    → is_safe f ≡ true
    → safe_identifier (provider_or (some (safe_identifier s f))) f ≡ safe_identifier s f
provider_kept s f h =
    let safe = is_safe-safe_identifier s f h in
    ap (λ x. safe_identifier x f) (is_safe-provider_or (safe_identifier s f) safe)
    ∙ safe_identifier_safe (safe_identifier s f) f safe

fallback_safe : is_safe "unknown-provider" ≡ true
unfolding is_safe is_safe_char starts every len
fallback_safe = refl

number_kept : (n : ℤ) → at_least_one (number_or (some (pos (at_least_one n)))) ≡ at_least_one n
number_kept (pos zero) = refl
number_kept (pos (suc n)) = ground arith
number_kept (negsuc n) = refl

delay_kept :
    (r : Option Seconds)
    → finite_non_negative (given (finite_non_negative r)) ≡ finite_non_negative r
delay_kept none = refl
delay_kept (some (finite n)) = refl
delay_kept (some negative) = refl
delay_kept (some infinite) = refl
delay_kept (some nan) = refl

-- An error that is made of any code, context, delay and numbers of attempts, in their bounds or
-- not, is rebuilt whole from its snapshot.
pub from_snapshot-to_snapshot :
    (code : ProviderCode) (context : ProviderCallContext) (retry_after : Option Seconds)
    (attempts max_attempts : ℤ)
    → from_snapshot (to_snapshot (provider_error code context retry_after attempts max_attempts))
      ≡ some (provider_error code context retry_after attempts max_attempts)
unfolding from_snapshot to_snapshot from_code provider_error
from_snapshot-to_snapshot code context retry_after attempts max_attempts =
    let o = parse_operation-operation_value context.operation in
    let k = parse_code-code_value code in
    let p = provider_kept context.provider "unknown-provider" fallback_safe in
    let a = number_kept attempts in
    let m = number_kept max_attempts in let d = delay_kept retry_after in ground arith
