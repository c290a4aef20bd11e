-- ===== src/Tests/Calls.antt =====
-- Concrete calls of providers: backend/providers/core.py.
use super_mew.Prelude.{
  ℕ, zero, suc, ◌+◌, ◌-◌, ◌*◌, ◌≤◌, ◌<◌, Option, none, some, true, false, [], ◌∷◌, ◌⊎◌, inr, pos,
  negsuc, ◌≡◌, refl, arith, every, length, starts, len, strip, lstrip, rstrip, is_space,
}
use super_mew.Providers.Codes.{model_timeout, model, code_spec, operation_profile}
use super_mew.Providers.Error.{
  ProviderCallContext, finite, provider_error, is_safe, is_safe_char, safe_identifier,
}
use super_mew.Providers.Snapshot.{to_snapshot, from_snapshot}
use super_mew.Providers.Exceptions.{
  Link, other, chain_from, exception_chain, first_status, status_along, first_retry, retry_along,
  failure_code, classify_failure, classify_provider_exception,
}
use super_mew.Providers.Executor.{
  ProviderPolicy, is_valid, Outcome, returns, raises, World, Trace, retry_delay, cancelled,
  remaining, checkpoint, ensure_retry_fits_deadline, sleep_loop, sleep_with_cancellation, handle,
  conclude, try_once, attempts_from, call,
}
use super_mew.Providers.Retries.{settled, call_ends, call_sleeps}
use super_mew.Providers.Deadline.{handle_keeps_deadline}
use super_mew.Providers.Reference.{first_final, call-first_final}
use super_mew.Providers.RoundTrip.{from_snapshot-to_snapshot}
use super_mew.Providers.Refusals.{
  is_transient, failure_code-is_transient, distinct, exception_chain-distinct,
}

-- a service that answers 503, and whose error is its own cause
abbrev busy : ℕ → Link
busy n = record {
  cause = some 0;
  context = none;
  statuses = some 503 ∷ [];
  retries = some 30 ∷ [];
  timeout = false;
}

-- the second attempt succeeds
abbrev flaky : ℕ → Outcome ℕ
flaky zero = raises (other 0)
flaky (suc n) = returns n

abbrev world : World ℕ
world = record { links = busy; clock = λ n. n; probe = λ n. false; outcome = flaky }

abbrev free : ProviderCallContext
free = record { provider = "acme"; operation = model; deadline = none; cancellation = false }

abbrev bounded : ProviderCallContext
bounded = record { provider = "acme"; operation = model; deadline = some 100; cancellation = true }

abbrev policy : ProviderPolicy
policy = record {
  max_attempts = 3;
  initial_backoff_seconds = 10;
  max_backoff_seconds = 200;
  max_retry_after_seconds = 60;
  backoff_multiplier = 2;
  cancellation_poll_seconds = 5;
}

abbrev scaled : ℕ → ℕ → ℕ → Option ℕ
scaled initial multiplier zero = some initial
scaled initial multiplier (suc n) = some (initial * multiplier)

abbrev start : Trace
start = record { readings = 0; probes = 0; calls = 0; slept = 0 }

valid : is_valid 1 policy ≡ true
unfolding is_valid
valid = refl

run :
    call scaled world bounded policy start
    ≡ (inr 0, record { readings = 11; probes = 10; calls = 2; slept = 30 })
unfolding call attempts_from try_once conclude handle sleep_with_cancellation sleep_loop
    ensure_retry_fits_deadline checkpoint remaining cancelled retry_delay
    classify_provider_exception classify_failure failure_code retry_along first_retry status_along
    first_status exception_chain chain_from provider_error safe_identifier is_safe is_safe_char
    strip lstrip rstrip every starts len is_space
run = refl

call_ends_example :
    (settled scaled world bounded policy (call scaled world bounded policy start).0 ≡ true)
    × ((call scaled world bounded policy start).1.calls ≤ 3)
call_ends_example = call_ends scaled world bounded policy 1 start valid

call_sleeps_example : (call scaled world bounded policy start).1.slept ≤ 400
call_sleeps_example = call_sleeps scaled world bounded policy 1 start valid

handle_keeps_deadline_example :
    ((handle scaled world bounded policy 1 (other 0) start).1.slept ≡ 0)
    ⊎ (0 + ((handle scaled world bounded policy 1 (other 0) start).1.slept - 0) < 100)
handle_keeps_deadline_example =
    handle_keeps_deadline scaled world bounded policy 100 1 (other 0) start (omega arith) refl

call-first_final_example :
    (call scaled world free policy start).0 ≡ first_final world free policy 3 1 0
call-first_final_example = call-first_final scaled world free policy start refl refl

from_snapshot-to_snapshot_example :
    from_snapshot
      (to_snapshot (provider_error model_timeout free (some (finite 3)) (negsuc 4) (pos 3)))
    ≡ some (provider_error model_timeout free (some (finite 3)) (negsuc 4) (pos 3))
from_snapshot-to_snapshot_example =
    from_snapshot-to_snapshot model_timeout free (some (finite 3)) (negsuc 4) (pos 3)

failure_code-is_transient_example :
    (code_spec (failure_code (operation_profile model) busy (0 ∷ []))).retryable
    ≡ is_transient (status_along busy (0 ∷ []))
failure_code-is_transient_example = failure_code-is_transient model busy (0 ∷ [])

exception_chain-distinct_example :
    (distinct (exception_chain busy 3) ≡ true) × (length (exception_chain busy 3) ≤ 16)
exception_chain-distinct_example = exception_chain-distinct busy 3
