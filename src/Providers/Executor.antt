-- ===== src/Providers/Executor.antt =====
-- `ProviderPolicy` and `ProviderExecutor.call` of backend/providers/core.py. What comes from outside
-- is `World`: the n-th reading of the clock, the n-th answer of the probe for cancellation and the
-- n-th outcome of the call. `Trace` says how many of each were taken, and how long was slept.
-- `scaled` is `initial * multiplier ** exponent` in floating point, `none` where it overflows.
use super_mew.Prelude.{
  ℕ, zero, suc, ◌+◌, ◌-◌, min, max, Option, none, some, Bool, false, not, ◌&&◌, ◌||◌, ◌⊎◌, inl, inr,
  pos, leb, ltb, if◌then◌else◌,
}
use super_mew.Providers.Error.{ProviderCallContext, ProviderError, deadline_exceeded}
use super_mew.Providers.Exceptions.{Link, Exception, classify_provider_exception}

-- `ProviderPolicy`
pub record ProviderPolicy : Type 0 where
  pub max_attempts : ℕ
  pub initial_backoff_seconds : ℕ
  pub max_backoff_seconds : ℕ
  pub max_retry_after_seconds : ℕ
  pub backoff_multiplier : ℕ
  pub cancellation_poll_seconds : ℕ

-- what `__post_init__` lets pass; the multiplier is a number of `one`
unfoldable pub is_valid : ℕ → ProviderPolicy → Bool
is_valid one p =
    leb 1 p.max_attempts
    && leb p.max_attempts 100
    && leb p.initial_backoff_seconds p.max_backoff_seconds
    && leb one p.backoff_multiplier
    && ltb 0 p.cancellation_poll_seconds

-- what a call of the function does
pub data Outcome {ℓ} (A : Type ℓ) : Type ℓ where
  returns : A → Outcome A
  raises : Exception → Outcome A

pub record World {ℓ} (A : Type ℓ) : Type ℓ where
  pub links : ℕ → Link
  pub clock : ℕ → ℕ
  pub probe : ℕ → Bool
  pub outcome : ℕ → Outcome A

pub record Trace : Type 0 where
  pub readings : ℕ
  pub probes : ℕ
  pub calls : ℕ
  pub slept : ℕ

-- how the executor ends without a result; `unfinished` is that of the model's fuel
pub data Interrupt : Type 0 where
  cancelled_error passed_exception assertion_error unfinished : Interrupt
  raised : ProviderError → Interrupt

-- how an iteration of the loop of `call` ends
pub data Attempt {ℓ} (A : Type ℓ) : Type ℓ where
  stopped : Interrupt → Attempt A
  result : A → Attempt A
  again : Attempt A

abbrev pub Step : Type 0
Step = Option Interrupt × Trace

abbrev pub chain_step : Step → (Trace → Step) → Step
chain_step (some i, t) f = (some i, t)
chain_step (none, t) f = f t

-- `retry_delay`
unfoldable pub retry_delay : (ℕ → ℕ → ℕ → Option ℕ) → ProviderPolicy → ℕ → Option ℕ → ℕ
retry_delay scaled p failed_attempt retry_after =
    let exponential : ℕ =
      elim (scaled p.initial_backoff_seconds p.backoff_multiplier (failed_attempt - 1)) [
        | none ↦ p.max_backoff_seconds
        | some n ↦ n
      ] in
    let delay = min exponential p.max_backoff_seconds in
    elim (retry_after) [ none ↦ delay | some n ↦ max delay n ]

abbrev pub sleep : ℕ → Trace → Trace
sleep n t = record t { slept = t.slept + n }

-- `remaining is not None and remaining <= 0`
abbrev pub is_over : Option ℕ → Bool
is_over none = false
is_over (some n) = leb n 0

-- `remaining is not None and delay >= remaining`
abbrev pub is_within : Option ℕ → ℕ → Bool
is_within none delay = false
is_within (some n) delay = leb n delay

-- whether a delay that is asked for is too long
abbrev pub asks_too_much : ProviderPolicy → Option ℕ → Bool
asks_too_much p none = false
asks_too_much p (some n) = ltb p.max_retry_after_seconds n

-- whether `call` raises the error instead of trying again
abbrev pub gives_up : ProviderPolicy → ℕ → ProviderError → Bool
gives_up p attempt e =
    not e.retryable || leb p.max_attempts attempt || asks_too_much p e.retry_after_seconds

abbrev pub called : Trace → Trace
called t = record t { calls = suc t.calls }

module _ {ℓ} {A : Type ℓ} (w : World A) (c : ProviderCallContext) (p : ProviderPolicy) where
  -- `_cancelled`
  unfoldable pub cancelled : Trace → Bool × Trace
  cancelled t =
      if c.cancellation then (w.probe t.probes, record t { probes = suc t.probes }) else (false, t)

  -- `_remaining`
  unfoldable pub remaining : Trace → Option ℕ × Trace
  remaining t = elim (c.deadline) [
    | none ↦ (none, t)
    | some d ↦ (some (d - w.clock t.readings), record t { readings = suc t.readings })
  ]

  -- `_checkpoint`
  unfoldable pub checkpoint : ℕ → Trace → Step
  checkpoint attempts t =
      let (stop, t1) = cancelled t in
      if stop
      then (some cancelled_error, t1)
      else let (left, t2) = remaining t1 in
        if is_over left
        then (some (raised (deadline_exceeded c (pos attempts) (pos p.max_attempts))), t2)
        else (none, t2)

  -- `_ensure_retry_fits_deadline`
  unfoldable pub ensure_retry_fits_deadline : ℕ → ℕ → Trace → Step
  ensure_retry_fits_deadline delay attempts t =
      let (left, t1) = remaining t in
      if is_within left delay
      then (some (raised (deadline_exceeded c (pos attempts) (pos p.max_attempts))), t1)
      else (none, t1)

  -- the loop of `_sleep_with_cancellation`, on fuel
  unfoldable pub sleep_loop : ℕ → ℕ → ℕ → Trace → Step
  sleep_loop attempts zero left t = (some unfinished, t)
  sleep_loop attempts (suc fuel) zero t = checkpoint attempts t
  sleep_loop attempts (suc fuel) (suc left) t = chain_step (checkpoint attempts t) (λ t1.
      let interval = min (suc left) p.cancellation_poll_seconds in
      sleep_loop attempts fuel (suc left - interval) (sleep interval t1))

  -- `_sleep_with_cancellation`
  unfoldable pub sleep_with_cancellation : ℕ → ℕ → Trace → Step
  sleep_with_cancellation delay attempts t =
      if leb delay 0
      then checkpoint attempts t
      else if not c.cancellation
      then (none, sleep delay t)
      else sleep_loop attempts (suc delay) delay t

module _ {ℓ} {A : Type ℓ} (scaled : ℕ → ℕ → ℕ → Option ℕ) (w : World A) (c : ProviderCallContext)
    (p : ProviderPolicy) where
  -- the handler of an exception in `call`: it raises, or comes to the next attempt
  unfoldable pub handle : ℕ → Exception → Trace → Step
  handle attempt exc t =
      elim (classify_provider_exception w.links c (pos attempt) (pos p.max_attempts) exc) [
        | none ↦ (some passed_exception, t)
        | some error ↦
            if gives_up p attempt error
            then (some (raised error), t)
            else let delay = retry_delay scaled p attempt error.retry_after_seconds in
              chain_step (ensure_retry_fits_deadline w c p delay attempt t)
                (sleep_with_cancellation w c p delay attempt)
      ]

  -- `call` after the function ended
  unfoldable pub conclude : ℕ → Outcome A → Trace → Attempt A × Trace
  conclude attempt (returns v) t =
      let (late, t1) = checkpoint w c p attempt t in
      elim late [ some i ↦ (stopped i, t1) | none ↦ (result v, t1) ]
  conclude attempt (raises exc) t =
      let (end, t1) = handle attempt exc t in
      elim end [ some i ↦ (stopped i, t1) | none ↦ (again, t1) ]

  -- the body of the loop of `call`
  unfoldable pub try_once : ℕ → Trace → Attempt A × Trace
  try_once attempt t =
      let (stop, t1) = checkpoint w c p attempt t in
      elim stop [
        | some i ↦ (stopped i, t1)
        | none ↦ conclude attempt (w.outcome t1.calls) (called t1)
      ]

  -- the loop of `call` with `left` attempts left
  unfoldable pub attempts_from : ℕ → ℕ → Trace → (Interrupt ⊎ A) × Trace
  attempts_from zero attempt t = (inl assertion_error, t)
  attempts_from (suc left) attempt t =
      let (r, t1) = try_once attempt t in
      elim r [
        | stopped i ↦ (inl i, t1)
        | result v ↦ (inr v, t1)
        | again ↦ attempts_from left (suc attempt) t1
      ]

  -- `call`
  unfoldable pub call : Trace → (Interrupt ⊎ A) × Trace
  call = attempts_from p.max_attempts 1
