-- ===== src/Providers/Retries.antt =====
-- The length of the retry loop of backend/providers/core.py, and of its sleeping.
use super_mew.Prelude.{
  ℕ, zero, suc, ◌+◌, ◌-◌, ◌*◌, ◌≤◌, min, max, Option, none, some, Bool, true, false, ◌⊎◌, inl, inr,
  pos, leb, if◌then◌else◌, ◌≡◌, refl, arith, Option-cases, Bool-cases,
}
use super_mew.Providers.Error.{ProviderCallContext}
use super_mew.Providers.Exceptions.{Exception, classify_provider_exception}
use super_mew.Providers.Executor.{
  ProviderPolicy, World, Trace, Outcome, Attempt, stopped, result, again, conclude, try_once,
  returns, raises, Interrupt, assertion_error, unfinished, sleep, retry_delay, cancelled, remaining,
  checkpoint, ensure_retry_fits_deadline, sleep_loop, sleep_with_cancellation, asks_too_much,
  gives_up, handle, called, attempts_from, call, is_valid,
}

-- an interruption that the source means
abbrev pub proper : Interrupt → Bool
proper assertion_error = false
proper unfinished = false
proper _ = true

abbrev pub proper? : Option Interrupt → Bool
proper? none = true
proper? (some i) = proper i

-- the longest wait between two attempts
abbrev pub longest : ProviderPolicy → ℕ
longest p = max p.max_backoff_seconds p.max_retry_after_seconds

module _ {ℓ} {A : Type ℓ} (w : World A) (c : ProviderCallContext) (p : ProviderPolicy) where
  checkpoint_lem :
      (a : ℕ) (t : Trace)
      → (proper? (checkpoint w c p a t).0 ≡ true)
        × ((checkpoint w c p a t).1.calls ≡ t.calls)
        × ((checkpoint w c p a t).1.slept ≡ t.slept)
  unfolding checkpoint cancelled remaining
  checkpoint_lem a t = elim (Option-cases c.deadline) [
    | inl e ↦ (ground arith, ground arith, ground arith)
    | inr (d, e) ↦ (ground arith, ground arith, ground arith)
  ]

  pub ensure_lem :
      (d a : ℕ) (t : Trace)
      → (proper? (ensure_retry_fits_deadline w c p d a t).0 ≡ true)
        × ((ensure_retry_fits_deadline w c p d a t).1.calls ≡ t.calls)
        × ((ensure_retry_fits_deadline w c p d a t).1.slept ≡ t.slept)
  unfolding ensure_retry_fits_deadline remaining
  ensure_lem d a t = elim (Option-cases c.deadline) [
    | inl e ↦ (ground arith, ground arith, ground arith)
    | inr (d, e) ↦ (ground arith, ground arith, ground arith)
  ]

  sleep_loop_lem :
      (a fuel left : ℕ) (t : Trace)
      → suc left ≤ fuel
      → 1 ≤ p.cancellation_poll_seconds
      → (proper? (sleep_loop w c p a fuel left t).0 ≡ true)
        × ((sleep_loop w c p a fuel left t).1.calls ≡ t.calls)
        × ((sleep_loop w c p a fuel left t).1.slept ≤ t.slept + left)
  unfolding sleep_loop
  sleep_loop_lem a zero left t f o = ground arith
  sleep_loop_lem a (suc fuel) zero t f o =
      let (x, y, z) = checkpoint_lem a t in (x, y, omega (arith, z))
  sleep_loop_lem a (suc fuel) (suc left) t f o =
      let (x, y, z) = checkpoint_lem a t in
      elim (Option-cases (checkpoint w c p a t).0) [
        | inl e ↦
            let t1 = (checkpoint w c p a t).1 in
            let i = min (suc left) p.cancellation_poll_seconds in
            let (x', y', z') = sleep_loop_lem a fuel (suc left - i) (sleep i t1) (omega arith) o in
            (ground arith, ground arith, ground arith)
        | inr (i, e) ↦ (ground arith, ground arith, ground arith)
      ]

  pub sleep_lem :
      (d a : ℕ) (t : Trace)
      → 1 ≤ p.cancellation_poll_seconds
      → (proper? (sleep_with_cancellation w c p d a t).0 ≡ true)
        × ((sleep_with_cancellation w c p d a t).1.calls ≡ t.calls)
        × ((sleep_with_cancellation w c p d a t).1.slept ≤ t.slept + d)
  unfolding sleep_with_cancellation
  sleep_lem d a t o =
      let (x, y, z) = checkpoint_lem a t in
      let (x', y', z') = sleep_loop_lem a (suc d) d t (omega arith) o in
      (ground arith, ground arith, ground arith)

Attempt-cases {ℓ} :
    {A : Type ℓ} (r : Attempt A)
    → (((i : Interrupt) × (r ≡ stopped i)) ⊎ ((v : A) × (r ≡ result v))) ⊎ (r ≡ again)
Attempt-cases (stopped i) = inl (inl (i, refl))
Attempt-cases (result v) = inl (inr (v, refl))
Attempt-cases again = inr refl

suc_mul : (m n : ℕ) → suc m * n ≡ m * n + n
suc_mul m n = omega arith

retry_delay_lem :
    (scaled : ℕ → ℕ → ℕ → Option ℕ) (p : ProviderPolicy) (a : ℕ) (after : Option ℕ)
    → asks_too_much p after ≡ false
    → retry_delay scaled p a after ≤ longest p
unfolding retry_delay
retry_delay_lem scaled p a none h = ground arith
retry_delay_lem scaled p a (some n) h = ground arith

module _ {ℓ} {A : Type ℓ} (scaled : ℕ → ℕ → ℕ → Option ℕ) (w : World A) (c : ProviderCallContext)
    (p : ProviderPolicy) where
  -- the longest wait after an attempt
  abbrev wait : ℕ → ℕ
  wait a = if leb p.max_attempts a then 0 else longest p

  handle_lem :
      (a : ℕ) (exc : Exception) (t : Trace)
      → 1 ≤ p.cancellation_poll_seconds
      → (proper? (handle scaled w c p a exc t).0 ≡ true)
        × ((handle scaled w c p a exc t).1.calls ≡ t.calls)
        × ((handle scaled w c p a exc t).1.slept ≤ t.slept + wait a)
        × (((handle scaled w c p a exc t).0 ≡ none) → leb p.max_attempts a ≡ false)
  unfolding handle
  handle_lem a exc t o =
      elim (Option-cases (classify_provider_exception w.links c (pos a) (pos p.max_attempts) exc)) [
        | inl e ↦ (ground arith, ground arith, ground arith, λ n. ground arith)
        | inr (error, e) ↦ elim (Bool-cases (gives_up p a error)) [
          | inl g ↦ (ground arith, ground arith, ground arith, λ n. ground arith)
          | inr g ↦
              let d = retry_delay scaled p a error.retry_after_seconds in
              let b = retry_delay_lem scaled p a error.retry_after_seconds (ground arith) in
              let (x, y, z) = ensure_lem w c p d a t in
              elim (Option-cases (ensure_retry_fits_deadline w c p d a t).0) [
                | inl n ↦
                    let (x', y', z') =
                      sleep_lem w c p d a (ensure_retry_fits_deadline w c p d a t).1 o in
                    (ground arith, ground arith, ground arith, λ n. ground arith)
                | inr (i, n) ↦ (ground arith, ground arith, ground arith, λ n. ground arith)
              ]
        ]
      ]

  abbrev in_order : Attempt A → Bool
  in_order (stopped i) = proper i
  in_order _ = true

  conclude_lem :
      (a : ℕ) (out : Outcome A) (t : Trace)
      → 1 ≤ p.cancellation_poll_seconds
      → (in_order (conclude scaled w c p a out t).0 ≡ true)
        × ((conclude scaled w c p a out t).1.calls ≡ t.calls)
        × ((conclude scaled w c p a out t).1.slept ≤ t.slept + wait a)
        × (((conclude scaled w c p a out t).0 ≡ again) → leb p.max_attempts a ≡ false)
  unfolding conclude
  conclude_lem a (returns v) t o =
      let (x, y, z) = checkpoint_lem w c p a t in
      elim (Option-cases (checkpoint w c p a t).0) [
        | inl e ↦ (ground arith, ground arith, ground arith, λ n. ground arith)
        | inr (i, e) ↦ (ground arith, ground arith, ground arith, λ n. ground arith)
      ]
  conclude_lem a (raises exc) t o =
      let (x, y, z, n) = handle_lem a exc t o in
      elim (Option-cases (handle scaled w c p a exc t).0) [
        | inl e ↦ (ground arith, ground arith, ground arith, λ u. n e)
        | inr (i, e) ↦ (ground arith, ground arith, ground arith, λ n. ground arith)
      ]

  try_once_lem :
      (a : ℕ) (t : Trace)
      → 1 ≤ p.cancellation_poll_seconds
      → (in_order (try_once scaled w c p a t).0 ≡ true)
        × ((try_once scaled w c p a t).1.calls ≤ suc t.calls)
        × ((try_once scaled w c p a t).1.slept ≤ t.slept + wait a)
        × (((try_once scaled w c p a t).0 ≡ again) → leb p.max_attempts a ≡ false)
  unfolding try_once
  try_once_lem a t o =
      let (x, y, z) = checkpoint_lem w c p a t in
      let t1 = (checkpoint w c p a t).1 in
      let (x', y', z', n) = conclude_lem a (w.outcome t1.calls) (called t1) o in
      elim (Option-cases (checkpoint w c p a t).0) [
        | inl e ↦ (ground arith, ground arith, ground arith, λ u. n (ground arith))
        | inr (i, e) ↦ (ground arith, ground arith, ground arith, λ n. ground arith)
      ]

  abbrev pub settled : Interrupt ⊎ A → Bool
  settled (inl i) = proper i
  settled (inr v) = true

  attempts_lem :
      (left a : ℕ) (t : Trace)
      → 1 ≤ p.cancellation_poll_seconds
      → a + left ≡ p.max_attempts
      → (settled (attempts_from scaled w c p (suc left) a t).0 ≡ true)
        × ((attempts_from scaled w c p (suc left) a t).1.calls ≤ t.calls + suc left)
        × ((attempts_from scaled w c p (suc left) a t).1.slept ≤ t.slept + left * longest p)
  unfolding attempts_from
  attempts_lem zero a t o m =
      let (x, y, z, n) = try_once_lem a t o in
      elim (Attempt-cases (try_once scaled w c p a t).0) [
        | inl (inl (i, e)) ↦ (ground arith, ground arith, ground arith)
        | inl (inr (v, e)) ↦ (ground arith, ground arith, ground arith)
        | inr e ↦ let more = n e in ground arith
      ]
  attempts_lem (suc left) a t o m =
      let (x, y, z, n) = try_once_lem a t o in
      let more = suc_mul left (longest p) in
      elim (Attempt-cases (try_once scaled w c p a t).0) [
        | inl (inl (i, e)) ↦ (ground arith, ground arith, ground arith)
        | inl (inr (v, e)) ↦ (ground arith, ground arith, ground arith)
        | inr e ↦
            let (x', y', z') =
              attempts_lem left (suc a) (try_once scaled w c p a t).1 o (omega arith) in
            (ground arith, ground arith, ground arith)
      ]

  -- Under a policy that its checks let pass, `call` returns, or raises what it means to
  -- raise: it neither falls out of its loop nor waits for ever, and it calls the function at
  -- most `max_attempts` times.
  pub call_ends :
      (one : ℕ) (t : Trace)
      → is_valid one p ≡ true
      → (settled (call scaled w c p t).0 ≡ true)
        × ((call scaled w c p t).1.calls ≤ t.calls + p.max_attempts)
  unfolding call is_valid
  call_ends one t v =
      let last : 1 + (p.max_attempts - 1) ≡ p.max_attempts = ground arith in
      let (x, y, z) = attempts_lem (p.max_attempts - 1) 1 t (ground arith) last in
      let all : suc (p.max_attempts - 1) ≡ p.max_attempts = omega (arith, last) in
      (ground arith, ground arith)

  -- Under a policy that its checks let pass, `call` sleeps in all at most `max_attempts - 1`
  -- times the larger of the longest backoff and the longest delay that a provider may ask
  -- for.
  pub call_sleeps :
      (one : ℕ) (t : Trace)
      → is_valid one p ≡ true
      → (call scaled w c p t).1.slept ≤ t.slept + (p.max_attempts - 1) * longest p
  unfolding call is_valid
  call_sleeps one t v =
      let last : 1 + (p.max_attempts - 1) ≡ p.max_attempts = ground arith in
      let (x, y, z) = attempts_lem (p.max_attempts - 1) 1 t (ground arith) last in
      let all : suc (p.max_attempts - 1) ≡ p.max_attempts = omega (arith, last) in ground arith
