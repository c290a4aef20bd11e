-- ===== src/Providers/Deadline.antt =====
-- The deadline of `ProviderExecutor.call` of backend/providers/core.py.
use super_mew.Prelude.{
  ℕ, ◌+◌, ◌-◌, ◌≤◌, ◌<◌, Option, none, some, ◌⊎◌, inl, inr, pos, ◌≡◌, arith, Option-cases,
  Bool-cases,
}
use super_mew.Providers.Error.{ProviderCallContext}
use super_mew.Providers.Exceptions.{Exception, classify_provider_exception}
use super_mew.Providers.Executor.{
  ProviderPolicy, World, Trace, remaining, ensure_retry_fits_deadline, retry_delay, gives_up,
  handle,
}
use super_mew.Providers.Retries.{ensure_lem, sleep_lem}

module _ {ℓ} {A : Type ℓ} (w : World A) (c : ProviderCallContext) (p : ProviderPolicy) where
  ensure_fits :
      (d wait a : ℕ) (t : Trace)
      → c.deadline ≡ some d
      → (ensure_retry_fits_deadline w c p wait a t).0 ≡ none
      → w.clock t.readings + wait < d
  unfolding ensure_retry_fits_deadline remaining
  ensure_fits d wait a t e n = ground arith

module _ {ℓ} {A : Type ℓ} (scaled : ℕ → ℕ → ℕ → Option ℕ) (w : World A) (c : ProviderCallContext)
    (p : ProviderPolicy) where
  -- Under a deadline and a poll interval that is not 0, the handler of a failed attempt does
  -- not sleep, or the time that it reads on entry and the time that it sleeps end before the
  -- deadline.
  pub handle_keeps_deadline :
      (d a : ℕ) (exc : Exception) (t : Trace)
      → 1 ≤ p.cancellation_poll_seconds
      → c.deadline ≡ some d
      → ((handle scaled w c p a exc t).1.slept ≡ t.slept)
        ⊎ (w.clock t.readings + ((handle scaled w c p a exc t).1.slept - t.slept) < d)
  unfolding handle
  handle_keeps_deadline d a exc t o x =
      elim (Option-cases (classify_provider_exception w.links c (pos a) (pos p.max_attempts) exc)) [
        | inl e ↦ inl (ground arith)
        | inr (error, e) ↦ elim (Bool-cases (gives_up p a error)) [
          | inl g ↦ inl (ground arith)
          | inr g ↦
              let wait = retry_delay scaled p a error.retry_after_seconds in
              let (_, _, z) = ensure_lem w c p wait a t in
              elim (Option-cases (ensure_retry_fits_deadline w c p wait a t).0) [
                | inl n ↦
                    let fits = ensure_fits w c p d wait a t x n in
                    let (_, _, z') =
                      sleep_lem w c p wait a (ensure_retry_fits_deadline w c p wait a t).1 o in
                    inr (ground arith)
                | inr (i, n) ↦ inl (ground arith)
              ]
        ]
      ]
