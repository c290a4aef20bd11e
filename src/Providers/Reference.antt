-- ===== src/Providers/Reference.antt =====
-- A reference for `ProviderExecutor.call` of backend/providers/core.py without a deadline and a probe.
use super_mew.Prelude.{
  ℕ, zero, suc, Option, none, some, false, ◌⊎◌, inl, inr, pos, if◌then◌else◌, ◌≡◌, refl, arith,
  Option-cases, Bool-cases,
}
use super_mew.Providers.Error.{ProviderCallContext}
use super_mew.Providers.Exceptions.{classify_provider_exception}
use super_mew.Providers.Executor.{
  ProviderPolicy, World, Trace, Outcome, returns, raises, Interrupt, passed_exception,
  assertion_error, raised, Attempt, stopped, result, again, cancelled, remaining, checkpoint,
  ensure_retry_fits_deadline, sleep_with_cancellation, retry_delay, gives_up, handle, called,
  conclude, try_once, attempts_from, call,
}

module _ {ℓ} {A : Type ℓ} (w : World A) (c : ProviderCallContext) (p : ProviderPolicy) where
  -- an outcome is final, or the next attempt is due
  abbrev pub verdict : ℕ → Outcome A → Attempt A
  verdict a (returns v) = result v
  verdict a (raises exc) =
      elim (classify_provider_exception w.links c (pos a) (pos p.max_attempts) exc) [
        | none ↦ stopped passed_exception
        | some e ↦ if gives_up p a e then stopped (raised e) else again
      ]

  -- the first outcome from the n-th on that is final
  unfoldable pub first_final : ℕ → ℕ → ℕ → Interrupt ⊎ A
  first_final zero a n = inl assertion_error
  first_final (suc left) a n = elim (verdict a (w.outcome n)) [
    | stopped i ↦ inl i
    | result v ↦ inr v
    | again ↦ first_final left (suc a) (suc n)
  ]

  free_checkpoint :
      (a : ℕ) (t : Trace)
      → c.deadline ≡ none
      → c.cancellation ≡ false
      → checkpoint w c p a t ≡ (none, t)
  unfolding checkpoint cancelled remaining
  free_checkpoint a t d k = ground arith

  free_ensure :
      (wait a : ℕ) (t : Trace)
      → c.deadline ≡ none
      → ensure_retry_fits_deadline w c p wait a t ≡ (none, t)
  unfolding ensure_retry_fits_deadline remaining
  free_ensure wait a t d = ground arith

  free_sleep :
      (wait a : ℕ) (t : Trace)
      → c.deadline ≡ none
      → c.cancellation ≡ false
      → ((sleep_with_cancellation w c p wait a t).0 ≡ none)
        × ((sleep_with_cancellation w c p wait a t).1.calls ≡ t.calls)
  unfolding sleep_with_cancellation
  free_sleep wait a t d k = let here = free_checkpoint a t d k in (ground arith, ground arith)

module _ {ℓ} {A : Type ℓ} (scaled : ℕ → ℕ → ℕ → Option ℕ) (w : World A) (c : ProviderCallContext)
    (p : ProviderPolicy) where
  conclude-verdict :
      (a : ℕ) (out : Outcome A) (t : Trace)
      → c.deadline ≡ none
      → c.cancellation ≡ false
      → ((conclude scaled w c p a out t).0 ≡ verdict w c p a out)
        × ((conclude scaled w c p a out t).1.calls ≡ t.calls)
  unfolding conclude handle
  conclude-verdict a (returns v) t d k =
      let here = free_checkpoint w c p a t d k in (ground arith, ground arith)
  conclude-verdict a (raises exc) t d k =
      elim (Option-cases (classify_provider_exception w.links c (pos a) (pos p.max_attempts) exc)) [
        | inl e ↦ (ground arith, ground arith)
        | inr (error, e) ↦ elim (Bool-cases (gives_up p a error)) [
          | inl g ↦ (ground arith, ground arith)
          | inr g ↦
              let wait = retry_delay scaled p a error.retry_after_seconds in
              let here = free_ensure w c p wait a t d in
              let (x, y) = free_sleep w c p wait a t d k in (ground arith, ground arith)
        ]
      ]

  attempts_from-first_final :
      (left a : ℕ) (t : Trace)
      → c.deadline ≡ none
      → c.cancellation ≡ false
      → (attempts_from scaled w c p left a t).0 ≡ first_final w c p left a t.calls
  unfolding attempts_from first_final try_once
  attempts_from-first_final zero a t d k = refl
  attempts_from-first_final (suc left) a t d k =
      let here = free_checkpoint w c p a t d k in
      let (x, y) = conclude-verdict a (w.outcome t.calls) (called t) d k in
      let t1 = (conclude scaled w c p a (w.outcome t.calls) (called t)).1 in
      let rest = attempts_from-first_final left (suc a) t1 d k in ground arith

  -- Without a deadline and without a probe for cancellation, `call` ends as the first outcome
  -- that is final does, among as many outcomes as there are attempts: the clock, the backoff
  -- and the sleeping do not count.
  pub call-first_final :
      (t : Trace)
      → c.deadline ≡ none
      → c.cancellation ≡ false
      → (call scaled w c p t).0 ≡ first_final w c p p.max_attempts 1 t.calls
  unfolding call
  call-first_final t d k = attempts_from-first_final p.max_attempts 1 t d k
