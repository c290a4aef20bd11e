-- ===== src/RateLimits/Refinement/Memory.antt =====
-- The in-memory adapter implements the counter.
use super_mew.Prelude.{
  ℕ, suc, ◌/◌, ◌+◌, ◌-◌, ◌*◌, ◌<◌, ◌≤◌, ◌≡◌, refl, sym, ap, subst, ◌∙◌, String, Option, none, some,
  Bool, true, false, leb, str_eq, arith, eq_iff, Bool-cases, le_of_test, lt_of_test, Option-cases,
  inl, inr, if◌then◌else◌, ◌⊎◌,
}
use mathlib.Core.Option.{some-injective}
use super_mew.RateLimits.Contracts.{RateLimitPolicy, IsPolicy, window_ms, RateLimitSnapshot}
use super_mew.RateLimits.Memory.{
  MemoryWindow, unexpired, all_unexpired, next_reset, current, charge, assign, consume_window,
}
use super_mew.RateLimits.Window.{same_index}
use super_mew.RateLimits.Counter.{Call, Counter, no_calls, index, used, charged, answer}
use super_mew.RateLimits.Refinement.Ahead.{
  positive, IsAhead, charged_here, charged_later, charged_until, charged_elsewhere, charged-IsAhead,
}

abbrev pub Windows : Type 0
Windows = String → Option MemoryWindow

abbrev window : ℕ → ℕ → MemoryWindow
window n r = record { count = n; reset_at = r }

abbrev count_of : Option MemoryWindow → ℕ
count_of none = 0
count_of (some w) = w.count

unexpired_twice :
    (s t : ℕ) (o : Option MemoryWindow) → s ≤ t → unexpired t (unexpired s o) ≡ unexpired t o
unexpired_twice s t none h = refl
unexpired_twice s t (some w) h = ground arith

unexpired-some :
    (t : ℕ) (o : Option MemoryWindow) (w : MemoryWindow)
    → unexpired t o ≡ some w
    → (o ≡ some w) × (t < w.reset_at)
unexpired-some t none w h = cc
unexpired-some t (some v) w h = go (Bool-cases (leb v.reset_at t))
  where
    go :
        (leb v.reset_at t ≡ true) ⊎ (leb v.reset_at t ≡ false)
        → (some v ≡ some w) × (t < w.reset_at)
    go (inl b) = cc (rw b at h)
    go (inr b) =
        let same : some v ≡ some w = rw b at h in
        (
          same,
          subst (λ (x : MemoryWindow). t < x.reset_at) (some-injective _ _ same) (ground arith),
        )

module _ (policy : String → RateLimitPolicy) (valid : (k : String) → IsPolicy (policy k)) where
  -- at a time and after, the windows hold the counts of the counter, and a window ends where the
  -- one of an earlier time ends
  pub record Counts (now : ℕ) (m : Windows) (c : Counter) : Type 0 where
    holds : (k : String) (t : ℕ) → now ≤ t → count_of (unexpired t (m k)) ≡ c k (index policy k t)
    aligned :
        (k : String) (w : MemoryWindow)
        → m k ≡ some w
        → (s : ℕ) × (s ≤ now) × (w.reset_at ≡ next_reset (window_ms (policy k)) s)
    ahead : IsAhead policy valid now c

  module _ (now : ℕ) (m : Windows) (c : Counter) (call : Call) where
    abbrev state : MemoryWindow
    state = window (used policy c call) (next_reset (window_ms (policy call.key)) call.at)

    current_is :
        now ≤ call.at
        → Counts now m c
        → current (policy call.key) call.at (unexpired call.at (m call.key)) ≡ state
    current_is le counts = go (Option-cases (unexpired call.at (m call.key)))
      where
        count_is : count_of (unexpired call.at (m call.key)) ≡ used policy c call
        count_is = counts.holds call.key call.at le

        go :
            (unexpired call.at (m call.key) ≡ none)
              ⊎ ((w : MemoryWindow) × (unexpired call.at (m call.key) ≡ some w))
            → current (policy call.key) call.at (unexpired call.at (m call.key)) ≡ state
        go (inl e) = rw e (
            ap (λ n. window n (next_reset (window_ms (policy call.key)) call.at))
              (rw e at count_is))
        go (inr (w, e)) =
            let (stored, live) = unexpired-some call.at (m call.key) w e in
            let (s, before, ends) = counts.aligned call.key w stored in
            let W = window_ms (policy call.key) in
            let same : call.at / W ≡ s / W =
              same_index W (positive policy valid call.key) s call.at (omega (arith, before, le))
                (omega (arith, live, ends)) in
            rw e (
              ap (λ n. window n w.reset_at) (rw e at count_is)
              ∙ ap (window (used policy c call)) (ends ∙ ap (λ i. suc i * W) (sym same)))

    charge_count :
        (charge (policy call.key) call.cost state).count
        ≡ charged policy c call call.key (index policy call.key call.at)
    charge_count =
        go (leb (used policy c call + call.cost) (policy call.key).limit)
        ∙ sym (charged_here policy valid c call)
      where
        go :
            (b : Bool)
            → (if b then record state { count = used policy c call + call.cost } else state).count
              ≡ (if b then used policy c call + call.cost else used policy c call)
        go true = refl
        go false = refl

    charge_reset : (charge (policy call.key) call.cost state).reset_at ≡ state.reset_at
    charge_reset = go (leb (used policy c call + call.cost) (policy call.key).limit)
      where
        go :
            (b : Bool)
            → (if b
                then record state { count = used policy c call + call.cost }
                else state).reset_at
              ≡ state.reset_at
        go true = refl
        go false = refl

    abbrev answered : RateLimitSnapshot × Windows
    answered = consume_window call.at call.key (policy call.key) call.cost m

    pub answered-answer : now ≤ call.at → Counts now m c → answered.0 ≡ answer policy c call
    unfolding consume_window
    answered-answer le counts = rw (current_is le counts) (
        ap (λ n. record (answer policy c call) { remaining = (policy call.key).limit - n })
          charge_count)

    abbrev pub after : Windows
    after = assign call.key (charge (policy call.key) call.cost state) (all_unexpired call.at m)

    pub answered-after : now ≤ call.at → Counts now m c → answered.1 ≡ after
    unfolding consume_window
    answered-after le counts = rw (current_is le counts) refl

    abbrev kept : MemoryWindow
    kept = charge (policy call.key) call.cost state

    after_other : (k : String) → str_eq call.key k ≡ false → after k ≡ unexpired call.at (m k)
    after_other k e = rw e refl

    after_key : (k : String) → str_eq call.key k ≡ true → after k ≡ some kept
    after_key k e = rw e refl

    kept_holds :
        (t : ℕ)
        → call.at ≤ t
        → IsAhead policy valid now c
        → now ≤ call.at
        → count_of (unexpired t (some kept))
          ≡ charged policy c call call.key (index policy call.key t)
    kept_holds t h ahead le = go (Bool-cases (leb kept.reset_at t))
      where
        go :
            (leb kept.reset_at t ≡ true) ⊎ (leb kept.reset_at t ≡ false)
            → count_of (unexpired t (some kept))
              ≡ charged policy c call call.key (index policy call.key t)
        go (inl b) =
            let gone : unexpired t (some kept) ≡ none = rw b refl in
            ap count_of gone
            ∙ sym (
                charged_later policy valid now c call t le ahead
                  (subst (λ r. r ≤ t) charge_reset (le_of_test kept.reset_at t b)))
        go (inr b) =
            let stays : unexpired t (some kept) ≡ some kept = rw b refl in
            ap count_of stays
            ∙ charge_count
            ∙ charged_until policy valid c call t h
                (subst (λ r. t < r) charge_reset (lt_of_test kept.reset_at t b))

    pub after-Counts : now ≤ call.at → Counts now m c → Counts call.at after (charged policy c call)
    after-Counts le counts = record {
      holds = λ k t h. holds k t h (Bool-cases (str_eq call.key k));
      aligned = λ k w e. aligned k w e (Bool-cases (str_eq call.key k));
      ahead = charged-IsAhead policy valid now c call le counts.ahead;
    }
      where
        holds :
            (k : String) (t : ℕ)
            → call.at ≤ t
            → (str_eq call.key k ≡ true) ⊎ (str_eq call.key k ≡ false)
            → count_of (unexpired t (after k)) ≡ charged policy c call k (index policy k t)
        holds k t h (inl e) =
            ap (λ o. count_of (unexpired t o)) (after_key k e)
            ∙ subst
                (λ j.
                  count_of (unexpired t (some kept)) ≡ charged policy c call j (index policy j t))
                ((eq_iff call.key k).0 e) (kept_holds t h counts.ahead le)
        holds k t h (inr e) =
            ap (λ o. count_of (unexpired t o)) (after_other k e)
            ∙ ap count_of (unexpired_twice call.at t (m k) h)
            ∙ counts.holds k t (omega (arith, le, h))
            ∙ sym (charged_elsewhere policy valid c call k (index policy k t) (rw e refl))

        aligned :
            (k : String) (w : MemoryWindow)
            → after k ≡ some w
            → (str_eq call.key k ≡ true) ⊎ (str_eq call.key k ≡ false)
            → (s : ℕ) × (s ≤ call.at) × (w.reset_at ≡ next_reset (window_ms (policy k)) s)
        aligned k w e (inl b) =
            let same = some-injective _ _ (sym (after_key k b) ∙ e) in
            let ends = ap (λ (x : MemoryWindow). x.reset_at) (sym same) ∙ charge_reset in
            (
              call.at,
              omega arith,
              ends ∙ ap (λ j. next_reset (window_ms (policy j)) call.at) ((eq_iff call.key k).0 b),
            )
        aligned k w e (inr b) =
            let (stored, live) = unexpired-some call.at (m k) w (sym (after_other k b) ∙ e) in
            let (s, before, ends) = counts.aligned k w stored in
            (s, omega (arith, before, le), ends)

  -- a new adapter has counted nothing
  pub no_calls-Counts : Counts 0 (λ k. none) no_calls
  no_calls-Counts = record {
    holds = λ k t h. refl;
    aligned = λ k w e. cc;
    ahead = record { empty = λ k n l. refl };
  }
