-- ===== src/RateLimits/Refinement/Ahead.antt =====
-- Windows that no call has reached.
use super_mew.Prelude.{
  ℕ, ◌+◌, ◌<◌, ◌≤◌, ◌≡◌, ◌≢◌, refl, sym, ap, ◌∙◌, String, Bool, true, false, ◌&&◌, ◌==◌, str_eq,
  arith, eq_iff, eq_refl, Bool-cases, inl, inr, if◌then◌else◌, both_true, eq_of_test,
}
use super_mew.RateLimits.Contracts.{RateLimitPolicy, IsPolicy, window_ms}
use super_mew.RateLimits.Memory.{next_reset}
use super_mew.RateLimits.Window.{index_mono, later_index, same_index}
use super_mew.RateLimits.Counter.{Call, Counter, index, used, fits, is_charged, charged}

module _ (policy : String → RateLimitPolicy) (valid : (k : String) → IsPolicy (policy k)) where
  pub positive : (k : String) → 1 ≤ window_ms (policy k)
  positive k = omega (arith, (valid k).some_window)

  -- nothing is charged to the windows after the one of `now`
  pub record IsAhead (now : ℕ) (c : Counter) : Type 0 where
    pub empty : (k : String) (n : ℕ) → index policy k now < n → c k n ≡ 0

  -- what a call charges in its own window
  pub charged_here :
      (c : Counter) (call : Call)
      → charged policy c call call.key (index policy call.key call.at)
        ≡ (if fits policy c call then used policy c call + call.cost else used policy c call)
  charged_here c call =
      rw (eq_refl call.key) (rw (same (index policy call.key call.at)) (go (fits policy c call)))
    where
      same : (n : ℕ) → (n == n) ≡ true
      same n = ground arith

      go :
          (b : Bool)
          → (if b && true then used policy c call + call.cost else used policy c call)
            ≡ (if b then used policy c call + call.cost else used policy c call)
      go true = refl
      go false = refl

  -- and that it charges no other window and no other key
  pub charged_elsewhere :
      (c : Counter) (call : Call) (k : String) (n : ℕ)
      → is_charged policy call k n ≡ false
      → charged policy c call k n ≡ c k n
  charged_elsewhere c call k n e = rw e (go (fits policy c call))
    where
      go : (b : Bool) → (if b && false then c k n + call.cost else c k n) ≡ c k n
      go true = refl
      go false = refl

  unreached : (a n : ℕ) → a < n → a ≢ n
  unreached a n l e = omega (arith, l, e)

  pub later_window :
      (call : Call) (k : String) (n : ℕ)
      → index policy k call.at < n
      → is_charged policy call k n ≡ false
  later_window call k n l = elim (Bool-cases (is_charged policy call k n)) [
    | inr b ↦ b
    | inl b ↦
        let (key, window) = both_true (str_eq call.key k) (index policy call.key call.at == n) b in
        let same = ap (λ j. index policy j call.at) ((eq_iff call.key k).0 key) in
        let hit = eq_of_test (index policy call.key call.at) n window in
        elim (unreached (index policy k call.at) n l (sym same ∙ hit)) [ ]
  ]

  pub charged-IsAhead :
      (now : ℕ) (c : Counter) (call : Call)
      → now ≤ call.at
      → IsAhead now c
      → IsAhead call.at (charged policy c call)
  charged-IsAhead now c call le ahead = record {
    empty = λ k n l.
        let before = index_mono (window_ms (policy k)) (positive k) now call.at le in
        charged_elsewhere c call k n (later_window call k n l)
        ∙ ahead.empty k n (omega (arith, before, l));
  }

  -- the counts after a call: none in the windows after its own, and those of its own until it ends
  pub charged_later :
      (now : ℕ) (c : Counter) (call : Call) (t : ℕ)
      → now ≤ call.at
      → IsAhead now c
      → next_reset (window_ms (policy call.key)) call.at ≤ t
      → charged policy c call call.key (index policy call.key t) ≡ 0
  charged_later now c call t le ahead over =
      let key = call.key in
      let past = later_index (window_ms (policy key)) (positive key) call.at t over in
      let before = index_mono (window_ms (policy key)) (positive key) now call.at le in
      charged_elsewhere c call key (index policy key t)
        (later_window call key (index policy key t) past)
      ∙ ahead.empty key (index policy key t) (omega (arith, before, past))

  pub charged_until :
      (c : Counter) (call : Call) (t : ℕ)
      → call.at ≤ t
      → t < next_reset (window_ms (policy call.key)) call.at
      → charged policy c call call.key (index policy call.key call.at)
        ≡ charged policy c call call.key (index policy call.key t)
  charged_until c call t h live =
      ap (charged policy c call call.key)
        (sym (same_index (window_ms (policy call.key)) (positive call.key) call.at t h live))
