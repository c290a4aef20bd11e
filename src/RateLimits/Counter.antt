-- ===== src/RateLimits/Counter.antt =====
-- What a rate limit promises: for each key and each window, the cost admitted so far, which never
-- passes the limit.
use super_mew.Prelude.{
  ℕ, ◌+◌, ◌-◌, ◌/◌, ◌≤◌, ◌≡◌, String, Bool, ◌&&◌, ◌==◌, leb, str_eq, List, [], ◌∷◌, arith,
  if◌then◌else◌, Bool-cases, both_true, eq_of_test, le_of_test, inl, inr, eq_iff,
}
use super_mew.RateLimits.Contracts.{RateLimitPolicy, window_ms, RateLimitSnapshot}
use super_mew.RateLimits.Memory.{next_reset}

pub record Call : Type 0 where
  pub at : ℕ
  pub key : String
  pub cost : ℕ

-- the cost admitted for a key in a window, by the index of the window
abbrev pub Counter : Type 0
Counter = String → ℕ → ℕ

abbrev pub no_calls : Counter
no_calls k n = 0

-- every key has its policy: the key holds the policy's name
module _ (policy : String → RateLimitPolicy) where
  abbrev pub index : String → ℕ → ℕ
  index k t = t / window_ms (policy k)

  abbrev pub used : Counter → Call → ℕ
  used c call = c call.key (index call.key call.at)

  abbrev pub fits : Counter → Call → Bool
  fits c call = leb (used c call + call.cost) (policy call.key).limit

  abbrev pub is_charged : Call → String → ℕ → Bool
  is_charged call k n = str_eq call.key k && index call.key call.at == n

  abbrev pub charged : Counter → Call → Counter
  charged c call k n = if fits c call && is_charged call k n then c k n + call.cost else c k n

  abbrev pub answer : Counter → Call → RateLimitSnapshot
  answer c call = record {
    allowed = fits c call;
    remaining = (policy call.key).limit - used (charged c call) call;
    reset_at = next_reset (window_ms (policy call.key)) call.at;
    observed_at = call.at;
  }

  unfoldable pub answers : Counter → List Call → List RateLimitSnapshot
  answers c [] = []
  answers c (call ∷ calls) = answer c call ∷ answers (charged c call) calls

  -- the cost that the answers admit for a key in a window
  unfoldable pub admitted : String → ℕ → List Call → List RateLimitSnapshot → ℕ
  admitted k n [] _ = 0
  admitted k n (call ∷ calls) [] = 0
  admitted k n (call ∷ calls) (a ∷ rest) =
      (if a.allowed && is_charged call k n then call.cost else 0) + admitted k n calls rest

  charged_within :
      (k : String) (n : ℕ) (c : Counter) (call : Call)
      → c k n ≤ (policy k).limit
      → charged c call k n ≤ (policy k).limit
  charged_within k n c call h = elim (Bool-cases (fits c call && is_charged call k n)) [
    | inr b ↦ rw b h
    | inl b ↦
        let (fit, charge) = both_true (fits c call) (is_charged call k n) b in
        let (key, window) = both_true (str_eq call.key k) (index call.key call.at == n) charge in
        rw b (at_window ((eq_iff call.key k).0 key) (eq_of_test _ _ window) (le_of_test _ _ fit))
  ]
    where
      at_window :
          call.key ≡ k
          → index call.key call.at ≡ n
          → used c call + call.cost ≤ (policy call.key).limit
          → c k n + call.cost ≤ (policy k).limit
      at_window e i le =
          let same : used c call ≡ c k n = cc in
          let limits : (policy call.key).limit ≡ (policy k).limit = cc in
          omega (arith, le, same, limits)

  admitted-answers :
      (k : String) (n : ℕ) (c : Counter) (calls : List Call)
      → c k n ≤ (policy k).limit
      → c k n + admitted k n calls (answers c calls) ≤ (policy k).limit
  unfolding answers admitted
  admitted-answers k n c [] h = omega (arith, h)
  admitted-answers k n c (call ∷ calls) h =
      let later = admitted-answers k n (charged c call) calls (charged_within k n c call h) in
      ground (arith, later)

  pub no_calls-admitted :
      (k : String) (n : ℕ) (calls : List Call)
      → admitted k n calls (answers no_calls calls) ≤ (policy k).limit
  no_calls-admitted k n calls =
      let all = admitted-answers k n no_calls calls (omega arith) in omega (arith, all)
