-- ===== src/RateLimits/Refinement/Redis.antt =====
-- The Redis adapter implements the counter, on any store that behaves as Redis documents.
use native.Mathlib.Nat.{mod-lt}
use super_mew.Prelude.{
  ℕ, suc, ◌+◌, ◌-◌, ◌*◌, ◌%◌, ◌<◌, ◌≤◌, ◌≡◌, refl, sym, ap, subst, ◌∙◌, String, none, some, Bool,
  true, false, leb, str_eq, arith, eq_iff, Bool-cases, le_of_test, lt_of_test, test_of_le, inl, inr,
  if◌then◌else◌, ◌⊎◌,
}
use super_mew.RateLimits.Contracts.{RateLimitPolicy, IsPolicy, window_ms, done}
use super_mew.RateLimits.Memory.{next_reset}
use super_mew.RateLimits.Redis.{
  Redis, IsRedis, Field, window_start_ms, count, Reply, read_reply, count_from, counted,
  fixed_window,
}
use super_mew.RateLimits.Window.{same_index, start_and_length}
use super_mew.RateLimits.Counter.{Call, Counter, no_calls, index, used, fits, charged, answer}
use super_mew.RateLimits.Refinement.Ahead.{
  positive, IsAhead, charged_here, charged_later, charged_until, charged_elsewhere, charged-IsAhead,
}

-- the start of the window that a time is in
abbrev start_of : ℕ → ℕ → ℕ
start_of w t = t - t % w

-- a reply of the script in its ranges is read as it stands
read_valid :
    (p : RateLimitPolicy) (b : Bool) (remaining reset now : ℕ)
    → remaining ≤ p.limit
    → now ≤ reset
    → read_reply p (record {
      allowed = if b then 1 else 0;
      remaining = remaining;
      reset_at_ms = reset;
      now_ms = now;
    })
      ≡ done (record { allowed = b; remaining = remaining; reset_at = reset; observed_at = now })
read_valid p true remaining reset now h l =
    rw (test_of_le remaining p.limit h) (rw (test_of_le now reset l) refl)
read_valid p false remaining reset now h l =
    rw (test_of_le remaining p.limit h) (rw (test_of_le now reset l) refl)

count_from_start : (start n t : ℕ) → start ≡ t → count_from (some start) (some n) t ≡ n
count_from_start start n t e = ground arith

module _ {S : Type 0} (r : Redis S) (laws : IsRedis r) where
  module _ (policy : String → RateLimitPolicy) (valid : (k : String) → IsPolicy (policy k)) where
    -- at a time and after, the store holds the counts of the counter
    pub record Stores (now : ℕ) (s : S) (c : Counter) : Type 0 where
      holds :
          (k : String) (t : ℕ)
          → now ≤ t
          → counted r t (start_of (window_ms (policy k)) t) k s ≡ c k (index policy k t)
      ahead : IsAhead policy valid now c

    module _ (now : ℕ) (s : S) (c : Counter) (call : Call) where
      abbrev W : ℕ
      W = window_ms (policy call.key)

      abbrev kept : ℕ
      kept = if fits policy c call then used policy c call + call.cost else used policy c call

      abbrev pub written : S
      written = r.write call.key (start_of W call.at) kept (start_of W call.at + W) s

      abbrev pub replied : Reply
      replied = record {
        allowed = if fits policy c call then 1 else 0;
        remaining = (policy call.key).limit - kept;
        reset_at_ms = start_of W call.at + W;
        now_ms = call.at;
      }

      pub window-replied :
          now ≤ call.at
          → Stores now s c
          → fixed_window r call.at call.key (policy call.key).limit W call.cost s
            ≡ (replied, written)
      unfolding fixed_window
      window-replied le stores = rw (stores.holds call.key call.at le) refl

      pub read-replied : read_reply (policy call.key) replied ≡ done (answer policy c call)
      read-replied =
          let W = window_ms (policy call.key) in
          let reset = start_and_length W call.at in
          let short = mod-lt call.at {m = W} (positive policy valid call.key) in
          read_valid (policy call.key) (fits policy c call) ((policy call.key).limit - kept)
            (start_of W call.at + W) call.at (omega arith) (omega (arith, short))
          ∙ ap
              (λ n. done (record (answer policy c call) {
                remaining = (policy call.key).limit - n;
                reset_at = start_of W call.at + W;
              }))
              (sym (charged_here policy valid c call))
          ∙ ap (λ n. done (record (answer policy c call) { reset_at = n })) reset

      written_holds :
          (t : ℕ)
          → call.at ≤ t
          → now ≤ call.at
          → IsAhead policy valid now c
          → counted r t (start_of W t) call.key written
            ≡ charged policy c call call.key (index policy call.key t)
      written_holds t h le ahead = go (Bool-cases (leb (next_reset W call.at) t))
        where
          over_of : next_reset W call.at ≤ t → start_of W call.at + W ≤ t
          over_of l = omega (arith, start_and_length W call.at, l)

          live_of : t < next_reset W call.at → t < start_of W call.at + W
          live_of l = omega (arith, start_and_length W call.at, l)

          same_start : t < next_reset W call.at → start_of W call.at ≡ start_of W t
          same_start l =
              let same = same_index W (positive policy valid call.key) call.at t h l in
              let ends : next_reset W t ≡ next_reset W call.at = ap (λ i. suc i * W) same in
              omega (arith, start_and_length W call.at, start_and_length W t, ends)

          go :
              (leb (next_reset W call.at) t ≡ true) ⊎ (leb (next_reset W call.at) t ≡ false)
              → counted r t (start_of W t) call.key written
                ≡ charged policy c call call.key (index policy call.key t)
          go (inl b) =
              let gone = over_of (le_of_test (next_reset W call.at) t b) in
              ap (λ a. count_from a (r.hget t call.key count written) (start_of W t))
                (laws.expired s call.key window_start_ms (start_of W call.at) kept
                  (start_of W call.at + W) t gone)
              ∙ sym (
                  charged_later policy valid now c call t le ahead
                    (le_of_test (next_reset W call.at) t b))
          go (inr b) =
              let l = lt_of_test (next_reset W call.at) t b in
              let live = live_of l in
              ap (λ a. count_from a (r.hget t call.key count written) (start_of W t))
                (laws.start s call.key (start_of W call.at) kept (start_of W call.at + W) t live)
              ∙ ap (λ a. count_from (some (start_of W call.at)) a (start_of W t))
                  (laws.held s call.key (start_of W call.at) kept (start_of W call.at + W) t live)
              ∙ count_from_start (start_of W call.at) kept (start_of W t) (same_start l)
              ∙ sym (charged_here policy valid c call)
              ∙ charged_until policy valid c call t h l

      pub written-Stores :
          now ≤ call.at → Stores now s c → Stores call.at written (charged policy c call)
      written-Stores le stores = record {
        holds = λ k t h. holds k t h (Bool-cases (str_eq call.key k));
        ahead = charged-IsAhead policy valid now c call le stores.ahead;
      }
        where
          holds :
              (k : String) (t : ℕ)
              → call.at ≤ t
              → (str_eq call.key k ≡ true) ⊎ (str_eq call.key k ≡ false)
              → counted r t (start_of (window_ms (policy k)) t) k written
                ≡ charged policy c call k (index policy k t)
          holds k t h (inl e) =
              subst
                (λ j.
                  counted r t (start_of (window_ms (policy j)) t) j written
                  ≡ charged policy c call j (index policy j t))
                ((eq_iff call.key k).0 e) (written_holds t h le stores.ahead)
          holds k t h (inr e) =
              let start = start_of (window_ms (policy k)) t in
              ap (λ a. count_from a (r.hget t k count written) start)
                (laws.other s call.key k window_start_ms (start_of W call.at) kept
                  (start_of W call.at + W) t e)
              ∙ ap (λ a. count_from (r.hget t k window_start_ms s) a start)
                  (laws.other s call.key k count (start_of W call.at) kept (start_of W call.at + W)
                    t e)
              ∙ stores.holds k t (omega (arith, le, h))
              ∙ sym (charged_elsewhere policy valid c call k (index policy k t) (rw e refl))

    -- a store that holds no key has counted nothing
    pub no_calls-Stores :
        (s : S) → ((t : ℕ) (k : String) (f : Field) → r.hget t k f s ≡ none) → Stores 0 s no_calls
    no_calls-Stores s none_held = record {
      holds = λ k t h. rw (none_held t k window_start_ms) refl;
      ahead = record { empty = λ k n l. refl };
    }
