-- ===== src/RateLimits/Memory.antt =====
-- `InMemoryRateLimitAdapter` of backend/rate_limits/adapters.py.
use super_mew.Prelude.{
  ℕ, suc, ◌+◌, ◌-◌, ◌*◌, ◌/◌, String, Option, none, some, Bool, true, false, leb, str_eq,
  if◌then◌else◌,
}
use super_mew.RateLimits.Contracts.{
  RateLimitPolicy, window_ms, RateLimitSnapshot, Unavailable, Outcome, done, unavailable,
}

-- `_MemoryWindow`
pub record MemoryWindow : Type 0 where
  pub count : ℕ
  pub reset_at : ℕ

-- the adapter's fields; the dict is a function from the keys
pub record InMemory : Type 0 where
  pub windows : String → Option MemoryWindow
  pub closed : Bool

abbrev pub opened_memory : InMemory
opened_memory = record { windows = λ k. none; closed = false }

-- a window is dropped once its end is not after the clock
abbrev pub unexpired : ℕ → Option MemoryWindow → Option MemoryWindow
unexpired now none = none
unexpired now (some w) = if leb w.reset_at now then none else some w

abbrev pub all_unexpired : ℕ → (String → Option MemoryWindow) → String → Option MemoryWindow
all_unexpired now windows k = unexpired now (windows k)

-- `(math.floor(now / window) + 1) * window`
abbrev pub next_reset : ℕ → ℕ → ℕ
next_reset window now = suc (now / window) * window

abbrev pub current : RateLimitPolicy → ℕ → Option MemoryWindow → MemoryWindow
current policy now none = record { count = 0; reset_at = next_reset (window_ms policy) now }
current policy now (some w) = w

abbrev pub charge : RateLimitPolicy → ℕ → MemoryWindow → MemoryWindow
charge policy cost w =
    if leb (w.count + cost) policy.limit then record w { count = w.count + cost } else w

abbrev pub assign :
    String → MemoryWindow → (String → Option MemoryWindow) → String → Option MemoryWindow
assign key w windows k = if str_eq key k then some w else windows k

-- the part of `consume` after its guards
unfoldable pub consume_window :
    ℕ
    → String
    → RateLimitPolicy
    → ℕ
    → (String → Option MemoryWindow)
    → RateLimitSnapshot × (String → Option MemoryWindow)
consume_window now key policy cost windows =
    let live = all_unexpired now windows in
    let state = current policy now (live key) in
    let charged = charge policy cost state in
    (
      record {
        allowed = leb (state.count + cost) policy.limit;
        remaining = policy.limit - charged.count;
        reset_at = state.reset_at;
        observed_at = now;
      },
      assign key charged live,
    )

-- `InMemoryRateLimitAdapter.consume`; the clock gives no time if it raises, or if what it gives is
-- not finite or negative
unfoldable pub consume :
    Option ℕ → String → RateLimitPolicy → ℕ → InMemory → Outcome RateLimitSnapshot × InMemory
consume clock key policy cost m = go m.closed clock
  where
    go : Bool → Option ℕ → Outcome RateLimitSnapshot × InMemory
    go true _ = (unavailable Unavailable.closed, m)
    go false none = (unavailable Unavailable.clock_invalid, m)
    go false (some now) =
        let (snapshot, windows) = consume_window now key policy cost m.windows in
        (done snapshot, record m { windows = windows })

-- `close`
abbrev pub close : InMemory → InMemory
close m = record { windows = λ k. none; closed = true }
