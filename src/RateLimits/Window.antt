-- ===== src/RateLimits/Window.antt =====
-- Arithmetic of fixed windows.
use native.Mathlib.Nat.{div-lt_iff_lt-mul, le-div_iff_mul-le, div-add-mod}
use super_mew.Prelude.{ℕ, suc, ◌+◌, ◌-◌, ◌/◌, ◌%◌, ◌<◌, ◌≤◌, ◌≡◌, arith, ◌↔◌}
use super_mew.RateLimits.Memory.{next_reset}

module _ (w : ℕ) (p : 1 ≤ w) where
  -- a time is before the end of a window exactly if its index is not past the window's
  pub before_reset : (s t : ℕ) → (t < next_reset w s) ↔ (t / w < suc (s / w))
  before_reset s t = let i = div-lt_iff_lt-mul {k = w} {x = t} {y = suc (s / w)} p in (i.1, i.0)

  pub index_mono : (s t : ℕ) → s ≤ t → s / w ≤ t / w
  index_mono s t h =
      let own = (before_reset t t).1 (omega arith) in
      let both = (before_reset t s).0 (omega (arith, own, h)) in omega (arith, both)

  pub same_index : (s t : ℕ) → s ≤ t → t < next_reset w s → t / w ≡ s / w
  same_index s t h b =
      let above = index_mono s t h in
      let below = (before_reset s t).0 b in omega (arith, above, below)

  pub later_index : (s t : ℕ) → next_reset w s ≤ t → s / w < t / w
  later_index s t h = (le-div_iff_mul-le p).1 h

-- the start of the window that a time is in, and its end
pub start_and_length : (w t : ℕ) → t - t % w + w ≡ next_reset w t
start_and_length w t = omega (arith, div-add-mod t w)
