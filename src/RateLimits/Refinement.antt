-- ===== src/RateLimits/Refinement.antt =====
-- The adapters implement the counter, at times that do not go back.
pub mod Ahead
pub mod Memory
pub mod Redis
pub mod Adapters
use super_mew.Prelude.{ℕ, ◌≤◌, List, [], ◌∷◌}
use super_mew.RateLimits.Counter.{Call}

-- the calls are made at or after a time, in the order of their times
abbrev pub InOrder : ℕ → List Call → Type 0
InOrder now [] = Unit
InOrder now (call ∷ calls) = (now ≤ call.at) × InOrder call.at calls
