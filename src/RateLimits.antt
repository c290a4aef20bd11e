-- ===== src/RateLimits.antt =====
-- Inbound rate limiting: backend/rate_limits.
pub mod Contracts
pub mod Memory
pub mod Window
pub mod Redis
pub mod Limiter
pub mod Counter
pub mod Refinement
pub mod Policy
pub mod Routes
