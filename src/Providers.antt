-- ===== src/Providers.antt =====
-- Calls of external providers: backend/providers/core.py.
pub mod Codes
pub mod Error
pub mod Snapshot
pub mod Exceptions
pub mod Executor
pub mod Retries
pub mod Deadline
pub mod Reference
pub mod RoundTrip
pub mod Refusals
