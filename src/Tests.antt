-- ===== src/Tests.antt =====
-- Concrete tables, runs of the model on them, and the theorems at such inputs.
mod Data
mod Opened
mod Histories
mod Leases
mod Deletions
mod Idempotency
mod Orphans
mod Limits
mod Tokens
mod Calls
mod Publishing
mod Threads
mod Cancels
mod Executions
