-- ===== src/Runs/Repository.antt =====
-- backend/runs/repository.py: the transactions of `RunRepository`.
pub mod Record
pub mod Validate
pub mod Claim
pub mod Hold
pub mod Finalize
pub mod Reserve
pub mod Skill
pub mod Reconcile
