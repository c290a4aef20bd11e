-- ===== src/Threads.antt =====
-- Threads and their messages: backend/threads/repository.py.
pub mod Records
pub mod Messages
pub mod Lists
pub mod Numbering
pub mod Opening
pub mod Kept
pub mod Windows
pub mod Removal
