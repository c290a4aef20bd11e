-- ===== src/Db.antt =====
-- The tables that the run subsystem reads and writes, and transactions over them.
pub mod Rows
pub mod Session
