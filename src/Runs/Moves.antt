-- ===== src/Runs/Moves.antt =====
-- Every transaction of the run repository and of the journal is made of the moves of
-- `Runs.Evolution`.
pub mod Ownership
pub mod Ending
pub mod Reservation
