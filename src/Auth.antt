-- ===== src/Auth.antt =====
-- Refresh tokens: backend/auth/service.py and backend/auth/cleanup.py.
pub mod Tokens
pub mod Service
pub mod Cleanup
pub mod System
pub mod SingleUse
pub mod Keys
pub mod Rotation
pub mod Reuse
pub mod Replay
