-- ===== src/Safety.antt =====
-- The safety policy of commands and branches, `domain/policies/safety.py`.
pub mod Commands
pub mod Allowed
mod Examples
