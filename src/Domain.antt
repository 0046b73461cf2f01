-- ===== src/Domain.antt =====
-- `domain/entities.py`, by component, and the JSON values of the stored payloads.
pub mod Json
pub mod Queue
pub mod Tenant
pub mod Runs
pub mod Commands
pub mod Approvals
pub mod Patches
