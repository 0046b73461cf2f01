-- ===== src/Approval.antt =====
-- The approval of a delivery, `application/use_cases/manage_approval.py`.
pub mod Payload
pub mod Context
pub mod Workflow
pub mod RoundTrip
pub mod Rests
pub mod Decided
pub mod Legit
pub mod Guarantee
pub mod Samples
mod Examples
