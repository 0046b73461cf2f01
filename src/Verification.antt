-- ===== src/Verification.antt =====
-- The verification of a run, `application/use_cases/verify_run.py` and its services.
pub mod Commands
pub mod Attempts
pub mod Tally
pub mod Verdict
pub mod Dedupe
mod Examples
