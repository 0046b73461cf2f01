-- ===== src/Policy.antt =====
-- The policies of deliveries: `application/services/approval_policy.py` and
-- `application/services/delivery_governance.py`.
pub mod Load
pub mod Merge
pub mod Complete
pub mod Read
pub mod Evaluate
pub mod Evaluator
pub mod Lawful
pub mod Risk
pub mod Directories
pub mod Governance
pub mod GovernanceEvaluator
pub mod Gates
pub mod Delivered
mod Examples
