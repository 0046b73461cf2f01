-- ===== src/Approval/Workflow.antt =====
-- The two use cases of `application/use_cases/manage_approval.py`.
mod Persist
mod Request
mod Decide
unfoldable pub use Persist.*
unfoldable pub use Request.*
unfoldable pub use Decide.*
