-- ===== src/Patch.antt =====
-- The execution of patches: `domain/policies/workspace.py`, `infrastructure/workspace/mutator.py` and
-- `application/use_cases/execute_patch_proposal.py`.
pub mod Files
pub mod Guardrails
pub mod Mutator
pub mod Execute
pub mod Record
pub mod Effects
pub mod Outcome
pub mod Replace
mod Examples
