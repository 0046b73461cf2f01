-- ===== src/Domain/Commands.antt =====
-- Commands and their assessment in `domain/entities.py`.
use issue_to_pr_agent.Prelude.{String}

pub data CommandDecision : Type 0 where
  allow review block : CommandDecision

pub record CommandAssessment : Type 0 where
  pub command : String
  pub decision : CommandDecision
  pub reason : String

pub record TestCommandCandidate : Type 0 where
  pub command : String
  pub source : String
