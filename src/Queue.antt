-- ===== src/Queue.antt =====
-- The job queue.
pub mod Store
pub mod Claim
pub mod Rows
pub mod Select
pub mod Limits
pub mod Budget
pub mod Create
pub mod IssueNumber
pub mod Linked
pub mod Enqueue
pub mod Manage
pub mod Process
pub mod Finish
pub mod Worker
pub mod Invariant
pub mod Preserve
pub mod Ends
pub mod Outcome
pub mod Retry
pub mod Spending
pub mod Runs
pub mod Trace
pub mod Counts
pub mod Control
pub mod Admission
pub mod Samples
mod Examples
mod RunExamples
