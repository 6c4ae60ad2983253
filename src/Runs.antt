-- ===== src/Runs.antt =====
-- src/evalops/workspace/application/runs.py: retrieval runs of a workspace, from the check of their inputs to
-- the execution of their job.
pub mod Pairing
pub mod Creation
pub mod Execution
pub mod Phases
pub mod Outcome
pub mod Created
pub mod Resubmitted
pub mod Populations
