-- ===== src/Storage.antt =====
-- src/evalops/workspace/storage.py: the private JSON files below a workspace root.
pub mod Identifiers
pub mod Disk
pub mod Workspaces
pub mod Runs
pub mod Jobs
pub mod Transitions
pub mod Updates
pub mod NewJobs
pub mod Actions
pub mod Inputs
pub mod Registration
pub mod Registry
pub mod Drawing
pub mod Listing
pub mod CompareAndSet
pub mod View
pub mod Snapshots
pub mod Codec
pub mod Evidence
