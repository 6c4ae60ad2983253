-- ===== src/Comparison.antt =====
-- src/evalops/workspace/comparison: two runs of a workspace compared.
pub mod Evidence
pub mod Failures
pub mod Transitions
pub mod Compatibility
pub mod Comparable
pub mod Service
pub mod Drafted
pub mod Archive
pub mod Creation
pub mod Created
pub mod Pinned
