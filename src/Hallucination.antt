-- ===== src/Hallucination.antt =====
-- src/evalops/evaluators/hallucination: labels of a detector against the human labels.
pub mod Labels
pub mod Report
pub mod Partition
pub mod Paired
pub mod Agreement
pub mod Spans
pub mod Thresholds
pub mod Table
pub mod Selection
