-- ===== src/Tests.antt =====
-- The theorems at concrete inputs, and the inputs.
mod Samples
mod StorageUpdates
mod JobQueue
mod Metrics
mod Compared
mod Detectors
mod PilotLimits
mod RunEvidence
mod RunService
mod PilotStudy
mod ComparisonService
mod ComparisonArchive
mod InputFiles
mod Selection
mod PilotSampling
mod Resubmission
mod Baseline
