-- ===== src/Jobs.antt =====
-- The jobs of src/evalops/workspace/jobs: models.py (states and records) and queue.py.
pub mod States
pub mod Record
pub mod Queue
pub mod Worker
pub mod Scheduling
pub mod Finishing
pub mod Cancelling
pub mod Liveness
pub mod Reachable
