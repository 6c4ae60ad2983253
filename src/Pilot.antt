-- ===== src/Pilot.antt =====
-- src/evalops/pilot: the limits that an external study keeps, and its resumable state.
pub mod RateLimit
pub mod Execution
pub mod Limits
pub mod Requests
pub mod Termination
pub mod Study
pub mod Sampling
pub mod Groups
pub mod Drawn
pub mod Balanced
pub mod Provenance
