-- ===== src/Ingestion.antt =====
-- src/evalops/workspace/ingestion: the validation of retrieval inputs, and their registration.
pub mod Jsonl
pub mod Csv
pub mod Canonical
pub mod Service
pub mod Registered
pub mod Usable
