-- ===== src/Models.antt =====
-- The data of src/evalops/models and src/evalops/workspace/models.py.
pub mod Runs
pub mod Workspaces
pub mod Inputs
