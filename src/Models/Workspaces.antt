-- ===== src/Models/Workspaces.antt =====
-- src/evalops/workspace/models.py. Schema versions are checked where a file is read (Storage).
use evalops_lab.Common.{ℕ, String, Option}

pub record WorkspaceRecord : Type 0 where
  pub workspace_id : String
  pub display_name : String
  pub created_at : ℕ
  pub updated_at : ℕ

pub record BaselinePointer : Type 0 where
  pub run_id : String
  pub result_sha256 : String
  pub pinned_at : ℕ

pub record WorkspaceState : Type 0 where
  pub baseline : Option BaselinePointer
