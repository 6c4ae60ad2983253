-- ===== src/Storage/Workspaces.antt =====
-- src/evalops/workspace/storage.py: the registry of workspaces.
use evalops_lab.Common.{
  String, not, List, Result, ok, ◌>>=◌, ◌>>◌, raise_if, each, unique, all, member, ◌==◌, string_eq,
}
use evalops_lab.Models.Workspaces.{WorkspaceRecord}
use evalops_lab.Storage.Identifiers.{is_workspace_id}
use evalops_lab.Storage.Disk.{
  StoreError, storage, duplicate_workspace, unknown_workspace, is_file, read_model, workspace_root,
  Disk, entry_at,
}

-- `_load_registry`
unfoldable pub load_registry : Disk → Result StoreError (List String)
load_registry d = do
  raise_if (not (is_file d.registry)) (storage "workspace registry is unavailable")
  ids ← read_model "workspace registry is invalid" d.registry
  raise_if (not (unique ids)) duplicate_workspace
  raise_if (not (all is_workspace_id ids))
      (storage "workspace registry contains invalid identifiers")
  ok ids

-- `_workspace_path`: the guards of the path.
unfoldable pub workspace_path : String → Disk → Result StoreError (Unit {0})
workspace_path ws d = do
  raise_if (not (is_workspace_id ws)) unknown_workspace
  raise_if (d.escapes (workspace_root ws)) (storage "workspace directory is unsafe")

-- `_load_workspace`
unfoldable pub load_workspace : String → Disk → Result StoreError WorkspaceRecord
unfolding workspace_path
load_workspace ws d = do
  workspace_path ws d
  let found = entry_at ws d.workspaces
  raise_if (not (is_file found)) unknown_workspace
  found' ← read_model "workspace metadata is invalid" found
  raise_if (not (found'.workspace_id == ws)) (storage "workspace metadata identity mismatch")
  ok found'

unfoldable pub list_workspaces : Disk → Result StoreError (List WorkspaceRecord)
unfolding load_workspace load_registry
list_workspaces d = do ids ← load_registry d; each (λ ws. load_workspace ws d) ids

unfoldable pub get_workspace : String → Disk → Result StoreError WorkspaceRecord
unfolding load_registry load_workspace
get_workspace ws d = do
  ids ← load_registry d
  raise_if (not (member ws ids)) unknown_workspace
  load_workspace ws d
