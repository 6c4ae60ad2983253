-- ===== src/Storage/Runs.antt =====
-- src/evalops/workspace/storage.py: reading the snapshot of a run.
use evalops_lab.Common.{String, not, ◌&&◌, Result, ok, ◌>>=◌, ◌>>◌, raise_if, ◌==◌, string_eq}
use evalops_lab.Models.Runs.{RunSnapshot}
use evalops_lab.Storage.Identifiers.{is_workspace_id, is_run_id}
use evalops_lab.Storage.Workspaces.{get_workspace}
use evalops_lab.Storage.Disk.{
  StoreError, storage, unknown_workspace, unknown_run, is_file, read_model, workspace_root,
  runs_root, run_directory, Disk, entry_at, key_eq,
}

-- `_run_config_path`: the guards of the path.
unfoldable pub run_config_path : String → String → Disk → Result StoreError (Unit {0})
run_config_path ws run d = do
  raise_if (not (is_workspace_id ws)) unknown_workspace
  raise_if (not (is_run_id run)) (storage "run identifier is invalid")
  raise_if (d.escapes (workspace_root ws)) (storage "workspace directory is unsafe")
  raise_if (d.escapes (runs_root ws)) (storage "workspace runs directory is unsafe")
  raise_if (d.escapes (run_directory ws run)) (storage "run directory is unsafe")

unfoldable pub get_run_snapshot : String → String → Disk → Result StoreError RunSnapshot
unfolding run_config_path
get_run_snapshot ws run d = do
  w ← get_workspace ws d
  run_config_path ws run d
  let found = entry_at (ws, run) d.run_configs
  raise_if (not (is_file found)) unknown_run
  snapshot ← read_model "run snapshot is invalid" found
  raise_if (not (snapshot.workspace_id == ws && snapshot.run_id == run))
      (storage "run snapshot ownership or identity mismatch")
  raise_if (not (snapshot.config.run_id == run)) (storage "run snapshot config identity mismatch")
  ok snapshot
