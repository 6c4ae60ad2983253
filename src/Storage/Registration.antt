-- ===== src/Storage/Registration.antt =====
-- src/evalops/workspace/storage.py: registering inputs and saving the snapshots of runs.
use Prim.Native.String.{◌++◌ as append}
use evalops_lab.Common.{
  String, not, ◌||◌, some, is_some, insert, erase, ◌==◌, string_eq, option_eq, nat_eq,
}
use evalops_lab.Models.Inputs.{
  InputKind, kind_eq, retrieval_ground_truth, retrieval_predictions, InputManifest, InputSourceMode,
  imported, referenced,
}
use evalops_lab.Models.Runs.{RunSnapshot}
use evalops_lab.Storage.Workspaces.{get_workspace}
use evalops_lab.Storage.Runs.{run_config_path}
use evalops_lab.Storage.Inputs.{input_manifest_path, imported_path, get_input}
use evalops_lab.Storage.Disk.{
  storage, is_taken, leads_to_file, file, Key, key_eq, Disk, entry_at, Action, atomic_write,
}
use evalops_lab.Storage.Actions.{◌>>=◌, ◌>>◌, return, query, check, atomic_create}

-- `f"inputs/imported/{input_id}.jsonl"`
abbrev pub relative_path : String → String
relative_path input = append "inputs/imported/" (append input ".jsonl")

abbrev pub put_input : String → InputManifest → Disk → Disk
put_input ws m d = record d { inputs = insert (ws, m.input_id) (file m) d.inputs }

abbrev pub put_imported : Key → String → Disk → Disk
put_imported k content d = record d { imported = insert k (file content) d.imported }

-- The checks of `save_input_manifest` that depend on the mode.
unfoldable pub check_source : String → InputManifest → InputSourceMode → Action (Unit {0})
check_source ws m imported = do
  check
      (λ _.
        not (m.stored_relative_path == some (relative_path m.input_id)) || is_some m.source_path)
      (storage "invalid imported input manifest")
  query (imported_path ws m.input_id)
  check (λ d. not (leads_to_file (entry_at (ws, m.input_id) d.imported)))
      (storage "imported input content is missing")
check_source ws m referenced =
    check (λ _. not (is_some m.source_path) || is_some m.stored_relative_path)
      (storage "invalid referenced input manifest")

unfoldable pub save_input_manifest : String → InputManifest → Action (Unit {0})
unfolding check_source
save_input_manifest ws m = do
  w ← query (get_workspace ws)
  query (input_manifest_path ws m.input_id)
  check (λ d. is_taken (entry_at (ws, m.input_id) d.inputs))
      (storage "input manifest is already registered")
  check_source ws m m.source_mode
  atomic_create (λ d. is_taken (entry_at (ws, m.input_id) d.inputs)) (put_input ws m)

unfoldable pub save_imported_input : String → String → String → Action String
save_imported_input ws input content = do
  w ← query (get_workspace ws)
  query (imported_path ws input)
  check (λ d. is_taken (entry_at (ws, input) d.imported)) (storage "imported input already exists")
  atomic_create (λ d. is_taken (entry_at (ws, input) d.imported)) (put_imported (ws, input) content)
  return (relative_path input)

unfoldable pub discard_imported_input : String → String → Action (Unit {0})
discard_imported_input ws input = do
  w ← query (get_workspace ws)
  query (imported_path ws input)
  atomic_write (λ d. record d { imported = erase (ws, input) d.imported })

-- The body of the loop of `save_run_snapshot`.
unfoldable pub check_input : String → String → String → InputKind → Action (Unit {0})
check_input ws input sha kind = do
  m ← query (get_input ws input)
  check (λ _. not (m.kind == kind) || not (m.content_sha256 == sha))
      (storage "run snapshot input integrity mismatch")

abbrev pub put_snapshot : String → RunSnapshot → Disk → Disk
put_snapshot ws s d = record d { run_configs = insert (ws, s.run_id) (file s) d.run_configs }

unfoldable pub save_run_snapshot : String → RunSnapshot → Action (Unit {0})
unfolding check_input
save_run_snapshot ws s = do
  w ← query (get_workspace ws)
  check (λ _. not (s.workspace_id == ws) || not (s.config.run_id == s.run_id))
      (storage "run snapshot ownership or identity mismatch")
  check_input ws s.ground_truth_input_id s.ground_truth_content_sha256 retrieval_ground_truth
  check_input ws s.predictions_input_id s.predictions_content_sha256 retrieval_predictions
  query (run_config_path ws s.run_id)
  check (λ d. is_taken (entry_at (ws, s.run_id) d.run_configs))
      (storage "run snapshot already exists")
  atomic_create (λ d. is_taken (entry_at (ws, s.run_id) d.run_configs)) (put_snapshot ws s)
