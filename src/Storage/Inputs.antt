-- ===== src/Storage/Inputs.antt =====
-- src/evalops/workspace/storage.py: reading the registered inputs. A content is the text of its
-- bytes; `sha256` is the digest in hexadecimal.
use evalops_lab.Common.{
  ℕ, ◌*◌, String, not, Option, none, some, List, Result, ok, raise, ◌>>=◌, ◌>>◌, raise_if, each,
  Dict, [], ◌∷◌, length, sort_by, str_lt, ltb, ◌==◌, string_eq, if◌then◌else◌,
}
use evalops_lab.Models.Inputs.{InputManifest, imported, referenced}
use evalops_lab.Storage.Identifiers.{codes, is_workspace_id, is_input_id}
use evalops_lab.Storage.Workspaces.{get_workspace}
use evalops_lab.Storage.Disk.{
  StoreError, storage, unknown_workspace, unknown_input, input_hash_changed, is_file, Entry, file,
  read_model, Key, key_eq, workspace_root, inputs_root, input_section, unsafe, unresolved,
  not_regular, regular, Disk, entry_at,
}

abbrev pub max_input_bytes : ℕ
max_input_bytes = 10 * 1024 * 1024

-- `len(data)`
abbrev pub size_of : String → ℕ
size_of content = length (codes content)

-- `_inputs_directory` and `_input_section`: the guards of the path.
unfoldable pub section_path : String → String → Disk → Result StoreError (Unit {0})
section_path ws name d = do
  raise_if (not (is_workspace_id ws)) unknown_workspace
  raise_if (d.escapes (workspace_root ws)) (storage "workspace directory is unsafe")
  raise_if (d.escapes (inputs_root ws)) (storage "workspace input directory is unsafe")
  raise_if (d.escapes (input_section ws name)) (storage "workspace input section is unsafe")

-- `_input_manifest_path`
unfoldable pub input_manifest_path : String → String → Disk → Result StoreError (Unit {0})
unfolding section_path
input_manifest_path ws input d = do
  raise_if (not (is_input_id input)) unknown_input
  section_path ws "manifests" d

-- `_imported_path`
unfoldable pub imported_path : String → String → Disk → Result StoreError (Unit {0})
unfolding section_path
imported_path ws input d = do
  raise_if (not (is_input_id input)) unknown_input
  section_path ws "imported" d

unfoldable pub get_input : String → String → Disk → Result StoreError InputManifest
unfolding input_manifest_path
get_input ws input d = do
  w ← get_workspace ws d
  input_manifest_path ws input d
  let found = entry_at (ws, input) d.inputs
  raise_if (not (is_file found)) unknown_input
  manifest ← read_model "input manifest is invalid" found
  raise_if (not (manifest.input_id == input)) (storage "input manifest identity mismatch")
  ok manifest

-- The stems of the manifests of a workspace.
abbrev pub input_names : String → Dict Key (Entry InputManifest) → List String
input_names ws [] = []
input_names ws (((w, input), _) ∷ inputs) =
    if w == ws then input ∷ input_names ws inputs else input_names ws inputs

unfoldable pub list_inputs : String → Disk → Result StoreError (List InputManifest)
unfolding section_path get_input
list_inputs ws d = do
  w ← get_workspace ws d
  section_path ws "manifests" d
  each (λ input. get_input ws input d) (sort_by str_lt (input_names ws d.inputs))

-- `handle.read(MAX_INPUT_BYTES + 1)` and the test of its length.
abbrev pub bounded : String → Result StoreError String
bounded content = do
  raise_if (ltb max_input_bytes (size_of content))
      (input_hash_changed "registered input exceeds 10 MiB limit")
  ok content

-- The content of an imported input.
unfoldable pub read_imported : String → String → Disk → Result StoreError String
unfolding imported_path
read_imported ws input d = do
  imported_path ws input d
  let found = entry_at (ws, input) d.imported
  raise_if (not (is_file found)) (storage "imported input content is unavailable")
  elim found [
    | file content ↦ bounded content
    | _ ↦ raise (storage "registered input cannot be read")
  ]

-- The content of a referenced input.
unfoldable pub read_referenced : Option String → Disk → Result StoreError String
read_referenced none d = raise (storage "referenced input has no source")
read_referenced (some path) d = elim (d.sources path) [
  | unsafe ↦ raise (storage "referenced input source path is unsafe")
  | unresolved ↦ raise (storage "registered input cannot be read")
  | not_regular ↦ raise (storage "referenced input content is unavailable")
  | regular size content ↦ do
    raise_if (ltb max_input_bytes size) (input_hash_changed "referenced input exceeds 10 MiB limit")
    bounded content
]

unfoldable pub read_input_bytes :
    (String → String) → String → String → Disk → Result StoreError String
unfolding read_imported read_referenced
read_input_bytes sha256 ws input d = do
  manifest ← get_input ws input d
  content ← elim manifest.source_mode [
    | imported ↦ read_imported ws input d
    | referenced ↦ read_referenced manifest.source_path d
  ]
  raise_if (not (sha256 content == manifest.content_sha256))
      (input_hash_changed "registered input checksum has changed")
  ok content
