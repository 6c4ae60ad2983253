-- ===== src/Storage/Disk.antt =====
-- The files of a workspace root as src/evalops/workspace/storage.py meets them, and its exceptions.
-- A file is what the JSON reader and the schema validation make of it.
use evalops_lab.Common.{
  ℕ, ◌+◌, String, ◌≡◌, ◌↔◌, Bool, true, false, ◌&&◌, none, some, List, Dict, Result, ok, raise,
  lookup, Eq, ◌==◌, ==_iff, string_eq, if◌then◌else◌, arith,
}
use evalops_lab.Jobs.Record.{JobRecord}
use evalops_lab.Models.Runs.{RunSnapshot, RunProvenance}
use evalops_lab.Models.Inputs.{InputManifest}
use evalops_lab.Models.Workspaces.{WorkspaceRecord, WorkspaceState}

-- The exception classes; a text is the message. `value_error` is a plain ValueError,
-- `validation_error` pydantic's ValidationError and `os_error` an OSError of a write.
pub data StoreError : Type 0 where
  storage : String → StoreError
  duplicate_workspace unknown_workspace unsupported_schema unknown_run unknown_job : StoreError
  unknown_input unknown_comparison : StoreError
  input_hash_changed : String → StoreError
  invalid_transition : String → StoreError
  value_error : String → StoreError
  validation_error os_error : StoreError

-- What stands at a path. `link` is a symbolic link to a regular file, `dangling` one that leads nowhere;
-- the last five are regular files.
pub data Entry (A : Type 0) : Type 0 where
  missing link dangling directory : Entry A
  unreadable not_object wrong_schema invalid : Entry A
  file : A → Entry A

abbrev pub is_file : {A : Type 0} → Entry A → Bool
is_file missing = false
is_file link = false
is_file dangling = false
is_file directory = false
is_file _ = true

-- `path.is_file()`, which follows a link.
abbrev pub leads_to_file : {A : Type 0} → Entry A → Bool
leads_to_file missing = false
leads_to_file dangling = false
leads_to_file directory = false
leads_to_file _ = true

-- `path.unlink()` raises on a directory.
abbrev pub is_directory : {A : Type 0} → Entry A → Bool
is_directory directory = true
is_directory _ = false

abbrev pub is_link : {A : Type 0} → Entry A → Bool
is_link link = true
is_link dangling = true
is_link _ = false

-- `path.exists()`, which follows a link.
abbrev pub exists : {A : Type 0} → Entry A → Bool
exists missing = false
exists dangling = false
exists _ = true

-- `path.exists() or path.is_symlink()`: no file can be created there.
abbrev pub is_taken : {A : Type 0} → Entry A → Bool
is_taken missing = false
is_taken _ = true

-- `_read_json`, `_require_schema` and `model_validate` on a regular file.
unfoldable pub read_model : {A : Type 0} → String → Entry A → Result StoreError A
read_model message (file a) = ok a
read_model message wrong_schema = raise unsupported_schema
read_model message not_object = raise (storage "workspace metadata must be a JSON object")
read_model message invalid = raise (storage message)
read_model message _ = raise (storage "workspace metadata is unreadable")

abbrev pub Key : Type 0
Key = String × String

abbrev pub key_beq : Key → Key → Bool
key_beq (a, b) (c, d) = a == c && b == d

pub key_beq_iff : (k j : Key) → (key_beq k j ≡ true) ↔ (k ≡ j)
key_beq_iff (a, b) (c, d) = ground (arith, ==_iff a c, ==_iff b d)

instance abbrev pub key_eq : Eq Key
key_eq = record { beq = key_beq; beq_iff = key_beq_iff }

-- A directory whose resolved path is tested against its base.
pub data Place : Type 0 where
  workspace_root runs_root jobs_root inputs_root comparisons_root : String → Place
  run_directory job_directory input_section comparison_directory : String → String → Place

-- What stands at `jobs/<name>`: a plain directory with its `job.json`, or something that is not a
-- directory. A link to a directory is outside of the model.
pub data JobChild : Type 0 where
  stray : JobChild
  child : Entry JobRecord → JobChild

-- The files of a comparison. Of the config only the members that are texts are read.
pub record ComparisonFiles : Type 0 where
  pub config : Entry (Dict String String)
  pub result : Entry String
  pub failures : Entry String

-- What stands at `comparisons/<name>`: a plain directory, or something else.
pub data ComparisonChild : Type 0 where
  not_folder : ComparisonChild
  folder : ComparisonFiles → ComparisonChild

-- The file to which the path of a referenced input leads: its resolution is refused or raises, or it
-- is no regular file, or it has a size and a content.
pub data Source : Type 0 where
  unsafe unresolved not_regular : Source
  regular : ℕ → String → Source

-- The registry is what stands behind its path, where links are followed.
-- `escapes` says which directories resolve outside of their base, and `not_directory` which exist
-- and are no directories. `faults n` says whether the device refuses the n-th write.
pub record Disk : Type 0 where
  pub registry : Entry (List String)
  pub workspaces : Dict String (Entry WorkspaceRecord)
  pub states : Dict String (Entry WorkspaceState)
  pub run_configs : Dict Key (Entry RunSnapshot)
  pub results : Dict Key (Entry String)
  pub provenances : Dict Key (Entry RunProvenance)
  pub jobs : Dict Key JobChild
  pub inputs : Dict Key (Entry InputManifest)
  pub imported : Dict Key (Entry String)
  pub comparisons : Dict Key ComparisonChild
  pub sources : String → Source
  pub escapes : Place → Bool
  pub not_directory : Place → Bool
  pub faults : ℕ → Bool
  pub written : ℕ

-- What stands at a path of a table of files.
abbrev pub entry_at : {K : Type 0} ⦃e : Eq K⦄ {A : Type 0} → K → Dict K (Entry A) → Entry A
entry_at k d = elim (lookup k d) [ none ↦ missing | some x ↦ x ]

-- A call on the disk: what it returns or raises, and the disk that it leaves.
abbrev pub Action : Type 0 → Type 0
Action A = Disk → Result StoreError A × Disk

-- `_replace_with_windows_retry`: `os.replace` takes the place of a file in one step or raises, as its
-- documentation says. The temporary file that is replaced by is not part of the state.
unfoldable pub atomic_write : (Disk → Disk) → Action (Unit {0})
atomic_write change d =
    let counted = record d { written = d.written + 1 } in
    if d.faults d.written then (raise os_error, counted) else (ok tt, change counted)
