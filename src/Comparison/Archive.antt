-- ===== src/Comparison/Archive.antt =====
-- src/evalops/workspace/storage.py: reading the immutable records of comparisons, with their transitions.
-- `ArchiveCodec` is what `json.dumps`, `model_validate_json` and SHA-256 make of the two models.
pub mod Saving
pub mod Kept
pub mod RoundTrip
pub mod Undo
pub mod Rollback
use evalops_lab.Common.{
  String, Bool, not, ◌&&◌, ◌||◌, Option, none, some, List, [], ◌∷◌, ◌++◌, Result, ok, raise, ◌>>=◌,
  ◌>>◌, raise_if, each, list_beq, Dict, lookup, all, length, map, to_set, sort_by, str_lt, ltb,
  ◌==◌, string_eq, nat_eq, option_eq, if◌then◌else◌,
}
use evalops_lab.Comparison.Failures.{QueryFailureTransition}
use evalops_lab.Comparison.Service.{ComparisonMode, canonical, exploratory_only, ComparisonRecord}
use evalops_lab.Storage.Identifiers.{is_comparison_id, is_sha256}
use evalops_lab.Storage.Workspaces.{get_workspace}
use evalops_lab.Storage.Disk.{
  StoreError, storage, os_error, unknown_comparison, unsupported_schema, Entry, missing, file,
  is_file, is_taken, read_model, Key, key_eq, workspace_root, comparisons_root,
  comparison_directory, ComparisonFiles, ComparisonChild, not_folder, folder, Disk, Action,
  atomic_write,
}

pub record ComparisonFailureArtifact (N : Type 0) : Type 0 where
  pub comparison_id : String
  pub transitions : List (QueryFailureTransition N)

pub record ArchiveCodec (N : Type 0) : Type 0 where
  pub encode_record : ComparisonRecord N → String
  pub decode_record : String → Option (ComparisonRecord N)
  pub encode_failures : ComparisonFailureArtifact N → String
  pub decode_failures : String → Option (ComparisonFailureArtifact N)
  pub sha256 : String → String

-- `_comparisons_directory`: the guards of the path.
unfoldable pub comparisons_directory : String → Disk → Result StoreError (Unit {0})
comparisons_directory ws d = do
  w ← get_workspace ws d
  raise_if (d.escapes (workspace_root ws)) (storage "workspace directory is unsafe")
  raise_if (d.escapes (comparisons_root ws)) (storage "workspace comparisons directory is unsafe")

-- `_comparison_directory`
unfoldable pub comparison_path : String → String → Disk → Result StoreError (Unit {0})
unfolding comparisons_directory
comparison_path ws id d = do
  raise_if (not (is_comparison_id id)) unknown_comparison
  comparisons_directory ws d
  raise_if (d.escapes (comparison_directory ws id)) (storage "comparison directory is unsafe")

abbrev pub no_files : ComparisonFiles
no_files = record { config = missing; result = missing; failures = missing }

-- The files of a directory that is there or can be made.
abbrev pub files_of : Option ComparisonChild → Option ComparisonFiles
files_of none = some no_files
files_of (some not_folder) = none
files_of (some (folder f)) = some f

abbrev pub or_no_files : Option ComparisonFiles → ComparisonFiles
or_no_files none = no_files
or_no_files (some f) = f

-- What stands below the path of a comparison.
abbrev pub files_at : Key → Disk → ComparisonFiles
files_at k d = or_no_files (files_of (lookup k d.comparisons))

abbrev pub mode_value : ComparisonMode → String
mode_value canonical = "CANONICAL"
mode_value exploratory_only = "EXPLORATORY_ONLY"

-- What the config repeats of a record.
abbrev pub expected_config : {N : Type 0} → ComparisonRecord N → Dict String String
expected_config r =
    ("comparison_id", r.comparison_id)
    ∷ ("workspace_id", r.workspace_id)
    ∷ ("mode", mode_value r.mode)
    ∷ ("baseline_run_id", r.baseline_run_id)
    ∷ ("baseline_result_sha256", r.baseline_result_sha256)
    ∷ ("candidate_run_id", r.candidate_run_id)
    ∷ ("candidate_result_sha256", r.candidate_result_sha256)
    ∷ ("policy_version", r.policy_version)
    ∷ []

-- `config.get(key) == value`
abbrev pub has_value : Dict String String → String × String → Bool
has_value config (key, value) = lookup key config == some value

-- An exception in the `try` of a read.
abbrev pub or_storage_error : {A : Type 0} → String → Option A → Result StoreError A
or_storage_error message none = raise (storage message)
or_storage_error message (some a) = ok a

-- `_require_schema(config, "workspace-comparison-config-v1")`
abbrev pub require_schema : Dict String String → Result StoreError (Unit {0})
require_schema config =
    raise_if (not (has_value config ("schema_version", "workspace-comparison-config-v1")))
      unsupported_schema

abbrev pub content_of : Entry String → Option String
content_of (file content) = some content
content_of _ = none

module _ {N : Type 0} (codec : ArchiveCodec N) where
  abbrev pub failure_bytes : Option (ComparisonFailureArtifact N) → Option String
  failure_bytes none = none
  failure_bytes (some a) = some (codec.encode_failures a)

  -- The digests that the config ends with.
  abbrev pub digests : String → Option String → Dict String String
  digests content none = ("result_sha256", codec.sha256 content) ∷ []
  digests content (some failures) =
      ("result_sha256", codec.sha256 content) ∷ ("failures_sha256", codec.sha256 failures) ∷ []

  unfoldable pub comparison_config : ComparisonRecord N → Option String → Dict String String
  comparison_config r failures =
      ("schema_version", "workspace-comparison-config-v1")
      ∷ (expected_config r ++ digests (codec.encode_record r) failures)

  unfoldable pub get_comparison_record :
      String → String → Disk → Result StoreError (ComparisonRecord N)
  unfolding comparison_path
  get_comparison_record ws id d = do
    comparison_path ws id d
    let f = files_at (ws, id) d
    raise_if (not (is_file f.config) || not (is_file f.result)) unknown_comparison
    config ← read_model "workspace metadata is unreadable" f.config
    require_schema config
    content ← or_storage_error "comparison evidence is invalid" (content_of f.result)
    raise_if (not (has_value config ("result_sha256", codec.sha256 content)))
        (storage "comparison result checksum mismatch")
    r ← or_storage_error "comparison evidence is invalid" (codec.decode_record content)
    raise_if
        (not (r.workspace_id == ws)
          || not (r.comparison_id == id)
          || not (all (has_value config) (expected_config r)))
        (storage "comparison identity or metadata is invalid")
    ok r

  -- `isinstance(expected_sha, str) and re.fullmatch(...)`
  abbrev pub expected_digest : Option String → Result StoreError String
  expected_digest none = raise (storage "comparison failure evidence is unavailable")
  expected_digest (some sha) = do
    raise_if (not (is_sha256 sha)) (storage "comparison failure evidence is unavailable")
    ok sha

  -- `not identifiers or identifiers != sorted(set(identifiers))`
  abbrev pub bad_identifiers : List String → Bool
  bad_identifiers ids = length ids == 0 || not (list_beq ids (sort_by str_lt (to_set ids)))

  unfoldable pub get_comparison_failures :
      String → String → Disk → Result StoreError (ComparisonFailureArtifact N)
  unfolding get_comparison_record comparison_path
  get_comparison_failures ws id d = do
    r ← get_comparison_record ws id d
    comparison_path ws id d
    let f = files_at (ws, id) d
    config ← read_model "workspace metadata is unreadable" f.config
    sha ← expected_digest (lookup "failures_sha256" config)
    raise_if (not (is_file f.failures)) (storage "comparison failure evidence is unavailable")
    content ← or_storage_error "comparison failure evidence is invalid" (content_of f.failures)
    raise_if (not (codec.sha256 content == sha)) (storage "comparison failure checksum mismatch")
    a ← or_storage_error "comparison failure evidence is invalid" (codec.decode_failures content)
    raise_if (not (a.comparison_id == id)) (storage "comparison failure identity mismatch")
    raise_if (bad_identifiers (map (λ t. t.query_id) a.transitions))
        (storage "comparison failure query identities are invalid")
    ok a

-- The names below the directory of comparisons.
abbrev pub comparison_names : String → Dict Key ComparisonChild → List String
comparison_names ws [] = []
comparison_names ws (((w, id), _) ∷ rest) =
    if w == ws then id ∷ comparison_names ws rest else comparison_names ws rest

-- By creation time, then identifier.
abbrev pub created_before : {N : Type 0} → ComparisonRecord N → ComparisonRecord N → Bool
created_before a b =
    ltb a.created_at b.created_at
    || a.created_at == b.created_at && str_lt a.comparison_id b.comparison_id

module _ {N : Type 0} (codec : ArchiveCodec N) where
  -- The body of the loop of `list_comparison_records`.
  unfoldable pub listed_comparison : String → Disk → String → Result StoreError (ComparisonRecord N)
  listed_comparison ws d id = elim (lookup (ws, id) d.comparisons) [
    | some (folder _) ↦ get_comparison_record codec ws id d
    | _ ↦ raise (storage "unexpected comparison storage entry")
  ]

  unfoldable pub list_comparison_records :
      String → Disk → Result StoreError (List (ComparisonRecord N))
  unfolding comparisons_directory listed_comparison
  list_comparison_records ws d = do
    comparisons_directory ws d
    raise_if (d.not_directory (comparisons_root ws)) (storage "comparison directory is invalid")
    records ← each (listed_comparison ws d) (sort_by str_lt (comparison_names ws d.comparisons))
    ok (sort_by created_before records)
