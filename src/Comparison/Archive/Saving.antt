-- ===== src/Comparison/Archive/Saving.antt =====
-- src/evalops/workspace/storage.py: `save_comparison_record`, which creates the files of a comparison one after
-- the other and takes them away again if one cannot be created.
use evalops_lab.Common.{
  String, Bool, false, not, ◌||◌, Option, none, some, List, [], ◌∷◌, ◌++◌, Result, ok, raise, Dict,
  lookup, insert, erase, ◌==◌, string_eq, if◌then◌else◌,
}
use evalops_lab.Comparison.Service.{ComparisonRecord}
use evalops_lab.Comparison.Archive.{
  ComparisonFailureArtifact, ArchiveCodec, comparison_path, files_of, files_at, comparison_config,
  failure_bytes,
}
use evalops_lab.Storage.Disk.{
  StoreError, storage, os_error, missing, file, is_taken, Key, key_eq, ComparisonFiles, not_folder,
  folder, Disk, Action, atomic_write,
}
use evalops_lab.Storage.Actions.{◌>>◌, return, query, check, atomic_create}

abbrev pub put_folder : Key → ComparisonFiles → Disk → Disk
put_folder k f d = record d { comparisons = insert k (folder f) d.comparisons }

-- A file to be created, with its content.
pub data NewFile : Type 0 where
  new_result new_failures : String → NewFile
  new_config : Dict String String → NewFile

abbrev pub is_there : NewFile → ComparisonFiles → Bool
is_there (new_result _) f = is_taken f.result
is_there (new_failures _) f = is_taken f.failures
is_there (new_config _) f = is_taken f.config

abbrev pub with_file : NewFile → ComparisonFiles → ComparisonFiles
with_file (new_result content) f = record f { result = file content }
with_file (new_failures content) f = record f { failures = file content }
with_file (new_config content) f = record f { config = file content }

abbrev pub without_file : NewFile → ComparisonFiles → ComparisonFiles
without_file (new_result _) f = record f { result = missing }
without_file (new_failures _) f = record f { failures = missing }
without_file (new_config _) f = record f { config = missing }

-- `_atomic_create_bytes` or `_atomic_create_json`, which make the directory first.
unfoldable pub create_file : Key → NewFile → Action (Unit {0})
create_file k n d = elim (files_of (lookup k d.comparisons)) [
  | none ↦ (raise os_error, d)
  | some f ↦ atomic_create (λ _. is_there n f) (put_folder k (with_file n f)) (put_folder k f d)
]

-- `created_path.unlink(missing_ok=True)`
abbrev pub without_created : Key → NewFile → Disk → Disk
without_created k n d = put_folder k (without_file n (files_at k d)) d

-- The loop over the created files, the last first.
unfoldable pub unlink_created : Key → List NewFile → Action (Unit {0})
unlink_created k [] = return tt
unlink_created k (n ∷ created) = do atomic_write (without_created k n); unlink_created k created

abbrev pub ignored : Result StoreError (Unit {0}) × Disk → Result StoreError (Unit {0}) × Disk
ignored (_, d) = (ok tt, d)

abbrev pub is_empty : ComparisonFiles → Bool
is_empty f = not (is_taken f.config || is_taken f.result || is_taken f.failures)

-- `directory.rmdir()`, where an OSError passes.
unfoldable pub remove_directory : Key → Action (Unit {0})
remove_directory k d = elim (lookup k d.comparisons) [
  | none ↦ (ok tt, d)
  | some child ↦ elim child [
    | not_folder ↦ (ok tt, d)
    | folder f ↦
        if is_empty f
        then ignored (atomic_write (λ e. record e { comparisons = erase k e.comparisons }) d)
        else (ok tt, d)
  ]
]

-- The `except` of `save_comparison_record`.
unfoldable pub undo : Key → List NewFile → StoreError → Action (Unit {0})
unfolding unlink_created remove_directory
undo k created e = do unlink_created k created; remove_directory k; (λ d. (raise e, d))

abbrev pub created_or :
    (Unit {0} → Action (Unit {0}))
    → (StoreError → Action (Unit {0}))
    → Result StoreError (Unit {0}) × Disk
    → Result StoreError (Unit {0}) × Disk
created_or next handler (ok u, d) = next u d
created_or next handler (raise e, d) = handler e d

-- The `try` of `save_comparison_record`: the files in order, with those created so far.
unfoldable pub create_files : Key → List NewFile → List NewFile → Action (Unit {0})
unfolding create_file undo
create_files k created [] d = (ok tt, d)
create_files k created (n ∷ rest) d =
    created_or (λ _. create_files k (n ∷ created) rest) (undo k created) (create_file k n d)

module _ {N : Type 0} (codec : ArchiveCodec N) where
  abbrev pub is_foreign : ComparisonRecord N → Option (ComparisonFailureArtifact N) → Bool
  is_foreign r none = false
  is_foreign r (some a) = not (a.comparison_id == r.comparison_id)

  abbrev pub failure_files : Option String → List NewFile
  failure_files none = []
  failure_files (some failures) = new_failures failures ∷ []

  -- The files of a comparison, in the order in which they are created.
  unfoldable pub new_files :
      ComparisonRecord N → Option (ComparisonFailureArtifact N) → List NewFile
  unfolding comparison_config
  new_files r artifact =
      new_result (codec.encode_record r)
      ∷ (failure_files (failure_bytes codec artifact)
          ++ new_config (comparison_config codec r (failure_bytes codec artifact)) ∷ [])

  unfoldable pub save_comparison_record :
      String → ComparisonRecord N → Option (ComparisonFailureArtifact N) → Action (Unit {0})
  unfolding create_files new_files comparison_path
  save_comparison_record ws r artifact = do
    check (λ _. not (r.workspace_id == ws)) (storage "comparison ownership is invalid")
    check (λ _. is_foreign r artifact) (storage "comparison failure identity is invalid")
    query (comparison_path ws r.comparison_id)
    check (λ d. not (is_empty (files_at (ws, r.comparison_id) d)))
        (storage "immutable comparison already exists")
    create_files (ws, r.comparison_id) [] (new_files r artifact)
