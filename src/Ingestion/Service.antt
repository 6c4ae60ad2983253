-- ===== src/Ingestion/Service.antt =====
-- src/evalops/workspace/ingestion/service.py: registering validating inputs. `PathTools` is what the code calls of
-- `Path` and `str` on names; `uuid` and the clock are arguments. `Disk.sources` says where a path leads.
use evalops_lab.Common.{
  ℕ, String, Bool, not, ◌||◌, none, some, Result, ok, raise, ltb, ◌==◌, string_eq, option_eq,
  if◌then◌else◌,
}
use evalops_lab.Datasets.{Reader}
use evalops_lab.Models.Inputs.{InputKind, InputManifest, imported, referenced}
use evalops_lab.Storage.Disk.{StoreError, Disk, Action, unsafe, unresolved, not_regular, regular}
use evalops_lab.Storage.Actions.{Proc, call_as, ◌>>=◌, ◌>>◌, return, query, check}
use evalops_lab.Storage.Workspaces.{get_workspace}
use evalops_lab.Storage.Inputs.{max_input_bytes, size_of}
use evalops_lab.Storage.Registration.{
  save_input_manifest, save_imported_input, discard_imported_input,
}
use evalops_lab.Ingestion.Jsonl.{
  TextTools, InputValidationSummary, ValidationError, code, validate_retrieval_jsonl,
}
use evalops_lab.Ingestion.Csv.{CsvTools, CsvMapping, normalize_retrieval_csv_bytes}

-- `suffix` is `Path(name).suffix.lower()`, `base_name` the last component of a name, backslashes
-- included, `is_local` says that a path is absolute and not of the network, and `resolved` is
-- the text of `source.resolve(strict=True)`.
pub record PathTools : Type 0 where
  pub suffix : String → String
  pub base_name : String → String
  pub is_local : String → Bool
  pub resolved : String → String

-- An exception of the store, or an InputValidationError.
pub data RegistrationError : Type 0 where
  of_store : StoreError → RegistrationError
  invalid : ValidationError → RegistrationError

pub record InputRegistrationResult : Type 0 where
  pub manifest : InputManifest
  pub summary : InputValidationSummary

abbrev pub stored : {A : Type 0} → Action A → Proc RegistrationError A
stored m = call_as of_store m

abbrev pub validating : {A : Type 0} → Result ValidationError A → Proc RegistrationError A
validating r = call_as invalid (query (λ _. r))

abbrev pub imported_manifest :
    String → InputKind → InputValidationSummary → String → String → String → ℕ → InputManifest
imported_manifest id kind summary source_sha path name now = record {
  input_id = id;
  kind = kind;
  source_mode = imported;
  content_sha256 = summary.content_sha256;
  source_sha256 = source_sha;
  record_count = summary.record_count;
  source_path = none;
  stored_relative_path = some path;
  source_filename = some name;
  created_at = now;
}

-- The `except` of `_persist_imported`.
unfoldable pub discard_and_raise : String → String → StoreError → Action (Unit {0})
discard_and_raise ws id e = do discard_imported_input ws id; (λ d. (raise e, d))

abbrev pub or_discard :
    String → String → Result StoreError (Unit {0}) × Disk → Result StoreError (Unit {0}) × Disk
or_discard ws id (ok u, d) = (ok u, d)
or_discard ws id (raise e, d) = discard_and_raise ws id e d

-- The `try` of `_persist_imported` with its handler.
unfoldable pub save_or_discard : String → InputManifest → Action (Unit {0})
unfolding discard_and_raise
save_or_discard ws m d = or_discard ws m.input_id (save_input_manifest ws m d)

module _ (tools : TextTools) (paths : PathTools) (reader : Reader) (id : String) (now : ℕ) where
  -- `_persist_imported`
  unfoldable pub persist_imported :
      String
      → InputKind
      → String
      → InputValidationSummary
      → String
      → String
      → Proc RegistrationError InputRegistrationResult
  unfolding save_or_discard
  persist_imported ws kind canonical summary source_sha name = do
    check (λ _. ltb max_input_bytes (size_of canonical)) (invalid (code "INPUT_TOO_LARGE"))
    path ← stored (save_imported_input ws id canonical)
    let m = imported_manifest id kind summary source_sha path (paths.base_name name) now
    stored (save_or_discard ws m)
    return (record { manifest = m; summary = summary })

  unfoldable pub register_imported_jsonl :
      String → InputKind → String → String → Proc RegistrationError InputRegistrationResult
  unfolding persist_imported
  register_imported_jsonl ws kind content name = do
    w ← stored (query (get_workspace ws))
    check (λ _. not (paths.suffix name == ".jsonl")) (invalid (code "UNSUPPORTED_FORMAT"))
    check (λ _. ltb max_input_bytes (size_of content)) (invalid (code "INPUT_TOO_LARGE"))
    summary ← validating (validate_retrieval_jsonl tools reader content kind)
    persist_imported ws kind content summary summary.content_sha256 name

  unfoldable pub register_imported_csv :
      CsvTools
      → String
      → InputKind
      → String
      → String
      → CsvMapping
      → Proc RegistrationError InputRegistrationResult
  unfolding persist_imported
  register_imported_csv csv ws kind content name mapping = do
    w ← stored (query (get_workspace ws))
    check (λ _. not (paths.suffix name == ".csv")) (invalid (code "UNSUPPORTED_FORMAT"))
    check (λ _. ltb max_input_bytes (size_of content)) (invalid (code "INPUT_TOO_LARGE"))
    (canonical, summary) ←
        validating (normalize_retrieval_csv_bytes csv tools reader content kind mapping)
    persist_imported ws kind canonical summary (tools.sha256 content) name

  -- The `try` of `register_referenced_jsonl`.
  unfoldable pub read_source : String → Disk → Result ValidationError String
  read_source source d = elim (d.sources source) [
    | unresolved ↦ raise (code "UNREADABLE_INPUT")
    | unsafe ↦ raise (code "INVALID_REFERENCE_PATH")
    | not_regular ↦ raise (code "NOT_A_FILE")
    | regular size content ↦
        if ltb max_input_bytes size || ltb max_input_bytes (size_of content)
        then raise (code "INPUT_TOO_LARGE")
        else ok content
  ]

  abbrev pub referenced_manifest : InputKind → InputValidationSummary → String → InputManifest
  referenced_manifest kind summary source = record {
    input_id = id;
    kind = kind;
    source_mode = referenced;
    content_sha256 = summary.content_sha256;
    source_sha256 = summary.content_sha256;
    record_count = summary.record_count;
    source_path = some (paths.resolved source);
    stored_relative_path = none;
    source_filename = some (paths.base_name (paths.resolved source));
    created_at = now;
  }

  unfoldable pub register_referenced_jsonl :
      String → InputKind → String → Proc RegistrationError InputRegistrationResult
  unfolding read_source
  register_referenced_jsonl ws kind source = do
    w ← stored (query (get_workspace ws))
    check (λ _. not (paths.suffix source == ".jsonl")) (invalid (code "UNSUPPORTED_FORMAT"))
    check (λ _. not (paths.is_local source)) (invalid (code "INVALID_REFERENCE_PATH"))
    content ← call_as invalid (query (read_source source))
    summary ← validating (validate_retrieval_jsonl tools reader content kind)
    let m = referenced_manifest kind summary source
    stored (save_input_manifest ws m)
    return (record { manifest = m; summary = summary })
