-- ===== src/Runs/Pairing.antt =====
-- src/evalops/workspace/application/runs.py: `validate_retrieval_pair`.
use evalops_lab.Common.{
  ℕ, String, Bool, true, false, not, List, [], ◌∷◌, ◌++◌, Result, ok, raise, ◌>>=◌, ◌>>◌, raise_if,
  Dict, keys, length, keep, member, to_set, sort_by, str_lt, ◌==◌, string_eq, if◌then◌else◌,
}
use evalops_lab.Datasets.{
  Reader, LoadError, load_retrieval_ground_truth, load_retrieval_predictions,
}
use evalops_lab.Models.Inputs.{
  InputKind, kind_eq, retrieval_ground_truth, retrieval_predictions, InputManifest,
}
use evalops_lab.Storage.Disk.{
  StoreError, value_error, validation_error, os_error, invalid_transition, Disk,
}
use evalops_lab.Storage.Workspaces.{get_workspace}
use evalops_lab.Storage.Inputs.{get_input, read_input_bytes}

pub record ValidationIssue : Type 0 where
  pub code : String
  pub message : String

pub record RetrievalPairValidation : Type 0 where
  pub ground_truth_records : ℕ
  pub prediction_records : ℕ
  pub matching_query_count : ℕ
  pub missing_prediction_query_ids : List String
  pub extra_prediction_query_ids : List String
  pub blocking_issues : List ValidationIssue
  pub warnings : List ValidationIssue

-- An exception of the store, or an InputValidationError by its code.
pub data PairError : Type 0 where
  unreadable_input : StoreError → PairError
  invalid_input : String → PairError

-- `except (OSError, ValueError)` of `_load_records`.
abbrev or_invalid : {A : Type 0} → Result LoadError A → Result PairError A
or_invalid (ok a) = ok a
or_invalid (raise _) = raise (invalid_input "INVALID_INPUT")

unfoldable pub load_records :
    Reader → String → InputKind → Result PairError (Dict String (List String))
load_records reader content retrieval_ground_truth =
    or_invalid (load_retrieval_ground_truth reader content)
load_records reader content retrieval_predictions =
    or_invalid (load_retrieval_predictions reader content)

abbrev pub from_store : {A : Type 0} → Result StoreError A → Result PairError A
from_store (ok a) = ok a
from_store (raise e) = raise (unreadable_input e)

-- Whether an exception is a WorkspaceStorageError.
abbrev pub is_storage_error : StoreError → Bool
is_storage_error (value_error _) = false
is_storage_error validation_error = false
is_storage_error os_error = false
is_storage_error (invalid_transition _) = false
is_storage_error _ = true

abbrev pub issue : String → ValidationIssue
issue code = record { code = code; message = "input is unavailable or invalid" }

-- The body of the loop over the two inputs: the records and the issues.
unfoldable pub load_side :
    Result PairError (InputManifest × Dict String (List String))
    → Result StoreError (Dict String (List String) × List ValidationIssue)
load_side (ok (manifest, records)) = ok (records, [])
load_side (raise (invalid_input code)) = ok ([], issue code ∷ [])
load_side (raise (unreadable_input e)) =
    if is_storage_error e then ok ([], issue "INVALID_INPUT" ∷ []) else raise e

abbrev pub warning : Bool → String → String → List ValidationIssue
warning true code message = []
warning false code message = record { code = code; message = message } ∷ []

abbrev pub is_empty : {A : Type 0} → List A → Bool
is_empty [] = true
is_empty _ = false

-- The validation of two loaded dicts.
unfoldable pub compare_populations :
    Dict String (List String) → Dict String (List String) → RetrievalPairValidation
compare_populations truth predictions =
    let truth_ids = to_set (keys truth) in
    let prediction_ids = to_set (keys predictions) in
    let missing = sort_by str_lt (keep (λ q. not (member q prediction_ids)) truth_ids) in
    let extra = sort_by str_lt (keep (λ q. not (member q truth_ids)) prediction_ids) in
    record {
      ground_truth_records = length truth_ids;
      prediction_records = length prediction_ids;
      matching_query_count = length (keep (λ q. member q prediction_ids) truth_ids);
      missing_prediction_query_ids = missing;
      extra_prediction_query_ids = extra;
      blocking_issues = [];
      warnings =
          warning (is_empty missing) "MISSING_PREDICTIONS" "some queries have no predictions"
          ++ warning (is_empty extra) "EXTRA_PREDICTIONS" "some predictions lack ground truth";
    }

-- The validation of the two sides, with their issues.
unfoldable pub pair_result :
    Dict String (List String) × List ValidationIssue
    → Dict String (List String) × List ValidationIssue
    → RetrievalPairValidation
unfolding compare_populations
pair_result (truth, truth_issues) (predictions, prediction_issues) =
    elim (truth_issues ++ prediction_issues) [
      | [] ↦ compare_populations truth predictions
      | first ∷ others ↦ record {
        ground_truth_records = length truth;
        prediction_records = length predictions;
        matching_query_count = 0;
        missing_prediction_query_ids = [];
        extra_prediction_query_ids = [];
        blocking_issues = first ∷ others;
        warnings = [];
      }
    ]

module _ (reader : Reader) (sha256 : String → String) where
  unfoldable pub read_registered :
      String
      → String
      → InputKind
      → Disk
      → Result PairError (InputManifest × Dict String (List String))
  unfolding load_records
  read_registered ws input expected d = do
    manifest ← from_store (get_input ws input d)
    raise_if (not (manifest.kind == expected)) (invalid_input "WRONG_INPUT_KIND")
    content ← from_store (read_input_bytes sha256 ws input d)
    records ← load_records reader content expected
    ok (manifest, records)

  unfoldable pub validate_retrieval_pair :
      String → String → String → Disk → Result StoreError RetrievalPairValidation
  unfolding read_registered load_side pair_result
  validate_retrieval_pair ws truth_id predictions_id d = do
    w ← get_workspace ws d
    truth ← load_side (read_registered ws truth_id retrieval_ground_truth d)
    predictions ← load_side (read_registered ws predictions_id retrieval_predictions d)
    ok (pair_result truth predictions)
