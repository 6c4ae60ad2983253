-- ===== src/Comparison/Service.antt =====
-- src/evalops/workspace/application/comparisons.py, with the rules of workspace/comparison/policy.py and the
-- populations of workspace/comparison/compatibility.py. `digest` is `_digest` of the value that it
-- is given, in the encoding of `json.dumps`; a comparison is built here and not saved.
use Prim.Native.String.{◌++◌ as append}
use evalops_lab.Common.{
  ℕ, String, Bool, true, false, not, ◌||◌, Option, none, some, List, [], ◌∷◌, Result, ok, raise,
  Dict, keys, lookup, length, map, to_set, sort_by, str_lt, ◌==◌, string_eq, nat_eq, option_eq,
  Float, if◌then◌else◌,
}
use evalops_lab.Datasets.{Reader}
use evalops_lab.Models.Inputs.{InputKind, kind_eq, retrieval_ground_truth, retrieval_predictions}
use evalops_lab.Models.Runs.{RunSnapshot}
use evalops_lab.Models.Workspaces.{BaselinePointer, WorkspaceState}
use evalops_lab.Regression.{
  higher_is_better, MetricRule, RegressionReport, CompareError, compare_metrics,
}
use evalops_lab.Comparison.Evidence.{EvaluationResult}
use evalops_lab.Comparison.Failures.{
  QueryFailureTransition, TransitionError, build_failure_transitions,
}
use evalops_lab.Comparison.Compatibility.{
  ComparisonCompatibilityStatus, non_comparable, ComparisonCompatibility,
  RetrievalPopulationEvidence, assess_local_retrieval_compatibility,
}
use evalops_lab.Storage.Codec.{Codec}
use evalops_lab.Storage.Disk.{StoreError, storage, Disk, Action, validation_error}
use evalops_lab.Storage.Actions.{Proc, call_as, ◌>>=◌, ◌>>◌, return, query, check}
use evalops_lab.Storage.Inputs.{get_input, read_input_bytes}
use evalops_lab.Storage.Runs.{get_run_snapshot}
use evalops_lab.Storage.Registry.{get_workspace_state, save_workspace_state}
use evalops_lab.Storage.Evidence.{get_run_artifacts}
use evalops_lab.Runs.Pairing.{PairError, load_records}

pub data ComparisonMode : Type 0 where
  canonical exploratory_only : ComparisonMode

pub record ComparisonRecord (N : Type 0) : Type 0 where
  pub comparison_id : String
  pub workspace_id : String
  pub mode : ComparisonMode
  pub compatibility : ComparisonCompatibility
  pub baseline_run_id : String
  pub baseline_result_sha256 : String
  pub candidate_run_id : String
  pub candidate_result_sha256 : String
  pub policy_version : String
  pub regression_report : RegressionReport N
  pub created_at : ℕ

-- An exception of the store, of the readers, of the comparator or of the transitions, a ValueError by
-- its message, or IncompatibleComparisonError.
pub data ServiceError : Type 0 where
  of_store : StoreError → ServiceError
  of_input : PairError → ServiceError
  of_metrics : CompareError → ServiceError
  of_transitions : TransitionError → ServiceError
  refused : String → ServiceError
  incompatible : ComparisonCompatibility → ServiceError

abbrev pub policy_version : String
policy_version = "workspace-retrieval-regression-v1"

-- What `_digest` is given.
pub data Digestible : Type 0 where
  identifiers : List String → Digestible
  relevance : List (String × List String) → Digestible

abbrev pub documents_of : String → Dict String (List String) → List String
documents_of q d = elim (lookup q d) [ none ↦ [] | some ids ↦ ids ]

unfoldable pub canonical_population_evidence :
    (Digestible → String)
    → Dict String (List String)
    → Dict String (List String)
    → Result ServiceError RetrievalPopulationEvidence
canonical_population_evidence digest truth predictions =
    let queries = sort_by str_lt (keys truth) in
    if length truth == 0
    then raise (of_store validation_error)
    else ok (record {
      ground_truth_fingerprint =
          digest
            (relevance (map (λ q. (q, sort_by str_lt (to_set (documents_of q truth)))) queries));
      ground_truth_query_ids_fingerprint = digest (identifiers queries);
      prediction_query_ids_fingerprint = digest (identifiers (sort_by str_lt (keys predictions)));
      ground_truth_query_count = length truth;
      prediction_query_count = length predictions;
    })

abbrev pub stored : {A : Type 0} → Action A → Proc ServiceError A
stored m = call_as of_store m

-- `get_baseline`
unfoldable pub get_baseline : String → Disk → Result StoreError (Option BaselinePointer)
get_baseline ws d = elim (get_workspace_state ws d) [ ok s ↦ ok s.baseline | raise e ↦ raise e ]

abbrev pub or_raise : {A : Type 0} → ServiceError → Option A → Result ServiceError A
or_raise e none = raise e
or_raise e (some a) = ok a

-- What another part returns or raises.
abbrev pub raised_as : {E A : Type 0} → (E → ServiceError) → Result E A → Result ServiceError A
raised_as f (ok a) = ok a
raised_as f (raise e) = raise (f e)

module _ (reader : Reader) (sha256 : String → String) (digest : Digestible → String) where
  -- The body of the loop of `load_verified_population`.
  unfoldable pub load_population_input :
      String → String → String → InputKind → Proc ServiceError (Dict String (List String))
  load_population_input ws input sha kind = do
    m ← stored (query (get_input ws input))
    check (λ _. not (m.kind == kind) || not (m.content_sha256 == sha))
        (of_store (storage "comparison input identity is invalid"))
    content ← stored (query (read_input_bytes sha256 ws input))
    query (λ _. raised_as of_input (load_records reader content kind))

  unfoldable pub load_verified_population :
      RunSnapshot → Proc ServiceError RetrievalPopulationEvidence
  unfolding load_population_input canonical_population_evidence
  load_verified_population s = do
    truth ←
        load_population_input s.workspace_id s.ground_truth_input_id s.ground_truth_content_sha256
          retrieval_ground_truth
    predictions ←
        load_population_input s.workspace_id s.predictions_input_id s.predictions_content_sha256
          retrieval_predictions
    query (λ _. canonical_population_evidence digest truth predictions)

module _ (fl : Float) (show : ℕ → String) where
  open fl use {Number, of_int}

  abbrev pub retrieval_rule : String → MetricRule Number
  retrieval_rule name = record {
    metric_name = name;
    direction = higher_is_better;
    minimum_acceptable = none;
    maximum_acceptable = none;
    max_degradation = of_int 0;
  }

  unfoldable pub build_workspace_retrieval_rules :
      ℕ → Result ServiceError (List (MetricRule Number))
  build_workspace_retrieval_rules k =
      if k == 0
      then raise (refused "retrieval top_k must be a positive integer")
      else ok (
          map retrieval_rule (
            append "precision_at_" (show k)
            ∷ append "recall_at_" (show k)
            ∷ append "hit_rate_at_" (show k)
            ∷ "mrr"
            ∷ append "ndcg_at_" (show k)
            ∷ []))

  module _ (reader : Reader) (codec : Codec Number) (digest : Digestible → String) where
    unfoldable pub set_baseline : String → String → ℕ → Action WorkspaceState
    set_baseline ws run now = do
      (result, provenance) ← get_run_artifacts codec ws run
      current ← query (get_workspace_state ws)
      let updated : WorkspaceState = record current {
        baseline =
            some
              (record { run_id = run; result_sha256 = provenance.result_sha256; pinned_at = now });
      }
      save_workspace_state ws updated
      return updated

    -- `requested_mode == CANONICAL and status != COMPARABLE`
    abbrev pub is_refused : ComparisonMode → ComparisonCompatibilityStatus → Bool
    is_refused canonical non_comparable = true
    is_refused _ _ = false

    -- `create_comparison`, from the assessment on.
    unfoldable pub report_comparison :
        String
        → String
        → ComparisonMode
        → String
        → ℕ
        → BaselinePointer
        → String
        → EvaluationResult Number
        → EvaluationResult Number
        → RunSnapshot
        → ComparisonCompatibility
        → Proc ServiceError (ComparisonRecord Number)
    unfolding build_workspace_retrieval_rules
    report_comparison ws candidate mode id now pointer candidate_sha baseline_result
          candidate_result snapshot compatibility =
        do
          check (λ _. is_refused mode compatibility.status) (incompatible compatibility)
          rules ← query (λ _. build_workspace_retrieval_rules snapshot.config.top_k)
          report ← query (λ _.
              raised_as of_metrics
                (compare_metrics fl candidate_result.metrics baseline_result.metrics rules))
          return (record {
            comparison_id = id;
            workspace_id = ws;
            mode = mode;
            compatibility = compatibility;
            baseline_run_id = pointer.run_id;
            baseline_result_sha256 = pointer.result_sha256;
            candidate_run_id = candidate;
            candidate_result_sha256 = candidate_sha;
            policy_version = policy_version;
            regression_report = report;
            created_at = now;
          })

    -- The transitions, if both runs have the queries of one ground truth.
    unfoldable pub failure_rows :
        RetrievalPopulationEvidence
        → RetrievalPopulationEvidence
        → EvaluationResult Number
        → EvaluationResult Number
        → Result ServiceError (Option (List (QueryFailureTransition Number)))
    failure_rows baseline candidate baseline_result candidate_result =
        if baseline.ground_truth_query_ids_fingerprint
          == candidate.ground_truth_query_ids_fingerprint
        then (elim (build_failure_transitions baseline_result candidate_result) [
          | ok rows ↦ ok (some rows)
          | raise e ↦ raise (of_transitions e)
        ])
        else ok none

    -- `create_comparison` up to what it saves: the record, and the transitions.
    unfoldable pub draft_comparison :
        String
        → String
        → ComparisonMode
        → String
        → ℕ
        → Proc ServiceError
            (ComparisonRecord Number × Option (List (QueryFailureTransition Number)))
    unfolding report_comparison failure_rows
    draft_comparison ws candidate mode id now = do
      baseline ← stored (query (get_baseline ws))
      pointer ← query (λ _. or_raise (of_store (storage "no pinned workspace baseline")) baseline)
      check (λ _. candidate == pointer.run_id) (refused "a run cannot be compared with itself")
      old ← stored (get_run_artifacts codec ws pointer.run_id)
      new ← stored (get_run_artifacts codec ws candidate)
      check (λ _. not (old.1.result_sha256 == pointer.result_sha256))
          (of_store (storage "pinned baseline result checksum has changed"))
      old_snapshot ← stored (query (get_run_snapshot ws pointer.run_id))
      new_snapshot ← stored (query (get_run_snapshot ws candidate))
      old_population ← load_verified_population reader codec.sha256 digest old_snapshot
      new_population ← load_verified_population reader codec.sha256 digest new_snapshot
      comparison ←
          report_comparison ws candidate mode id now pointer new.1.result_sha256 old.0 new.0
            new_snapshot
            (assess_local_retrieval_compatibility show old_snapshot old.0 new_snapshot new.0
              (some old_population) (some new_population))
      rows ← query (λ _. failure_rows old_population new_population old.0 new.0)
      return (comparison, rows)
