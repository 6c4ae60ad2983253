-- ===== src/Comparison/Compatibility.antt =====
-- src/evalops/workspace/comparison/compatibility.py: whether two runs may be compared. The schema
-- versions of two snapshots are equal, since a snapshot of another version is not read.
use evalops_lab.Common.{
  ℕ, String, Bool, false, ◌&&◌, Option, none, some, List, [], ◌∷◌, ◌++◌, sort_by, str_lt, ◌==◌,
  string_eq, nat_eq, option_eq, if◌then◌else◌,
}
use evalops_lab.Models.Runs.{config_beq, texts_beq, RunConfig, RunSnapshot, dict_beq}
use evalops_lab.Comparison.Evidence.{EvaluationResult}

pub data ComparisonCompatibilityStatus : Type 0 where
  comparable non_comparable : ComparisonCompatibilityStatus

pub record CompatibilityReason : Type 0 where
  pub field : String
  pub baseline : String
  pub candidate : String

pub record ComparisonCompatibility : Type 0 where
  pub status : ComparisonCompatibilityStatus
  pub reasons : List CompatibilityReason

pub record RetrievalPopulationEvidence : Type 0 where
  pub ground_truth_fingerprint : String
  pub ground_truth_query_ids_fingerprint : String
  pub prediction_query_ids_fingerprint : String
  pub ground_truth_query_count : ℕ
  pub prediction_query_count : ℕ

-- What a reason may tell of a value: that it is None, that it is not, and the number of `top_k`.
pub data Shown : Type 0 where
  absent present : Shown
  number : ℕ → Shown

abbrev pub shown : {A : Type 0} → Option A → Shown
shown none = absent
shown (some _) = present

abbrev presence : String → Shown → String
presence word absent = "missing"
presence word _ = word

-- `_safe_difference`
unfoldable pub safe_difference : (ℕ → String) → String → Shown → Shown → CompatibilityReason
safe_difference show field (number m) (number n) = record {
  field = field;
  baseline = show m;
  candidate = show n;
}
safe_difference show field left right = record {
  field = field;
  baseline = presence "present" left;
  candidate = presence "different" right;
}

-- A check, and the reason that is given when it fails.
abbrev pub Check : Type 0
Check = Bool × CompatibilityReason

abbrev pub failed_checks : List Check → List CompatibilityReason
failed_checks [] = []
failed_checks ((same, reason) ∷ checks) =
    if same then failed_checks checks else reason ∷ failed_checks checks

module _ (show : ℕ → String) where
  -- The loop over POPULATION_CONFIG_FIELDS.
  unfoldable pub config_checks : RunConfig → RunConfig → List Check
  config_checks a b =
      (
        a.annotation_policy == b.annotation_policy,
        safe_difference show "annotation_policy" (shown a.annotation_policy)
            (shown b.annotation_policy),
      )
      ∷ (
        a.benchmark == b.benchmark,
        safe_difference show "benchmark" (shown a.benchmark) (shown b.benchmark),
      )
      ∷ (a.dataset_name == b.dataset_name, safe_difference show "dataset_name" present present)
      ∷ (
        a.dataset_revision == b.dataset_revision,
        safe_difference show "dataset_revision" (shown a.dataset_revision)
            (shown b.dataset_revision),
      )
      ∷ (
        a.dataset_version == b.dataset_version,
        safe_difference show "dataset_version" present present,
      )
      ∷ (
        dict_beq a.evaluator_config b.evaluator_config,
        safe_difference show "evaluator_config" present present,
      )
      ∷ (
        dict_beq a.evaluator_versions b.evaluator_versions,
        safe_difference show "evaluator_versions" present present,
      )
      ∷ (
        a.language == b.language,
        safe_difference show "language" (shown a.language) (shown b.language),
      )
      ∷ (
        texts_beq a.quality_filter b.quality_filter,
        safe_difference show "quality_filter" present present,
      )
      ∷ (a.split == b.split, safe_difference show "split" (shown a.split) (shown b.split))
      ∷ (a.top_k == b.top_k, safe_difference show "top_k" (number a.top_k) (number b.top_k))
      ∷ []

  module _ {N : Type 0} where
    -- The loop over the two results.
    unfoldable pub identity_check : String → RunSnapshot → EvaluationResult N → Check
    identity_check field snapshot result = (
      config_beq result.run snapshot.config && result.run.run_id == snapshot.run_id,
      safe_difference show field absent present,
    )

    -- The loop over the two populations.
    unfoldable pub coverage_checks :
        String → String → RetrievalPopulationEvidence → EvaluationResult N → List Check
    coverage_checks coverage count evidence result =
        (
          evidence.prediction_query_ids_fingerprint == evidence.ground_truth_query_ids_fingerprint,
          safe_difference show coverage absent present,
        )
        ∷ (
          result.prediction_query_count == some evidence.prediction_query_count,
          safe_difference show count absent present,
        )
        ∷ []

    unfoldable pub population_checks :
        Option RetrievalPopulationEvidence
        → Option RetrievalPopulationEvidence
        → EvaluationResult N
        → EvaluationResult N
        → List Check
    unfolding coverage_checks
    population_checks (some b) (some c) baseline candidate =
        (
          b.ground_truth_fingerprint == c.ground_truth_fingerprint,
          safe_difference show "ground_truth_population" present present,
        )
          ∷ (
            b.ground_truth_query_ids_fingerprint == c.ground_truth_query_ids_fingerprint,
            safe_difference show "query_population" present present,
          )
          ∷ coverage_checks "baseline_prediction_coverage" "baseline_prediction_count" b baseline
        ++ coverage_checks "candidate_prediction_coverage" "candidate_prediction_count" c candidate
    population_checks b c baseline candidate =
        (false, safe_difference show "verified_population" (shown b) (shown c)) ∷ []

    -- All checks, in the order of the code.
    unfoldable pub all_checks :
        RunSnapshot
        → EvaluationResult N
        → RunSnapshot
        → EvaluationResult N
        → Option RetrievalPopulationEvidence
        → Option RetrievalPopulationEvidence
        → List Check
    unfolding config_checks identity_check population_checks
    all_checks bs b cs c bp cp =
        (bs.workspace_id == cs.workspace_id, safe_difference show "workspace_id" present present)
          ∷ (
            b.evaluation_type == c.evaluation_type,
            safe_difference show "evaluation_type" present present,
          )
          ∷ (
            b.evaluation_type == "retrieval" && c.evaluation_type == "retrieval",
            safe_difference show "retrieval_only" present present,
          )
          ∷ config_checks bs.config cs.config
        ++ identity_check "baseline_result_identity" bs b
          ∷ identity_check "candidate_result_identity" cs c
          ∷ population_checks bp cp b c

    unfoldable pub assess_local_retrieval_compatibility :
        RunSnapshot
        → EvaluationResult N
        → RunSnapshot
        → EvaluationResult N
        → Option RetrievalPopulationEvidence
        → Option RetrievalPopulationEvidence
        → ComparisonCompatibility
    unfolding all_checks
    assess_local_retrieval_compatibility bs b cs c bp cp =
        let reasons =
          sort_by (λ x y. str_lt x.field y.field) (failed_checks (all_checks bs b cs c bp cp)) in
        record {
          status = elim reasons [ [] ↦ comparable | _ ∷ _ ↦ non_comparable ];
          reasons = reasons;
        }
