-- ===== src/Comparison/Comparable.antt =====
-- When `assess_local_retrieval_compatibility` of src/evalops/workspace/comparison/compatibility.py
-- calls two runs comparable.
use evalops_lab.Common.{
  ℕ, String, ◌≡◌, ◌↔◌, refl, sym, subst, ◌∙◌, Bool, true, ◌&&◌, Option, none, some, List, [], ◌∷◌,
  ◌++◌, all, All, length, length-sort_by, sort_by, str_lt, ◌==◌, ==_iff, string_eq, nat_eq,
  option_eq, arith,
}
use evalops_lab.Models.Runs.{config_beq, texts_beq, RunConfig, RunSnapshot, dict_beq}
use evalops_lab.Comparison.Evidence.{EvaluationResult}
use evalops_lab.Comparison.Compatibility.{
  ComparisonCompatibilityStatus, comparable, CompatibilityReason, RetrievalPopulationEvidence,
  Check, failed_checks, config_checks, identity_check, coverage_checks, population_checks,
  all_checks, assess_local_retrieval_compatibility,
}

-- The same benchmark, data set, annotation and evaluation.
pub record IsSamePopulation (a b : RunConfig) : Type 0 where
  pub annotation_policy : a.annotation_policy ≡ b.annotation_policy
  pub benchmark : a.benchmark ≡ b.benchmark
  pub dataset_name : a.dataset_name ≡ b.dataset_name
  pub dataset_revision : a.dataset_revision ≡ b.dataset_revision
  pub dataset_version : a.dataset_version ≡ b.dataset_version
  pub evaluator_config : dict_beq a.evaluator_config b.evaluator_config ≡ true
  pub evaluator_versions : dict_beq a.evaluator_versions b.evaluator_versions ≡ true
  pub language : a.language ≡ b.language
  pub quality_filter : texts_beq a.quality_filter b.quality_filter ≡ true
  pub split : a.split ≡ b.split
  pub top_k : a.top_k ≡ b.top_k

-- A result of its run, whose predictions cover the population.
pub record IsCovered {N : Type 0} (snapshot : RunSnapshot) (result : EvaluationResult N)
    (evidence : RetrievalPopulationEvidence) : Type 0 where
  pub own_config : config_beq result.run snapshot.config ≡ true
  pub own_run : result.run.run_id ≡ snapshot.run_id
  pub coverage :
      evidence.prediction_query_ids_fingerprint ≡ evidence.ground_truth_query_ids_fingerprint
  pub counted : result.prediction_query_count ≡ some evidence.prediction_query_count

pub record IsComparable {N : Type 0} (bs : RunSnapshot) (b : EvaluationResult N) (cs : RunSnapshot)
    (c : EvaluationResult N) (bp cp : Option RetrievalPopulationEvidence) : Type 0 where
  pub baseline_population : RetrievalPopulationEvidence
  pub candidate_population : RetrievalPopulationEvidence
  pub baseline_verified : bp ≡ some baseline_population
  pub candidate_verified : cp ≡ some candidate_population
  pub same_workspace : bs.workspace_id ≡ cs.workspace_id
  pub baseline_retrieval : b.evaluation_type ≡ "retrieval"
  pub candidate_retrieval : c.evaluation_type ≡ "retrieval"
  pub same_population : IsSamePopulation bs.config cs.config
  pub same_truth :
      baseline_population.ground_truth_fingerprint ≡ candidate_population.ground_truth_fingerprint
  pub same_queries :
      baseline_population.ground_truth_query_ids_fingerprint
      ≡ candidate_population.ground_truth_query_ids_fingerprint
  pub baseline_covered : IsCovered bs b baseline_population
  pub candidate_covered : IsCovered cs c candidate_population

abbrev pub passes : List Check → Bool
passes checks = all (λ check. check.0) checks

no_failed_checks :
    (checks : List Check) → (length (failed_checks checks) ≡ 0) ↔ (passes checks ≡ true)
no_failed_checks [] = ground arith
no_failed_checks ((same, reason) ∷ checks) = ground (arith, no_failed_checks checks)

abbrev status_of : List CompatibilityReason → ComparisonCompatibilityStatus
status_of reasons = elim reasons [
  | [] ↦ comparable
  | _ ∷ _ ↦ ComparisonCompatibilityStatus.non_comparable
]

status_of-comparable :
    (reasons : List CompatibilityReason) → (status_of reasons ≡ comparable) ↔ (length reasons ≡ 0)
status_of-comparable [] = ground arith
status_of-comparable (r ∷ rs) = ground arith

abbrev Holds : List Check → Type 0
Holds checks = All (λ check. check.0 ≡ true) checks

passes_iff : (checks : List Check) → (passes checks ≡ true) ↔ Holds checks
passes_iff [] = ground arith
passes_iff ((same, reason) ∷ checks) = ground (arith, passes_iff checks)

Holds-append : (xs ys : List Check) → Holds (xs ++ ys) ↔ (Holds xs × Holds ys)
Holds-append [] ys = (λ h. (tt, h), λ h. h.1)
Holds-append (x ∷ xs) ys =
    let (to, from) = Holds-append xs ys in
    (λ h. ((h.0, (to h.1).0), (to h.1).1), λ h. (h.0.0, from (h.0.1, h.1)))

and_iff : (a b : Bool) → (a && b ≡ true) ↔ ((a ≡ true) × (b ≡ true))
and_iff a b = ground arith

module _ (show : ℕ → String) where
  config_checks-Holds : (a b : RunConfig) → Holds (config_checks show a b) ↔ IsSamePopulation a b
  unfolding config_checks
  config_checks-Holds a b = (
    λ h. record {
      annotation_policy = (==_iff a.annotation_policy b.annotation_policy).0 h.0;
      benchmark = (==_iff a.benchmark b.benchmark).0 h.1.0;
      dataset_name = (==_iff a.dataset_name b.dataset_name).0 h.1.1.0;
      dataset_revision = (==_iff a.dataset_revision b.dataset_revision).0 h.1.1.1.0;
      dataset_version = (==_iff a.dataset_version b.dataset_version).0 h.1.1.1.1.0;
      evaluator_config = h.1.1.1.1.1.0;
      evaluator_versions = h.1.1.1.1.1.1.0;
      language = (==_iff a.language b.language).0 h.1.1.1.1.1.1.1.0;
      quality_filter = h.1.1.1.1.1.1.1.1.0;
      split = (==_iff a.split b.split).0 h.1.1.1.1.1.1.1.1.1.0;
      top_k = (==_iff a.top_k b.top_k).0 h.1.1.1.1.1.1.1.1.1.1.0;
    },
    λ i. (
      (==_iff a.annotation_policy b.annotation_policy).1 i.annotation_policy,
      (
        (==_iff a.benchmark b.benchmark).1 i.benchmark,
        (
          (==_iff a.dataset_name b.dataset_name).1 i.dataset_name,
          (
            (==_iff a.dataset_revision b.dataset_revision).1 i.dataset_revision,
            (
              (==_iff a.dataset_version b.dataset_version).1 i.dataset_version,
              (
                i.evaluator_config,
                (
                  i.evaluator_versions,
                  (
                    (==_iff a.language b.language).1 i.language,
                    (
                      i.quality_filter,
                      (
                        (==_iff a.split b.split).1 i.split,
                        ((==_iff a.top_k b.top_k).1 i.top_k, tt),
                      ),
                    ),
                  ),
                ),
              ),
            ),
          ),
        ),
      ),
    ),
  )

  module _ {N : Type 0} (bs : RunSnapshot) (b : EvaluationResult N) (cs : RunSnapshot)
      (c : EvaluationResult N) where
    IsCovered-iff :
        (f g k : String) (e : RetrievalPopulationEvidence) (snapshot : RunSnapshot)
        (result : EvaluationResult N)
        → (((identity_check show f snapshot result).0 ≡ true)
            × Holds (coverage_checks show g k e result))
          ↔ IsCovered snapshot result e
    unfolding identity_check coverage_checks
    IsCovered-iff f g k e snapshot result =
        let (to, from) =
          and_iff (config_beq result.run snapshot.config) (result.run.run_id == snapshot.run_id) in
        let run = ==_iff result.run.run_id snapshot.run_id in
        let ids = ==_iff e.prediction_query_ids_fingerprint e.ground_truth_query_ids_fingerprint in
        let count = ==_iff result.prediction_query_count (some e.prediction_query_count) in
        (
          λ h. record {
            own_config = (to h.0).0;
            own_run = run.0 (to h.0).1;
            coverage = ids.0 h.1.0;
            counted = count.0 h.1.1.0;
          },
          λ i. (from (i.own_config, run.1 i.own_run), (ids.1 i.coverage, (count.1 i.counted, tt))),
        )

    -- The checks after those of the configurations.
    abbrev later_checks :
        Option RetrievalPopulationEvidence → Option RetrievalPopulationEvidence → List Check
    later_checks bp cp =
        identity_check show "baseline_result_identity" bs b
        ∷ identity_check show "candidate_result_identity" cs c
        ∷ population_checks show bp cp b c

    checks-IsComparable :
        (bp cp : Option RetrievalPopulationEvidence)
        → Holds (all_checks show bs b cs c bp cp) ↔ IsComparable bs b cs c bp cp
    unfolding all_checks population_checks
    checks-IsComparable (some x) (some y) =
        let config = config_checks show bs.config cs.config in
        let b_covered =
          coverage_checks show "baseline_prediction_coverage" "baseline_prediction_count" x b in
        let c_covered =
          coverage_checks show "candidate_prediction_coverage" "candidate_prediction_count" y c in
        let rest = (later_checks (some x) (some y)) in
        let (split, join) = Holds-append config rest in
        let (part, unite) = Holds-append b_covered c_covered in
        let same = config_checks-Holds bs.config cs.config in
        let own =
          IsCovered-iff "baseline_result_identity" "baseline_prediction_coverage"
            "baseline_prediction_count" x bs b in
        let new =
          IsCovered-iff "candidate_result_identity" "candidate_prediction_coverage"
            "candidate_prediction_count" y cs c in
        let retrieval =
          and_iff (b.evaluation_type == "retrieval") (c.evaluation_type == "retrieval") in
        let ws = ==_iff bs.workspace_id cs.workspace_id in
        let b_type = ==_iff b.evaluation_type "retrieval" in
        let c_type = ==_iff c.evaluation_type "retrieval" in
        let types = ==_iff b.evaluation_type c.evaluation_type in
        let truth = ==_iff x.ground_truth_fingerprint y.ground_truth_fingerprint in
        let queries =
          ==_iff x.ground_truth_query_ids_fingerprint y.ground_truth_query_ids_fingerprint in
        (
          λ h.
              let later = (split h.1.1.1).1 in
              let populations = later.1.1 in
              let covers = part populations.1.1 in
              record {
                baseline_population = x;
                candidate_population = y;
                baseline_verified = refl;
                candidate_verified = refl;
                same_workspace = ws.0 h.0;
                baseline_retrieval = b_type.0 (retrieval.0 h.1.1.0).0;
                candidate_retrieval = c_type.0 (retrieval.0 h.1.1.0).1;
                same_population = same.0 (split h.1.1.1).0;
                same_truth = truth.0 populations.0;
                same_queries = queries.0 populations.1.0;
                baseline_covered = own.0 (later.0, covers.0);
                candidate_covered = new.0 (later.1.0, covers.1);
              },
          λ i.
              let i_x : i.baseline_population ≡ x = cc i.baseline_verified in
              let i_y : i.candidate_population ≡ y = cc i.candidate_verified in
              let (own_identity, own_coverage) =
                own.1 (subst (IsCovered bs b) i_x i.baseline_covered) in
              let (new_identity, new_coverage) =
                new.1 (subst (IsCovered cs c) i_y i.candidate_covered) in
              let t = truth.1 (cc (i.same_truth, i_x, i_y)) in
              let q = queries.1 (cc (i.same_queries, i_x, i_y)) in
              (
                ws.1 i.same_workspace,
                (
                  types.1 (i.baseline_retrieval ∙ sym i.candidate_retrieval),
                  (
                    retrieval.1 (b_type.1 i.baseline_retrieval, c_type.1 i.candidate_retrieval),
                    join (
                      same.1 i.same_population,
                      (own_identity, (new_identity, (t, (q, unite (own_coverage, new_coverage))))),
                    ),
                  ),
                ),
              ),
        )
    checks-IsComparable none cp = (
      λ h.
          let later =
            ((Holds-append (config_checks show bs.config cs.config) (later_checks none cp)).0
              h.1.1.1).1 in
          absurd (cc later.1.1.0),
      λ i. absurd (cc i.baseline_verified),
    )
    checks-IsComparable (some x) none = (
      λ h.
          let later =
            ((Holds-append (config_checks show bs.config cs.config) (later_checks (some x) none)).0
              h.1.1.1).1 in
          absurd (cc later.1.1.0),
      λ i. absurd (cc i.candidate_verified),
    )

    -- Two runs are comparable exactly when both are retrieval runs of one workspace over the same
    -- population, by the fields of their configurations and by the fingerprints of their inputs,
    -- both results are those of their runs, and both have predictions for every query.
    pub comparable_iff :
        (bp cp : Option RetrievalPopulationEvidence)
        → ((assess_local_retrieval_compatibility show bs b cs c bp cp).status ≡ comparable)
          ↔ IsComparable bs b cs c bp cp
    unfolding assess_local_retrieval_compatibility
    comparable_iff bp cp =
        let problems = failed_checks (all_checks show bs b cs c bp cp) in
        let lt = λ (x y : CompatibilityReason). str_lt x.field y.field in
        let (out, back) = status_of-comparable (sort_by lt problems) in
        let same = length-sort_by lt problems in
        let (none_failed, fails) = no_failed_checks (all_checks show bs b cs c bp cp) in
        let (to, from) = checks-IsComparable bp cp in
        let (holds, passed) = passes_iff (all_checks show bs b cs c bp cp) in
        (
          λ e. to (holds (none_failed (sym same ∙ out e))),
          λ i. back (same ∙ fails (passed (from i))),
        )
