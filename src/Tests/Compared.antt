-- ===== src/Tests/Compared.antt =====
-- The theorems of Regression and Comparison on two small results.
use evalops_lab.Common.{
  ℕ, String, ◌≡◌, ◌↔◌, refl, true, none, some, List, [], ◌∷◌, ok, Dict, All, keys, sort_by, str_lt,
  string_eq, fractions,
}
use evalops_lab.Failures.{FailureCategory, pass, retrieval_miss}
use evalops_lab.Regression.{
  MetricRule, MetricComparison, RegressionReport, Metrics, finite, higher_is_better,
  compare_metrics, compared, within_allowance,
}
use evalops_lab.Regression
use evalops_lab.Regression.Verdict.{IsAcceptable, passed_iff}
use evalops_lab.Retrieval.{passing}
use evalops_lab.Retrieval.Evaluation.{PerQueryRetrievalResult}
use evalops_lab.Comparison.Evidence.{PerQueryEvidence, valid, entries, EvaluationResult}
use evalops_lab.Comparison.Failures.{QueryFailureTransition, per_query, build_failure_transitions}
use evalops_lab.Comparison.Transitions.{Transitions, build_failure_transitions_total}
use evalops_lab.Comparison.Compatibility.{
  RetrievalPopulationEvidence, comparable, assess_local_retrieval_compatibility,
}
use evalops_lab.Comparison.Comparable.{IsComparable, comparable_iff}
use evalops_lab.Tests.Samples.{sample_config, sample_snapshot}

abbrev rules : List (MetricRule (ℕ × ℕ))
rules =
    record {
      metric_name = "mrr";
      direction = higher_is_better;
      minimum_acceptable = some (1, 9);
      maximum_acceptable = none;
      max_degradation = (1, 99);
    }
    ∷ []

abbrev current : Metrics fractions
current = ("mrr", finite (1, 1)) ∷ []

abbrev earlier : Metrics fractions
earlier = ("mrr", finite (1, 2)) ∷ []

abbrev report : RegressionReport (ℕ × ℕ)
report = record {
  passed = true;
  comparisons =
      compared fractions
        (record {
          metric_name = "mrr";
          direction = higher_is_better;
          minimum_acceptable = some (1, 9);
          maximum_acceptable = none;
          max_degradation = (1, 99);
        })
        (some (1, 2)) (some (1, 1)) (some (1, 5)) Regression.pass within_allowance
      ∷ [];
}

reported : compare_metrics fractions current earlier rules ≡ ok report
unfolding compare_metrics
reported = refl

passed_iff_example : (report.passed ≡ true) ↔ All (IsAcceptable fractions current earlier) rules
passed_iff_example = passed_iff fractions current earlier rules report reported

abbrev query : FailureCategory → PerQueryRetrievalResult ℕ
query c = record { metrics = []; failure_category = c; classification = passing }

abbrev before : Dict String (PerQueryRetrievalResult ℕ)
before = ("q2", query retrieval_miss) ∷ ("q1", query pass) ∷ []

abbrev later : Dict String (PerQueryRetrievalResult ℕ)
later = ("q1", query retrieval_miss) ∷ ("q2", query pass) ∷ []

abbrev result_with : PerQueryEvidence ℕ → EvaluationResult ℕ
result_with evidence = record {
  evaluation_type = "retrieval";
  run = sample_config;
  metrics = [];
  per_query = evidence;
  prediction_query_count = some 2;
}

abbrev baseline : EvaluationResult ℕ
baseline =
    result_with (entries (("q2", valid (query retrieval_miss)) ∷ ("q1", valid (query pass)) ∷ []))

abbrev candidate : EvaluationResult ℕ
candidate =
    result_with (entries (("q1", valid (query retrieval_miss)) ∷ ("q2", valid (query pass)) ∷ []))

has_before : per_query baseline ≡ ok before
unfolding per_query
has_before = refl

has_later : per_query candidate ≡ ok later
unfolding per_query
has_later = refl

build_failure_transitions_total_example :
    (ts : List (QueryFailureTransition ℕ)) × (build_failure_transitions baseline candidate ≡ ok ts)
    × Transitions before later (sort_by str_lt (keys before)) ts
build_failure_transitions_total_example =
    build_failure_transitions_total baseline candidate before later refl refl has_before has_later
      refl

abbrev population : RetrievalPopulationEvidence
population = record {
  ground_truth_fingerprint = "t";
  ground_truth_query_ids_fingerprint = "q";
  prediction_query_ids_fingerprint = "q";
  ground_truth_query_count = 2;
  prediction_query_count = 2;
}

comparable_iff_example :
    ((assess_local_retrieval_compatibility
        (λ n. "5")
        sample_snapshot
        baseline
        sample_snapshot
        candidate
        (some population)
        (some population)).status
      ≡ comparable)
    ↔ IsComparable sample_snapshot baseline sample_snapshot candidate
        (some population)
        (some population)
comparable_iff_example =
    comparable_iff (λ n. "5") sample_snapshot baseline sample_snapshot candidate (some population)
      (some population)
