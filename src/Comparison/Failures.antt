-- ===== src/Comparison/Failures.antt =====
-- src/evalops/workspace/comparison/failures.py: what became of each query between two runs.
use evalops_lab.Common.{
  String, not, ◌||◌, none, some, List, [], ◌∷◌, Result, ok, raise, ◌>>=◌, ◌>>◌, raise_if, each,
  length, Dict, keys, lookup, same_set, sort_by, str_lt, ◌==◌, string_eq, nat_eq, if◌then◌else◌,
}
use evalops_lab.Failures.{FailureCategory, pass, category_eq}
use evalops_lab.Retrieval.Evaluation.{PerQueryRetrievalResult}
use evalops_lab.Comparison.Evidence.{
  Payload, valid, malformed, not_a_dict, entries, EvaluationResult,
}

pub data FailureTransition : Type 0 where
  unchanged_pass regressed improved persistent_failure changed_failure : FailureTransition

-- The metrics are finite numbers; the model refuses no others, as there are none.
pub record QueryFailureTransition (N : Type 0) : Type 0 where
  pub query_id : String
  pub transition : FailureTransition
  pub baseline_category : FailureCategory
  pub candidate_category : FailureCategory
  pub baseline_metrics : Dict String N
  pub candidate_metrics : Dict String N

-- The ValueErrors, the KeyError of a lookup, and the refusal of a transition by its model.
pub data TransitionError : Type 0 where
  missing_evidence invalid_identity invalid_evidence not_retrieval : TransitionError
  population_mismatch key_error validation_error : TransitionError

-- The outcome of a query, by its two categories.
unfoldable pub outcome : FailureCategory → FailureCategory → FailureTransition
outcome old new =
    if old == pass
    then (if new == pass then unchanged_pass else regressed)
    else if new == pass
    then improved
    else if old == new
    then persistent_failure
    else changed_failure

module _ {N : Type 0} where
  -- The loop of `_per_query`.
  unfoldable pub checked_entries :
      Dict String (Payload N) → Result TransitionError (Dict String (PerQueryRetrievalResult N))
  checked_entries [] = ok []
  checked_entries ((q, payload) ∷ rest) = do
    raise_if (q == "") invalid_identity
    r ← elim payload [ valid r ↦ ok r | malformed ↦ raise invalid_evidence ]
    others ← checked_entries rest
    ok ((q, r) ∷ others)

  -- `_per_query`
  unfoldable pub per_query :
      EvaluationResult N → Result TransitionError (Dict String (PerQueryRetrievalResult N))
  unfolding checked_entries
  per_query result = elim result.per_query [
    | not_a_dict ↦ raise missing_evidence
    | entries d ↦ if length d == 0 then raise missing_evidence else checked_entries d
  ]

  -- The body of the loop over the queries.
  unfoldable pub transition_of :
      Dict String (PerQueryRetrievalResult N)
      → Dict String (PerQueryRetrievalResult N)
      → String
      → Result TransitionError (QueryFailureTransition N)
  unfolding outcome
  transition_of baseline candidate q = elim (lookup q baseline) [
    | none ↦ raise key_error
    | some old ↦ elim (lookup q candidate) [
      | none ↦ raise key_error
      | some new ↦
          if q == ""
          then raise validation_error
          else ok (record {
            query_id = q;
            transition = outcome old.failure_category new.failure_category;
            baseline_category = old.failure_category;
            candidate_category = new.failure_category;
            baseline_metrics = old.metrics;
            candidate_metrics = new.metrics;
          })
    ]
  ]

  unfoldable pub build_failure_transitions :
      EvaluationResult N
      → EvaluationResult N
      → Result TransitionError (List (QueryFailureTransition N))
  unfolding per_query transition_of
  build_failure_transitions baseline candidate = do
    raise_if
        (not (baseline.evaluation_type == "retrieval")
          || not (candidate.evaluation_type == "retrieval"))
        not_retrieval
    old ← per_query baseline
    new ← per_query candidate
    raise_if (not (same_set (keys old) (keys new))) population_mismatch
    each (transition_of old new) (sort_by str_lt (keys old))
