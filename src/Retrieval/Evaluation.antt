-- ===== src/Retrieval/Evaluation.antt =====
-- src/evalops/evaluators/retrieval/metrics.py, `evaluate_retrieval`. `show` is Python's `str` of an
-- int; a query that has no predictions is evaluated with an empty ranking.
use Prim.Native.String.{◌++◌ as append}
use evalops_lab.Common.{
  ℕ, String, none, some, List, [], ◌∷◌, Result, ok, ◌>>=◌, ◌>>◌, length, Dict, values, lookup, ◌==◌,
  string_eq, nat_eq, Float, if◌then◌else◌, map,
}
use evalops_lab.Failures.{FailureCategory, FailureClassification}
use evalops_lab.Retrieval.{
  Relevance, MetricError, validate_k, precision_at_k, recall_at_k, hit_rate_at_k,
  mean_reciprocal_rank, ndcg_at_k, classify_retrieval,
}

pub record PerQueryRetrievalResult (N : Type 0) : Type 0 where
  pub metrics : Dict String N
  pub failure_category : FailureCategory
  pub classification : FailureClassification

pub record RetrievalEvaluationResult (N : Type 0) : Type 0 where
  pub k : ℕ
  pub metrics : Dict String N
  pub per_query : Dict String (PerQueryRetrievalResult N)

-- The names of the metrics, in the order of the dict literals.
unfoldable pub metric_names : (ℕ → String) → ℕ → List String
metric_names show k =
    append "precision_at_" (show k)
    ∷ append "recall_at_" (show k)
    ∷ append "hit_rate_at_" (show k)
    ∷ "mrr"
    ∷ append "ndcg_at_" (show k)
    ∷ []

-- `predictions.get(query_id, [])`
abbrev pub ranking_of : String → Dict String (List String) → List String
ranking_of q predictions = elim (lookup q predictions) [ none ↦ [] | some ids ↦ ids ]

module _ (fl : Float) (exp2 : fl.Number → fl.Number) (log2 : ℕ → fl.Number)
    (show : ℕ → String) where
  open fl use {Number, of_int, add, div}

  -- The five metrics of a query, under their names.
  abbrev pub query_result :
      ℕ
      → Number
      → Number
      → Number
      → Number
      → Number
      → FailureClassification
      → PerQueryRetrievalResult Number
  query_result k precision recall hit_rate mrr ndcg classification = record {
    metrics =
        (append "precision_at_" (show k), precision)
        ∷ (append "recall_at_" (show k), recall)
        ∷ (append "hit_rate_at_" (show k), hit_rate)
        ∷ ("mrr", mrr)
        ∷ (append "ndcg_at_" (show k), ndcg)
        ∷ [];
    failure_category = classification.category;
    classification = classification;
  }

  -- The body of the loop over the queries.
  unfoldable pub evaluate_query :
      ℕ → Relevance Number → List String → Result MetricError (PerQueryRetrievalResult Number)
  evaluate_query k relevant retrieved = do
    precision ← precision_at_k fl relevant retrieved k
    recall ← recall_at_k fl relevant retrieved k
    hit_rate ← hit_rate_at_k fl relevant retrieved k
    ndcg ← ndcg_at_k fl exp2 log2 relevant retrieved k
    classification ← classify_retrieval fl relevant retrieved k
    let mrr = mean_reciprocal_rank fl relevant retrieved
    ok (query_result k precision recall hit_rate mrr ndcg classification)

  -- The loop over the queries. The keys of `ground_truth` are those of a dict, so none is repeated.
  unfoldable pub evaluate_queries :
      ℕ
      → Dict String (List String)
      → Dict String (Relevance Number)
      → Result MetricError (Dict String (PerQueryRetrievalResult Number))
  unfolding evaluate_query
  evaluate_queries k predictions [] = ok []
  evaluate_queries k predictions ((q, relevant) ∷ truth) = do
    result ← evaluate_query k relevant (ranking_of q predictions)
    others ← evaluate_queries k predictions truth
    ok ((q, result) ∷ others)

  -- `sum(item.metrics[name] for item in ...)`. Every item has every name.
  abbrev pub metric_total : String → Number → List (PerQueryRetrievalResult Number) → Number
  metric_total name total [] = total
  metric_total name total (item ∷ items) =
      metric_total name
        (add total (elim (lookup name item.metrics) [ some v ↦ v | none ↦ of_int 0 ])) items

  unfoldable pub macro_metrics :
      ℕ → Dict String (PerQueryRetrievalResult Number) → Dict String Number
  unfolding metric_names
  macro_metrics k per_query =
      if length per_query == 0
      then map (λ name. (name, of_int 0)) (metric_names show k)
      else map
          (λ name. (
            name,
            div (metric_total name (of_int 0) (values per_query)) (of_int (length per_query)),
          ))
          (metric_names show k)

  unfoldable pub evaluate_retrieval :
      Dict String (Relevance Number)
      → Dict String (List String)
      → ℕ
      → Result MetricError (RetrievalEvaluationResult Number)
  unfolding validate_k evaluate_queries macro_metrics
  evaluate_retrieval truth predictions k = do
    validate_k k
    per_query ← evaluate_queries k predictions truth
    ok (record { k = k; metrics = macro_metrics k per_query; per_query = per_query })
