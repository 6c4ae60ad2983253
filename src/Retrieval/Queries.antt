-- ===== src/Retrieval/Queries.antt =====
-- What `evaluate_retrieval` of src/evalops/evaluators/retrieval/metrics.py says of each query.
use evalops_lab.Common.{
  ℕ, ◌≤◌, String, ◌≡◌, refl, false, List, [], ◌∷◌, ok, Dict, ◌==◌, string_eq, nat_eq, Float,
  FloatLaws, if◌then◌else◌, arith, Bool-cases, inl, inr,
}
use evalops_lab.Failures.{
  FailureCategory, FailureClassification, pass, should_abstain, retrieval_miss,
}
use evalops_lab.Retrieval.{
  Relevance, hit_rate_at_k, ndcg_at_k, ndcg_value, classify_retrieval, is_empty, abstaining,
  passing, missing_all, listed, mean_reciprocal_rank,
}
use evalops_lab.Retrieval.Bounds.{found, precision_at_k-IsUnit, recall_at_k-IsUnit}
use evalops_lab.Retrieval.Evaluation.{
  PerQueryRetrievalResult, RetrievalEvaluationResult, ranking_of, query_result, macro_metrics,
  evaluate_query, evaluate_queries, evaluate_retrieval,
}

module _ (fl : Float) (laws : FloatLaws fl) (exp2 : fl.Number → fl.Number) (log2 : ℕ → fl.Number)
    (show : ℕ → String) where
  open fl use {Number, of_int}

  -- The category of a query: to abstain if nothing is labelled, else by whether a relevant document
  -- is among the first `k`.
  abbrev pub expected_category : ℕ → Relevance Number → List String → FailureCategory
  expected_category k relevant retrieved =
      if is_empty fl relevant
      then should_abstain
      else if found fl relevant retrieved k
      then pass
      else retrieval_miss

  ndcg_total :
      (k : ℕ) (relevant : Relevance Number) (retrieved : List String)
      → 1 ≤ k
      → ndcg_at_k fl exp2 log2 relevant retrieved k
        ≡ ok (ndcg_value fl exp2 log2 relevant retrieved k)
  unfolding ndcg_at_k
  ndcg_total k relevant retrieved h = let fine : (k == 0) ≡ false = ground arith in rw fine refl

  hit_rate_lem :
      (k : ℕ) (relevant : Relevance Number) (retrieved : List String)
      → 1 ≤ k
      → hit_rate_at_k fl relevant retrieved k
        ≡ ok (of_int (if found fl relevant retrieved k then 1 else 0))
  unfolding hit_rate_at_k
  hit_rate_lem k relevant retrieved h = ground arith

  classify_total :
      (k : ℕ) (relevant : Relevance Number) (retrieved : List String)
      → 1 ≤ k
      → (c : FailureClassification) × (classify_retrieval fl relevant retrieved k ≡ ok c)
        × (c.category ≡ expected_category k relevant retrieved)
  unfolding classify_retrieval
  classify_total k relevant retrieved h = elim (Bool-cases (is_empty fl relevant)) [
    | inl empty ↦ (abstaining, rw empty refl, rw empty refl)
    | inr labelled ↦ elim (Bool-cases (found fl relevant retrieved k)) [
      | inl hit ↦ (
        passing,
        rw (labelled, hit_rate_lem k relevant retrieved h, hit, laws.one_ne_zero) refl,
        rw (labelled, hit) refl,
      )
      | inr missed ↦ (
        missing_all (listed fl relevant),
        rw (labelled, hit_rate_lem k relevant retrieved h, missed, laws.eq_refl (of_int 0)) refl,
        rw (labelled, missed) refl,
      )
    ]
  ]

  evaluate_query_total :
      (k : ℕ) (relevant : Relevance Number) (retrieved : List String)
      → 1 ≤ k
      → (r : PerQueryRetrievalResult Number) × (evaluate_query fl exp2 log2 show k relevant
            retrieved
          ≡ ok r)
        × (r.failure_category ≡ expected_category k relevant retrieved)
  unfolding evaluate_query
  evaluate_query_total k relevant retrieved h =
      let (p, ep, _) = precision_at_k-IsUnit fl laws relevant retrieved k h in
      let (r, er, _) = recall_at_k-IsUnit fl laws relevant retrieved k h in
      let n = ndcg_value fl exp2 log2 relevant retrieved k in
      let en = ndcg_total k relevant retrieved h in
      let (c, ec, category) = classify_total k relevant retrieved h in
      let hit = of_int (if found fl relevant retrieved k then 1 else 0) in
      let mrr = mean_reciprocal_rank fl relevant retrieved in
      (
        query_result fl exp2 log2 show k p r hit mrr n c,
        rw (ep, er, hit_rate_lem k relevant retrieved h, en, ec) refl,
        category,
      )

  -- The queries of the report are those of the ground truth, in its order, each with the category
  -- that its own labels and predictions ask for.
  abbrev pub Classified :
      ℕ
      → Dict String (List String)
      → Dict String (Relevance Number)
      → Dict String (PerQueryRetrievalResult Number)
      → Type 0
  Classified k predictions [] [] = Unit
  Classified k predictions ((q, relevant) ∷ truth) ((q', r) ∷ rest) =
      (q' ≡ q)
      × (r.failure_category ≡ expected_category k relevant (ranking_of q predictions))
      × Classified k predictions truth rest
  Classified k predictions _ _ = ⊥

  evaluate_queries_total :
      (k : ℕ) (predictions : Dict String (List String)) (truth : Dict String (Relevance Number))
      → 1 ≤ k
      → (d : Dict String (PerQueryRetrievalResult Number)) × (evaluate_queries fl exp2 log2 show k
            predictions truth
          ≡ ok d)
        × Classified k predictions truth d
  unfolding evaluate_queries
  evaluate_queries_total k predictions [] h = ([], refl, tt)
  evaluate_queries_total k predictions ((q, relevant) ∷ truth) h =
      let (r, one, category) = evaluate_query_total k relevant (ranking_of q predictions) h in
      let (d, more, rest) = evaluate_queries_total k predictions truth h in
      ((q, r) ∷ d, rw (one, more) refl, (refl, category, rest))

  -- For a positive `k` the evaluation returns a report with one entry for each query of the ground
  -- truth, in its order. The entry's category is SHOULD_ABSTAIN if the query has no labels, PASS if
  -- a relevant document is among the first `k` predictions, and RETRIEVAL_MISS otherwise; a query
  -- without predictions counts as one with an empty ranking.
  pub evaluate_retrieval_total :
      (k : ℕ) (predictions : Dict String (List String)) (truth : Dict String (Relevance Number))
      → 1 ≤ k
      → (report : RetrievalEvaluationResult Number) × (evaluate_retrieval fl exp2 log2 show truth
            predictions k
          ≡ ok report)
        × Classified k predictions truth report.per_query
  unfolding evaluate_retrieval
  evaluate_retrieval_total k predictions truth h =
      let fine : (k == 0) ≡ false = ground arith in
      let (d, more, rest) = evaluate_queries_total k predictions truth h in
      (
        record { k = k; metrics = macro_metrics fl exp2 log2 show k d; per_query = d },
        rw (fine, more) refl,
        rest,
      )
