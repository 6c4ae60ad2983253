-- ===== src/Tests/Metrics.antt =====
-- The theorems of Retrieval on a small ground truth, with fractions for the numbers.
use evalops_lab.Common.{
  ℕ, String, ◌≡◌, ◌⊎◌, ◌+◌, false, List, [], ◌∷◌, ok, Dict, length, any, member, string_eq,
  fractions, fractions_laws, arith, if◌then◌else◌,
}
use evalops_lab.Retrieval.{
  Relevance, binary, precision_at_k, recall_at_k, hit_rate_at_k, mean_reciprocal_rank, relevant_set,
}
use evalops_lab.Retrieval.Bounds.{IsUnit, FirstHit, found, metrics_agree, mean_reciprocal_rank_lem}
use evalops_lab.Retrieval.Evaluation.{RetrievalEvaluationResult, evaluate_retrieval}
use evalops_lab.Retrieval.Queries.{Classified, evaluate_retrieval_total}

abbrev Number : Type 0
Number = ℕ × ℕ

abbrev relevant : Relevance Number
relevant = binary ("a" ∷ "b" ∷ [])

abbrev ranking : List String
ranking = "c" ∷ "b" ∷ "b" ∷ []

metrics_agree_example :
    let hit = found fractions relevant ranking 2 in
    (p : Number) × (r : Number) × (precision_at_k fractions relevant ranking 2 ≡ ok p)
    × (recall_at_k fractions relevant ranking 2 ≡ ok r)
    × (hit_rate_at_k fractions relevant ranking 2 ≡ ok (fractions.of_int (if hit then 1 else 0)))
    × IsUnit fractions fractions_laws p
    × IsUnit fractions fractions_laws r
    × (fractions.lt (0, 0) p ≡ hit)
    × (fractions.lt (0, 0) r ≡ hit)
metrics_agree_example = metrics_agree fractions fractions_laws relevant ranking 2 (omega arith)

mean_reciprocal_rank_example :
    ((any (λ x. member x (relevant_set fractions relevant)) ranking ≡ false)
      × (mean_reciprocal_rank fractions relevant ranking ≡ (0, 0)))
    ⊎ ((f : FirstHit (relevant_set fractions relevant) ranking) × (mean_reciprocal_rank fractions
            relevant ranking
          ≡ fractions.ratio 1 (1 + length f.before)))
mean_reciprocal_rank_example = mean_reciprocal_rank_lem fractions relevant ranking

abbrev show : ℕ → String
show n = "2"

abbrev exp2 : Number → Number
exp2 x = (2, 0)

abbrev log2 : ℕ → Number
log2 n = (n, 0)

abbrev truth : Dict String (Relevance Number)
truth = ("q1", relevant) ∷ ("q2", binary []) ∷ []

abbrev predictions : Dict String (List String)
predictions = ("q1", ranking) ∷ []

evaluate_retrieval_total_example :
    (report : RetrievalEvaluationResult Number) × (evaluate_retrieval fractions exp2 log2 show truth
        predictions 2
      ≡ ok report)
    × Classified fractions fractions_laws exp2 log2 show 2 predictions truth report.per_query
evaluate_retrieval_total_example =
    evaluate_retrieval_total fractions fractions_laws exp2 log2 show 2 predictions truth
      (omega arith)
