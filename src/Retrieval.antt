-- ===== src/Retrieval.antt =====
-- src/evalops/evaluators/retrieval/metrics.py: deterministic retrieval metrics. `k` is a natural
-- number: the guard's other inputs (bools, texts, negative numbers) are refused like 0.
pub mod Bounds
pub mod Evaluation
pub mod Queries
use evalops_lab.Common.{
  ℕ, zero, suc, ◌+◌, String, Bool, true, false, not, ◌&&◌, ◌||◌, Option, none, some, List, [], ◌∷◌,
  Result, ok, raise, ◌>>=◌, ◌>>◌, raise_if, each, length, take, keep, count, any, member, to_set,
  Dict, keys, values, lookup, insert, sort_by, ◌==◌, string_eq, nat_eq, Float, if◌then◌else◌,
}
use evalops_lab.Failures.{
  FailureCategory, pass, retrieval_miss, should_abstain, system_failure, FailureClassification,
}

-- RelevanceInput: a sequence of identifiers, or a mapping to labels.
pub data Relevance (N : Type 0) : Type 0 where
  binary : List String → Relevance N
  graded : Dict String N → Relevance N

-- "k must be a positive integer"
pub data MetricError : Type 0 where
  bad_k : MetricError

-- `_validate_k`
unfoldable pub validate_k : ℕ → Result MetricError (Unit {0})
validate_k k = raise_if (k == 0) bad_k

-- The classifications of `_classify_retrieval`.
abbrev pub abstaining : FailureClassification
abstaining = record {
  category = should_abstain;
  failure_class = some system_failure;
  message = "no relevant document is available; answer generation should abstain";
  evidence = [];
}

abbrev pub passing : FailureClassification
passing = record { category = pass; failure_class = none; message = "retrieval hit"; evidence = [] }

abbrev pub missing_all : List String → FailureClassification
missing_all ids = record {
  category = retrieval_miss;
  failure_class = some system_failure;
  message = "no relevant document was retrieved";
  evidence = ("relevant_document_ids", ids) ∷ [];
}

module _ (fl : Float) where
  open fl use {Number, of_int, ratio, lt, eq, add, sub, mul, div}

  abbrev binary_map : Dict String Number → List String → Dict String Number
  binary_map d [] = d
  binary_map d (x ∷ xs) = binary_map (insert x (of_int 1) d) xs

  abbrev positive_map : Dict String Number → Dict String Number
  positive_map [] = []
  positive_map ((x, v) ∷ d) = if lt (of_int 0) v then (x, v) ∷ positive_map d else positive_map d

  -- `_relevance_map`
  unfoldable pub relevance_map : Relevance Number → Dict String Number
  relevance_map (binary ids) = binary_map [] ids
  relevance_map (graded labels) = positive_map labels

  -- `set(_relevance_map(...))`
  abbrev pub relevant_set : Relevance Number → List String
  relevant_set relevant = to_set (keys (relevance_map relevant))

  unfoldable pub precision_at_k : Relevance Number → List String → ℕ → Result MetricError Number
  unfolding validate_k
  precision_at_k relevant retrieved k = do
    validate_k k
    ok (ratio (count (λ x. member x (relevant_set relevant)) (to_set (take k retrieved))) k)

  unfoldable pub recall_at_k : Relevance Number → List String → ℕ → Result MetricError Number
  unfolding validate_k
  recall_at_k relevant retrieved k = do
    validate_k k
    let ids = relevant_set relevant
    ok (
        if length ids == 0
        then of_int 0
        else ratio (count (λ x. member x (to_set (take k retrieved))) ids) (length ids))

  unfoldable pub hit_rate_at_k : Relevance Number → List String → ℕ → Result MetricError Number
  unfolding validate_k
  hit_rate_at_k relevant retrieved k = do
    validate_k k
    ok (
        of_int (
          if any (λ x. member x (to_set (take k retrieved))) (relevant_set relevant) then 1 else 0))

  -- The loop of `mean_reciprocal_rank`, from a rank on.
  unfoldable pub reciprocal_from : List String → ℕ → List String → Number
  reciprocal_from relevant rank [] = of_int 0
  reciprocal_from relevant rank (x ∷ xs) =
      let rest = reciprocal_from relevant (rank + 1) xs in
      if member x relevant then ratio 1 rank else rest

  unfoldable pub mean_reciprocal_rank : Relevance Number → List String → Number
  unfolding reciprocal_from
  mean_reciprocal_rank relevant retrieved = reciprocal_from (relevant_set relevant) 1 retrieved

  -- The library functions of the gain: `2 ** x`, and `math.log2` of an int.
  module _ (exp2 : Number → Number) (log2 : ℕ → Number) where
    -- The gain of a label at a rank, counted from 0.
    abbrev gain : Number → ℕ → Number
    gain label rank = div (sub (exp2 label) (of_int 1)) (log2 (rank + 2))

    -- The gain of a document that is met for the first time.
    unfoldable pub gained_at : Dict String Number → Number → ℕ → String → Number
    gained_at relevance dcg rank x = elim (lookup x relevance) [
      | some label ↦ add dcg (gain label rank)
      | none ↦ dcg
    ]

    -- The loop over the retrieved documents of `ndcg_at_k`.
    unfoldable pub dcg_from : Dict String Number → List String → Number → ℕ → List String → Number
    dcg_from relevance seen dcg rank [] = dcg
    dcg_from relevance seen dcg rank (x ∷ xs) =
        let old = member x seen in
        let gained = if old then dcg else gained_at relevance dcg rank x in
        dcg_from relevance (if old then seen else x ∷ seen) gained (rank + 1) xs

    unfoldable pub ideal_from : Number → ℕ → List Number → Number
    ideal_from total rank [] = total
    ideal_from total rank (label ∷ labels) =
        ideal_from (add total (gain label rank)) (rank + 1) labels

    -- `ndcg_at_k` after the guard.
    unfoldable pub ndcg_value : Relevance Number → List String → ℕ → Number
    unfolding gained_at dcg_from ideal_from
    ndcg_value relevant retrieved k =
        let relevance = relevance_map relevant in
        let dcg = dcg_from relevance [] (of_int 0) 0 (take k retrieved) in
        let ideal_relevance = take k (sort_by (λ a b. lt b a) (values relevance)) in
        let idcg = ideal_from (of_int 0) 0 ideal_relevance in
        if length (relevant_set relevant) == 0
        then of_int 0
        else if eq idcg (of_int 0)
        then of_int 0
        else div dcg idcg

    unfoldable pub ndcg_at_k : Relevance Number → List String → ℕ → Result MetricError Number
    unfolding validate_k ndcg_value
    ndcg_at_k relevant retrieved k = do validate_k k; ok (ndcg_value relevant retrieved k)

  abbrev pub is_empty : Relevance Number → Bool
  is_empty (binary ids) = length ids == 0
  is_empty (graded labels) = length labels == 0

  abbrev pub listed : Relevance Number → List String
  listed (binary ids) = ids
  listed (graded labels) = keys labels

  -- `_classify_retrieval`
  unfoldable pub classify_retrieval :
      Relevance Number → List String → ℕ → Result MetricError FailureClassification
  classify_retrieval relevant retrieved k =
      if is_empty relevant
      then ok abstaining
      else (hit_rate_at_k relevant retrieved k >>= λ hit.
          if not (eq hit (of_int 0)) then ok passing else ok (missing_all (listed relevant)))
