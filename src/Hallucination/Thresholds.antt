-- ===== src/Hallucination/Thresholds.antt =====
-- src/evalops/evaluators/hallucination/thresholds.py: the metrics of a detector at thresholds of its support score,
-- and the selection of a threshold from validation data. `casefold` is `str.casefold`.
use evalops_lab.Common.{
  ℕ, ◌+◌, String, Bool, not, ◌&&◌, ◌||◌, Option, none, some, List, [], ◌∷◌, Result, ok, raise,
  ◌>>=◌, ◌>>◌, raise_if, each, is_some, Dict, keys, lookup, any, length, map, keep, same_set,
  sort_by, max_of, min_of, distinct, ◌==◌, string_eq, nat_eq, Float, if◌then◌else◌,
}
use evalops_lab.Hallucination.Labels.{HallucinationLabel, hallucinated, label_eq}
use evalops_lab.Hallucination.Report.{ConfusionMatrix, MatrixMetrics, matrix_metrics}

-- The ValueErrors, the KeyError of a lookup, and the IndexError of an empty table.
pub data ThresholdError : Type 0 where
  id_mismatch no_threshold out_of_range test_split unknown_metric : ThresholdError
  key_error : ThresholdError

-- The body of the loop of `_threshold_metrics`.
unfoldable pub count_one : Bool → Bool → ConfusionMatrix → ConfusionMatrix
count_one actual predicted m =
    if actual && predicted
    then record m { tp = m.tp + 1 }
    else if not actual && not predicted
    then record m { tn = m.tn + 1 }
    else if not actual
    then record m { fp = m.fp + 1 }
    else record m { fn = m.fn + 1 }

module _ (fl : Float) where
  open fl use {Number, of_int, lt, eq}

  unfoldable pub count_scores :
      Dict String Number
      → Dict String HallucinationLabel
      → Number
      → ConfusionMatrix
      → Result ThresholdError ConfusionMatrix
  unfolding count_one
  count_scores [] truth threshold m = ok m
  count_scores ((id, score) ∷ scores) truth threshold m = elim (lookup id truth) [
    | none ↦ raise key_error
    | some label ↦
        count_scores scores truth threshold
          (count_one (label == hallucinated) (lt score threshold) m)
  ]

  -- `_threshold_metrics`
  unfoldable pub threshold_metrics :
      Dict String Number
      → Dict String HallucinationLabel
      → Number
      → Result ThresholdError (MatrixMetrics fl)
  unfolding count_scores matrix_metrics
  threshold_metrics scores truth threshold = do
    raise_if (not (same_set (keys scores) (keys truth))) id_mismatch
    m ← count_scores scores truth threshold (record { tp = 0; tn = 0; fp = 0; fn = 0 })
    ok (matrix_metrics fl m)

  -- A row of the table.
  pub record ThresholdRow : Type 0 where
    pub threshold : Number
    pub metrics : MatrixMetrics fl

  -- `not 0.0 <= threshold <= 1.0`
  abbrev pub is_outside : Number → Bool
  is_outside t = lt t (of_int 0) || lt (of_int 1) t

  abbrev pub table_row :
      Dict String Number
      → Dict String HallucinationLabel
      → Number
      → Result ThresholdError ThresholdRow
  table_row scores truth t =
      threshold_metrics scores truth t >>= λ m. ok (record { threshold = t; metrics = m })

  abbrev pub normalized : List Number → List Number
  normalized thresholds = sort_by lt (distinct fl thresholds)

  unfoldable pub analyze_thresholds :
      Dict String Number
      → Dict String HallucinationLabel
      → List Number
      → Result ThresholdError (List ThresholdRow)
  unfolding threshold_metrics
  analyze_thresholds scores truth thresholds = do
    raise_if (length thresholds == 0) no_threshold
    raise_if (any is_outside (normalized thresholds)) out_of_range
    each (table_row scores truth) (normalized thresholds)

  -- `row[selection_metric]`: a row has its threshold among its values.
  unfoldable pub value_of : String → ThresholdRow → Option Number
  value_of name row =
      if name == "threshold"
      then some row.threshold
      else if name == "precision"
      then some row.metrics.precision
      else if name == "recall"
      then some row.metrics.recall
      else if name == "f1"
      then some row.metrics.f1
      else if name == "accuracy"
      then some row.metrics.accuracy
      else if name == "specificity"
      then some row.metrics.specificity
      else if name == "balanced_accuracy"
      then some row.metrics.balanced_accuracy
      else if name == "false_positive_rate"
      then some row.metrics.false_positive_rate
      else if name == "false_negative_rate"
      then some row.metrics.false_negative_rate
      else none

  -- The value of a row by a metric that the first row has, as all rows have it.
  abbrev pub or_zero : Option Number → Number
  or_zero none = of_int 0
  or_zero (some x) = x

  pub record ThresholdSelection : Type 0 where
    pub threshold : Number
    pub threshold_source : String
    pub validation_split : String
    pub selection_metric : String
    pub random_seed : ℕ
    pub candidates : List Number

  abbrev pub values_by : String → List ThresholdRow → List Number
  values_by metric rows = map (λ row. or_zero (value_of metric row)) rows

  -- `min(... if row[metric] == best_value)`, of the rows in order.
  abbrev pub thresholds_at : String → Number → List ThresholdRow → List Number
  thresholds_at metric best rows =
      map (λ row. row.threshold) (keep (λ row. eq (or_zero (value_of metric row)) best) rows)

  abbrev pub least : List Number → Result ThresholdError Number
  least [] = raise no_threshold
  least (x ∷ xs) = ok (min_of fl x xs)

  abbrev pub best_of : String → List ThresholdRow → Result ThresholdError Number
  best_of metric [] = raise key_error
  best_of metric (row ∷ rows) =
      if is_some (value_of metric row)
      then ok (max_of fl (or_zero (value_of metric row)) (values_by metric rows))
      else raise unknown_metric

  unfoldable pub select_threshold_from_validation :
      (String → String)
      → Dict String Number
      → Dict String HallucinationLabel
      → String
      → List Number
      → String
      → ℕ
      → Result ThresholdError ThresholdSelection
  unfolding analyze_thresholds value_of
  select_threshold_from_validation casefold scores truth split candidates metric seed = do
    raise_if (casefold split == "test") test_split
    table ← analyze_thresholds scores truth candidates
    best ← best_of metric table
    threshold ← least (thresholds_at metric best table)
    ok (record {
      threshold = threshold;
      threshold_source = "validation-derived";
      validation_split = split;
      selection_metric = metric;
      random_seed = seed;
      candidates = map (λ row. row.threshold) table;
    })
