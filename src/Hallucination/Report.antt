-- ===== src/Hallucination/Report.antt =====
-- src/evalops/evaluators/hallucination/metrics.py: the confusion matrix and its metrics.
use evalops_lab.Common.{
  ℕ, ◌+◌, String, Bool, not, ◌&&◌, Option, none, some, List, [], ◌∷◌, ◌++◌, Result, ok, raise,
  ◌>>=◌, ◌>>◌, raise_if, each, Dict, keys, lookup, keep, member, to_set, unique, same_set, sort_by,
  str_lt, map, ◌==◌, string_eq, nat_eq, Float, if◌then◌else◌,
}
use evalops_lab.Hallucination.Labels.{
  HallucinationLabel, hallucinated, HallucinationPrediction, label_eq,
}

pub record ConfusionMatrix : Type 0 where
  pub tp : ℕ
  pub tn : ℕ
  pub fp : ℕ
  pub fn : ℕ

-- The ValueErrors, and the KeyError of a lookup.
pub data ReportError : Type 0 where
  duplicate_prediction id_mismatch key_error : ReportError

-- The variables of the loop of `_build_report`.
pub record Tally : Type 0 where
  pub matrix : ConfusionMatrix
  pub false_positive_ids : List String
  pub false_negative_ids : List String

abbrev pub empty_tally : Tally
empty_tally = record {
  matrix = record { tp = 0; tn = 0; fp = 0; fn = 0 };
  false_positive_ids = [];
  false_negative_ids = [];
}

-- The body of the loop.
unfoldable pub tally_one : String → Bool → Bool → Tally → Tally
tally_one id actual predicted t =
    let m = t.matrix in
    if actual && predicted
    then record t { matrix = record m { tp = m.tp + 1 } }
    else if not actual && not predicted
    then record t { matrix = record m { tn = m.tn + 1 } }
    else if not actual && predicted
    then record t {
      matrix = record m { fp = m.fp + 1 };
      false_positive_ids = t.false_positive_ids ++ id ∷ [];
    }
    else record t {
      matrix = record m { fn = m.fn + 1 };
      false_negative_ids = t.false_negative_ids ++ id ∷ [];
    }

unfoldable pub tally_from :
    Dict String HallucinationLabel
    → Dict String HallucinationLabel
    → Tally
    → Result ReportError Tally
unfolding tally_one
tally_from [] predicted t = ok t
tally_from ((id, actual) ∷ truth) predicted t = elim (lookup id predicted) [
  | none ↦ raise key_error
  | some label ↦
      tally_from truth predicted (tally_one id (actual == hallucinated) (label == hallucinated) t)
]

abbrev pub labels_of : List HallucinationPrediction → Dict String HallucinationLabel
labels_of predictions = map (λ p. (p.example_id, p.label)) predictions

-- `_build_report`, without the metrics of the matrix.
unfoldable pub build_tally :
    Dict String HallucinationLabel → List HallucinationPrediction → Result ReportError Tally
unfolding tally_from
build_tally truth predictions = do
  raise_if (not (unique (keys (labels_of predictions)))) duplicate_prediction
  raise_if (not (same_set (keys (labels_of predictions)) (keys truth))) id_mismatch
  tally_from truth (labels_of predictions) empty_tally

-- `str(metadata[example_id].get(dimension, "unknown"))`, where the values are their texts.
abbrev pub slice_value :
    Dict String (Dict String String) → String → String → Result ReportError String
slice_value metadata dimension id = elim (lookup id metadata) [
  | none ↦ raise key_error
  | some fields ↦ ok (elim (lookup dimension fields) [ none ↦ "unknown" | some v ↦ v ])
]

-- The ids of the ground truth with their values.
unfoldable pub slice_values :
    Dict String (Dict String String)
    → String
    → List String
    → Result ReportError (Dict String String)
slice_values metadata dimension ids =
    each (λ id. slice_value metadata dimension id >>= λ v. ok (id, v)) ids

module _ (fl : Float) where
  open fl use {Number, of_int, ratio, eq, add, mul, div}

  -- `_safe_ratio` of two ints, and of two floats.
  unfoldable pub safe_ratio : ℕ → ℕ → Number
  safe_ratio m n = if n == 0 then of_int 0 else ratio m n

  unfoldable pub safe_quotient : Number → Number → Number
  safe_quotient x y = if eq y (of_int 0) then of_int 0 else div x y

  pub record MatrixMetrics : Type 0 where
    pub precision : Number
    pub recall : Number
    pub f1 : Number
    pub accuracy : Number
    pub specificity : Number
    pub balanced_accuracy : Number
    pub false_positive_rate : Number
    pub false_negative_rate : Number

  -- `_metrics`
  unfoldable pub matrix_metrics : ConfusionMatrix → MatrixMetrics
  unfolding safe_ratio safe_quotient
  matrix_metrics m =
      let precision = safe_ratio m.tp (m.tp + m.fp) in
      let recall = safe_ratio m.tp (m.tp + m.fn) in
      let specificity = safe_ratio m.tn (m.tn + m.fp) in
      record {
        precision = precision;
        recall = recall;
        f1 = safe_quotient (mul (mul (of_int 2) precision) recall) (add precision recall);
        accuracy = safe_ratio (m.tp + m.tn) (m.tp + m.tn + m.fp + m.fn);
        specificity = specificity;
        balanced_accuracy = div (add recall specificity) (of_int 2);
        false_positive_rate = safe_ratio m.fp (m.fp + m.tn);
        false_negative_rate = safe_ratio m.fn (m.fn + m.tp);
      }

  pub record HallucinationMetricsReport : Type 0 where
    pub confusion_matrix : ConfusionMatrix
    pub metrics : MatrixMetrics
    pub false_positive_ids : List String
    pub false_negative_ids : List String
    pub slices : Dict String (Dict String MatrixMetrics)

  -- The body of the loop over the values of a dimension.
  unfoldable pub slice_metrics :
      Dict String HallucinationLabel
      → List HallucinationPrediction
      → Dict String String
      → String
      → Result ReportError (String × MatrixMetrics)
  unfolding build_tally matrix_metrics
  slice_metrics truth predictions values value =
      let ids = keys (keep (λ (_, v). v == value) values) in
      let sub_truth = keep (λ (id, _). member id ids) truth in
      let sub_predictions = keep (λ p. member p.example_id ids) predictions in
      build_tally sub_truth sub_predictions >>= λ t. ok (value, matrix_metrics t.matrix)

  unfoldable pub dimension_slices :
      Dict String HallucinationLabel
      → List HallucinationPrediction
      → Dict String (Dict String String)
      → String
      → Result ReportError (String × Dict String MatrixMetrics)
  unfolding slice_metrics slice_values
  dimension_slices truth predictions metadata dimension = do
    values ← slice_values metadata dimension (keys truth)
    let names = sort_by str_lt (to_set (map (λ (_, v). v) values))
    slices ← each (slice_metrics truth predictions values) names
    ok (dimension, slices)

  unfoldable pub evaluate_hallucination_predictions :
      Dict String HallucinationLabel
      → List HallucinationPrediction
      → Option (Dict String (Dict String String))
      → Result ReportError HallucinationMetricsReport
  unfolding build_tally matrix_metrics dimension_slices
  evaluate_hallucination_predictions truth predictions metadata = do
    t ← build_tally truth predictions
    slices ← elim metadata [
      | none ↦ ok []
      | some fields ↦ each (dimension_slices truth predictions fields) ("task_type" ∷ "model" ∷ [])
    ]
    ok (record {
      confusion_matrix = t.matrix;
      metrics = matrix_metrics t.matrix;
      false_positive_ids = t.false_positive_ids;
      false_negative_ids = t.false_negative_ids;
      slices = slices;
    })
