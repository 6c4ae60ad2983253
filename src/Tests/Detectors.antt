-- ===== src/Tests/Detectors.antt =====
-- The theorems of Hallucination on three examples.
use evalops_lab.Common.{
  String, ◌⊎◌, ◌≤◌, ◌<◌, raise, ◌≡◌, refl, [], ◌∷◌, ok, Dict, fractions, fractions_laws,
}
use evalops_lab.Retrieval.Bounds.{IsUnit}
use evalops_lab.Hallucination.Labels.{
  HallucinationLabel, grounded, hallucinated, HallucinationPrediction,
}
use evalops_lab.Hallucination.Report.{ConfusionMatrix, Tally, build_tally, matrix_metrics}
use evalops_lab.Hallucination.Partition.{IsTally, build_tally_total, matrix_metrics-IsUnit}
use evalops_lab.Hallucination.Paired.{
  PairedComparisonReport, overflow_error, compare_hallucination_predictions,
}
use evalops_lab.Hallucination.Agreement.{
  IsPaired, disagreements, compare_hallucination_predictions_total,
}

abbrev labels : Dict String HallucinationLabel
labels = ("a", hallucinated) ∷ ("b", grounded) ∷ ("c", hallucinated) ∷ []

abbrev says : String → HallucinationLabel → HallucinationPrediction
says id label = record { example_id = id; label = label }

build_tally_total_example :
    (t : Tally) × (build_tally labels
        (says "c" grounded ∷ says "b" hallucinated ∷ says "a" hallucinated ∷ [])
      ≡ ok t)
    × IsTally 3 t
build_tally_total_example =
    build_tally_total labels
      (says "c" grounded ∷ says "b" hallucinated ∷ says "a" hallucinated ∷ []) refl refl

abbrev matrix : ConfusionMatrix
matrix = record { tp = 1; tn = 0; fp = 1; fn = 1 }

matrix_metrics-IsUnit_example :
    IsUnit fractions fractions_laws (matrix_metrics fractions matrix).precision
    × IsUnit fractions fractions_laws (matrix_metrics fractions matrix).recall
    × IsUnit fractions fractions_laws (matrix_metrics fractions matrix).accuracy
    × IsUnit fractions fractions_laws (matrix_metrics fractions matrix).specificity
    × IsUnit fractions fractions_laws (matrix_metrics fractions matrix).false_positive_rate
    × IsUnit fractions fractions_laws (matrix_metrics fractions matrix).false_negative_rate
matrix_metrics-IsUnit_example = matrix_metrics-IsUnit fractions fractions_laws matrix

abbrev first_detector : Dict String HallucinationPrediction
first_detector =
    ("a", says "a" hallucinated) ∷ ("b", says "b" hallucinated) ∷ ("c", says "c" grounded) ∷ []

abbrev second_detector : Dict String HallucinationPrediction
second_detector =
    ("a", says "a" grounded) ∷ ("b", says "b" grounded) ∷ ("c", says "c" grounded) ∷ []

compare_hallucination_predictions_total_example :
    ((disagreements first_detector second_detector labels ≤ 1023)
      × ((r : PairedComparisonReport fractions) × (compare_hallucination_predictions fractions
              labels first_detector second_detector
            ≡ ok r)
          × IsPaired fractions 3 r))
    ⊎ ((1023 < disagreements first_detector second_detector labels)
        × (compare_hallucination_predictions fractions labels first_detector second_detector
            ≡ raise overflow_error))
compare_hallucination_predictions_total_example =
    compare_hallucination_predictions_total fractions labels first_detector second_detector refl
      refl
