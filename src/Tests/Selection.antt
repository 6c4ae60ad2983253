-- ===== src/Tests/Selection.antt =====
-- The theorems of Hallucination/Selection and Hallucination/Spans at small inputs.
use evalops_lab.Common.{
  ℕ, ◌≤◌, String, ◌≡◌, ◌↔◌, refl, true, false, List, [], ◌∷◌, ok, is_some, Dict, fractions,
  fractions_laws, fractions_order, arith,
}
use evalops_lab.Hallucination.Labels.{HallucinationLabel, grounded, hallucinated}
use evalops_lab.Hallucination.Thresholds.{
  ThresholdRow, ThresholdSelection, value_of, select_threshold_from_validation,
}
use evalops_lab.Hallucination.Selection.{IsSelected, select_threshold_total}
use evalops_lab.Hallucination.Spans.{character_iou, character_iou_lem}

abbrev scores : Dict String (ℕ × ℕ)
scores = ("a", (1, 9)) ∷ ("b", (9, 9)) ∷ []

abbrev truth : Dict String HallucinationLabel
truth = ("b", grounded) ∷ ("a", hallucinated) ∷ []

abbrev candidates : List (ℕ × ℕ)
candidates = (1, 1) ∷ (1, 0) ∷ (1, 19) ∷ []

f1_known : (r : ThresholdRow fractions) → is_some (value_of fractions "f1" r) ≡ true
unfolding value_of
f1_known r = refl

select_threshold_total_example :
    (s : ThresholdSelection fractions) × (select_threshold_from_validation fractions
        (λ t. t)
        scores
        truth
        "validation"
        candidates
        "f1"
        0
      ≡ ok s)
    × IsSelected fractions scores truth candidates "f1" s.threshold
select_threshold_total_example =
    select_threshold_total fractions fractions_laws fractions_order (λ t. t) scores truth
      "validation" candidates "f1" 0 refl refl refl refl f1_known

character_iou_lem_example :
    let iou = character_iou fractions (2, 6) (4, 9) in
    (iou ≡ (2, 6))
    × (iou ≡ character_iou fractions (4, 9) (2, 6))
    × (fractions.lt iou (fractions.of_int 0) ≡ false)
    × (fractions.lt (fractions.of_int 1) iou ≡ false)
    × ((fractions.lt (fractions.of_int 0) iou ≡ true) ↔ (1 ≤ 2))
character_iou_lem_example =
    character_iou_lem fractions fractions_laws (2, 6) (4, 9) 12 (omega arith) (omega arith)
      (omega arith) (omega arith)
