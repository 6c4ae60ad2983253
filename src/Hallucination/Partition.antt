-- ===== src/Hallucination/Partition.antt =====
-- The counts of src/evalops/evaluators/hallucination/metrics.py.
use evalops_lab.Common.{
  ℕ, ◌+◌, ◌≤◌, String, ◌≡◌, refl, ◌∙◌, Bool, true, List, [], ◌∷◌, ok, length, length-append,
  Option-cases, inl, inr, All, All-map, All-member_self, subset-member, member-keys, Dict, keys,
  lookup, member, unique, same_set, ◌==◌, string_eq, arith, Bool-cases, nat_eq, Float, FloatLaws,
}
use evalops_lab.Retrieval.Bounds.{IsUnit}
use evalops_lab.Hallucination.Labels.{
  HallucinationLabel, hallucinated, HallucinationPrediction, label_eq,
}
use evalops_lab.Hallucination.Report.{
  ConfusionMatrix, Tally, empty_tally, tally_one, tally_from, labels_of, build_tally,
  matrix_metrics, safe_ratio,
}

abbrev pub total : ConfusionMatrix → ℕ
total m = m.tp + m.tn + m.fp + m.fn

-- The counts of `n` examples, with the lists of the wrong ones.
pub record IsTally (n : ℕ) (t : Tally) : Type 0 where
  pub counts : total t.matrix ≡ n
  pub positives : length t.false_positive_ids ≡ t.matrix.fp
  pub negatives : length t.false_negative_ids ≡ t.matrix.fn

tally_one-IsTally :
    (id : String) (actual predicted : Bool) (n : ℕ) (t : Tally)
    → IsTally n t
    → IsTally (n + 1) (tally_one id actual predicted t)
unfolding tally_one
tally_one-IsTally id actual predicted n t i = ground (
  arith,
  length-append t.false_positive_ids (id ∷ []),
  length-append t.false_negative_ids (id ∷ []),
)

tally_from-IsTally :
    (truth predicted : Dict String HallucinationLabel) (n : ℕ) (t : Tally)
    → IsTally n t
    → All (λ id. member id (keys predicted) ≡ true) (keys truth)
    → (r : Tally) × (tally_from truth predicted t ≡ ok r) × IsTally (n + length truth) r
unfolding tally_from
tally_from-IsTally [] predicted n t i h = (
  t,
  refl,
  record { counts = i.counts ∙ omega arith; positives = i.positives; negatives = i.negatives },
)
tally_from-IsTally ((id, actual) ∷ truth) predicted n t i h =
    elim (Option-cases (lookup id predicted)) [
      | inl e ↦ absurd (ground (arith, member-keys id predicted, h.0))
      | inr (label, e) ↦
          let next = tally_one id (actual == hallucinated) (label == hallucinated) t in
          let (r, done, c) =
            tally_from-IsTally truth predicted (n + 1) next
              (tally_one-IsTally id (actual == hallucinated) (label == hallucinated) n t i) h.1 in
          (
            r,
            rw (e, tally_from) done,
            record {
              counts = c.counts ∙ omega arith;
              positives = c.positives;
              negatives = c.negatives;
            },
          )
    ]

-- If no example is predicted twice and the predictions are for the examples of the ground truth,
-- then the counts are returned. Each example is in exactly one of the four counts, so that they add
-- up to the number of examples, and the lists of wrong examples are as long as their counts.
pub build_tally_total :
    (truth : Dict String HallucinationLabel) (predictions : List HallucinationPrediction)
    → unique (keys (labels_of predictions)) ≡ true
    → same_set (keys (labels_of predictions)) (keys truth) ≡ true
    → (t : Tally) × (build_tally truth predictions ≡ ok t) × IsTally (length truth) t
unfolding build_tally
build_tally_total truth predictions u s =
    let predicted = labels_of predictions in
    let known =
      All-map (λ id h. subset-member id (keys truth) (keys predicted) (ground arith) h) (keys truth)
        (All-member_self (keys truth)) in
    let (t, done, i) =
      tally_from-IsTally truth predicted 0 empty_tally
        (record { counts = refl; positives = refl; negatives = refl }) known in
    (
      t,
      rw (u, s) done,
      record { counts = i.counts ∙ omega arith; positives = i.positives; negatives = i.negatives },
    )

module _ (fl : Float) (laws : FloatLaws fl) where
  safe_ratio-IsUnit : (m n : ℕ) → m ≤ n → IsUnit fl laws (safe_ratio fl m n)
  unfolding safe_ratio
  safe_ratio-IsUnit m n h = elim (Bool-cases (n == 0)) [
    | inl e ↦ rw e (record { nonneg = laws.lt_irrefl (fl.of_int 0); le_one = laws.zero_le_one })
    | inr e ↦
        rw e (record {
          nonneg = laws.ratio_nonneg m n;
          le_one = laws.ratio_le_one m n h (ground arith);
        })
  ]

  -- For every confusion matrix, also with empty classes, precision, recall, accuracy, specificity
  -- and both error rates are between 0 and 1.
  pub matrix_metrics-IsUnit :
      (m : ConfusionMatrix)
      → let r = matrix_metrics fl m in
        IsUnit fl laws r.precision
        × IsUnit fl laws r.recall
        × IsUnit fl laws r.accuracy
        × IsUnit fl laws r.specificity
        × IsUnit fl laws r.false_positive_rate
        × IsUnit fl laws r.false_negative_rate
  unfolding matrix_metrics
  matrix_metrics-IsUnit m = (
    safe_ratio-IsUnit m.tp (m.tp + m.fp) (omega arith),
    safe_ratio-IsUnit m.tp (m.tp + m.fn) (omega arith),
    safe_ratio-IsUnit (m.tp + m.tn) (m.tp + m.tn + m.fp + m.fn) (omega arith),
    safe_ratio-IsUnit m.tn (m.tn + m.fp) (omega arith),
    safe_ratio-IsUnit m.fp (m.fp + m.tn) (omega arith),
    safe_ratio-IsUnit m.fn (m.fn + m.tp) (omega arith),
  )
