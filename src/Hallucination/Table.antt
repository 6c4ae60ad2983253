-- ===== src/Hallucination/Table.antt =====
-- The table of `analyze_thresholds` of src/evalops/evaluators/hallucination/thresholds.py.
use evalops_lab.Common.{
  ◌≤◌, String, ◌≡◌, inl, inr, refl, Bool, true, false, List, [], ◌∷◌, Option-cases, member-keys, ok,
  each, Dict, keys, lookup, any, all, length, same_set, member, distinct, length-sort_by, ◌==◌,
  string_eq, nat_eq, Float, arith,
}
use evalops_lab.Hallucination.Labels.{HallucinationLabel, hallucinated, label_eq}
use evalops_lab.Hallucination.Report.{ConfusionMatrix, MatrixMetrics, matrix_metrics}
use evalops_lab.Hallucination.Thresholds.{
  count_one, count_scores, threshold_metrics, ThresholdRow, is_outside, table_row, normalized,
  analyze_thresholds,
}

abbrev no_counts : ConfusionMatrix
no_counts = record { tp = 0; tn = 0; fp = 0; fn = 0 }

module _ (fl : Float) where
  open fl use {Number, of_int, lt, eq}

  count_scores-total :
      (scores : Dict String Number) (truth : Dict String HallucinationLabel) (t : Number)
      (m : ConfusionMatrix)
      → all (λ k. member k (keys truth)) (keys scores) ≡ true
      → (r : ConfusionMatrix) × (count_scores fl scores truth t m ≡ ok r)
  unfolding count_scores
  count_scores-total [] truth t m h = (m, refl)
  count_scores-total ((id, score) ∷ scores) truth t m h = elim (Option-cases (lookup id truth)) [
    | inl gone ↦ absurd (ground (arith, h, gone, member-keys id truth))
    | inr (label, found) ↦
        rw (found, count_scores)
          (count_scores-total scores truth t (count_one (label == hallucinated) (lt score t) m)
            (ground (arith, h)))
  ]

  -- The rows of a table.
  abbrev pub Rows :
      Dict String Number
      → Dict String HallucinationLabel
      → List Number
      → List (ThresholdRow fl)
      → Type 0
  Rows scores truth [] [] = Unit
  Rows scores truth (t ∷ ts) (row ∷ rows) =
      ((row.threshold ≡ t) × (threshold_metrics fl scores truth t ≡ ok row.metrics))
      × Rows scores truth ts rows
  Rows scores truth _ _ = ⊥

  threshold_metrics-total :
      (scores : Dict String Number) (truth : Dict String HallucinationLabel) (t : Number)
      → same_set (keys scores) (keys truth) ≡ true
      → (m : MatrixMetrics fl) × (threshold_metrics fl scores truth t ≡ ok m)
  unfolding threshold_metrics
  threshold_metrics-total scores truth t same =
      let within : all (λ k. member k (keys truth)) (keys scores) ≡ true = ground (arith, same) in
      let (m, counts) = count_scores-total scores truth t no_counts within in
      (matrix_metrics fl m, rw (same, counts) refl)

  each-Rows :
      (scores : Dict String Number) (truth : Dict String HallucinationLabel) (ts : List Number)
      → same_set (keys scores) (keys truth) ≡ true
      → (rows : List (ThresholdRow fl)) × (each (table_row fl scores truth) ts ≡ ok rows)
        × Rows scores truth ts rows
  each-Rows scores truth [] same = ([], refl, tt)
  each-Rows scores truth (t ∷ ts) same =
      let (m, one) = threshold_metrics-total scores truth t same in
      let (rows, more, fits) = each-Rows scores truth ts same in
      (record { threshold = t; metrics = m } ∷ rows, rw (one, more) refl, ((refl, one), fits))

  distinct-pos : (xs : List Number) → (length xs == 0) ≡ false → 1 ≤ length (distinct fl xs)
  distinct-pos [] h = cc h
  distinct-pos (x ∷ []) h = omega arith
  distinct-pos (x ∷ y ∷ ys) h = ground (arith, distinct-pos (y ∷ ys))

  All-distinct :
      (p : Number → Bool) (xs : List Number) → any p xs ≡ false → any p (distinct fl xs) ≡ false
  All-distinct p [] h = h
  All-distinct p (x ∷ xs) h = ground (arith, h, All-distinct p xs)

  -- The table of distinct candidates in order.
  pub analyze_thresholds-total :
      (scores : Dict String Number) (truth : Dict String HallucinationLabel) (ts : List Number)
      → same_set (keys scores) (keys truth) ≡ true
      → (length ts == 0) ≡ false
      → any (is_outside fl) (normalized fl ts) ≡ false
      → (row : ThresholdRow fl) × (rows : List (ThresholdRow fl)) × (analyze_thresholds fl scores
            truth ts
          ≡ ok (row ∷ rows))
        × Rows scores truth (normalized fl ts) (row ∷ rows)
  unfolding analyze_thresholds
  analyze_thresholds-total scores truth ts same some_ts inside =
      let (rows, made, fits) = each-Rows scores truth (normalized fl ts) same in
      let long : 1 ≤ length (normalized fl ts) =
        omega (arith, length-sort_by lt (distinct fl ts), distinct-pos ts some_ts) in
      let (row, rest, split) = nonempty (normalized fl ts) rows fits long in
      (row, rest, rw (some_ts, inside, made, split) refl, rw split at fits)
    where
      nonempty :
          (us : List Number) (rows : List (ThresholdRow fl))
          → Rows scores truth us rows
          → 1 ≤ length us
          → (row : ThresholdRow fl) × (rest : List (ThresholdRow fl)) × (rows ≡ row ∷ rest)
      nonempty [] rows f h = absurd (omega arith)
      nonempty (u ∷ us) [] f h = absurd f
      nonempty (u ∷ us) (row ∷ rest) f h = (row, rest, refl)
