-- ===== src/Hallucination/Selection.antt =====
-- What `select_threshold_from_validation` of src/evalops/evaluators/hallucination/thresholds.py selects.
use evalops_lab.Common.{
  ℕ, String, ◌≡◌, inl, inr, refl, sym, ◌∙◌, Bool, true, false, not, ◌||◌, Bool-cases, List, [], ◌∷◌,
  is_some, ok, Dict, keys, any, length, map, subst, All, All-map, same_set, max_of, min_of,
  max_of-ge, In, max_of-In, min_of-In, min_of-le, OrderLaws, ◌==◌, string_eq, nat_eq, Float,
  FloatLaws,
}
use evalops_lab.Hallucination.Labels.{HallucinationLabel, label_eq}
use evalops_lab.Hallucination.Thresholds.{
  ThresholdRow, is_outside, normalized, analyze_thresholds, value_of, or_zero, ThresholdSelection,
  values_by, thresholds_at, least, select_threshold_from_validation,
}
use evalops_lab.Hallucination.Table.{Rows, analyze_thresholds-total}

module _ (fl : Float) where
  open fl use {Number, lt, eq}

  -- A chosen value has its row.
  In-thresholds_at :
      (metric : String) (best t : Number) (rows : List (ThresholdRow fl))
      → In t (thresholds_at fl metric best rows)
      → (row : ThresholdRow fl) × In row rows
        × (t ≡ row.threshold)
        × (eq (or_zero fl (value_of fl metric row)) best ≡ true)
  In-thresholds_at metric best t [] m = absurd m
  In-thresholds_at metric best t (row ∷ rows) m =
      elim (Bool-cases (eq (or_zero fl (value_of fl metric row)) best)) [
        | inl same ↦ elim (rw same at m) [
          | inl e ↦ (row, inl refl, e, same)
          | inr later ↦
              let (r, there, named, fits) = In-thresholds_at metric best t rows later in
              (r, inr there, named, fits)
        ]
        | inr other ↦
            let (r, there, named, fits) = In-thresholds_at metric best t rows (rw other at m) in
            (r, inr there, named, fits)
      ]

  thresholds_at-In :
      (metric : String) (best v : Number) (rows : List (ThresholdRow fl))
      → In v (values_by fl metric rows)
      → eq v best ≡ true
      → (t : Number) × (ts : List Number) × (thresholds_at fl metric best rows ≡ t ∷ ts)
  thresholds_at-In metric best v [] m e = absurd m
  thresholds_at-In metric best v (row ∷ rows) m e =
      elim (Bool-cases (eq (or_zero fl (value_of fl metric row)) best)) [
        | inl same ↦ (row.threshold, thresholds_at fl metric best rows, rw same refl)
        | inr other ↦ elim m [
          | inl here ↦ cc (sym other ∙ rw here at e)
          | inr later ↦ rw other (thresholds_at-In metric best v rows later e)
        ]
      ]

  All-values :
      (P : Number → Type 0) (metric : String) (rows : List (ThresholdRow fl))
      → All P (values_by fl metric rows)
      → All (λ r. P (or_zero fl (value_of fl metric r))) rows
  All-values P metric [] h = tt
  All-values P metric (row ∷ rows) h = (h.0, All-values P metric rows h.1)

  -- No row with the best value has a smaller threshold.
  abbrev pub is_not_before : String → Number → Number → ThresholdRow fl → Bool
  is_not_before metric best t r =
      not (eq (or_zero fl (value_of fl metric r)) best) || not (lt r.threshold t)

  All-thresholds_at :
      (metric : String) (best t : Number) (rows : List (ThresholdRow fl))
      → All (λ u. lt u t ≡ false) (thresholds_at fl metric best rows)
      → All (λ r. is_not_before metric best t r ≡ true) rows
  All-thresholds_at metric best t [] h = tt
  All-thresholds_at metric best t (row ∷ rows) h =
      elim (Bool-cases (eq (or_zero fl (value_of fl metric row)) best)) [
        | inl same ↦
            let (first, rest) = rw same at h in
            (rw (same, first) refl, All-thresholds_at metric best t rows rest)
        | inr other ↦ (rw other refl, All-thresholds_at metric best t rows (rw other at h))
      ]

  -- The selected threshold is that of a row with the greatest value, the first of these.
  pub record IsSelected (scores : Dict String Number) (truth : Dict String HallucinationLabel)
      (ts : List Number) (metric : String) (threshold : Number) : Type 0 where
    pub rows : List (ThresholdRow fl)
    pub table : analyze_thresholds fl scores truth ts ≡ ok rows
    pub fits : Rows fl scores truth (normalized fl ts) rows
    pub row : ThresholdRow fl
    pub there : In row rows
    pub named : threshold ≡ row.threshold
    pub best : Number
    pub is_best : eq (or_zero fl (value_of fl metric row)) best ≡ true
    pub greatest :
        All
          (λ r.
            lt (or_zero fl (value_of fl metric row)) (or_zero fl (value_of fl metric r)) ≡ false)
          rows
    pub first : All (λ r. is_not_before metric best threshold r ≡ true) rows

module _ (fl : Float) (laws : FloatLaws fl) (order : OrderLaws fl) where
  open fl use {Number, lt, eq}

  greatest-at :
      (v best : Number) (metric : String) (rows : List (ThresholdRow fl))
      → eq v best ≡ true
      → All (λ x. lt best x ≡ false) (values_by fl metric rows)
      → All (λ x. lt v x ≡ false) (values_by fl metric rows)
  greatest-at v best metric rows same above =
      All-map (λ x h. order.le_trans x best v h (order.eq_le v best same))
        (values_by fl metric rows) above

  least-at :
      (t : Number) (ts : List Number)
      → In (min_of fl t ts) (t ∷ ts) × All (λ u. lt u (min_of fl t ts) ≡ false) (t ∷ ts)
  least-at t ts = (min_of-In fl t ts, min_of-le fl laws order t ts)

  -- If the split is not the test split, the scores and the labels have the same identifiers, there
  -- are candidates, all between 0 and 1, and every row has the metric, then
  -- `select_threshold_from_validation` returns a threshold of the table that `analyze_thresholds`
  -- makes of the distinct candidates: the one of a row whose value no row exceeds, and none of the
  -- rows with that value has a lower threshold.
  pub select_threshold_total :
      (casefold : String → String) (scores : Dict String Number)
      (truth : Dict String HallucinationLabel) (split : String) (ts : List Number) (metric : String)
      (seed : ℕ)
      → (casefold split == "test") ≡ false
      → same_set (keys scores) (keys truth) ≡ true
      → (length ts == 0) ≡ false
      → any (is_outside fl) (normalized fl ts) ≡ false
      → ((r : ThresholdRow fl) → is_some (value_of fl metric r) ≡ true)
      → (s : ThresholdSelection fl) × (select_threshold_from_validation fl casefold scores truth
            split ts metric seed
          ≡ ok s)
        × IsSelected fl scores truth ts metric s.threshold
  unfolding select_threshold_from_validation
  select_threshold_total casefold scores truth split ts metric seed apart same some_ts inside
        known =
      let (row, rest, made, fits) =
        analyze_thresholds-total fl scores truth ts same some_ts inside in
      let rows = row ∷ rest in
      let v = or_zero fl (value_of fl metric row) in
      let best = max_of fl v (values_by fl metric rest) in
      let (t, others, chosen) =
        thresholds_at-In fl metric best best rows (max_of-In fl v (values_by fl metric rest))
          (laws.eq_refl best) in
      let (there, least) = least-at t others in
      let threshold = min_of fl t others in
      let (r, in_rows, named, is_best) =
        In-thresholds_at fl metric best threshold rows
          (subst (λ (us : List Number). In threshold us) (sym chosen) there) in
      (
        record {
          threshold = threshold;
          threshold_source = "validation-derived";
          validation_split = split;
          selection_metric = metric;
          random_seed = seed;
          candidates = map (λ x. x.threshold) rows;
        },
        rw (apart, made, known row, chosen) refl,
        record {
          rows = rows;
          table = made;
          fits = fits;
          row = r;
          there = in_rows;
          named = named;
          best = best;
          is_best = is_best;
          greatest =
              All-values fl (λ x. lt (or_zero fl (value_of fl metric r)) x ≡ false) metric rows
                (greatest-at (or_zero fl (value_of fl metric r)) best metric rows is_best
                  (max_of-ge fl laws order v (values_by fl metric rest)));
          first = All-thresholds_at fl metric best threshold rows (
              subst (λ (us : List Number). All (λ u. lt u threshold ≡ false) us) (sym chosen)
                least);
        },
      )
