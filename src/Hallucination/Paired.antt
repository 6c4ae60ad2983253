-- ===== src/Hallucination/Paired.antt =====
-- src/evalops/evaluators/hallucination/comparison.py: two detectors on the same examples, and the
-- exact test of McNemar.
use evalops_lab.Common.{
  ℕ, zero, suc, ◌+◌, ◌-◌, ◌^◌, String, Bool, not, ◌&&◌, none, some, List, [], ◌∷◌, Result, ok,
  raise, ◌>>=◌, ◌>>◌, raise_if, each, Dict, keys, lookup, keep, length, same_set, map, ltb, ◌==◌,
  string_eq, nat_eq, Float, if◌then◌else◌,
}
use evalops_lab.Hallucination.Labels.{
  HallucinationLabel, grounded, hallucinated, HallucinationPrediction, label_eq,
}

-- The ValueErrors, the KeyError of a lookup, and the OverflowError of a division.
pub data PairedError : Type 0 where
  unequal_lengths different_ids key_error overflow_error : PairedError

-- The variables of one turn of the loop of `compare_hallucination_predictions`.
pub record PairedRow : Type 0 where
  pub id : String
  pub actual : HallucinationLabel
  pub heuristic : HallucinationLabel
  pub candidate : HallucinationLabel

unfoldable pub paired_row :
    Dict String HallucinationPrediction
    → Dict String HallucinationPrediction
    → String × HallucinationLabel
    → Result PairedError PairedRow
paired_row heuristic candidate (id, actual) = elim (lookup id heuristic) [
  | none ↦ raise key_error
  | some h ↦ elim (lookup id candidate) [
    | none ↦ raise key_error
    | some c ↦ ok (record { id = id; actual = actual; heuristic = h.label; candidate = c.label })
  ]
]

abbrev pub heuristic_correct : PairedRow → Bool
heuristic_correct r = r.actual == r.heuristic

abbrev pub candidate_correct : PairedRow → Bool
candidate_correct r = r.actual == r.candidate

abbrev is_miss : HallucinationLabel → HallucinationLabel → Bool
is_miss actual predicted = actual == hallucinated && predicted == grounded

abbrev is_alarm : HallucinationLabel → HallucinationLabel → Bool
is_alarm actual predicted = actual == grounded && predicted == hallucinated

-- The ids that a list of the report collects.
abbrev pub ids_where : (PairedRow → Bool) → List PairedRow → List String
ids_where p rows = map (λ (r : PairedRow). r.id) (keep p rows)

-- The conditions of the four categories.
abbrev pub both_correct : PairedRow → Bool
both_correct r = heuristic_correct r && candidate_correct r

abbrev pub only_heuristic : PairedRow → Bool
only_heuristic r = heuristic_correct r && not (candidate_correct r)

abbrev pub only_candidate : PairedRow → Bool
only_candidate r = not (heuristic_correct r) && candidate_correct r

abbrev pub both_wrong : PairedRow → Bool
both_wrong r = not (heuristic_correct r) && not (candidate_correct r)

-- `math.comb`
abbrev pub choose : ℕ → ℕ → ℕ
choose n zero = 1
choose zero (suc k) = 0
choose (suc n) (suc k) = choose n k + choose n (suc k)

abbrev pub tail_of : ℕ → ℕ → ℕ
tail_of n zero = 0
tail_of n (suc k) = tail_of n k + choose n k

-- `(abs(b - c) - 1) ** 2`, which is 1 if the two are equal.
unfoldable pub squared_difference : ℕ → ℕ → ℕ
squared_difference b c = if b == c then 1 else if ltb b c then (c - b - 1) ^ 2 else (b - c - 1) ^ 2

-- `2 ** discordant` is made a float by the division, which raises from `2 ** 1024` on.
abbrev pub last_exponent : ℕ
last_exponent = 1023

module _ (fl : Float) where
  open fl use {Number, of_int, ratio, lt, mul, div}

  pub record McNemarResult : Type 0 where
    pub heuristic_correct_candidate_wrong : ℕ
    pub heuristic_wrong_candidate_correct : ℕ
    pub statistic : Number
    pub p_value : Number

  unfoldable pub mcnemar_of : ℕ → ℕ → McNemarResult
  unfolding squared_difference
  mcnemar_of b c =
      let discordant = b + c in
      let smaller = if ltb c b then c else b in
      let tail = tail_of discordant (smaller + 1) in
      let p = div (mul (of_int 2) (of_int tail)) (of_int (2 ^ discordant)) in
      record {
        heuristic_correct_candidate_wrong = b;
        heuristic_wrong_candidate_correct = c;
        statistic = if discordant == 0 then of_int 0 else ratio (squared_difference b c) discordant;
        p_value = if discordant == 0 then of_int 1 else if lt p (of_int 1) then p else of_int 1;
      }

  -- The pairs of `zip`, counted.
  abbrev pub discordant_pairs : (Bool → Bool → Bool) → List Bool → List Bool → ℕ
  discordant_pairs p (x ∷ xs) (y ∷ ys) =
      if p x y then suc (discordant_pairs p xs ys) else discordant_pairs p xs ys
  discordant_pairs p _ _ = 0

  unfoldable pub exact_mcnemar : List Bool → List Bool → Result PairedError McNemarResult
  unfolding mcnemar_of
  exact_mcnemar heuristic candidate = do
    raise_if (not (length heuristic == length candidate)) unequal_lengths
    let b = discordant_pairs (λ h c. h && not c) heuristic candidate
    let c = discordant_pairs (λ h c. not h && c) heuristic candidate
    raise_if (ltb last_exponent (b + c)) overflow_error
    ok (mcnemar_of b c)

  pub record PairedComparisonReport : Type 0 where
    pub example_count : ℕ
    pub categories : Dict String (List String)
    pub heuristic_fn_hhem_correct : List String
    pub heuristic_fp_hhem_correct : List String
    pub heuristic_correct_hhem_fn : List String
    pub heuristic_correct_hhem_fp : List String
    pub hhem_false_positive_ids : List String
    pub hhem_false_negative_ids : List String
    pub mcnemar : McNemarResult

  -- The report on the rows of all examples.
  unfoldable pub paired_report : List PairedRow → McNemarResult → PairedComparisonReport
  paired_report rows mcnemar = record {
    example_count = length rows;
    categories =
        ("BOTH_CORRECT", ids_where both_correct rows)
        ∷ ("HEURISTIC_ONLY_CORRECT", ids_where only_heuristic rows)
        ∷ ("HHEM_ONLY_CORRECT", ids_where only_candidate rows)
        ∷ ("BOTH_WRONG", ids_where both_wrong rows)
        ∷ [];
    heuristic_fn_hhem_correct =
        ids_where (λ r. is_miss r.actual r.heuristic && candidate_correct r) rows;
    heuristic_fp_hhem_correct =
        ids_where (λ r. is_alarm r.actual r.heuristic && candidate_correct r) rows;
    heuristic_correct_hhem_fn =
        ids_where (λ r. heuristic_correct r && is_miss r.actual r.candidate) rows;
    heuristic_correct_hhem_fp =
        ids_where (λ r. heuristic_correct r && is_alarm r.actual r.candidate) rows;
    hhem_false_positive_ids = ids_where (λ r. is_alarm r.actual r.candidate) rows;
    hhem_false_negative_ids = ids_where (λ r. is_miss r.actual r.candidate) rows;
    mcnemar = mcnemar;
  }

  unfoldable pub compare_hallucination_predictions :
      Dict String HallucinationLabel
      → Dict String HallucinationPrediction
      → Dict String HallucinationPrediction
      → Result PairedError PairedComparisonReport
  unfolding paired_row exact_mcnemar paired_report
  compare_hallucination_predictions truth heuristic candidate = do
    raise_if (not (same_set (keys heuristic) (keys truth))) different_ids
    raise_if (not (same_set (keys candidate) (keys truth))) different_ids
    rows ← each (paired_row heuristic candidate) truth
    mcnemar ← exact_mcnemar (map heuristic_correct rows) (map candidate_correct rows)
    ok (paired_report rows mcnemar)
