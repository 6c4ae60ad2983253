-- ===== src/Hallucination/Agreement.antt =====
-- The report of src/evalops/evaluators/hallucination/comparison.py: its categories and its counts.
use evalops_lab.Common.{
  ◌≤◌, ◌<◌, ◌⊎◌, none, raise, ltb, false, if◌then◌else◌, bool_beq, ℕ, suc, ◌+◌, String, ◌≡◌, refl,
  ap, sym, ◌∙◌, Bool, true, not, ◌&&◌, some, List, [], ◌∷◌, ok, each, length, length-keep, count,
  keep, All, All-map, All-member_self, subset-member, member-keys, Option-cases, inl, inr, Dict,
  keys, lookup, member, same_set, map, ◌==◌, string_eq, nat_eq, arith, Float, Bool-cases,
}
use evalops_lab.Hallucination.Labels.{HallucinationLabel, HallucinationPrediction, label_eq}
use evalops_lab.Hallucination.Paired.{
  PairedRow, paired_row, heuristic_correct, candidate_correct, ids_where, both_correct,
  only_heuristic, only_candidate, both_wrong, mcnemar_of, discordant_pairs, exact_mcnemar,
  last_exponent, overflow_error, PairedComparisonReport, paired_report,
  compare_hallucination_predictions,
}

length-map : {A B : Type 0} (f : A → B) (xs : List A) → length (map f xs) ≡ length xs
length-map f [] = refl
length-map f (x ∷ xs) = ap suc (length-map f xs)

length-ids_where :
    (p : PairedRow → Bool) (rows : List PairedRow) → length (ids_where p rows) ≡ count p rows
length-ids_where p rows = length-map (λ (r : PairedRow). r.id) (keep p rows) ∙ length-keep p rows

four_categories :
    (rows : List PairedRow)
    → count both_correct rows
        + count only_heuristic rows
        + count only_candidate rows
        + count both_wrong rows
      ≡ length rows
four_categories [] = refl
four_categories (r ∷ rows) =
    let one = four_categories rows in
    elim (Bool-cases (heuristic_correct r)) [
      | inl h ↦ elim (Bool-cases (candidate_correct r)) [
        | inl c ↦ rw (h, c) (omega (arith, one))
        | inr c ↦ rw (h, c) (omega (arith, one))
      ]
      | inr h ↦ elim (Bool-cases (candidate_correct r)) [
        | inl c ↦ rw (h, c) (omega (arith, one))
        | inr c ↦ rw (h, c) (omega (arith, one))
      ]
    ]

row_of :
    (id : String) (d : Dict String HallucinationPrediction)
    → member id (keys d) ≡ true
    → (p : HallucinationPrediction) × (lookup id d ≡ some p)
row_of id d h = elim (Option-cases (lookup id d)) [
  | inl e ↦ absurd (ground (arith, member-keys id d))
  | inr (p, e) ↦ (p, e)
]

-- Whether a detector gives an example its label.
abbrev pub right_by : Dict String HallucinationPrediction → String → HallucinationLabel → Bool
right_by d id actual = elim (lookup id d) [ none ↦ false | some p ↦ actual == p.label ]

-- The examples on which exactly one of the detectors is right.
abbrev pub disagreements :
    Dict String HallucinationPrediction
    → Dict String HallucinationPrediction
    → Dict String HallucinationLabel
    → ℕ
disagreements heuristic candidate [] = 0
disagreements heuristic candidate ((id, actual) ∷ truth) =
    if bool_beq (right_by heuristic id actual) (right_by candidate id actual)
    then disagreements heuristic candidate truth
    else suc (disagreements heuristic candidate truth)

one_right :
    (r : PairedRow) (rows : List PairedRow) (n : ℕ)
    → count only_heuristic rows + count only_candidate rows ≡ n
    → count only_heuristic (r ∷ rows) + count only_candidate (r ∷ rows)
      ≡ (if bool_beq (heuristic_correct r) (candidate_correct r) then n else suc n)
one_right r rows n e = elim (Bool-cases (heuristic_correct r)) [
  | inl h ↦ elim (Bool-cases (candidate_correct r)) [
    | inl c ↦ rw (h, c) (omega (arith, e))
    | inr c ↦ rw (h, c) (omega (arith, e))
  ]
  | inr h ↦ elim (Bool-cases (candidate_correct r)) [
    | inl c ↦ rw (h, c) (omega (arith, e))
    | inr c ↦ rw (h, c) (omega (arith, e))
  ]
]

rows_total :
    (heuristic candidate : Dict String HallucinationPrediction)
    (truth : Dict String HallucinationLabel)
    → All
        (λ id. (member id (keys heuristic) ≡ true) × (member id (keys candidate) ≡ true))
        (keys truth)
    → (rows : List PairedRow) × (each (paired_row heuristic candidate) truth ≡ ok rows)
      × (length rows ≡ length truth)
      × (count only_heuristic rows + count only_candidate rows
          ≡ disagreements heuristic candidate truth)
unfolding paired_row row_of
rows_total heuristic candidate [] h = ([], refl, refl, refl)
rows_total heuristic candidate ((id, actual) ∷ truth) h =
    let (p, ep) = row_of id heuristic h.0.0 in
    let (q, eq) = row_of id candidate h.0.1 in
    let (rows, more, same, apart) = rows_total heuristic candidate truth h.1 in
    let row : PairedRow = record {
      id = id;
      actual = actual;
      heuristic = p.label;
      candidate = q.label;
    } in
    let one : paired_row heuristic candidate (id, actual) ≡ ok row =
      rw (ep, paired_row) (rw eq refl) in
    let n = disagreements heuristic candidate truth in
    let first : right_by heuristic id actual ≡ heuristic_correct row = rw (ep, right_by) refl in
    let second : right_by candidate id actual ≡ candidate_correct row = rw (eq, right_by) refl in
    let counted =
      one_right row rows n apart
      ∙ ap (λ (x : Bool). if bool_beq x (candidate_correct row) then n else suc n) (sym first)
      ∙ ap (λ (y : Bool). if bool_beq (right_by heuristic id actual) y then n else suc n)
          (sym second) in
    (row ∷ rows, rw one (rw more refl), ap suc same, counted)

module _ (fl : Float) where
  pairs-count :
      (p : Bool → Bool → Bool) (rows : List PairedRow)
      → discordant_pairs fl p (map heuristic_correct rows) (map candidate_correct rows)
        ≡ count (λ r. p (heuristic_correct r) (candidate_correct r)) rows
  pairs-count p [] = refl
  pairs-count p (r ∷ rows) = elim (Bool-cases (p (heuristic_correct r) (candidate_correct r))) [
    | inl e ↦ rw e (ap suc (pairs-count p rows))
    | inr e ↦ rw e (pairs-count p rows)
  ]

  abbrev lengths : Dict String (List String) → ℕ
  lengths [] = 0
  lengths ((_, ids) ∷ d) = length ids + lengths d

  -- The categories hold every example once, and the counts of the test are the sizes of the two
  -- categories in which one detector is right.
  pub record IsPaired (examples : ℕ) (r : PairedComparisonReport fl) : Type 0 where
    pub heuristic_only : List String
    pub hhem_only : List String
    pub covers : lengths r.categories ≡ examples
    pub counted : r.example_count ≡ examples
    pub finds_heuristic : lookup "HEURISTIC_ONLY_CORRECT" r.categories ≡ some heuristic_only
    pub finds_hhem : lookup "HHEM_ONLY_CORRECT" r.categories ≡ some hhem_only
    pub b_lem : r.mcnemar.heuristic_correct_candidate_wrong ≡ length heuristic_only
    pub c_lem : r.mcnemar.heuristic_wrong_candidate_correct ≡ length hhem_only

  report-IsPaired :
      (rows : List PairedRow)
      → let b =
          discordant_pairs fl
            (λ h c. h && not c)
            (map heuristic_correct rows)
            (map candidate_correct rows) in
        let c =
          discordant_pairs fl
            (λ h c. not h && c)
            (map heuristic_correct rows)
            (map candidate_correct rows) in
        IsPaired (length rows) (paired_report fl rows (mcnemar_of fl b c))
  unfolding paired_report mcnemar_of
  report-IsPaired rows = record {
    heuristic_only = ids_where only_heuristic rows;
    hhem_only = ids_where only_candidate rows;
    covers = omega (
      arith,
      length-ids_where both_correct rows,
      length-ids_where only_heuristic rows,
      length-ids_where only_candidate rows,
      length-ids_where both_wrong rows,
      four_categories rows,
    );
    counted = refl;
    finds_heuristic = refl;
    finds_hhem = refl;
    b_lem = pairs-count (λ h c. h && not c) rows ∙ sym (length-ids_where only_heuristic rows);
    c_lem = pairs-count (λ h c. not h && c) rows ∙ sym (length-ids_where only_candidate rows);
  }

  abbrev only_first : List PairedRow → ℕ
  only_first rows =
      discordant_pairs fl (λ h c. h && not c) (map heuristic_correct rows)
        (map candidate_correct rows)

  abbrev only_second : List PairedRow → ℕ
  only_second rows =
      discordant_pairs fl (λ h c. not h && c) (map heuristic_correct rows)
        (map candidate_correct rows)

  exact_mcnemar_lem :
      (rows : List PairedRow)
      → exact_mcnemar fl (map heuristic_correct rows) (map candidate_correct rows) ≡ (
          if ltb last_exponent (only_first rows + only_second rows)
          then raise overflow_error
          else ok (mcnemar_of fl (only_first rows) (only_second rows)))
  unfolding exact_mcnemar
  exact_mcnemar_lem rows =
      let same : (length (map heuristic_correct rows) == length (map candidate_correct rows))
          ≡ true =
        ground (arith, length-map heuristic_correct rows, length-map candidate_correct rows) in
      elim (Bool-cases (ltb last_exponent (only_first rows + only_second rows))) [
        | inl much ↦ rw (same, much) refl
        | inr little ↦ rw (same, little) refl
      ]

  -- For two detectors that both label exactly the examples of the ground truth: if exactly one of
  -- them is right on at most 1023 examples, then the report is returned, its four categories hold
  -- as many examples as the ground truth has, and the two counts of the McNemar test are the sizes
  -- of the categories in which exactly one detector is right; if there are more such examples,
  -- then OverflowError is raised.
  pub compare_hallucination_predictions_total :
      (truth : Dict String HallucinationLabel)
      (heuristic candidate : Dict String HallucinationPrediction)
      → same_set (keys heuristic) (keys truth) ≡ true
      → same_set (keys candidate) (keys truth) ≡ true
      → ((disagreements heuristic candidate truth ≤ 1023)
          × ((r : PairedComparisonReport fl) × (compare_hallucination_predictions fl truth heuristic
                  candidate
                ≡ ok r)
              × IsPaired (length truth) r))
        ⊎ ((1023 < disagreements heuristic candidate truth)
            × (compare_hallucination_predictions fl truth heuristic candidate
                ≡ raise overflow_error))
  unfolding compare_hallucination_predictions
  compare_hallucination_predictions_total truth heuristic candidate sh sc =
      let known =
        All-map
          (λ id h. (
            subset-member id (keys truth) (keys heuristic) (ground arith) h,
            subset-member id (keys truth) (keys candidate) (ground arith) h,
          ))
          (keys truth) (All-member_self (keys truth)) in
      let (rows, made, same, apart) = rows_total heuristic candidate truth known in
      let tested = exact_mcnemar_lem rows in
      let first = pairs-count (λ h c. h && not c) rows in
      let second = pairs-count (λ h c. not h && c) rows in
      let all : only_first rows + only_second rows ≡ disagreements heuristic candidate truth =
        omega (arith, first, second, apart) in
      elim (Bool-cases (ltb last_exponent (only_first rows + only_second rows))) [
        | inl much ↦ inr (ground (arith, much, all), rw (sh, sc, made, tested, much) refl)
        | inr little ↦ inl (
          ground (arith, little, all),
          (
            paired_report fl rows (mcnemar_of fl (only_first rows) (only_second rows)),
            rw (sh, sc, made, tested, little) refl,
            rw (← same) (report-IsPaired rows),
          ),
        )
      ]
