-- ===== src/Regression/Verdict.antt =====
-- When a report of src/evalops/regression/comparison.py passes.
use evalops_lab.Common.{
  ◌≡◌, ◌↔◌, refl, ap, ◌∙◌, Bool, true, not, Option, none, some, List, [], ◌∷◌, ok, each, all, All,
  lookup, string_eq, Float, arith, >>=-eq-ok,
}
use evalops_lab.Regression.{
  MetricRule, MetricComparison, RegressionReport, Value, finite, CompareError, higher_is_better,
  lower_is_better, is_pass, as_finite, compare_values, compare_one, compare_metrics, Metrics,
  current_not_finite, baseline_not_finite,
}

module _ (fl : Float) where
  open fl use {Number, lt, add, sub}

  abbrev keeps_limit : MetricRule Number → Number → Bool
  keeps_limit rule c = elim rule.direction [
    | higher_is_better ↦ elim rule.minimum_acceptable [ none ↦ true | some m ↦ not (lt c m) ]
    | lower_is_better ↦ elim rule.maximum_acceptable [ none ↦ true | some m ↦ not (lt m c) ]
  ]

  abbrev keeps_baseline : MetricRule Number → Number → Number → Bool
  keeps_baseline rule c b = elim rule.direction [
    | higher_is_better ↦ not (lt c (sub b rule.max_degradation))
    | lower_is_better ↦ not (lt (add b rule.max_degradation) c)
  ]

  -- What a rule asks for: both runs have the metric, as a finite number; the current value keeps the
  -- absolute limit of the rule's direction, and is not worse than the baseline by more than the
  -- allowance.
  pub record IsAcceptable (current baseline : Metrics fl) (rule : MetricRule Number) : Type 0 where
    pub c : Number
    pub b : Number
    pub has_current : lookup rule.metric_name current ≡ some (finite c)
    pub has_baseline : lookup rule.metric_name baseline ≡ some (finite b)
    pub limit : keeps_limit rule c ≡ true
    pub allowance : keeps_baseline rule c b ≡ true

  compare_values-pass :
      (rule : MetricRule Number) (x y : Option Number)
      → is_pass (compare_values fl rule x y).status ≡ true
      → (c : Number) × (b : Number) × (x ≡ some c)
        × (y ≡ some b)
        × (keeps_limit rule c ≡ true)
        × (keeps_baseline rule c b ≡ true)
  unfolding compare_values
  compare_values-pass rule none y h = cc
  compare_values-pass rule (some c) none h = ground arith
  compare_values-pass rule (some c) (some b) h = (c, b, refl, refl, ground arith, ground arith)

  pass-compare_values :
      (rule : MetricRule Number) (c b : Number)
      → keeps_limit rule c ≡ true
      → keeps_baseline rule c b ≡ true
      → is_pass (compare_values fl rule (some c) (some b)).status ≡ true
  unfolding compare_values
  pass-compare_values rule c b h k = ground arith

  as_finite-eq-some :
      (e : CompareError) (v : Option (Value Number)) (c : Number)
      → as_finite e v ≡ ok (some c)
      → v ≡ some (finite c)
  as_finite-eq-some e v c h = ground arith

  as_finite-known :
      (e : CompareError) (v : Option (Value Number)) (c : Number) (x : Option Number)
      → v ≡ some (finite c)
      → as_finite e v ≡ ok x
      → x ≡ some c
  as_finite-known e v c x h k = ground arith

  -- How the comparison of one rule's metric came about.
  compare_one-eq-ok :
      (cs bs : Metrics fl) (rule : MetricRule Number) (m : MetricComparison Number)
      → compare_one fl cs bs rule ≡ ok m
      → (x : Option Number) × (y : Option Number) × (as_finite
            (current_not_finite rule.metric_name)
            (lookup rule.metric_name cs)
          ≡ ok x)
        × (as_finite (baseline_not_finite rule.metric_name) (lookup rule.metric_name bs) ≡ ok y)
        × (compare_values fl rule x y ≡ m)
  unfolding compare_one
  compare_one-eq-ok cs bs rule m h =
      let (x, ex, rest) = >>=-eq-ok (as_finite _ (lookup rule.metric_name cs)) _ h in
      let (y, ey, last) = >>=-eq-ok (as_finite _ (lookup rule.metric_name bs)) _ rest in
      (x, y, ex, ey, cc)

  compare_one-pass :
      (cs bs : Metrics fl) (rule : MetricRule Number) (m : MetricComparison Number)
      → compare_one fl cs bs rule ≡ ok m
      → (is_pass m.status ≡ true) ↔ IsAcceptable cs bs rule
  compare_one-pass cs bs rule m h =
      let (x, y, ex, ey, made) = compare_one-eq-ok cs bs rule m h in
      (
        λ passes.
            let passes' = rw (← made) at passes in
            let (c, b, hx, hy, l, a) = compare_values-pass rule x y passes' in
            record {
              c = c;
              b = b;
              has_current = as_finite-eq-some _ (lookup rule.metric_name cs) c (ex ∙ ap ok hx);
              has_baseline = as_finite-eq-some _ (lookup rule.metric_name bs) b (ey ∙ ap ok hy);
              limit = l;
              allowance = a;
            },
        λ ok_rule.
            let hx =
              as_finite-known _ (lookup rule.metric_name cs) ok_rule.c x ok_rule.has_current ex in
            let hy =
              as_finite-known _ (lookup rule.metric_name bs) ok_rule.b y ok_rule.has_baseline ey in
            rw (← made, hx, hy)
              (pass-compare_values rule ok_rule.c ok_rule.b ok_rule.limit ok_rule.allowance),
      )

  all_pass :
      (cs bs : Metrics fl) (rules : List (MetricRule Number)) (ms : List (MetricComparison Number))
      → each (compare_one fl cs bs) rules ≡ ok ms
      → (all (λ m. is_pass m.status) ms ≡ true) ↔ All (IsAcceptable cs bs) rules
  all_pass cs bs [] ms h = ground arith
  all_pass cs bs (rule ∷ rules) ms h =
      let (m, one, rest) = >>=-eq-ok (compare_one fl cs bs rule) _ h in
      let (ms', more, last) = >>=-eq-ok (each (compare_one fl cs bs) rules) _ rest in
      let (to, from) = compare_one-pass cs bs rule m one in
      let (tos, froms) = all_pass cs bs rules ms' more in
      let made : ms ≡ m ∷ ms' = cc in
      rw made (
        λ passes. (to (ground arith), tos (ground arith)),
        λ (a, others). ground (arith, from a, froms others),
      )

  -- A report that is returned passes exactly when every rule is met: both runs have the metric, as a
  -- finite number, the current value keeps the limit of the rule and is not worse than the baseline
  -- by more than the allowance.
  pub passed_iff :
      (cs bs : Metrics fl) (rules : List (MetricRule Number)) (report : RegressionReport Number)
      → compare_metrics fl cs bs rules ≡ ok report
      → (report.passed ≡ true) ↔ All (IsAcceptable cs bs) rules
  unfolding compare_metrics
  passed_iff cs bs [] report h = cc
  passed_iff cs bs (rule ∷ rules) report h =
      let (ms, more, last) = >>=-eq-ok (each (compare_one fl cs bs) (rule ∷ rules)) _ h in
      let made : all (λ m. is_pass m.status) ms ≡ report.passed = ground arith in
      rw (← made) (all_pass cs bs (rule ∷ rules) ms more)
