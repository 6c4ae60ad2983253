-- ===== src/Regression.antt =====
-- src/evalops/regression/comparison.py: metrics of a run against those of its baseline, by rules.
pub mod Verdict
use evalops_lab.Common.{
  ℕ, String, Bool, true, false, not, ◌&&◌, Option, none, some, is_some, List, [], ◌∷◌, Result, ok,
  raise, ◌>>=◌, ◌>>◌, each, all, Dict, lookup, string_eq, Float, if◌then◌else◌,
}

pub data MetricDirection : Type 0 where
  higher_is_better lower_is_better : MetricDirection

pub data RegressionStatus : Type 0 where
  pass regression missing : RegressionStatus

pub record MetricRule (N : Type 0) : Type 0 where
  pub metric_name : String
  pub direction : MetricDirection
  pub minimum_acceptable : Option N
  pub maximum_acceptable : Option N
  pub max_degradation : N

-- The texts of `reason`; a number is the threshold that the text names.
pub data Reason (N : Type 0) : Type 0 where
  no_current no_baseline within_allowance : Reason N
  below_minimum above_maximum exceeded : N → Reason N

pub record MetricComparison (N : Type 0) : Type 0 where
  pub metric_name : String
  pub direction : MetricDirection
  pub baseline : Option N
  pub current : Option N
  pub delta : Option N
  pub status : RegressionStatus
  pub reason : Reason N

pub record RegressionReport (N : Type 0) : Type 0 where
  pub passed : Bool
  pub comparisons : List (MetricComparison N)

-- A value of a metric as it is found: a finite number, or a bool, a text, an infinity or a NaN.
pub data Value (N : Type 0) : Type 0 where
  finite : N → Value N
  not_finite : Value N

-- The ValueErrors; a text is the name of the metric.
pub data CompareError : Type 0 where
  current_not_finite baseline_not_finite : String → CompareError
  empty_policy : CompareError

abbrev pub is_pass : RegressionStatus → Bool
is_pass pass = true
is_pass _ = false

-- The check of one value in the loop over `current` and `baseline`.
abbrev pub as_finite :
    {N : Type 0} → CompareError → Option (Value N) → Result CompareError (Option N)
as_finite e none = ok none
as_finite e (some (finite n)) = ok (some n)
as_finite e (some not_finite) = raise e

module _ (fl : Float) where
  open fl use {Number, lt, add, sub}

  -- The comparison of a present value with a threshold that the policy may set.
  unfoldable pub beyond_limit : Number → MetricRule Number → Option (Reason Number)
  beyond_limit current rule = elim rule.direction [
    | higher_is_better ↦ elim rule.minimum_acceptable [
      | some m ↦ if lt current m then some (below_minimum m) else none
      | none ↦ none
    ]
    | lower_is_better ↦ elim rule.maximum_acceptable [
      | some m ↦ if lt m current then some (above_maximum m) else none
      | none ↦ none
    ]
  ]

  unfoldable pub regressed : Number → Number → MetricRule Number → Bool
  regressed current baseline rule = elim rule.direction [
    | higher_is_better ↦ lt current (sub baseline rule.max_degradation)
    | lower_is_better ↦ lt (add baseline rule.max_degradation) current
  ]

  -- A comparison of a rule's metric.
  abbrev pub compared :
      MetricRule Number
      → Option Number
      → Option Number
      → Option Number
      → RegressionStatus
      → Reason Number
      → MetricComparison Number
  compared rule baseline current delta status reason = record {
    metric_name = rule.metric_name;
    direction = rule.direction;
    baseline = baseline;
    current = current;
    delta = delta;
    status = status;
    reason = reason;
  }

  -- `current - baseline if baseline is not None else None`
  abbrev pub delta_of : Number → Option Number → Option Number
  delta_of current none = none
  delta_of current (some b) = some (sub current b)

  -- `_compare_one` after the checks of the two values.
  unfoldable pub compare_values :
      MetricRule Number → Option Number → Option Number → MetricComparison Number
  unfolding beyond_limit regressed
  compare_values rule none baseline = compared rule baseline none none missing no_current
  compare_values rule (some c) baseline = elim (beyond_limit c rule) [
    | some reason ↦ compared rule baseline (some c) (delta_of c baseline) regression reason
    | none ↦ elim baseline [
      | none ↦ compared rule none (some c) none missing no_baseline
      | some b ↦
          if regressed c b rule
          then compared rule (some b) (some c) (some (sub c b)) regression
              (exceeded rule.max_degradation)
          else compared rule (some b) (some c) (some (sub c b)) pass within_allowance
    ]
  ]

  abbrev pub Metrics : Type 0
  Metrics = Dict String (Value Number)

  -- `_compare_one`
  unfoldable pub compare_one :
      Metrics → Metrics → MetricRule Number → Result CompareError (MetricComparison Number)
  unfolding compare_values
  compare_one current baseline rule = do
    c ← as_finite (current_not_finite rule.metric_name) (lookup rule.metric_name current)
    b ← as_finite (baseline_not_finite rule.metric_name) (lookup rule.metric_name baseline)
    ok (compare_values rule c b)

  unfoldable pub compare_metrics :
      Metrics → Metrics → List (MetricRule Number) → Result CompareError (RegressionReport Number)
  unfolding compare_one
  compare_metrics current baseline [] = raise empty_policy
  compare_metrics current baseline (rule ∷ rules) = do
    comparisons ← each (compare_one current baseline) (rule ∷ rules)
    ok (record { passed = all (λ c. is_pass c.status) comparisons; comparisons = comparisons })
