-- ===== src/Pilot/RateLimit.antt =====
-- src/evalops/pilot/rate_limit.py. Readings of the clock are arguments, and a pause is returned.
use evalops_lab.Common.{
  ℕ, ◌+◌, String, Bool, not, Option, none, some, List, [], ◌∷◌, ◌++◌, Result, ok, raise, ◌>>◌,
  raise_if, leb, ltb, ◌==◌, string_eq, nat_eq, option_eq, Float, if◌then◌else◌,
}

-- RateLimitStopError by its two subclasses, and the ValueErrors of `__post_init__`.
pub data RateLimitStopError : Type 0 where
  circuit_breaker daily_quota_exhausted bad_interval bad_maximum : RateLimitStopError

pub record RateAwareRequestScheduler (N : Type 0) : Type 0 where
  pub min_interval_seconds : N
  pub max_consecutive_rate_limits : ℕ
  pub last_request_at : Option N
  pub consecutive_rate_limits : ℕ
  pub rate_limit_count : ℕ
  pub rate_limit_dimensions : List String
  pub last_retry_after_seconds : Option N

-- The arguments of `observe`.
pub record Observation (N : Type 0) : Type 0 where
  pub error_class : Option String
  pub retry_after_seconds : Option N
  pub rate_limit_dimension : Option String

abbrev pub is_rate_limit : {N : Type 0} → Observation N → Bool
is_rate_limit o = o.error_class == some "API_RATE_LIMIT"

-- `if rate_limit_dimension: self.rate_limit_dimensions.append(rate_limit_dimension)`
abbrev add_dimension : Option String → List String → List String
add_dimension none ds = ds
add_dimension (some d) ds = if d == "" then ds else ds ++ d ∷ []

module _ {N : Type 0} where
  -- The scheduler after the bookkeeping of `observe`.
  unfoldable pub noted : Observation N → RateAwareRequestScheduler N → RateAwareRequestScheduler N
  noted o s =
      if is_rate_limit o
      then record s {
        rate_limit_count = s.rate_limit_count + 1;
        consecutive_rate_limits = s.consecutive_rate_limits + 1;
        last_retry_after_seconds = o.retry_after_seconds;
        rate_limit_dimensions = add_dimension o.rate_limit_dimension s.rate_limit_dimensions;
      }
      else record s { consecutive_rate_limits = 0; last_retry_after_seconds = none }

  unfoldable pub observe :
      Observation N
      → RateAwareRequestScheduler N
      → Result RateLimitStopError (Unit {0}) × RateAwareRequestScheduler N
  unfolding noted
  observe o s =
      let s' = noted o s in
      (
        (if not (is_rate_limit o)
            then ok tt
            else if o.rate_limit_dimension == some "RPD"
            then raise daily_quota_exhausted
            else if leb s'.max_consecutive_rate_limits s'.consecutive_rate_limits
            then raise circuit_breaker
            else ok tt),
        s',
      )

module _ (fl : Float) where
  open fl use {Number, of_int, lt, eq, sub}

  -- `__init__` and `__post_init__`
  unfoldable pub new_scheduler :
      Number → ℕ → Result RateLimitStopError (RateAwareRequestScheduler Number)
  new_scheduler min_interval maximum = do
    raise_if (lt min_interval (of_int 0)) bad_interval
    raise_if (ltb maximum 1) bad_maximum
    ok (record {
      min_interval_seconds = min_interval;
      max_consecutive_rate_limits = maximum;
      last_request_at = none;
      consecutive_rate_limits = 0;
      rate_limit_count = 0;
      rate_limit_dimensions = [];
      last_retry_after_seconds = none;
    })

  abbrev pub pause : Number → Option Number
  pause delay = if lt (of_int 0) delay then some delay else none

  -- `first` is the reading of the clock before the pause, `second` the one after it.
  unfoldable pub before_request :
      Number
      → Number
      → RateAwareRequestScheduler Number
      → Option Number × RateAwareRequestScheduler Number
  before_request first second s = (
    elim s.last_request_at [
      | none ↦ none
      | some last ↦ pause (sub s.min_interval_seconds (sub first last))
    ],
    record s { last_request_at = some second },
  )

  abbrev requested_delay : Option Number → Option Number → Number
  requested_delay (some given) last = given
  requested_delay none (some last) = if eq last (of_int 0) then of_int 0 else last
  requested_delay none none = of_int 0

  unfoldable pub wait_before_retry :
      Option Number → RateAwareRequestScheduler Number → Option Number
  wait_before_retry given s =
      let wanted = requested_delay given s.last_retry_after_seconds in
      pause (if lt s.min_interval_seconds wanted then wanted else s.min_interval_seconds)
