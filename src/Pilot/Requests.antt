-- ===== src/Pilot/Requests.antt =====
-- src/evalops/pilot/execution.py, `run_provider_pilot`: the requests for one provider and example. The answers
-- of the provider, the readings of the clock and what the device takes are arguments, by the
-- number of the request. Observers and the waits between requests leave no trace in the state.
use evalops_lab.Common.{
  ℕ, zero, suc, ◌+◌, String, Bool, false, not, ◌&&◌, ◌||◌, Option, none, some, List, [], ◌∷◌,
  Result, ok, raise, member, ltb, leb, string_eq, option_eq, Float, if◌then◌else◌,
}
use evalops_lab.Pilot.RateLimit.{
  RateLimitStopError, RateAwareRequestScheduler, Observation, observe, before_request,
}
use evalops_lab.Pilot.Execution.{
  PilotError, RequestBudget, reserve, PilotRunRecord, PilotStateStore, upsert,
}

-- JudgeEvaluationTrace, as far as the loop reads it; `serialized` is the record that it gives.
pub record Trace (N : Type 0) : Type 0 where
  pub predicted : Bool
  pub api_success : Bool
  pub observation : Observation N
  pub serialized : String

-- What the loop changes.
pub record Pilot (N : Type 0) : Type 0 where
  pub budget : RequestBudget
  pub scheduler : Option (RateAwareRequestScheduler N)
  pub store : PilotStateStore

pub data PilotStop : Type 0 where
  of_state : PilotError → PilotStop
  of_provider : RateLimitStopError → PilotStop
  missing_examples : PilotStop

-- `retry_count`, `regeneration_count`, and the requests so far.
pub record Attempt : Type 0 where
  pub retry_count : ℕ
  pub regeneration_count : ℕ
  pub requests : ℕ

-- How the body of `while True` ends: the loop is left, or goes on.
pub data Step (N : Type 0) : Type 0 where
  finished : Result PilotStop PilotRunRecord → Pilot N → Step N
  again : Attempt → Pilot N → Step N

abbrev pub retryable_errors : List String
retryable_errors =
    "API_RATE_LIMIT" ∷ "API_SERVER_ERROR" ∷ "API_TIMEOUT" ∷ "LOCAL_CONNECTION_ERROR"
    ∷ "LOCAL_SERVER_ERROR" ∷ "LOCAL_TIMEOUT" ∷ []

abbrev pub is_among : Option String → List String → Bool
is_among none classes = false
is_among (some c) classes = member c classes

-- The test before a regeneration, besides its count.
abbrev pub can_regenerate : {N : Type 0} → Trace N → Bool
can_regenerate t =
    not t.predicted
    && t.api_success
    && is_among t.observation.error_class ("PARSE_ERROR" ∷ "SCHEMA_VALIDATION_ERROR" ∷ [])

abbrev pub record_of : {N : Type 0} → String → String → Trace N → PilotRunRecord
record_of provider example_id t = record {
  provider = provider;
  example_id = example_id;
  status = if t.predicted then "SUCCESS" else "FAILED";
  serialized = t.serialized;
}

abbrev pub no_attempt : Attempt
no_attempt = record { retry_count = 0; regeneration_count = 0; requests = 0 }

module _ (fl : Float) (clock : ℕ → fl.Number × fl.Number) (answer : ℕ → Trace fl.Number)
    (takes : ℕ → Bool) (provider example_id : String) (max_retries max_regenerations : ℕ) where
  open fl use {Number}

  -- The end of the body, from the record on.
  unfoldable pub after_answer : Attempt → Trace Number → Pilot Number → Step Number
  after_answer a t p =
      let r = record_of provider example_id t in
      let (done, s) = upsert (takes a.requests) r p.store in
      let p' : Pilot Number = record p { store = s } in
      elim done [
        | raise e ↦ finished (raise (of_state e)) p'
        | ok _ ↦
            if t.predicted
            then finished (ok r) p'
            else if not (is_among t.observation.error_class retryable_errors)
                || leb max_retries a.retry_count
            then finished (ok r) p'
            else again (record a { retry_count = a.retry_count + 1; requests = a.requests + 1 }) p'
      ]

  -- From the test before a regeneration on.
  unfoldable pub regenerate_or_record : Attempt → Trace Number → Pilot Number → Step Number
  unfolding after_answer
  regenerate_or_record a t p =
      if can_regenerate t && ltb a.regeneration_count max_regenerations
      then again
          (record a { regeneration_count = a.regeneration_count + 1; requests = a.requests + 1 }) p
      else after_answer a t p

  -- `except RateLimitStopError`
  abbrev pub stopped_by :
      RateLimitStopError
      → Result PilotError (Unit {0}) × PilotStateStore
      → Pilot Number
      → Step Number
  stopped_by e (ok _, s) p = finished (raise (of_provider e)) (record p { store = s })
  stopped_by e (raise x, s) p = finished (raise (of_state x)) (record p { store = s })

  -- After the answer, which the scheduler observes if there is one.
  unfoldable pub observed :
      Option (RateAwareRequestScheduler Number)
      → Attempt
      → Trace Number
      → Pilot Number
      → Step Number
  unfolding regenerate_or_record
  observed none a t p = regenerate_or_record a t p
  observed (some scheduler) a t p =
      let (done, scheduler') = observe t.observation scheduler in
      let p' : Pilot Number = record p { scheduler = some scheduler' } in
      elim done [
        | ok _ ↦ regenerate_or_record a t p'
        | raise e ↦
            stopped_by e
              (upsert (takes a.requests)
                (record (record_of provider example_id t) { status = "FAILED" }) p.store)
              p'
      ]

  -- `scheduler.before_request()`
  abbrev pub paced :
      Number × Number
      → Option (RateAwareRequestScheduler Number)
      → Option (RateAwareRequestScheduler Number)
  paced (first, second) none = none
  paced (first, second) (some s) = some (before_request fl first second s).1

  -- The body of `while True`.
  unfoldable pub step : Attempt → Pilot Number → Step Number
  unfolding observed
  step a p =
      let (reserved, budget) = reserve p.budget in
      elim reserved [
        | raise e ↦ finished (raise (of_state e)) (record p { budget = budget })
        | ok _ ↦
            let scheduler = paced (clock a.requests) p.scheduler in
            observed scheduler a (answer a.requests)
              (record p { budget = budget; scheduler = scheduler })
      ]

  -- The loop, with fuel; `none` is a loop that has used it.
  unfoldable pub request_loop :
      ℕ → Attempt → Pilot Number → Option (Result PilotStop PilotRunRecord × Pilot Number)
  unfolding step
  request_loop zero a p = none
  request_loop (suc fuel) a p = elim (step a p) [
    | finished o p' ↦ some (o, p')
    | again a' p' ↦ request_loop fuel a' p'
  ]

  -- The requests for one example.
  unfoldable pub request_example :
      Pilot Number → Option (Result PilotStop PilotRunRecord × Pilot Number)
  unfolding request_loop
  request_example = request_loop (max_retries + max_regenerations + 1) no_attempt
