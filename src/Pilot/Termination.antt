-- ===== src/Pilot/Termination.antt =====
-- The loop of requests of src/evalops/pilot/execution.py ends, within a number of requests.
use evalops_lab.Common.{
  ℕ, zero, suc, ◌+◌, ◌-◌, ◌≤◌, ◌<◌, String, ◌≡◌, refl, Bool, not, ◌&&◌, ◌||◌, Option, none, some,
  Result, ok, raise, Result_elim, if_elim, ltb, leb, Float, arith,
}
use evalops_lab.Pilot.RateLimit.{RateLimitStopError, RateAwareRequestScheduler, observe}
use evalops_lab.Pilot.Execution.{
  PilotError, RequestBudget, reserve, PilotRunRecord, PilotStateStore, upsert,
}
use evalops_lab.Pilot.Requests.{
  Trace, Pilot, PilotStop, Attempt, Step, finished, again, retryable_errors, is_among,
  can_regenerate, record_of, stopped_by, regenerate_or_record, after_answer, observed, step,
  request_loop, request_example, no_attempt,
}

-- The requests that a budget has admitted.
abbrev pub used : {N : Type 0} → Pilot N → ℕ
used p = p.budget.requests_used

module _ (fl : Float) (clock : ℕ → fl.Number × fl.Number) (answer : ℕ → Trace fl.Number)
    (takes : ℕ → Bool) (provider example_id : String) (max_retries max_regenerations : ℕ) where
  open fl use {Number}

  -- The attempts that are left.
  abbrev left : Attempt → ℕ
  left a = (max_retries - a.retry_count) + (max_regenerations - a.regeneration_count)

  -- A body that goes on has one attempt less; either way the count of requests is `n`.
  abbrev Bounded : Attempt → ℕ → Step Number → Type 0
  Bounded a n (finished o p) = used p ≤ n
  Bounded a n (again b p) = (left b + 1 ≤ left a) × (used p ≤ n)

  after_answer-Bounded :
      (a : Attempt) (t : Trace Number) (p : Pilot Number)
      → Bounded a (used p) (
          after_answer fl clock answer takes provider example_id max_retries max_regenerations a t
            p)
  unfolding after_answer
  after_answer-Bounded a t p =
      Result_elim (Bounded a (used p))
        (upsert (takes a.requests) (record_of provider example_id t) p.store).0
        (λ _ _.
          if_elim (Bounded a (used p)) t.predicted (λ _. omega arith)
            λ _.
              if_elim (Bounded a (used p))
                (not (is_among t.observation.error_class retryable_errors)
                  || leb max_retries a.retry_count)
                (λ _. omega arith) (λ more. (ground (arith, more), omega arith)))
        (λ e _. omega arith)

  regenerate_or_record-Bounded :
      (a : Attempt) (t : Trace Number) (p : Pilot Number)
      → Bounded a (used p) (
          regenerate_or_record fl clock answer takes provider example_id max_retries
            max_regenerations a t p)
  unfolding regenerate_or_record
  regenerate_or_record-Bounded a t p =
      if_elim (Bounded a (used p)) (can_regenerate t && ltb a.regeneration_count max_regenerations)
        (λ more. (ground (arith, more), omega arith)) (λ _. after_answer-Bounded a t p)

  stopped_by-Bounded :
      (e : RateLimitStopError) (a : Attempt) (o : Result PilotError (Unit {0}) × PilotStateStore)
      (p : Pilot Number)
      → Bounded a
          (used p)
          (stopped_by fl clock answer takes provider example_id max_retries max_regenerations e o p)
  stopped_by-Bounded e a (ok _, s) p = omega arith
  stopped_by-Bounded e a (raise x, s) p = omega arith

  observed-Bounded :
      (scheduler : Option (RateAwareRequestScheduler Number)) (a : Attempt) (t : Trace Number)
      (p : Pilot Number)
      → Bounded a (used p) (
          observed fl clock answer takes provider example_id max_retries max_regenerations scheduler
            a t p)
  unfolding observed
  observed-Bounded none a t p = regenerate_or_record-Bounded a t p
  observed-Bounded (some scheduler) a t p =
      Result_elim (Bounded a (used p)) (observe t.observation scheduler).0
        (λ _ _. regenerate_or_record-Bounded a t _) (λ e _. stopped_by-Bounded e a _ _)

  Bounded-le : (a : Attempt) (n m : ℕ) (s : Step Number) → n ≤ m → Bounded a n s → Bounded a m s
  Bounded-le a n m (finished o p) h b = omega (arith, h, b)
  Bounded-le a n m (again c p) h b = (b.0, omega (arith, h, b.1))

  reserve-used : (b : RequestBudget) → (reserve b).1.requests_used ≤ b.requests_used + 1
  unfolding reserve
  reserve-used b = ground arith

  step-Bounded :
      (a : Attempt) (p : Pilot Number)
      → Bounded a
          (used p + 1)
          (step fl clock answer takes provider example_id max_retries max_regenerations a p)
  unfolding step
  step-Bounded a p =
      Result_elim (Bounded a (used p + 1)) (reserve p.budget).0
        (λ _ _.
          Bounded-le a _ (used p + 1) _ (reserve-used p.budget)
            (observed-Bounded _ a (answer a.requests) _))
        (λ e _. reserve-used p.budget)

  -- The loop returns, within so many requests.
  abbrev EndsWithin : ℕ → Option (Result PilotStop PilotRunRecord × Pilot Number) → Type 0
  EndsWithin n o =
      (r : Result PilotStop PilotRunRecord) × (p : Pilot Number) × (o ≡ some (r, p)) × (used p ≤ n)

  went_on-ends :
      (fuel : ℕ) (a : Attempt) (n : ℕ) (s : Step Number)
      → ((c : Attempt) (p : Pilot Number)
          → left c < fuel
          → EndsWithin (used p + left c + 1) (
              request_loop fl clock answer takes provider example_id max_retries max_regenerations
                fuel c p))
      → left a < suc fuel
      → Bounded a (n + 1) s
      → EndsWithin (n + left a + 1) (elim s [
        | finished o p ↦ some (o, p)
        | again c p ↦
            request_loop fl clock answer takes provider example_id max_retries max_regenerations
              fuel c p
      ])
  went_on-ends fuel a n (finished o p) ih h b = (o, p, refl, omega (arith, b))
  went_on-ends fuel a n (again c p) ih h b =
      let (r, p', e, bound) = ih c p (omega (arith, h, b.0)) in
      (r, p', e, omega (arith, bound, b.0, b.1))

  request_loop-ends :
      (fuel : ℕ) (a : Attempt) (p : Pilot Number)
      → left a < fuel
      → EndsWithin (used p + left a + 1) (
          request_loop fl clock answer takes provider example_id max_retries max_regenerations fuel
            a p)
  unfolding request_loop
  request_loop-ends zero a p h = absurd (omega (arith, h))
  request_loop-ends (suc fuel) a p h =
      went_on-ends fuel a (used p)
        (step fl clock answer takes provider example_id max_retries max_regenerations a p)
        (request_loop-ends fuel) h (step-Bounded a p)

  -- The requests for one example end, and are at most the retries, the regenerations and one more.
  pub request_example_ends :
      (p : Pilot Number)
      → (o : Result PilotStop PilotRunRecord) × (p' : Pilot Number) × (request_example fl clock
            answer takes provider example_id max_retries max_regenerations p
          ≡ some (o, p'))
        × (used p' ≤ used p + max_retries + max_regenerations + 1)
  unfolding request_example
  request_example_ends p =
      let (o, p', e, bound) =
        request_loop-ends (max_retries + max_regenerations + 1) no_attempt p (omega arith) in
      (o, p', e, omega (arith, bound))
