-- ===== src/Pilot/Limits.antt =====
-- What the limits of src/evalops/pilot/rate_limit.py and src/evalops/pilot/execution.py keep.
use evalops_lab.Common.{
  ℕ, zero, suc, ◌+◌, ◌≤◌, ◌<◌, String, ◌≡◌, refl, Bool, true, some, List, [], ◌∷◌, Result, ok,
  raise, lookup, lookup-insert, leb, count, ==_iff, string_eq, arith, if◌then◌else◌,
}
use evalops_lab.Pilot.RateLimit.{
  RateLimitStopError, RateAwareRequestScheduler, Observation, is_rate_limit, noted, observe,
}
use evalops_lab.Pilot.Execution.{
  PilotError, request_limit, RequestBudget, reserve, PilotRunRecord, PilotStateStore, state_key,
  upsert, is_successful,
}

module _ {N : Type 0} where
  -- A number of responses observed one after another, up to the first that stops the study.
  unfoldable pub observe_all :
      List (Observation N)
      → RateAwareRequestScheduler N
      → Result RateLimitStopError (Unit {0}) × RateAwareRequestScheduler N
  observe_all [] s = (ok tt, s)
  observe_all (o ∷ os) s =
      let (done, s') = observe o s in
      let rest = observe_all os s' in elim done [ ok _ ↦ rest | raise e ↦ (raise e, s') ]

  -- The rate limits at the end of the responses, after `n` before them.
  abbrev pub trailing : ℕ → List (Observation N) → ℕ
  trailing n [] = n
  trailing n (o ∷ os) = if is_rate_limit o then trailing (n + 1) os else trailing 0 os

  -- Of one response that does not stop the study.
  observe-eq-ok :
      (o : Observation N) (s : RateAwareRequestScheduler N)
      → (observe o s).0 ≡ ok tt
      → s.consecutive_rate_limits < s.max_consecutive_rate_limits
      → ((observe o s).1.consecutive_rate_limits < (observe o s).1.max_consecutive_rate_limits)
        × ((observe o s).1.consecutive_rate_limits
            ≡ (if is_rate_limit o then s.consecutive_rate_limits + 1 else 0))
        × ((observe o s).1.max_consecutive_rate_limits ≡ s.max_consecutive_rate_limits)
        × ((observe o s).1.rate_limit_count
            ≡ (if is_rate_limit o then s.rate_limit_count + 1 else s.rate_limit_count))
  unfolding observe noted
  observe-eq-ok o s h b = ground arith

  -- While the study is not stopped, the breaker's counter is the number of rate limits at the end of
  -- the responses, it stays below the maximum, and every rate limit is counted.
  pub observe_all-eq-ok :
      (os : List (Observation N)) (s : RateAwareRequestScheduler N)
      → s.consecutive_rate_limits < s.max_consecutive_rate_limits
      → (observe_all os s).0 ≡ ok tt
      → ((observe_all os s).1.consecutive_rate_limits ≡ trailing s.consecutive_rate_limits os)
        × (trailing s.consecutive_rate_limits os < s.max_consecutive_rate_limits)
        × ((observe_all os s).1.rate_limit_count ≡ s.rate_limit_count + count is_rate_limit os)
  unfolding observe_all
  observe_all-eq-ok [] s b h = (refl, b, omega arith)
  observe_all-eq-ok (o ∷ os) s b h =
      ground (arith, observe-eq-ok o s, observe_all-eq-ok os (observe o s).1)

-- `n` reservations one after another, up to the first that is refused.
unfoldable pub reserve_times : ℕ → RequestBudget → Result PilotError (Unit {0}) × RequestBudget
reserve_times zero b = (ok tt, b)
reserve_times (suc n) b =
    let (done, b') = reserve b in
    let rest = reserve_times n b' in elim done [ ok _ ↦ rest | raise e ↦ (raise e, b') ]

-- Of any number of requests exactly those within the ceiling are admitted: all if there is room for
-- all, and otherwise the budget ends used up, never exceeded, with the error.
pub reserve_times_lem :
    (n m used : ℕ)
    → used ≤ m
    → reserve_times n (record { max_requests = some m; requests_used = used }) ≡ (
        if leb (used + n) m
        then (ok tt, record { max_requests = some m; requests_used = used + n })
        else (raise request_limit, record { max_requests = some m; requests_used = m }))
unfolding reserve_times reserve
reserve_times_lem zero m used h = ground arith
reserve_times_lem (suc n) m used h = ground (arith, reserve_times_lem n m (used + 1))

-- A stored success is final: no upsert of any record, whether or not the device takes it, changes what
-- is stored for that provider and example.
pub success_is_final :
    (takes : Bool) (r : PilotRunRecord) (s : PilotStateStore) (provider example_id : String)
    → is_successful provider example_id s ≡ true
    → lookup (state_key provider example_id) (upsert takes r s).1.records
      ≡ lookup (state_key provider example_id) s.records
unfolding upsert is_successful
success_is_final takes r s provider example_id h = ground (
  arith,
  lookup-insert (state_key r.provider r.example_id) (state_key provider example_id) r s.records,
  ==_iff (state_key provider example_id) (state_key r.provider r.example_id),
)
