-- ===== src/Tests/PilotLimits.antt =====
-- The theorems of Pilot on a few requests.
use evalops_lab.Common.{
  ℕ, ◌≡◌, ◌<◌, ◌+◌, refl, true, none, some, List, [], ◌∷◌, ok, lookup, count, string_eq, arith,
}
use evalops_lab.Pilot.RateLimit.{RateAwareRequestScheduler, Observation, is_rate_limit, observe}
use evalops_lab.Pilot.Execution.{PilotRunRecord, PilotStateStore, state_key, upsert, is_successful}
use evalops_lab.Pilot.Limits.{observe_all, trailing, observe_all-eq-ok, success_is_final}

abbrev scheduler : RateAwareRequestScheduler ℕ
scheduler = record {
  min_interval_seconds = 10;
  max_consecutive_rate_limits = 3;
  last_request_at = none;
  consecutive_rate_limits = 0;
  rate_limit_count = 0;
  rate_limit_dimensions = [];
  last_retry_after_seconds = none;
}

abbrev limited : Observation ℕ
limited = record {
  error_class = some "API_RATE_LIMIT";
  retry_after_seconds = some 20;
  rate_limit_dimension = some "RPM";
}

abbrev answered : Observation ℕ
answered = record { error_class = none; retry_after_seconds = none; rate_limit_dimension = none }

abbrev responses : List (Observation ℕ)
responses = limited ∷ answered ∷ limited ∷ limited ∷ []

goes_on : (observe_all responses scheduler).0 ≡ ok tt
unfolding observe_all observe
goes_on = refl

observe_all-eq-ok_example :
    ((observe_all responses scheduler).1.consecutive_rate_limits ≡ trailing 0 responses)
    × (trailing 0 responses < 3)
    × ((observe_all responses scheduler).1.rate_limit_count ≡ 0 + count is_rate_limit responses)
observe_all-eq-ok_example = observe_all-eq-ok responses scheduler (omega arith) goes_on

abbrev kept : PilotRunRecord
kept = record { provider = "a"; example_id = "1"; status = "SUCCESS"; serialized = "first" }

abbrev store : PilotStateStore
store = record { records = ("a:1", kept) ∷ []; saved = ("a:1", kept) ∷ [] }

succeeded : is_successful "a" "1" store ≡ true
unfolding is_successful state_key
succeeded = refl

success_is_final_example :
    lookup (state_key "a" "1") (upsert true (record kept { status = "FAILED" }) store).1.records
    ≡ lookup (state_key "a" "1") store.records
success_is_final_example =
    success_is_final true (record kept { status = "FAILED" }) store "a" "1" succeeded
