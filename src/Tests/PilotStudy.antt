-- ===== src/Tests/PilotStudy.antt =====
-- The theorem of Pilot/Study on a provider that answers after a timeout.
use evalops_lab.Common.{
  ℕ, String, refl, true, false, none, some, List, [], ◌∷◌, length, sort_by, str_lt, fractions,
  arith, ◌==◌, nat_eq, if◌then◌else◌,
}
use evalops_lab.Pilot.Requests.{Trace, Pilot}
use evalops_lab.Pilot.Study.{Provider, Ends, pairs_of, run_provider_pilot, run_provider_pilot-Ends}

abbrev timeout : Trace (ℕ × ℕ)
timeout = record {
  predicted = false;
  api_success = false;
  observation = record {
    error_class = some "API_TIMEOUT";
    retry_after_seconds = none;
    rate_limit_dimension = none;
  };
  serialized = "timeout";
}

abbrev label : Trace (ℕ × ℕ)
label = record {
  predicted = true;
  api_success = true;
  observation = record {
    error_class = none;
    retry_after_seconds = none;
    rate_limit_dimension = none;
  };
  serialized = "label";
}

abbrev slow : Provider (ℕ × ℕ)
slow = record {
  clock = λ _ _ n. ((n, 0), (n, 0));
  answer = λ _ _ n. if n == 0 then timeout else label;
  takes = λ _ _ _. true;
}

abbrev unused : Pilot (ℕ × ℕ)
unused = record {
  budget = record { max_requests = some 9; requests_used = 0 };
  scheduler = none;
  store = record { records = []; saved = [] };
}

abbrev ids : List String
ids = "1" ∷ "2" ∷ []

run_provider_pilot-Ends_example :
    Ends fractions slow 2
      (λ _. 1)
      1
      (length (pairs_of fractions slow 2 (λ _. 1) (sort_by str_lt ("b" ∷ "a" ∷ [])) ids))
      unused
      (run_provider_pilot fractions slow 2 (λ _. 1) ids ids ("b" ∷ "a" ∷ []) unused)
run_provider_pilot-Ends_example =
    run_provider_pilot-Ends fractions slow 2 (λ _. 1) 1 ids ids ("b" ∷ "a" ∷ []) unused
      (λ _. omega arith) refl
