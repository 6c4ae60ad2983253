-- ===== src/Pilot/Study.antt =====
-- src/evalops/pilot/execution.py, `run_provider_pilot`: the loops over providers and examples.
use evalops_lab.Common.{
  suc, ap, sym, subst, ℕ, ◌+◌, ◌*◌, ◌≤◌, String, ◌≡◌, refl, Bool, true, not, Option, none, some,
  List, [], ◌∷◌, ◌++◌, map, Result, ok, raise, length, lookup, subset, to_set, sort_by, str_lt,
  string_eq, Float, if◌then◌else◌, arith,
}
use evalops_lab.Pilot.Execution.{PilotRunRecord, state_key, is_successful}
use evalops_lab.Pilot.Requests.{Trace, Pilot, PilotStop, missing_examples, request_example}
use evalops_lab.Pilot.Termination.{used, request_example_ends}

Option_ind :
    {A B : Type 0} (P : B → Type 0) (o : Option A) {f : A → B} {b : B}
    → ((a : A) → P (f a))
    → P b
    → P (elim o [ some a ↦ f a | none ↦ b ])
Option_ind P none pf pb = pb
Option_ind P (some a) pf pb = pf a

-- The provider, the example, and the number of the request.
pub record Provider (N : Type 0) : Type 0 where
  pub clock : String → String → ℕ → N × N
  pub answer : String → String → ℕ → Trace N
  pub takes : String → String → ℕ → Bool

-- The stored record of a success.
abbrev pub previous : {N : Type 0} → String → String → Pilot N → Option PilotRunRecord
previous provider example_id p =
    if is_successful provider example_id p.store
    then lookup (state_key provider example_id) p.store.records
    else none

abbrev pub Outcome : Type 0 → Type 0
Outcome N = Option (Result PilotStop (List PilotRunRecord) × Pilot N)

-- `results.append(record)`, before the rest.
abbrev pub prepend : {N : Type 0} → PilotRunRecord → Outcome N → Outcome N
prepend r none = none
prepend r (some (ok rs, p)) = some (ok (r ∷ rs), p)
prepend r (some (raise e, p)) = some (raise e, p)

module _ (fl : Float) (env : Provider fl.Number) (max_retries : ℕ)
    (regenerations : String → ℕ) where
  -- The requests for one example, if it has no stored success, and then the rest.
  unfoldable pub then_examples :
      Option (Result PilotStop PilotRunRecord × Pilot fl.Number)
      → (Pilot fl.Number → Outcome fl.Number)
      → Outcome fl.Number
  then_examples none next = none
  then_examples (some (ok r, p)) next = prepend r (next p)
  then_examples (some (raise e, p)) next = some (raise e, p)

  unfoldable pub run_examples : List (String × String) → Pilot fl.Number → Outcome fl.Number
  unfolding then_examples
  run_examples [] p = some (ok [], p)
  run_examples ((provider, example_id) ∷ pairs) p = elim (previous provider example_id p) [
    | some r ↦ prepend r (run_examples pairs p)
    | none ↦
        then_examples
          (request_example fl (env.clock provider example_id) (env.answer provider example_id)
            (env.takes provider example_id) provider example_id max_retries (regenerations provider)
            p)
          (run_examples pairs)
  ]

  abbrev pub pairs_of : List String → List String → List (String × String)
  pairs_of [] examples = []
  pairs_of (provider ∷ providers) examples =
      map (λ example_id. (provider, example_id)) examples ++ pairs_of providers examples

  unfoldable pub run_provider_pilot :
      List String → List String → List String → Pilot fl.Number → Outcome fl.Number
  unfolding run_examples
  run_provider_pilot example_ids known providers p =
      if not (subset (to_set example_ids) known)
      then some (raise missing_examples, p)
      else run_examples (pairs_of (sort_by str_lt providers) example_ids) p

  -- A run over so many examples ends, within so many requests, and has a record for each if it returns.
  pub record Ends (most n : ℕ) (p : Pilot fl.Number) (o : Outcome fl.Number) : Type 0 where
    pub outcome : Result PilotStop (List PilotRunRecord)
    pub after : Pilot fl.Number
    pub ends : o ≡ some (outcome, after)
    pub requests : used after ≤ used p + n * (max_retries + most + 1)
    pub records : (rs : List PilotRunRecord) → outcome ≡ ok rs → length rs ≡ n

  more_requests :
      (a b c n most : ℕ)
      → c ≤ b + n * (max_retries + most + 1)
      → b ≤ a + (max_retries + most + 1)
      → c ≤ a + suc n * (max_retries + most + 1)
  more_requests a b c n most h g = omega (arith, h, g)

  prepended :
      (most n : ℕ) (r : PilotRunRecord) (p q : Pilot fl.Number) (o : Outcome fl.Number)
      (outcome : Result PilotStop (List PilotRunRecord)) (after : Pilot fl.Number)
      → used q ≤ used p + (max_retries + most + 1)
      → o ≡ some (outcome, after)
      → used after ≤ used q + n * (max_retries + most + 1)
      → ((rs : List PilotRunRecord) → outcome ≡ ok rs → length rs ≡ n)
      → Ends most (suc n) p (prepend r o)
  prepended most n r p q o (ok rs) after h e bound records = record {
    outcome = ok (r ∷ rs);
    after = after;
    ends = ap (prepend r) e;
    requests = more_requests (used p) (used q) (used after) n most bound h;
    records = λ ss same. ground (arith, same, records rs refl);
  }
  prepended most n r p q o (raise x) after h e bound records = record {
    outcome = raise x;
    after = after;
    ends = ap (prepend r) e;
    requests = more_requests (used p) (used q) (used after) n most bound h;
    records = λ ss same. cc same;
  }

  prepend-Ends :
      (most n : ℕ) (r : PilotRunRecord) (p q : Pilot fl.Number) (o : Outcome fl.Number)
      → used q ≤ used p + (max_retries + most + 1)
      → Ends most n q o
      → Ends most (suc n) p (prepend r o)
  prepend-Ends most n r p q o h e =
      prepended most n r p q o e.outcome e.after h e.ends e.requests e.records

  then_examples-Ends :
      (most n : ℕ) (p p' : Pilot fl.Number) (o : Result PilotStop PilotRunRecord)
      (next : Pilot fl.Number → Outcome fl.Number)
      → used p' ≤ used p + (max_retries + most + 1)
      → ((q : Pilot fl.Number) → Ends most n q (next q))
      → Ends most (suc n) p (then_examples (some (o, p')) next)
  unfolding then_examples
  then_examples-Ends most n p p' (ok r) next h rest =
      prepend-Ends most n r p p' (next p') h (rest p')
  then_examples-Ends most n p p' (raise e) next h rest = record {
    outcome = raise e;
    after = p';
    ends = refl;
    requests = more_requests (used p) p'.budget.requests_used (used p') n most (omega arith) h;
    records = λ ss same. cc same;
  }

  run_examples-Ends :
      (most : ℕ) (pairs : List (String × String)) (p : Pilot fl.Number)
      → ((provider : String) → regenerations provider ≤ most)
      → Ends most (length pairs) p (run_examples pairs p)
  unfolding run_examples
  run_examples-Ends most [] p few = record {
    outcome = ok [];
    after = p;
    ends = refl;
    requests = omega arith;
    records = λ ss same. ground (arith, same);
  }
  run_examples-Ends most ((provider, example_id) ∷ pairs) p few =
      Option_ind (Ends most (suc (length pairs)) p) (previous provider example_id p)
        (λ r.
          prepend-Ends most (length pairs) r p p (run_examples pairs p) (omega arith)
            (run_examples-Ends most pairs p few))
        (let (o, p', e, bound) =
            request_example_ends fl (env.clock provider example_id) (env.answer provider example_id)
              (env.takes provider example_id) provider example_id max_retries
              (regenerations provider) p in
          subst
            (λ (x : Option (Result PilotStop PilotRunRecord × Pilot fl.Number)).
              Ends most (suc (length pairs)) p (then_examples x (run_examples pairs)))
            (sym e)
            (then_examples-Ends most (length pairs) p p' o (run_examples pairs)
              (omega (arith, bound, few provider)) (λ q. run_examples-Ends most pairs q few)))

  -- If the manifest is covered by the examples and no provider has more than a number of
  -- regenerations, then whatever the providers answer `run_provider_pilot` ends, the requests that
  -- it admits are at most those of the pairs of a provider and an example with the retries, that
  -- number and one more for each, and if it returns then with one record for each pair.
  pub run_provider_pilot-Ends :
      (most : ℕ) (example_ids known providers : List String) (p : Pilot fl.Number)
      → ((provider : String) → regenerations provider ≤ most)
      → subset (to_set example_ids) known ≡ true
      → Ends most
          (length (pairs_of (sort_by str_lt providers) example_ids))
          p
          (run_provider_pilot example_ids known providers p)
  unfolding run_provider_pilot
  run_provider_pilot-Ends most example_ids known providers p few covered =
      rw covered (run_examples-Ends most (pairs_of (sort_by str_lt providers) example_ids) p few)
