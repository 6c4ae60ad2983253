-- ===== src/Comparison/Transitions.antt =====
-- What `build_failure_transitions` of src/evalops/workspace/comparison/failures.py returns.
use evalops_lab.Common.{
  String, ◌≡◌, refl, ◌↔◌, true, false, not, Bool-cases, subst, >>=-eq-ok, Result, raise, length,
  nat_eq, if◌then◌else◌, ◌&&◌, some, List, [], ◌∷◌, ok, each, All, All-sort_by, All-member_self,
  Dict, keys, lookup, member, member-keys, same_set, subset-member, sort_by, str_lt, ◌==◌,
  string_eq, arith, Option-cases, inl, inr,
}
use evalops_lab.Failures.{FailureCategory, pass, category_eq}
use evalops_lab.Retrieval.Evaluation.{PerQueryRetrievalResult}
use evalops_lab.Comparison.Evidence.{
  EvaluationResult, Payload, valid, malformed, PerQueryEvidence, not_a_dict, entries,
}
use evalops_lab.Comparison.Failures.{
  QueryFailureTransition, TransitionError, missing_evidence, regressed, improved, checked_entries,
  per_query, outcome, transition_of, build_failure_transitions,
}

outcome-regressed :
    (a b : FailureCategory) → (outcome a b ≡ regressed) ↔ (a == pass && not (b == pass) ≡ true)
unfolding outcome
outcome-regressed a b = ground arith

outcome-improved :
    (a b : FailureCategory) → (outcome a b ≡ improved) ↔ (not (a == pass) && b == pass ≡ true)
unfolding outcome
outcome-improved a b = ground arith

-- A query that both runs have and that has a name.
abbrev Shared : List String → List String → String → Type 0
Shared old new q = (member q old ≡ true) × (member q new ≡ true) × ((q == "") ≡ false)

same_set-All :
    (old new qs : List String)
    → same_set old new ≡ true
    → All (λ q. member q old ≡ true) qs
    → All (λ q. (q == "") ≡ false) qs
    → All (Shared old new) qs
same_set-All old new [] same h named = tt
same_set-All old new (q ∷ qs) same h named = (
  (h.0, subset-member q old new (ground arith) h.0, named.0),
  same_set-All old new qs same h.1 named.1,
)

module _ {N : Type 0} where
  -- A transition of a query: its two results, and its outcome by their categories.
  pub record IsTransition (old new : Dict String (PerQueryRetrievalResult N)) (q : String)
      (t : QueryFailureTransition N) : Type 0 where
    pub before : PerQueryRetrievalResult N
    pub later : PerQueryRetrievalResult N
    pub found_before : lookup q old ≡ some before
    pub found_later : lookup q new ≡ some later
    pub same_query : t.query_id ≡ q
    pub baseline : t.baseline_category ≡ before.failure_category
    pub candidate : t.candidate_category ≡ later.failure_category
    pub regression :
        (t.transition ≡ regressed)
        ↔ (before.failure_category == pass && not (later.failure_category == pass) ≡ true)
    pub improvement :
        (t.transition ≡ improved)
        ↔ (not (before.failure_category == pass) && later.failure_category == pass ≡ true)

  -- One transition for each query, in order.
  abbrev pub Transitions :
      Dict String (PerQueryRetrievalResult N)
      → Dict String (PerQueryRetrievalResult N)
      → List String
      → List (QueryFailureTransition N)
      → Type 0
  Transitions old new [] [] = Unit
  Transitions old new (q ∷ qs) (t ∷ ts) = IsTransition old new q t × Transitions old new qs ts
  Transitions old new _ _ = ⊥

  member-lookup :
      (q : String) (d : Dict String (PerQueryRetrievalResult N))
      → member q (keys d) ≡ true
      → (r : PerQueryRetrievalResult N) × (lookup q d ≡ some r)
  member-lookup q d h = elim (Option-cases (lookup q d)) [
    | inl e ↦ absurd (ground (arith, member-keys q d))
    | inr (r, e) ↦ (r, e)
  ]

  -- The queries of the evidence that is read have names.
  checked_entries_named :
      (d : Dict String (Payload N)) (r : Dict String (PerQueryRetrievalResult N))
      → checked_entries d ≡ ok r
      → All (λ q. (q == "") ≡ false) (keys r)
  unfolding checked_entries
  checked_entries_named [] r h =
      let made : [] ≡ r = cc h in
      subst (λ (x : Dict String (PerQueryRetrievalResult N)). All (λ q. (q == "") ≡ false) (keys x))
        made tt
  checked_entries_named ((q, malformed) ∷ rest) r h = elim (Bool-cases (q == "")) [
    | inl unnamed ↦ cc (rw unnamed at h)
    | inr named ↦ cc (rw named at h)
  ]
  checked_entries_named ((q, valid v) ∷ rest) r h = elim (Bool-cases (q == "")) [
    | inl unnamed ↦ cc (rw unnamed at h)
    | inr named ↦
        let (others, more, made) =
          >>=-eq-ok (checked_entries rest) (λ others. ok ((q, v) ∷ others)) (rw named at h) in
        let same : (q, v) ∷ others ≡ r = cc made in
        subst
          (λ (x : Dict String (PerQueryRetrievalResult N)). All (λ q. (q == "") ≡ false) (keys x))
          same (named, checked_entries_named rest others more)
  ]

  per_query_named :
      (result : EvaluationResult N) (r : Dict String (PerQueryRetrievalResult N))
      → per_query result ≡ ok r
      → All (λ q. (q == "") ≡ false) (keys r)
  unfolding per_query
  per_query_named result r h = entries_named result.per_query h
    where
      entries_named :
          (e : PerQueryEvidence N)
          → (elim e as (λ _. Result TransitionError (Dict String (PerQueryRetrievalResult N))) [
            | not_a_dict ↦ raise missing_evidence
            | entries d ↦ if length d == 0 then raise missing_evidence else checked_entries d
          ])
            ≡ ok r
          → All (λ q. (q == "") ≡ false) (keys r)
      entries_named not_a_dict g = cc g
      entries_named (entries d) g = elim (Bool-cases (length d == 0)) [
        | inl empty ↦ cc (rw empty at g)
        | inr filled ↦ checked_entries_named d r (rw filled at g)
      ]

  transition_of-IsTransition :
      (old new : Dict String (PerQueryRetrievalResult N)) (q : String)
      → member q (keys old) ≡ true
      → member q (keys new) ≡ true
      → (q == "") ≡ false
      → (t : QueryFailureTransition N) × (transition_of old new q ≡ ok t) × IsTransition old new q t
  unfolding transition_of
  transition_of-IsTransition old new q h k named =
      let (a, ea) = member-lookup q old h in
      let (b, eb) = member-lookup q new k in
      let t : QueryFailureTransition N = record {
        query_id = q;
        transition = outcome a.failure_category b.failure_category;
        baseline_category = a.failure_category;
        candidate_category = b.failure_category;
        baseline_metrics = a.metrics;
        candidate_metrics = b.metrics;
      } in
      (
        t,
        rw (ea, transition_of) (rw (eb, named) refl),
        record {
          before = a;
          later = b;
          found_before = ea;
          found_later = eb;
          same_query = refl;
          baseline = refl;
          candidate = refl;
          regression = outcome-regressed a.failure_category b.failure_category;
          improvement = outcome-improved a.failure_category b.failure_category;
        },
      )

  each-Transitions :
      (old new : Dict String (PerQueryRetrievalResult N)) (qs : List String)
      → All (Shared (keys old) (keys new)) qs
      → (ts : List (QueryFailureTransition N)) × (each (transition_of old new) qs ≡ ok ts)
        × Transitions old new qs ts
  each-Transitions old new [] h = ([], refl, tt)
  each-Transitions old new (q ∷ qs) h =
      let (t, one, is) = transition_of-IsTransition old new q h.0.0 h.0.1 h.0.2 in
      let (ts, more, rest) = each-Transitions old new qs h.1 in
      (t ∷ ts, rw (one, more) refl, (is, rest))

  -- The transitions of shared queries are built.
  built :
      (baseline candidate : EvaluationResult N) (old new : Dict String (PerQueryRetrievalResult N))
      → baseline.evaluation_type ≡ "retrieval"
      → candidate.evaluation_type ≡ "retrieval"
      → per_query baseline ≡ ok old
      → per_query candidate ≡ ok new
      → same_set (keys old) (keys new) ≡ true
      → All (Shared (keys old) (keys new)) (sort_by str_lt (keys old))
      → (ts : List (QueryFailureTransition N)) × (build_failure_transitions baseline candidate
          ≡ ok ts)
        × Transitions old new (sort_by str_lt (keys old)) ts
  unfolding build_failure_transitions
  built baseline candidate old new hb hc ho hn same shared =
      let (ts, made, fits) = each-Transitions old new (sort_by str_lt (keys old)) shared in
      (ts, rw (hb, hc, ho, hn, same, made) refl, fits)

  -- If both results are of a retrieval evaluation with valid evidence over the same queries, then
  -- the transitions are returned, one for each query of the baseline in the order of the
  -- identifiers. Each has the categories of the query's two results, and it is a regression exactly
  -- when the query passed before and does not now, and an improvement exactly when it did not and
  -- does now.
  pub build_failure_transitions_total :
      (baseline candidate : EvaluationResult N) (old new : Dict String (PerQueryRetrievalResult N))
      → baseline.evaluation_type ≡ "retrieval"
      → candidate.evaluation_type ≡ "retrieval"
      → per_query baseline ≡ ok old
      → per_query candidate ≡ ok new
      → same_set (keys old) (keys new) ≡ true
      → (ts : List (QueryFailureTransition N)) × (build_failure_transitions baseline candidate
          ≡ ok ts)
        × Transitions old new (sort_by str_lt (keys old)) ts
  build_failure_transitions_total baseline candidate old new hb hc ho hn same =
      built baseline candidate old new hb hc ho hn same (
        All-sort_by (Shared (keys old) (keys new)) str_lt (keys old) (
          same_set-All (keys old) (keys new) (keys old) same (All-member_self (keys old))
            (per_query_named baseline old ho)))
