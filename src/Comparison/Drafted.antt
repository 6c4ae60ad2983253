-- ===== src/Comparison/Drafted.antt =====
-- What `create_comparison` of src/evalops/workspace/application/comparisons.py has established when it has built
-- its record.
use evalops_lab.Common.{
  ℕ, String, ◌≡◌, refl, ap, subst, ◌∙◌, false, not, Option, none, some, List, Result, ok, raise,
  Float, ◌==◌, ==_iff, string_eq, arith,
}
use evalops_lab.Datasets.{Reader}
use evalops_lab.Models.Inputs.{InputKind}
use evalops_lab.Models.Runs.{RunSnapshot, RunProvenance}
use evalops_lab.Models.Workspaces.{BaselinePointer}
use evalops_lab.Comparison.Evidence.{EvaluationResult}
use evalops_lab.Comparison.Failures.{QueryFailureTransition}
use evalops_lab.Comparison.Compatibility.{
  ComparisonCompatibilityStatus, comparable, ComparisonCompatibility, RetrievalPopulationEvidence,
  assess_local_retrieval_compatibility,
}
use evalops_lab.Regression.{MetricRule, compare_metrics}
use evalops_lab.Storage.Codec.{Codec}
use evalops_lab.Storage.Disk.{StoreError, storage, Disk}
use evalops_lab.Storage.Actions.{
  call_as, Reads, query-Reads, check-Reads, return-Reads, >>=-Reads, call_as-Reads,
  read_first-eq-ok, call_as-eq-ok, call_query-eq-ok, query-eq-ok, check-eq-ok, return-eq-ok,
}
use evalops_lab.Storage.Runs.{get_run_snapshot}
use evalops_lab.Storage.Evidence.{get_run_artifacts}
use evalops_lab.Comparison.Service.{
  ComparisonMode, canonical, ComparisonRecord, ServiceError, of_store, Digestible, get_baseline,
  or_raise, load_population_input, load_verified_population, report_comparison, draft_comparison,
  is_refused, build_workspace_retrieval_rules, raised_as, of_metrics,
}

pub get_run_artifacts-Reads :
    {N : Type 0} (codec : Codec N) (ws run : String) → Reads (get_run_artifacts codec ws run)
unfolding get_run_artifacts
get_run_artifacts-Reads codec ws run = >>=-Reads _ _ (query-Reads _) λ snapshot.
    >>=-Reads _ _ (query-Reads _) λ jobs. >>=-Reads _ _ (query-Reads _) λ completed.
      >>=-Reads _ _ (query-Reads _) λ _. >>=-Reads _ _ (check-Reads _ _) λ _.
        >>=-Reads _ _ (check-Reads _ _) λ _. >>=-Reads _ _ (query-Reads _) λ content.
          >>=-Reads _ _ (query-Reads _) λ p. >>=-Reads _ _ (check-Reads _ _) λ _.
            >>=-Reads _ _ (query-Reads _)
              λ result. >>=-Reads _ _ (check-Reads _ _) λ _. return-Reads StoreError (result, p)

module _ (reader : Reader) (sha256 : String → String) (digest : Digestible → String) where
  load_population_input-Reads :
      (ws input sha : String) (kind : InputKind)
      → Reads (load_population_input reader sha256 digest ws input sha kind)
  unfolding load_population_input
  load_population_input-Reads ws input sha kind =
      >>=-Reads _ _ (call_as-Reads _ _ (query-Reads _)) λ m.
        >>=-Reads _ _ (check-Reads _ _)
          λ _. >>=-Reads _ _ (call_as-Reads _ _ (query-Reads _)) λ content. query-Reads _

  pub load_verified_population-Reads :
      (s : RunSnapshot) → Reads (load_verified_population reader sha256 digest s)
  unfolding load_verified_population
  load_verified_population-Reads s =
      >>=-Reads _ _ (load_population_input-Reads _ _ _ _)
        λ truth. >>=-Reads _ _ (load_population_input-Reads _ _ _ _) λ predictions. query-Reads _

module _ (fl : Float) (show : ℕ → String) (reader : Reader) (codec : Codec fl.Number)
    (digest : Digestible → String) (ws candidate id : String) (mode : ComparisonMode)
    (now : ℕ) where
  open fl use {Number}

  -- A record that was built.
  pub record IsDrafted (d : Disk) (r : ComparisonRecord Number) : Type 0 where
    pub pointer : BaselinePointer
    pub pinned : get_baseline ws d ≡ ok (some pointer)
    pub apart : (candidate == pointer.run_id) ≡ false
    pub old_result : EvaluationResult Number
    pub old_provenance : RunProvenance
    pub old_read :
        get_run_artifacts codec ws pointer.run_id d ≡ (ok (old_result, old_provenance), d)
    pub unchanged : old_provenance.result_sha256 ≡ pointer.result_sha256
    pub new_result : EvaluationResult Number
    pub new_provenance : RunProvenance
    pub new_read : get_run_artifacts codec ws candidate d ≡ (ok (new_result, new_provenance), d)
    pub old_run : r.baseline_run_id ≡ pointer.run_id
    pub old_digest : r.baseline_result_sha256 ≡ pointer.result_sha256
    pub new_run : r.candidate_run_id ≡ candidate
    pub new_digest : r.candidate_result_sha256 ≡ new_provenance.result_sha256
    pub old_snapshot : RunSnapshot
    pub old_snapshot_read : get_run_snapshot ws pointer.run_id d ≡ ok old_snapshot
    pub new_snapshot : RunSnapshot
    pub new_snapshot_read : get_run_snapshot ws candidate d ≡ ok new_snapshot
    pub old_population : RetrievalPopulationEvidence
    pub old_inputs_read :
        load_verified_population reader codec.sha256 digest old_snapshot d ≡ (ok old_population, d)
    pub new_population : RetrievalPopulationEvidence
    pub new_inputs_read :
        load_verified_population reader codec.sha256 digest new_snapshot d ≡ (ok new_population, d)
    pub assessed :
        r.compatibility
        ≡ assess_local_retrieval_compatibility show old_snapshot old_result new_snapshot new_result
            (some old_population)
            (some new_population)
    pub rules : List (MetricRule Number)
    pub rules_built : build_workspace_retrieval_rules fl show new_snapshot.config.top_k ≡ ok rules
    pub compared :
        compare_metrics fl new_result.metrics old_result.metrics rules ≡ ok r.regression_report
    pub judged : mode ≡ canonical → r.compatibility.status ≡ comparable

  -- What the record repeats of its arguments.
  record IsReported (pointer : BaselinePointer) (sha : String) (old new : EvaluationResult Number)
      (s : RunSnapshot) (compatibility : ComparisonCompatibility) (c : ComparisonRecord Number)
      : Type 0 where
    rules : List (MetricRule Number)
    rules_built : build_workspace_retrieval_rules fl show s.config.top_k ≡ ok rules
    compared : compare_metrics fl new.metrics old.metrics rules ≡ ok c.regression_report
    old_run : c.baseline_run_id ≡ pointer.run_id
    old_digest : c.baseline_result_sha256 ≡ pointer.result_sha256
    new_run : c.candidate_run_id ≡ candidate
    new_digest : c.candidate_result_sha256 ≡ sha
    same_compatibility : c.compatibility ≡ compatibility
    judged : mode ≡ canonical → c.compatibility.status ≡ comparable

  pub report_comparison-Reads :
      (pointer : BaselinePointer) (sha : String) (old new : EvaluationResult Number)
      (s : RunSnapshot) (compatibility : ComparisonCompatibility)
      → Reads (
          report_comparison fl show reader codec digest ws candidate mode id now pointer sha old new
            s compatibility)
  unfolding report_comparison
  report_comparison-Reads pointer sha old new s compatibility = >>=-Reads _ _ (check-Reads _ _) λ _.
      >>=-Reads _ _ (query-Reads _)
        λ rules. >>=-Reads _ _ (query-Reads _) λ report. return-Reads ServiceError _

  judged_lem :
      (m : ComparisonMode) (s : ComparisonCompatibilityStatus)
      → is_refused fl show reader codec digest m s ≡ false
      → m ≡ canonical
      → s ≡ comparable
  judged_lem m s h e = ground (arith, h, e)

  raised_as-eq-ok :
      {E A : Type 0} (f : E → ServiceError) (o : Result E A) {a : A}
      → raised_as f o ≡ ok a
      → o ≡ ok a
  raised_as-eq-ok f (ok a) h = cc h
  raised_as-eq-ok f (raise e) h = cc h

  report_comparison-IsReported :
      (pointer : BaselinePointer) (sha : String) (old new : EvaluationResult Number)
      (s : RunSnapshot) (compatibility : ComparisonCompatibility) (d d' : Disk)
      (c : ComparisonRecord Number)
      → report_comparison fl show reader codec digest ws candidate mode id now pointer sha old new s
          compatibility d
        ≡ (ok c, d')
      → IsReported pointer sha old new s compatibility c
  unfolding report_comparison
  report_comparison-IsReported pointer sha old new s compatibility d d' c h =
      let (allowed, h1) = check-eq-ok _ _ _ d h in
      let (rules, built, h2) = query-eq-ok _ _ d h1 in
      let (report, compares, h3) = query-eq-ok _ _ d h2 in
      let (same, _) = return-eq-ok _ d h3 in
      subst (IsReported pointer sha old new s compatibility) same (record {
        rules = rules;
        rules_built = built;
        compared = raised_as-eq-ok of_metrics _ compares;
        old_run = refl;
        old_digest = refl;
        new_run = refl;
        new_digest = refl;
        same_compatibility = refl;
        judged = judged_lem mode compatibility.status allowed;
      })

  drafted :
      (d : Disk) (pointer : BaselinePointer) (baseline : Option BaselinePointer)
      (old new : EvaluationResult Number × RunProvenance) (old_snapshot new_snapshot : RunSnapshot)
      (old_population new_population : RetrievalPopulationEvidence) (c : ComparisonRecord Number)
      → get_baseline ws d ≡ ok baseline
      → or_raise (of_store (storage "no pinned workspace baseline")) baseline ≡ ok pointer
      → (candidate == pointer.run_id) ≡ false
      → call_as of_store (get_run_artifacts codec ws pointer.run_id) d ≡ (ok old, d)
      → call_as of_store (get_run_artifacts codec ws candidate) d ≡ (ok new, d)
      → not (old.1.result_sha256 == pointer.result_sha256) ≡ false
      → get_run_snapshot ws pointer.run_id d ≡ ok old_snapshot
      → get_run_snapshot ws candidate d ≡ ok new_snapshot
      → load_verified_population reader codec.sha256 digest old_snapshot d ≡ (ok old_population, d)
      → load_verified_population reader codec.sha256 digest new_snapshot d ≡ (ok new_population, d)
      → IsReported pointer new.1.result_sha256 old.0 new.0 new_snapshot
          (assess_local_retrieval_compatibility show old_snapshot old.0 new_snapshot new.0
            (some old_population)
            (some new_population))
          c
      → IsDrafted d c
  drafted d pointer none old new old_snapshot new_snapshot old_population new_population c pinned
        given apart old_read new_read unchanged old_run new_run old_inputs new_inputs reported =
      cc given
  drafted d pointer (some b) old new old_snapshot new_snapshot old_population new_population c
        pinned given apart old_read new_read unchanged old_run new_run old_inputs new_inputs
        reported =
      record {
        pointer = pointer;
        pinned = pinned ∙ ap (λ x. ok (some x)) (cc given);
        apart = apart;
        old_result = old.0;
        old_provenance = old.1;
        old_read = call_as-eq-ok of_store _ d old_read;
        unchanged = ground (arith, unchanged, ==_iff old.1.result_sha256 pointer.result_sha256);
        new_result = new.0;
        new_provenance = new.1;
        new_read = call_as-eq-ok of_store _ d new_read;
        old_run = reported.old_run;
        old_digest = reported.old_digest;
        new_run = reported.new_run;
        new_digest = reported.new_digest;
        old_snapshot = old_snapshot;
        old_snapshot_read = old_run;
        new_snapshot = new_snapshot;
        new_snapshot_read = new_run;
        old_population = old_population;
        old_inputs_read = old_inputs;
        new_population = new_population;
        new_inputs_read = new_inputs;
        assessed = reported.same_compatibility;
        rules = reported.rules;
        rules_built = reported.rules_built;
        compared = reported.compared;
        judged = reported.judged;
      }

  -- If `create_comparison` comes to build a record, then a baseline was pinned and is not the
  -- candidate, the evidence of both runs was verified by the store, the digest of the baseline is
  -- still the pinned one, the record names these two runs and the verified digests and has the
  -- compatibility and the report that are computed of this evidence, and in the canonical mode the
  -- runs were found comparable.
  pub draft_comparison-IsDrafted :
      (d d' : Disk) (r : ComparisonRecord Number)
      (rows : Option (List (QueryFailureTransition Number)))
      → draft_comparison fl show reader codec digest ws candidate mode id now d ≡ (ok (r, rows), d')
      → IsDrafted d r
  unfolding draft_comparison
  draft_comparison-IsDrafted d d' r rows h =
      let (baseline, pinned, h1) = call_query-eq-ok of_store (get_baseline ws) _ d h in
      let (pointer, given, h2) = query-eq-ok _ _ d h1 in
      let (apart, h3) = check-eq-ok _ _ _ d h2 in
      let (old, old_read, h4) =
        read_first-eq-ok _ _ d
          (call_as-Reads of_store _ (get_run_artifacts-Reads codec ws pointer.run_id)) h3 in
      let (new, new_read, h5) =
        read_first-eq-ok _ _ d
          (call_as-Reads of_store _ (get_run_artifacts-Reads codec ws candidate)) h4 in
      let (unchanged, h6) = check-eq-ok _ _ _ d h5 in
      let (old_snapshot, old_run, h7) =
        call_query-eq-ok of_store (get_run_snapshot ws pointer.run_id) _ d h6 in
      let (new_snapshot, new_run, h8) =
        call_query-eq-ok of_store (get_run_snapshot ws candidate) _ d h7 in
      let (old_population, old_inputs, h9) =
        read_first-eq-ok _ _ d
          (load_verified_population-Reads reader codec.sha256 digest old_snapshot) h8 in
      let (new_population, new_inputs, h10) =
        read_first-eq-ok _ _ d
          (load_verified_population-Reads reader codec.sha256 digest new_snapshot) h9 in
      let (c, reporting, h11) =
        read_first-eq-ok _ _ d
          (report_comparison-Reads pointer new.1.result_sha256 old.0 new.0 new_snapshot _) h10 in
      let (found, _, h12) = query-eq-ok _ _ d h11 in
      let (same, _) = return-eq-ok _ d h12 in
      let reported =
        report_comparison-IsReported pointer new.1.result_sha256 old.0 new.0 new_snapshot _ d d c
          reporting in
      subst (IsDrafted d)
        (ap (λ (x : ComparisonRecord Number × Option (List (QueryFailureTransition Number))). x.0)
          same)
        (drafted d pointer baseline old new old_snapshot new_snapshot old_population new_population
          c pinned given apart old_read new_read unchanged old_run new_run old_inputs new_inputs
          reported)
