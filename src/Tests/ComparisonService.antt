-- ===== src/Tests/ComparisonService.antt =====
-- The theorem of Comparison/Drafted on two completed runs over the same inputs.
use evalops_lab.Common.{
  ℕ, String, ◌≡◌, refl, false, none, some, [], ◌∷◌, List, ok, fractions, ◌==◌, string_eq,
  if◌then◌else◌,
}
use evalops_lab.Datasets.{
  Reader, load_lines, load_retrieval_ground_truth, load_retrieval_predictions,
  load_unique_query_records,
}
use evalops_lab.Failures.{pass}
use evalops_lab.Jobs.States.{complete}
use evalops_lab.Jobs.Record.{JobRecord}
use evalops_lab.Models.Runs.{RunConfig, RunSnapshot, RunProvenance, config_beq}
use evalops_lab.Models.Inputs.{
  InputManifest, InputKind, retrieval_ground_truth, retrieval_predictions, imported,
}
use evalops_lab.Retrieval.{passing}
use evalops_lab.Comparison.Evidence.{EvaluationResult, entries, valid}
use evalops_lab.Comparison.Failures.{
  QueryFailureTransition, unchanged_pass, build_failure_transitions, checked_entries, outcome,
  per_query, transition_of,
}
use evalops_lab.Comparison.Compatibility.{
  comparable, all_checks, assess_local_retrieval_compatibility, config_checks, coverage_checks,
  identity_check, population_checks, safe_difference,
}
use evalops_lab.Regression.{
  MetricComparison, higher_is_better, missing, no_current, beyond_limit, compare_metrics,
  compare_one, compare_values, regressed,
}
use evalops_lab.Comparison.Service.{
  ComparisonRecord, canonical, Digestible, identifiers, relevance, draft_comparison, get_baseline,
  build_workspace_retrieval_rules, canonical_population_evidence, failure_rows,
  load_population_input, load_verified_population, report_comparison,
}
use evalops_lab.Storage.Codec.{Codec}
use evalops_lab.Storage.Disk.{Disk, file, child, read_model}
use evalops_lab.Storage.Actions.{◌>>=◌, call_as, query, check, return}
use evalops_lab.Storage.Registry.{get_workspace_state}
use evalops_lab.Storage.Workspaces.{get_workspace, load_registry, load_workspace, workspace_path}
use evalops_lab.Storage.Identifiers.{is_workspace_id, is_run_id, is_job_id, is_input_id}
use evalops_lab.Storage.Evidence.{get_run_artifacts, repeats_snapshot}
use evalops_lab.Storage.Runs.{get_run_snapshot, run_config_path}
use evalops_lab.Storage.Jobs.{
  list_job_records, get_job_record, job_path, jobs_directory, list_entry,
}
use evalops_lab.Runs.Pairing.{load_records}
use evalops_lab.Storage.Inputs.{
  get_input, imported_path, input_manifest_path, read_imported, read_input_bytes, read_referenced,
  section_path,
}
use evalops_lab.Tests.Samples.{
  ws_id, run_id, job_id, first_job, sample_config, sample_snapshot, disk_with,
}

abbrev pub other_run : String
other_run = "run-1123456789abcdef0123456789abcdef"

abbrev other_job : String
other_job = "job-1123456789abcdef0123456789abcdef"

abbrev pub comparison_id : String
comparison_id = "comparison-0123456789abcdef0123456789abcdef"

abbrev input : String → InputKind → InputManifest
input id kind = record {
  input_id = id;
  kind = kind;
  source_mode = imported;
  content_sha256 = "a";
  source_sha256 = "a";
  record_count = 1;
  source_path = none;
  stored_relative_path = none;
  source_filename = none;
  created_at = 1;
}

abbrev config_of : String → RunConfig
config_of run = record sample_config { run_id = run }

abbrev snapshot_of : String → RunSnapshot
snapshot_of run = record sample_snapshot {
  run_id = run;
  predictions_content_sha256 = "a";
  config = config_of run;
}

abbrev provenance_of : String → String → RunProvenance
provenance_of run digest = record {
  run_id = run;
  ground_truth_input_id = sample_snapshot.ground_truth_input_id;
  ground_truth_content_sha256 = "a";
  predictions_input_id = sample_snapshot.predictions_input_id;
  predictions_content_sha256 = "a";
  evaluator_versions = [];
  evalops_version = "1.0";
  git_commit = none;
  completed_at = 19;
  result_sha256 = digest;
}

abbrev result_of : String → EvaluationResult (ℕ × ℕ)
result_of run = record {
  evaluation_type = "retrieval";
  run = config_of run;
  metrics = [];
  per_query = entries (
      ("a", valid (record { metrics = []; failure_category = pass; classification = passing }))
      ∷ []);
  prediction_query_count = some 1;
}

abbrev pub codec : Codec (ℕ × ℕ)
codec = record {
  encode = λ r. r.evaluation_type;
  decode = λ s. some (result_of (if s == "old" then run_id else other_run));
  sha256 = λ s. s;
}

abbrev pub reader : Reader
reader = record {
  lines = λ content. some (content ∷ []);
  is_blank = λ _. false;
  ground_truth = λ line. some (line, "d1" ∷ []);
  prediction = λ line. some (line, "d1" ∷ []);
}

abbrev first_of : List String → String
first_of [] = ""
first_of (x ∷ xs) = x

abbrev pub digest : Digestible → String
digest (identifiers ids) = first_of ids
digest (relevance rows) = "relevance"

abbrev done : String → String → JobRecord
done job run = record first_job { job_id = job; run_id = run; state = complete; revision = 5 }

abbrev pub two_runs : Disk
two_runs = record (disk_with first_job) {
  states =
      (
        ws_id,
        file (record {
          baseline = some (record { run_id = run_id; result_sha256 = "old"; pinned_at = 21 });
        }),
      )
      ∷ [];
  run_configs =
      ((ws_id, run_id), file (snapshot_of run_id))
      ∷ ((ws_id, other_run), file (snapshot_of other_run))
      ∷ [];
  results = ((ws_id, run_id), file "old") ∷ ((ws_id, other_run), file "new") ∷ [];
  provenances =
      ((ws_id, run_id), file (provenance_of run_id "old"))
      ∷ ((ws_id, other_run), file (provenance_of other_run "new"))
      ∷ [];
  jobs =
      ((ws_id, job_id), child (file (done job_id run_id)))
      ∷ ((ws_id, other_job), child (file (done other_job other_run)))
      ∷ [];
  inputs =
      (
        (ws_id, sample_snapshot.ground_truth_input_id),
        file (input sample_snapshot.ground_truth_input_id retrieval_ground_truth),
      )
      ∷ (
        (ws_id, sample_snapshot.predictions_input_id),
        file (input sample_snapshot.predictions_input_id retrieval_predictions),
      )
      ∷ [];
  imported =
      ((ws_id, sample_snapshot.ground_truth_input_id), file "a")
      ∷ ((ws_id, sample_snapshot.predictions_input_id), file "a")
      ∷ [];
}

abbrev pub unchanged : QueryFailureTransition (ℕ × ℕ)
unchanged = record {
  query_id = "a";
  transition = unchanged_pass;
  baseline_category = pass;
  candidate_category = pass;
  baseline_metrics = [];
  candidate_metrics = [];
}

abbrev not_measured : String → MetricComparison (ℕ × ℕ)
not_measured name = record {
  metric_name = name;
  direction = higher_is_better;
  baseline = none;
  current = none;
  delta = none;
  status = missing;
  reason = no_current;
}

abbrev pub compared : ComparisonRecord (ℕ × ℕ)
compared = record {
  comparison_id = comparison_id;
  workspace_id = ws_id;
  mode = canonical;
  compatibility = record { status = comparable; reasons = [] };
  baseline_run_id = run_id;
  baseline_result_sha256 = "old";
  candidate_run_id = other_run;
  candidate_result_sha256 = "new";
  policy_version = "workspace-retrieval-regression-v1";
  regression_report = record {
    passed = false;
    comparisons =
        not_measured "precision_at_5"
        ∷ not_measured "recall_at_5"
        ∷ not_measured "hit_rate_at_5"
        ∷ not_measured "mrr"
        ∷ not_measured "ndcg_at_5"
        ∷ [];
  };
  created_at = 30;
}

abbrev drafted_on : Disk
drafted_on =
    (draft_comparison fractions (λ _. "5") reader codec digest ws_id other_run canonical
      comparison_id 30 two_runs).1

drafts :
    draft_comparison fractions
      (λ _. "5")
      reader
      codec
      digest
      ws_id
      other_run
      canonical
      comparison_id
      30
      two_runs
    ≡ (ok (compared, some (unchanged ∷ [])), drafted_on)
unfolding draft_comparison ◌>>=◌ call_as query get_baseline get_workspace_state get_workspace
    read_model is_workspace_id check get_run_artifacts get_run_snapshot is_run_id list_job_records
    get_job_record is_job_id config_beq return all_checks assess_local_retrieval_compatibility
    config_checks coverage_checks identity_check population_checks safe_difference
    build_failure_transitions checked_entries outcome per_query transition_of
    build_workspace_retrieval_rules canonical_population_evidence failure_rows load_population_input
    load_verified_population report_comparison load_lines load_retrieval_ground_truth
    load_retrieval_predictions load_unique_query_records beyond_limit compare_metrics compare_one
    compare_values regressed load_records repeats_snapshot is_input_id get_input imported_path
    input_manifest_path read_imported read_input_bytes read_referenced section_path job_path
    jobs_directory list_entry run_config_path load_registry load_workspace workspace_path
drafts = refl
