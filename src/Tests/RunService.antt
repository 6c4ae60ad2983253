-- ===== src/Tests/RunService.antt =====
-- The theorems of Runs on a workspace with two registered inputs.
use evalops_lab.Common.{ℕ, String, ◌≡◌, ◌⊎◌, refl, false, none, some, [], ◌∷◌, List, ok, fractions}
use evalops_lab.Datasets.{
  Reader, load_lines, load_unique_query_records, load_retrieval_ground_truth,
  load_retrieval_predictions,
}
use evalops_lab.Jobs.Record.{validate_state}
use evalops_lab.Jobs.Finishing.{IsSettled}
use evalops_lab.Jobs.Queue.{transition}
use evalops_lab.Models.Runs.{RunSnapshot, config_beq}
use evalops_lab.Models.Inputs.{
  InputManifest, InputKind, retrieval_ground_truth, retrieval_predictions, imported,
}
use evalops_lab.Comparison.Evidence.{not_a_dict}
use evalops_lab.Storage.Codec.{Codec}
use evalops_lab.Storage.Disk.{Disk, file, read_model, atomic_write}
use evalops_lab.Storage.Workspaces.{get_workspace}
use evalops_lab.Storage.Identifiers.{is_workspace_id, is_run_id, is_job_id, is_input_id}
use evalops_lab.Storage.Actions.{◌>>=◌, return, query, check, atomic_create, call_as}
use evalops_lab.Storage.Runs.{run_config_path, get_run_snapshot}
use evalops_lab.Storage.Inputs.{
  section_path, input_manifest_path, imported_path, get_input, read_imported, read_input_bytes,
}
use evalops_lab.Storage.Jobs.{
  get_job_record, update_job_record, next_record, list_job_records, list_entry,
}
use evalops_lab.Storage.Evidence.{write_run_artifacts, check_evidence, promote, repeats_snapshot}
use evalops_lab.Runs.Pairing.{
  RetrievalPairValidation, load_records, read_registered, compare_populations,
  validate_retrieval_pair,
}
use evalops_lab.Runs.Creation.{CreateRetrievalRun, create_retrieval_run}
use evalops_lab.Runs.Populations.{IsPartition, validate_retrieval_pair-IsPartition}
use evalops_lab.Runs.Execution.{
  Others, execute_job, advance, advance_loop, or_again, evaluate_inputs, evaluation_phase,
  write_phase, persist_result, with_inputs, check_cancel, run_retrieval_evaluation,
}
use evalops_lab.Retrieval.{
  precision_at_k, recall_at_k, hit_rate_at_k, ndcg_at_k, mean_reciprocal_rank, classify_retrieval,
  relevance_map, validate_k,
}
use evalops_lab.Retrieval.Evaluation.{
  evaluate_retrieval, evaluate_queries, evaluate_query, macro_metrics, metric_names,
}
use evalops_lab.Runs.Outcome.{execute_job_ends}
use evalops_lab.Tests.Samples.{
  ws_id, job_id, validating_job, sample_config, sample_snapshot, disk_with,
}

abbrev second_run : String
second_run = "run-1123456789abcdef0123456789abcdef"

abbrev sample_input : String → InputKind → String → InputManifest
sample_input id kind sha = record {
  input_id = id;
  kind = kind;
  source_mode = imported;
  content_sha256 = sha;
  source_sha256 = sha;
  record_count = 1;
  source_path = none;
  stored_relative_path = none;
  source_filename = none;
  created_at = 1;
}

abbrev truth_id : String
truth_id = sample_snapshot.ground_truth_input_id

abbrev predictions_id : String
predictions_id = sample_snapshot.predictions_input_id

-- Each input has one line: its content is the query, with one document.
abbrev reader : Reader
reader = record {
  lines = λ content. some (content ∷ []);
  is_blank = λ _. false;
  ground_truth = λ line. some (line, "d1" ∷ []);
  prediction = λ line. some (line, "d1" ∷ []);
}

abbrev digest : String → String
digest content = content

abbrev ready : Disk
ready = record (disk_with validating_job) {
  inputs =
      ((ws_id, truth_id), file (sample_input truth_id retrieval_ground_truth "a"))
      ∷ ((ws_id, predictions_id), file (sample_input predictions_id retrieval_predictions "b"))
      ∷ [];
  imported = ((ws_id, truth_id), file "a") ∷ ((ws_id, predictions_id), file "b") ∷ [];
}

abbrev request : CreateRetrievalRun
request = record {
  run_name = "second";
  ground_truth_input_id = truth_id;
  predictions_input_id = predictions_id;
  top_k = 5;
  system_name = "bm25";
  dataset_name = "thai-support";
  dataset_version = "1";
}

abbrev disjoint : RetrievalPairValidation
disjoint = compare_populations (("a", "d1" ∷ []) ∷ []) (("b", "d1" ∷ []) ∷ [])

validated : validate_retrieval_pair reader digest ws_id truth_id predictions_id ready ≡ ok disjoint
unfolding validate_retrieval_pair get_workspace read_model is_workspace_id get_input is_input_id
    read_input_bytes load_retrieval_ground_truth load_retrieval_predictions
validated = refl

validate_retrieval_pair-IsPartition_example :
    (truth : InputManifest × List (String × List String)) × (predictions : InputManifest
      × List (String × List String))
    × (read_registered reader digest ws_id truth_id retrieval_ground_truth ready ≡ ok truth)
    × (read_registered reader digest ws_id predictions_id retrieval_predictions ready
        ≡ ok predictions)
    × IsPartition truth.1 predictions.1 disjoint
unfolding compare_populations
validate_retrieval_pair-IsPartition_example =
    validate_retrieval_pair-IsPartition reader digest ws_id truth_id predictions_id ready disjoint
      validated refl

abbrev created : RunSnapshot
created = record sample_snapshot {
  run_id = second_run;
  run_name = "second";
  config = record sample_config {
    run_id = second_run;
    language = none;
    evaluator_versions = ("retrieval", "deterministic-v1") ∷ [];
    timestamp = 20;
  };
  created_at = 20;
}

abbrev with_second : Disk
with_second = (create_retrieval_run reader digest ws_id request none second_run 20 ready).1

abbrev quiet : Others
quiet = record { before = λ _ _ d. d; after_read = λ _ _ d. d; inside = λ _ _ d. d }

abbrev codec : Codec (ℕ × ℕ)
codec = record {
  encode = λ r. r.evaluation_type;
  decode = λ _. some (record {
    evaluation_type = "retrieval";
    run = sample_config;
    metrics = [];
    per_query = not_a_dict;
    prediction_query_count = none;
  });
  sha256 = digest;
}

abbrev executed : Disk
executed =
    (execute_job fractions (λ x. x) (λ n. (n, 0)) (λ _. "5") reader codec "1.0" quiet 20 ws_id
      job_id ready).1

executes :
    execute_job fractions
      (λ x. x)
      (λ n. (n, 0))
      (λ _. "5")
      reader
      codec
      "1.0"
      quiet
      20
      ws_id
      job_id
      ready
    ≡ (ok tt, executed)
unfolding execute_job ◌>>=◌ call_as query get_job_record get_workspace read_model is_workspace_id
    is_job_id get_run_snapshot is_run_id read_input_bytes get_input is_input_id load_records
    load_retrieval_ground_truth load_retrieval_predictions advance advance_loop or_again load_lines
    load_unique_query_records transition validate_state config_beq evaluate_retrieval
    evaluate_queries evaluate_query macro_metrics metric_names write_run_artifacts check_evidence
    promote repeats_snapshot check return atomic_create atomic_write list_job_records list_entry
    update_job_record next_record run_config_path evaluate_inputs evaluation_phase write_phase
    persist_result with_inputs check_cancel run_retrieval_evaluation precision_at_k recall_at_k
    hit_rate_at_k ndcg_at_k mean_reciprocal_rank classify_retrieval relevance_map validate_k
    section_path input_manifest_path imported_path read_imported
executes = refl

execute_job_ends_example : (executed ≡ ready) ⊎ IsSettled ws_id job_id executed
execute_job_ends_example =
    execute_job_ends fractions (λ x. x) (λ n. (n, 0)) (λ _. "5") reader codec "1.0" quiet 20 ws_id
      job_id ready executed executes
