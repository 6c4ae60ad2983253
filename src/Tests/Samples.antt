-- ===== src/Tests/Samples.antt =====
-- A workspace with one run and one queued job, on a disk that works.
use evalops_lab.Common.{ℕ, String, false, none, some, [], ◌∷◌}
use evalops_lab.Jobs.States.{JobState, queued, validating}
use evalops_lab.Jobs.Record.{JobRecord}
use evalops_lab.Models.Runs.{RunConfig, RunSnapshot}
use evalops_lab.Models.Workspaces.{WorkspaceRecord}
use evalops_lab.Storage.Disk.{Source, Disk, file, child}
use evalops_lab.Storage.Jobs.{Update}

abbrev pub ws_id : String
ws_id = "ws-0123456789abcdef0123456789abcdef"

abbrev pub run_id : String
run_id = "run-0123456789abcdef0123456789abcdef"

abbrev pub job_id : String
job_id = "job-0123456789abcdef0123456789abcdef"

abbrev pub sample_config : RunConfig
sample_config = record {
  run_id = run_id;
  dataset_name = "thai-support";
  dataset_version = "1";
  system_name = "bm25";
  model = none;
  model_provider = none;
  prompt_version = none;
  retriever = none;
  embedding_model = none;
  top_k = 5;
  evaluator_versions = [];
  random_seed = none;
  timestamp = 10;
  git_commit = none;
  benchmark = none;
  language = some "th";
  split = none;
  dataset_revision = none;
  corpus_revision = none;
  tokenization_strategy = none;
  retriever_version = none;
  retriever_config = [];
  annotation_policy = none;
  quality_filter = [];
  evaluator_config = [];
}

abbrev pub sample_snapshot : RunSnapshot
sample_snapshot = record {
  run_id = run_id;
  workspace_id = ws_id;
  run_name = "first";
  ground_truth_input_id = "input-0123456789abcdef0123456789abcdef";
  ground_truth_content_sha256 = "a";
  predictions_input_id = "input-1123456789abcdef0123456789abcdef";
  predictions_content_sha256 = "b";
  config = sample_config;
  created_at = 10;
}

abbrev sample_workspace : WorkspaceRecord
sample_workspace = record {
  workspace_id = ws_id;
  display_name = "support";
  created_at = 1;
  updated_at = 1;
}

abbrev pub first_job : JobRecord
first_job = record {
  job_id = job_id;
  workspace_id = ws_id;
  run_id = run_id;
  state = queued;
  revision = 0;
  cancel_requested = false;
  safe_error = none;
  created_at = 10;
  updated_at = 10;
}

abbrev pub validating_job : JobRecord
validating_job = record first_job { state = validating; revision = 1; updated_at = 11 }

abbrev pub disk_with : JobRecord → Disk
disk_with job = record {
  registry = file (ws_id ∷ []);
  workspaces = (ws_id, file sample_workspace) ∷ [];
  states = [];
  run_configs = ((ws_id, run_id), file sample_snapshot) ∷ [];
  results = [];
  provenances = [];
  jobs = ((ws_id, job_id), child (file job)) ∷ [];
  inputs = [];
  imported = [];
  sources = λ _. Source.unresolved;
  comparisons = [];
  escapes = λ _. false;
  not_directory = λ _. false;
  faults = λ _. false;
  written = 0;
}

abbrev pub move_to : ℕ → JobState → Update
move_to revision state = record {
  expected_revision = revision;
  next_state = some state;
  cancel_requested = none;
  safe_error = none;
}
