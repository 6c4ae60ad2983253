-- ===== src/Runs/Creation.antt =====
-- src/evalops/workspace/application/runs.py: `create_retrieval_run`, and the submissions of RetrievalRunService.
-- The identifiers that are drawn and the readings of the clock are arguments.
use evalops_lab.Common.{
  ℕ, String, Bool, true, false, not, ◌||◌, Option, none, List, [], ◌∷◌, Result, ok, raise, ◌==◌,
  string_eq, if◌then◌else◌,
}
use evalops_lab.Datasets.{Reader}
use evalops_lab.Jobs.States.{
  JobState, complete, failed, cancelled, interrupted, is_terminal, state_eq,
}
use evalops_lab.Jobs.Record.{JobRecord, new_queued}
use evalops_lab.Jobs.Queue.{Queue, QueueError, enqueue}
use evalops_lab.Models.Runs.{RunConfig, RunSnapshot}
use evalops_lab.Models.Inputs.{InputManifest}
use evalops_lab.Storage.Disk.{StoreError, Disk, Action}
use evalops_lab.Storage.Actions.{call_as, Proc, ◌>>=◌, ◌>>◌, return, query, check}
use evalops_lab.Storage.Inputs.{get_input, read_input_bytes}
use evalops_lab.Storage.Registration.{save_run_snapshot}
use evalops_lab.Storage.Jobs.{get_job_record, list_job_records}
use evalops_lab.Storage.Evidence.{discard_unfinished_run_artifacts}
use evalops_lab.Runs.Pairing.{ValidationIssue, validate_retrieval_pair}

pub record CreateRetrievalRun : Type 0 where
  pub run_name : String
  pub ground_truth_input_id : String
  pub predictions_input_id : String
  pub top_k : ℕ
  pub system_name : String
  pub dataset_name : String
  pub dataset_version : String

-- An exception of the store or of the queue, IncompatibleInputsError, or the ValueErrors of `retry_job`.
pub data RunError : Type 0 where
  from_store : StoreError → RunError
  from_queue : QueueError → RunError
  incompatible_inputs : List ValidationIssue → RunError
  refused : String → RunError

-- A call of the store.
abbrev pub call : {A : Type 0} → Action A → Proc RunError A
call m = call_as from_store m

-- The config of a new run; what the request does not give is the default of RunConfig.
abbrev pub new_config : String → CreateRetrievalRun → Option String → ℕ → RunConfig
new_config run request git_commit now = record {
  run_id = run;
  dataset_name = request.dataset_name;
  dataset_version = request.dataset_version;
  system_name = request.system_name;
  model = none;
  model_provider = none;
  prompt_version = none;
  retriever = none;
  embedding_model = none;
  top_k = request.top_k;
  evaluator_versions = ("retrieval", "deterministic-v1") ∷ [];
  random_seed = none;
  timestamp = now;
  git_commit = git_commit;
  benchmark = none;
  language = none;
  split = none;
  dataset_revision = none;
  corpus_revision = none;
  tokenization_strategy = none;
  retriever_version = none;
  retriever_config = [];
  annotation_policy = none;
  quality_filter = [];
  evaluator_config = [];
}

abbrev pub new_snapshot :
    String
    → String
    → CreateRetrievalRun
    → InputManifest
    → InputManifest
    → Option String
    → ℕ
    → RunSnapshot
new_snapshot ws run request truth predictions git_commit now = record {
  run_id = run;
  workspace_id = ws;
  run_name = request.run_name;
  ground_truth_input_id = truth.input_id;
  ground_truth_content_sha256 = truth.content_sha256;
  predictions_input_id = predictions.input_id;
  predictions_content_sha256 = predictions.content_sha256;
  config = new_config run request git_commit now;
  created_at = now;
}

abbrev pub has_issues : List ValidationIssue → Bool
has_issues [] = false
has_issues _ = true

abbrev pub enqueued :
    JobRecord
    → Result QueueError (Unit {0}) × Queue × Disk
    → Result RunError JobRecord × Queue × Disk
enqueued job (ok _, q, d) = (ok job, q, d)
enqueued job (raise e, q, d) = (raise (from_queue e), q, d)

-- `then` of a sequence on the disk and a submission to the queue.
abbrev pub submit :
    Result RunError JobRecord × Disk → Queue → Result RunError JobRecord × Queue × Disk
submit (ok job, d) q = enqueued job (enqueue job q d)
submit (raise e, d) q = (raise e, q, d)

module _ (reader : Reader) (sha256 : String → String) where
  unfoldable pub create_retrieval_run :
      String → CreateRetrievalRun → Option String → String → ℕ → Proc RunError RunSnapshot
  create_retrieval_run ws request git_commit run now = do
    validation ← call (
        query (
          validate_retrieval_pair reader sha256 ws request.ground_truth_input_id
            request.predictions_input_id))
    check (λ _. has_issues validation.blocking_issues)
        (incompatible_inputs validation.blocking_issues)
    truth ← call (query (get_input ws request.ground_truth_input_id))
    predictions ← call (query (get_input ws request.predictions_input_id))
    truth_bytes ← call (query (read_input_bytes sha256 ws truth.input_id))
    prediction_bytes ← call (query (read_input_bytes sha256 ws predictions.input_id))
    let snapshot : RunSnapshot = new_snapshot ws run request truth predictions git_commit now
    call (save_run_snapshot ws snapshot)
    return snapshot

  unfoldable pub create_and_enqueue :
      String
      → CreateRetrievalRun
      → String
      → String
      → ℕ
      → Queue
      → Disk
      → Result RunError JobRecord × Queue × Disk
  unfolding create_retrieval_run
  create_and_enqueue ws request run job now q d =
      submit
        ((create_retrieval_run ws request none run now >>= λ snapshot.
            return (new_queued job now ws snapshot.run_id))
          d)
        q

-- `original.state in {FAILED, CANCELLED, INTERRUPTED}`
abbrev pub can_retry : JobState → Bool
can_retry s = s == failed || s == cancelled || s == interrupted

-- The body of the loop of `retry_job`.
unfoldable pub check_others : String → List JobRecord → Result RunError (Unit {0})
check_others run [] = ok tt
check_others run (previous ∷ jobs) =
    let rest = check_others run jobs in
    if not (previous.run_id == run)
    then rest
    else if previous.state == complete
    then raise (refused "a completed run is immutable; create a new run")
    else if not (is_terminal previous.state)
    then raise (refused "another job for this run is still active")
    else rest

-- `retry_job`, up to the new job that it submits.
unfoldable pub prepare_retry : String → String → String → ℕ → Proc RunError JobRecord
unfolding check_others
prepare_retry ws job new now = do
  original ← call (query (get_job_record ws job))
  check (λ _. not (can_retry original.state))
      (refused "only failed, cancelled or interrupted jobs can be retried")
  jobs ← call (query (list_job_records ws))
  query (λ _. check_others original.run_id jobs)
  call (discard_unfinished_run_artifacts ws original.run_id)
  return (new_queued new now ws original.run_id)

unfoldable pub retry_job :
    String → String → String → ℕ → Queue → Disk → Result RunError JobRecord × Queue × Disk
unfolding prepare_retry
retry_job ws job new now q d = submit (prepare_retry ws job new now d) q
