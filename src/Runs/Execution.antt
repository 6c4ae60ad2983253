-- ===== src/Runs/Execution.antt =====
-- src/evalops/workspace/application/runs.py: `execute_job` of RetrievalRunService. What other threads do to the
-- disk is `others`, by the phase that is entered, the number of the attempts left and the point.
use evalops_lab.Common.{
  ℕ, zero, suc, String, Bool, true, false, not, ◌||◌, Option, none, some, List, Dict, map, length,
  Result, ok, raise, ◌==◌, Float, if◌then◌else◌,
}
use evalops_lab.Datasets.{Reader}
use evalops_lab.Jobs.States.{
  JobState, validating, evaluating, analyzing, writing_artifact, failed, cancelled, is_terminal,
  state_eq,
}
use evalops_lab.Jobs.Record.{SafeJobError}
use evalops_lab.Jobs.Queue.{transition}
use evalops_lab.Models.Runs.{RunConfig, RunSnapshot, RunProvenance}
use evalops_lab.Models.Inputs.{retrieval_ground_truth, retrieval_predictions}
use evalops_lab.Comparison.Evidence.{EvaluationResult, entries, valid}
use evalops_lab.Regression.{finite}
use evalops_lab.Retrieval.{MetricError, binary}
use evalops_lab.Retrieval.Evaluation.{evaluate_retrieval}
use evalops_lab.Storage.Codec.{Codec}
use evalops_lab.Storage.Disk.{StoreError, invalid_transition, input_hash_changed, Disk, Action}
use evalops_lab.Storage.Actions.{call_as, Proc, ◌>>=◌, return, fail, query}
use evalops_lab.Storage.Inputs.{read_input_bytes}
use evalops_lab.Storage.Runs.{get_run_snapshot}
use evalops_lab.Storage.Jobs.{get_job_record}
use evalops_lab.Storage.Evidence.{write_run_artifacts}
use evalops_lab.Runs.Pairing.{PairError, load_records, is_storage_error}

-- The points of one attempt at which others may act: before its read, after it, and between the read
-- and the update of the transition.
pub record Others : Type 0 where
  pub before : JobState → ℕ → Disk → Disk
  pub after_read : JobState → ℕ → Disk → Disk
  pub inside : JobState → ℕ → Disk → Disk

-- An exception of the store, or a ValueError of the evaluation.
pub data ExecutionError : Type 0 where
  of_store : StoreError → ExecutionError
  of_metrics : MetricError → ExecutionError

-- A call of the store.
abbrev pub stored_call : {A : Type 0} → Action A → Proc ExecutionError A
stored_call m = call_as of_store m

-- After a transition of `_advance`: its value, another attempt on a conflict, or the exception.
unfoldable pub or_again :
    {A : Type 0} → Bool → Result StoreError A × Disk → Action Bool → Result StoreError Bool × Disk
or_again b (ok _, d) again = (ok b, d)
or_again b (raise (invalid_transition _), d) again = again d
or_again b (raise e, d) again = (raise e, d)

module _ (others : Others) (now : ℕ) (ws job : String) where
  open others use {before, after_read, inside}

  -- The loop of `_advance`, with the attempts left.
  unfoldable pub advance_loop : JobState → ℕ → Action Bool
  unfolding or_again
  advance_loop phase zero d = (raise (invalid_transition "run phase could not be serialized"), d)
  advance_loop phase (suc n) d =
      let again = advance_loop phase n in
      let seen = before phase n d in
      let free = after_read phase n seen in
      elim (get_job_record ws job seen) [
        | raise e ↦ (raise e, seen)
        | ok current ↦
            if is_terminal current.state
            then (ok false, seen)
            else if current.cancel_requested
            then or_again false (transition (inside phase n) ws job cancelled none now free) again
            else or_again true (transition (inside phase n) ws job phase none now free) again
      ]

  -- `_advance`
  unfoldable pub advance : JobState → Action Bool
  unfolding advance_loop
  advance phase = advance_loop phase 8

  -- `_check_cancel`
  unfoldable pub check_cancel : Action Bool
  unfolding advance
  check_cancel d =
      let seen = before cancelled 8 d in
      elim (get_job_record ws job seen) [
        | raise e ↦ (raise e, seen)
        | ok current ↦
            if is_terminal current.state
            then (ok true, seen)
            else if current.cancel_requested
            then (advance cancelled >>= λ _. return true) seen
            else (ok false, seen)
      ]

  -- `_fail`, after its check.
  unfoldable pub after_check : String → String → Bool → Action (Unit {0})
  after_check code message true d = return tt d
  after_check code message false d =
      let error : Option SafeJobError = some (record { code = code; message = message }) in
      (transition (inside failed zero) ws job failed error now >>= λ _. return tt)
        (after_read failed zero d)

  -- `_fail`
  unfoldable pub fail_job : String → String → Action (Unit {0})
  unfolding check_cancel after_check
  fail_job code message = do stopped ← check_cancel; after_check code message stopped

-- The provenance that `execute_job` builds.
abbrev pub new_provenance : RunSnapshot → String → ℕ → String → RunProvenance
new_provenance s evalops_version now digest = record {
  run_id = s.run_id;
  ground_truth_input_id = s.ground_truth_input_id;
  ground_truth_content_sha256 = s.ground_truth_content_sha256;
  predictions_input_id = s.predictions_input_id;
  predictions_content_sha256 = s.predictions_content_sha256;
  evaluator_versions = s.config.evaluator_versions;
  evalops_version = evalops_version;
  git_commit = s.config.git_commit;
  completed_at = now;
  result_sha256 = digest;
}

abbrev pub is_hash_changed : StoreError → Bool
is_hash_changed (input_hash_changed _) = true
is_hash_changed _ = false

module _ (fl : Float) (exp2 : fl.Number → fl.Number) (log2 : ℕ → fl.Number)
    (show : ℕ → String) where
  -- src/evalops/runners/retrieval.py. `failures` of the result is not modelled.
  unfoldable pub run_retrieval_evaluation :
      Dict String (List String)
      → Dict String (List String)
      → RunConfig
      → Result MetricError (EvaluationResult fl.Number)
  run_retrieval_evaluation truth predictions config =
      elim (evaluate_retrieval fl exp2 log2 show (map (λ q. (q.0, binary q.1)) truth) predictions
        config.top_k) [
          | raise e ↦ raise e
          | ok r ↦ ok (record {
            evaluation_type = "retrieval";
            run = config;
            metrics = map (λ m. (m.0, finite m.1)) r.metrics;
            per_query = entries (map (λ q. (q.0, valid q.1)) r.per_query);
            prediction_query_count = some (length predictions);
          })
        ]

  module _ (reader : Reader) (codec : Codec fl.Number) (evalops_version : String) (others : Others)
      (now : ℕ) (ws job : String) where
    abbrev pub evaluated :
        Dict String (List String)
        → Dict String (List String)
        → RunConfig
        → Result ExecutionError (EvaluationResult fl.Number)
    evaluated truth predictions config = elim (run_retrieval_evaluation truth predictions config) [
      | ok result ↦ ok result
      | raise e ↦ raise (of_metrics e)
    ]

    -- The end of `execute_job`, from the last `_check_cancel`.
    unfoldable pub persist_result :
        RunSnapshot → EvaluationResult fl.Number → Proc ExecutionError (Unit {0})
    persist_result snapshot result = do
      stopped ← stored_call (check_cancel others now ws job)
      (if stopped
          then return tt
          else (let content : String = codec.encode result in
              let provenance : RunProvenance =
                new_provenance snapshot evalops_version now (codec.sha256 content) in
              stored_call (write_run_artifacts codec ws job content (some provenance) now)))

    unfoldable pub write_phase :
        RunSnapshot → EvaluationResult fl.Number → Proc ExecutionError (Unit {0})
    unfolding persist_result
    write_phase snapshot result = do
      writes ← stored_call (advance others now ws job writing_artifact)
      (if writes then persist_result snapshot result else return tt)

    unfoldable pub evaluation_phase :
        RunSnapshot
        → Dict String (List String)
        → Dict String (List String)
        → Proc ExecutionError (Unit {0})
    unfolding run_retrieval_evaluation write_phase
    evaluation_phase snapshot truth predictions = do
      result ← query (λ _. evaluated truth predictions snapshot.config)
      analyzes ← stored_call (advance others now ws job analyzing)
      (if analyzes then write_phase snapshot result else return tt)

    -- `execute_job`, from the move to EVALUATING.
    unfoldable pub evaluate_inputs :
        RunSnapshot
        → Dict String (List String)
        → Dict String (List String)
        → Proc ExecutionError (Unit {0})
    unfolding evaluation_phase
    evaluate_inputs snapshot truth predictions = do
      evaluates ← stored_call (advance others now ws job evaluating)
      (if evaluates then evaluation_phase snapshot truth predictions else return tt)

    abbrev pub read_both : RunSnapshot → Disk → Result StoreError (String × String)
    read_both s d = elim (read_input_bytes codec.sha256 ws s.ground_truth_input_id d) [
      | raise e ↦ raise e
      | ok truth ↦ elim (read_input_bytes codec.sha256 ws s.predictions_input_id d) [
        | raise e ↦ raise e
        | ok predictions ↦ ok (truth, predictions)
      ]
    ]

    abbrev pub load_both :
        String → String → Result PairError (Dict String (List String) × Dict String (List String))
    load_both truth predictions = elim (load_records reader truth retrieval_ground_truth) [
      | raise e ↦ raise e
      | ok truth_records ↦ elim (load_records reader predictions retrieval_predictions) [
        | raise e ↦ raise e
        | ok prediction_records ↦ ok (truth_records, prediction_records)
      ]
    ]

    -- The handlers of the two `try` blocks.
    unfoldable pub failed_read : StoreError → Proc ExecutionError (Unit {0})
    failed_read e =
        if is_hash_changed e
        then stored_call
            (fail_job others now ws job "INPUT_HASH_CHANGED" "input checksum has changed")
        else if is_storage_error e
        then stored_call
            (fail_job others now ws job "INPUT_UNAVAILABLE" "registered input unavailable")
        else fail (of_store e)

    unfoldable pub with_inputs :
        RunSnapshot → Result StoreError (String × String) → Proc ExecutionError (Unit {0})
    unfolding failed_read evaluate_inputs
    with_inputs snapshot (raise e) = failed_read e
    with_inputs snapshot (ok (truth, predictions)) = elim (load_both truth predictions) [
      | raise e ↦
          stored_call (fail_job others now ws job "INPUT_INVALID" "registered input is invalid")
      | ok (truth_records, prediction_records) ↦
          evaluate_inputs snapshot truth_records prediction_records
    ]

    unfoldable pub execute_job : Proc ExecutionError (Unit {0})
    unfolding with_inputs
    execute_job = do
      current ← stored_call (query (get_job_record ws job))
      (if not (current.state == validating) || current.cancel_requested
          then return tt
          else (stored_call (query (get_run_snapshot ws current.run_id)) >>= λ snapshot.
              (λ d. with_inputs snapshot (read_both snapshot d) d)))
