-- ===== src/Tests/RunEvidence.antt =====
-- The theorems of Storage/Evidence on a sample run.
use evalops_lab.Common.{
  ℕ, ◌≡◌, refl, none, some, [], ◌∷◌, ok, raise, ◌==◌, nat_eq, string_eq, if◌then◌else◌, arith,
}
use evalops_lab.Jobs.States.{writing_artifact}
use evalops_lab.Jobs.Record.{JobRecord}
use evalops_lab.Models.Runs.{RunProvenance, config_beq}
use evalops_lab.Comparison.Evidence.{EvaluationResult, not_a_dict}
use evalops_lab.Storage.Codec.{Codec}
use evalops_lab.Storage.Disk.{
  Disk, os_error, read_model, atomic_write, dangling, missing, entry_at, key_eq,
}
use evalops_lab.Storage.Workspaces.{get_workspace}
use evalops_lab.Storage.Identifiers.{is_workspace_id, is_run_id, is_job_id}
use evalops_lab.Storage.Actions.{◌>>=◌, return, fail, query, check, atomic_create}
use evalops_lab.Storage.Runs.{run_config_path, get_run_snapshot}
use evalops_lab.Storage.Jobs.{
  get_job_record, list_job_records, list_entry, update_job_record, next_record,
}
use evalops_lab.Storage.Evidence.{
  write_run_artifacts, get_run_artifacts, check_evidence, promote, roll_back, unlink_evidence,
  repeats_snapshot,
}
use evalops_lab.Storage.Evidence.Commit.{IsCommitted, write_run_artifacts-IsCommitted}
use evalops_lab.Storage.Evidence.RoundTrip.{run_evidence_round_trip}
use evalops_lab.Storage.Evidence.Refused.{IsRestored, RefusesOnce}
use evalops_lab.Storage.Evidence.Rollback.{write_run_artifacts_rolls_back}
use evalops_lab.Tests.Samples.{
  ws_id, run_id, job_id, first_job, sample_config, sample_snapshot, disk_with,
}

abbrev sample_result : EvaluationResult ℕ
sample_result = record {
  evaluation_type = "retrieval";
  run = sample_config;
  metrics = [];
  per_query = not_a_dict;
  prediction_query_count = none;
}

abbrev sample_codec : Codec ℕ
sample_codec = record {
  encode = λ r. r.evaluation_type;
  decode = λ s. if s == "retrieval" then some sample_result else none;
  sha256 = λ s. s;
}

abbrev sample_provenance : RunProvenance
sample_provenance = record {
  run_id = run_id;
  ground_truth_input_id = sample_snapshot.ground_truth_input_id;
  ground_truth_content_sha256 = "a";
  predictions_input_id = sample_snapshot.predictions_input_id;
  predictions_content_sha256 = "b";
  evaluator_versions = [];
  evalops_version = "1.0";
  git_commit = none;
  completed_at = 19;
  result_sha256 = "retrieval";
}

abbrev writing_job : JobRecord
writing_job = record first_job { state = writing_artifact; revision = 4; updated_at = 15 }

abbrev before : Disk
before = disk_with writing_job

-- A device that refuses the second write only.
abbrev failing : Disk
failing = record before { faults = λ n. n == 1 }

abbrev after : Disk
after =
    (write_run_artifacts sample_codec ws_id job_id "retrieval" (some sample_provenance) 20 before).1

abbrev rolled_back : Disk
rolled_back =
    (write_run_artifacts sample_codec ws_id job_id "retrieval" (some sample_provenance) 20
      failing).1

promoted :
    write_run_artifacts sample_codec ws_id job_id "retrieval" (some sample_provenance) 20 before
    ≡ (ok tt, after)
unfolding write_run_artifacts check_evidence promote ◌>>=◌ return query check atomic_create
    atomic_write get_job_record get_workspace read_model is_workspace_id is_run_id is_job_id
    get_run_snapshot run_config_path list_job_records list_entry update_job_record next_record
    config_beq repeats_snapshot
promoted = refl

refused :
    write_run_artifacts sample_codec ws_id job_id "retrieval" (some sample_provenance) 20 failing
    ≡ (raise os_error, rolled_back)
unfolding write_run_artifacts check_evidence promote roll_back unlink_evidence fail ◌>>=◌ return
    query check atomic_create atomic_write get_job_record get_workspace read_model is_workspace_id
    is_run_id is_job_id get_run_snapshot run_config_path list_job_records list_entry
    update_job_record next_record config_beq repeats_snapshot
refused = refl

-- A link that leads nowhere passes the check of the evidence, and the handler takes it away.
abbrev linked : Disk
linked = record before { results = ((ws_id, run_id), dangling) ∷ [] }

link_removed :
    entry_at
      (ws_id, run_id)
      (write_run_artifacts sample_codec ws_id job_id "retrieval"
        (some sample_provenance)
        20
        linked).1.results
    ≡ missing
unfolding write_run_artifacts check_evidence promote roll_back unlink_evidence fail ◌>>=◌ return
    query check atomic_create atomic_write get_job_record get_workspace read_model is_workspace_id
    is_run_id is_job_id get_run_snapshot run_config_path list_job_records list_entry config_beq
    repeats_snapshot
link_removed = refl

failing_once : RefusesOnce failing
unfolding RefusesOnce
failing_once n m h g = ground (arith, h, g)

write_run_artifacts-IsCommitted_example :
    IsCommitted sample_codec ws_id job_id "retrieval" (some sample_provenance) before after
write_run_artifacts-IsCommitted_example =
    write_run_artifacts-IsCommitted sample_codec ws_id job_id "retrieval" (some sample_provenance)
      20 before after promoted

run_evidence_round_trip_example :
    (job : JobRecord) × (get_job_record ws_id job_id before ≡ ok job)
    × (get_run_artifacts sample_codec ws_id job.run_id after
        ≡ (ok (sample_result, sample_provenance), after))
run_evidence_round_trip_example =
    run_evidence_round_trip sample_codec ws_id job_id sample_result sample_provenance 20 before
      after refl refl promoted

write_run_artifacts_rolls_back_example : IsRestored failing rolled_back
write_run_artifacts_rolls_back_example =
    write_run_artifacts_rolls_back sample_codec ws_id job_id "retrieval" (some sample_provenance) 20
      failing rolled_back os_error failing_once (λ k. (refl, refl)) refused
