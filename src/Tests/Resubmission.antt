-- ===== src/Tests/Resubmission.antt =====
-- The theorems of Runs/Resubmitted on a workspace with one failed job.
use evalops_lab.Common.{String, ◌≡◌, refl, false, true, some, [], ok, raise, nat_eq, string_eq}
use evalops_lab.Jobs.States.{failed}
use evalops_lab.Jobs.Record.{JobRecord, new_queued, validate_state}
use evalops_lab.Jobs.Queue.{Queue, enqueue, schedule}
use evalops_lab.Storage.Disk.{unknown_job, Disk, key_eq, read_model, atomic_write}
use evalops_lab.Storage.Identifiers.{is_workspace_id, is_run_id, is_job_id}
use evalops_lab.Storage.Workspaces.{get_workspace, load_registry, load_workspace, workspace_path}
use evalops_lab.Storage.Runs.{get_run_snapshot, run_config_path}
use evalops_lab.Storage.Actions.{◌>>=◌, return, query, check, call_as}
use evalops_lab.Storage.Jobs.{
  get_job_record, list_job_records, list_entry, job_path, jobs_directory, check_new_job,
  save_job_record,
}
use evalops_lab.Storage.Evidence.{discard_unfinished_run_artifacts, check_unfinished}
use evalops_lab.Runs.Creation.{check_others, prepare_retry, retry_job}
use evalops_lab.Runs.Resubmitted.{IsResubmitted, retry_job-IsResubmitted}
use evalops_lab.Tests.Samples.{ws_id, job_id, first_job, disk_with}

abbrev new_id : String
new_id = "job-1123456789abcdef0123456789abcdef"

abbrev failed_job : JobRecord
failed_job = record first_job {
  state = failed;
  revision = 1;
  safe_error = some (record { code = "INPUT_UNAVAILABLE"; message = "input cannot be read" });
}

abbrev running : Queue
running = record { pending = []; pending_ids = []; stop_requested = false; thread = some true }

abbrev retried : JobRecord
retried = record first_job { job_id = new_id; created_at = 20; updated_at = 20 }

abbrev left_queue : Queue
left_queue = (retry_job ws_id job_id new_id 20 running (disk_with failed_job)).1

abbrev left_disk : Disk
left_disk = (retry_job ws_id job_id new_id 20 running (disk_with failed_job)).2

retries :
    retry_job ws_id job_id new_id 20 running (disk_with failed_job)
    ≡ (ok retried, left_queue, left_disk)
unfolding retry_job prepare_retry check_others discard_unfinished_run_artifacts check_unfinished
    enqueue schedule save_job_record check_new_job new_queued get_job_record list_job_records
    list_entry job_path jobs_directory get_run_snapshot run_config_path get_workspace load_registry
    load_workspace workspace_path read_model is_workspace_id is_run_id is_job_id atomic_write ◌>>=◌
    return query check call_as validate_state
retries = refl

retry_job-IsResubmitted_example :
    IsResubmitted ws_id job_id new_id 20 retried running left_queue (disk_with failed_job) left_disk
retry_job-IsResubmitted_example =
    retry_job-IsResubmitted ws_id job_id new_id 20 retried running left_queue (disk_with failed_job)
      left_disk retries

-- The disk that a save leaves which the device refuses, with the empty directory of the job.
abbrev half_saved : Disk
half_saved = (save_job_record retried (record (disk_with failed_job) { faults = λ n. true })).1

half_saved_unlisted : list_job_records ws_id half_saved ≡ raise unknown_job
unfolding save_job_record check_new_job get_job_record list_job_records list_entry job_path
    jobs_directory get_run_snapshot get_workspace load_registry load_workspace workspace_path
    read_model is_workspace_id is_run_id is_job_id atomic_write
half_saved_unlisted = refl
