-- ===== src/Tests/JobQueue.antt =====
-- The theorems of Jobs on a sample job.
use evalops_lab.Common.{ℕ, ◌≡◌, refl, true, false, none, [], ok, arith}
use evalops_lab.Jobs.Record.{JobRecord}
use evalops_lab.Storage.Disk.{Disk, read_model, atomic_write}
use evalops_lab.Storage.Workspaces.{get_workspace, list_workspaces}
use evalops_lab.Storage.Runs.{get_run_snapshot}
use evalops_lab.Storage.Identifiers.{is_workspace_id, is_run_id, is_job_id}
use evalops_lab.Storage.Jobs.{
  next_record, get_job_record, put_job, update_job_record, find_job_record,
}
use evalops_lab.Jobs.Queue.{Queue, finish_uncompleted, request_cancel}
use evalops_lab.Jobs.Worker.{Environment, ended, run_taken}
use evalops_lab.Jobs.Scheduling.{IsScheduled}
use evalops_lab.Jobs.Reachable
use evalops_lab.Jobs.Reachable.{after, Reach, initial, step, pending_ids-eq-pending}
use evalops_lab.Jobs.Finishing.{IsSettled}
use evalops_lab.Jobs.Liveness.{IsReadable, finish_uncompleted_returns}
use evalops_lab.Jobs.Cancelling.{is_stopping, request_cancel_stops, run_taken-IsSettled}
use evalops_lab.Tests.Samples.{ws_id, job_id, first_job, validating_job, disk_with}

abbrev alone : ℕ → Disk → Disk
alone _ d = d

abbrev disk : Disk
disk = disk_with validating_job

abbrev empty_queue : Queue
empty_queue = record { pending = []; pending_ids = []; stop_requested = false; thread = none }

readable : IsReadable ws_id job_id disk
unfolding get_job_record get_workspace read_model is_workspace_id is_job_id get_run_snapshot
    is_run_id atomic_write
readable = record { found = validating_job; reads = refl; sound = λ _. refl }

finish_uncompleted_returns_example : (finish_uncompleted alone 12 none ws_id job_id disk).0 ≡ ok tt
finish_uncompleted_returns_example =
    finish_uncompleted_returns alone 12 none ws_id job_id (λ _ d r. r) 7 (λ d. refl) disk
      (omega arith) readable

abbrev cancelled_result : JobRecord
cancelled_result = record validating_job { cancel_requested = true; revision = 2; updated_at = 12 }

cancelled_run :
    request_cancel alone 12 job_id disk
    ≡ (ok cancelled_result, put_job cancelled_result (record disk { written = 1 }))
unfolding request_cancel find_job_record list_workspaces update_job_record next_record
    get_job_record get_workspace read_model is_workspace_id is_job_id get_run_snapshot is_run_id
    atomic_write
cancelled_run = refl

request_cancel_stops_example : is_stopping cancelled_result ≡ true
request_cancel_stops_example =
    request_cancel_stops alone 12 job_id disk
      (put_job cancelled_result (record disk { written = 1 })) cancelled_result cancelled_run

abbrev environment : Environment
environment = record {
  before_validating = λ d. d;
  after_validating = λ d. d;
  executor = λ job d. (true, d);
  while_finishing = alone;
}

abbrev queued_disk : Disk
queued_disk = disk_with first_job

taken :
    run_taken environment 12 ws_id job_id queued_disk
    ≡ (ended, (run_taken environment 12 ws_id job_id queued_disk).1)
unfolding run_taken finish_uncompleted update_job_record next_record get_job_record get_workspace
    read_model is_workspace_id is_job_id get_run_snapshot is_run_id atomic_write
taken = refl

run_taken-IsSettled_example :
    IsSettled ws_id job_id (run_taken environment 12 ws_id job_id queued_disk).1
run_taken-IsSettled_example =
    run_taken-IsSettled environment 12 ws_id job_id queued_disk
      (run_taken environment 12 ws_id job_id queued_disk).1 taken

started : Reach (after (Reachable.start 5) empty_queue queued_disk)
started = step (Reachable.start 5) empty_queue queued_disk (initial empty_queue refl refl)

pending_ids-eq-pending_example : IsScheduled (after (Reachable.start 5) empty_queue queued_disk)
pending_ids-eq-pending_example =
    pending_ids-eq-pending (after (Reachable.start 5) empty_queue queued_disk) started
