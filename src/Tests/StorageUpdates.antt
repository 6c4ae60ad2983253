-- ===== src/Tests/StorageUpdates.antt =====
-- The theorems of Storage/Transitions and Storage/Updates on a sample job.
use evalops_lab.Models.Workspaces.{WorkspaceRecord}
use evalops_lab.Storage.Disk.{StoreError}
use evalops_lab.Storage.Inputs.{size_of}
use evalops_lab.Storage.Registry.{create_workspace}
use evalops_lab.Storage.View.{Refines, view, compare_and_set, update_job_record-Refines}
use evalops_lab.Storage.Drawing.{create_workspace_terminates}
use evalops_lab.Common.{
  ℕ, zero, suc, String, Result, some, ap, sym, ◌∙◌, ◌≡◌, ◌≢◌, ◌≤◌, refl, true, ok,
}
use evalops_lab.Jobs.States.{validating, cancelled, complete}
use evalops_lab.Jobs.Record.{JobRecord, validate_state, new_queued}
use evalops_lab.Storage.Disk.{Disk, read_model, atomic_write}
use evalops_lab.Storage.Workspaces.{get_workspace}
use evalops_lab.Storage.Runs.{get_run_snapshot}
use evalops_lab.Storage.Identifiers.{is_workspace_id, is_run_id, is_job_id}
use evalops_lab.Storage.Jobs.{next_record, get_job_record, put_job, update_job_record}
use evalops_lab.Storage.Transitions.{
  IsAdvance, next_record-IsAdvance, History, start, update, history_bounds, cancel_is_final,
}
use evalops_lab.Storage.Updates.{update_is_durable}
use evalops_lab.Tests.Samples.{ws_id, run_id, job_id, first_job, validating_job, disk_with, move_to}

abbrev cancelling_job : JobRecord
cancelling_job = record first_job { cancel_requested = true; revision = 1 }

abbrev cancelled_job : JobRecord
cancelled_job = record first_job {
  cancel_requested = true;
  revision = 2;
  state = cancelled;
  updated_at = 12;
}

one_update : History (new_queued job_id 10 ws_id run_id) validating_job
unfolding next_record new_queued
one_update = update (move_to 0 validating) 11 start refl

history_bounds_example :
    (validate_state validating_job ≡ true)
    × (validating_job.revision ≤ 6)
    × (validating_job.state ≡ complete → validating_job.revision ≡ 5)
history_bounds_example = history_bounds job_id ws_id run_id 10 validating_job one_update

accepted : next_record (move_to 0 validating) 11 first_job ≡ ok validating_job
unfolding next_record
accepted = refl

next_record-IsAdvance_example : IsAdvance first_job validating_job
next_record-IsAdvance_example =
    next_record-IsAdvance (move_to 0 validating) 11 first_job validating_job accepted

cancelled_history : History cancelling_job cancelled_job
unfolding next_record
cancelled_history = update (move_to 1 cancelled) 12 start refl

cancel_is_final_example : (cancelled_job.cancel_requested ≡ true) × (cancelled_job.state ≢ complete)
cancel_is_final_example =
    cancel_is_final cancelling_job cancelled_job refl (λ e. cc) cancelled_history

abbrev counted : Disk
counted = record (disk_with first_job) { written = 1 }

durable :
    update_job_record ws_id job_id (move_to 0 validating) 11 (disk_with first_job)
    ≡ (ok validating_job, put_job validating_job counted)
unfolding update_job_record next_record get_job_record get_workspace read_model is_workspace_id
    is_job_id get_run_snapshot is_run_id atomic_write
durable = refl

update_is_durable_example :
    (get_job_record ws_id job_id (put_job validating_job counted) ≡ ok validating_job)
    × (put_job validating_job counted ≡ put_job validating_job counted)
update_is_durable_example =
    update_is_durable ws_id job_id (move_to 0 validating) 11 (disk_with first_job)
      (put_job validating_job counted) validating_job durable

abbrev ticks : ℕ → String
ticks zero = String.[]
ticks (suc n) = String.◌∷◌ "a" (ticks n)

size_of-ticks : (n : ℕ) → size_of (ticks n) ≡ n
size_of-ticks zero = refl
size_of-ticks (suc n) = ap suc (size_of-ticks n)

ticks_distinct : (n m : ℕ) → ticks n ≡ ticks m → n ≡ m
ticks_distinct n m h = sym (size_of-ticks n) ∙ ap size_of h ∙ size_of-ticks m

create_workspace_terminates_example :
    (o : Result StoreError WorkspaceRecord × Disk) × (create_workspace
        (λ s. s)
        ticks
        "second"
        30
        (disk_with first_job)
      ≡ some o)
create_workspace_terminates_example =
    create_workspace_terminates ticks ticks_distinct (λ s. s) "second" 30 (disk_with first_job)

update_job_record-Refines_example :
    Refines
      (update_job_record ws_id job_id (move_to 0 validating) 11 (disk_with first_job))
      (compare_and_set (move_to 0 validating) 11 (ws_id, job_id) (view (disk_with first_job)))
update_job_record-Refines_example =
    update_job_record-Refines ws_id job_id (move_to 0 validating) 11 (disk_with first_job) refl
