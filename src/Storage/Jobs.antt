-- ===== src/Storage/Jobs.antt =====
-- src/evalops/workspace/storage.py: the durable records of the jobs.
use evalops_lab.Common.{
  ℕ, ◌+◌, String, Bool, true, false, not, ◌&&◌, ◌||◌, Option, none, some, is_some, List, [], ◌∷◌,
  ◌++◌, Result, ok, raise, ◌>>=◌, ◌>>◌, raise_if, each, Dict, lookup, insert, keep, sort_by, str_lt,
  ltb, ◌==◌, string_eq, nat_eq, bool_eq, if◌then◌else◌,
}
use evalops_lab.Jobs.States.{
  JobState, queued, failed, cancelled, interrupted, is_terminal, allowed, state_eq,
}
use evalops_lab.Jobs.Record.{SafeJobError, JobRecord, validate_state}
use evalops_lab.Models.Workspaces.{WorkspaceRecord}
use evalops_lab.Storage.Identifiers.{is_job_id}
use evalops_lab.Storage.Workspaces.{get_workspace, list_workspaces}
use evalops_lab.Storage.Runs.{get_run_snapshot}
use evalops_lab.Storage.Disk.{
  StoreError, storage, unknown_job, invalid_transition, validation_error, Entry, missing, os_error,
  file, is_file, is_taken, read_model, Key, key_eq, workspace_root, jobs_root, job_directory,
  JobChild, stray, child, Disk, Action, atomic_write,
}

-- `_jobs_directory`: the guards of the path.
unfoldable pub jobs_directory : String → Disk → Result StoreError (Unit {0})
jobs_directory ws d = do
  w ← get_workspace ws d
  raise_if (d.escapes (workspace_root ws)) (storage "workspace directory is unsafe")
  raise_if (d.escapes (jobs_root ws)) (storage "workspace jobs directory is unsafe")

-- `_job_path`: the guards of the path.
unfoldable pub job_path : String → String → Disk → Result StoreError (Unit {0})
unfolding jobs_directory
job_path ws job d = do
  raise_if (not (is_job_id job)) (storage "invalid job identifier")
  jobs_directory ws d
  raise_if (d.escapes (job_directory ws job)) (storage "job directory is unsafe")

-- What stands at `jobs/<job>/job.json`.
abbrev pub job_entry : Key → Dict Key JobChild → Entry JobRecord
job_entry k jobs = elim (lookup k jobs) [
  | none ↦ missing
  | some stray ↦ missing
  | some (child x) ↦ x
]

-- `get_job_record`, of what stands at the path.
abbrev pub filed_job : String → String → Entry JobRecord → Disk → Result StoreError JobRecord
filed_job ws job found d = do
  raise_if (not (is_file found)) unknown_job
  found' ← read_model "job record is invalid" found
  raise_if (not (found'.job_id == job && found'.workspace_id == ws))
      (storage "job identity mismatch")
  snapshot ← get_run_snapshot ws found'.run_id d
  ok found'

unfoldable pub get_job_record : String → String → Disk → Result StoreError JobRecord
unfolding job_path
get_job_record ws job d = do
  w ← get_workspace ws d
  job_path ws job d
  filed_job ws job (job_entry (ws, job) d.jobs) d

-- The names below `jobs` of a workspace.
abbrev pub job_names : String → Dict Key JobChild → List String
job_names ws [] = []
job_names ws (((w, job), _) ∷ jobs) = if w == ws then job ∷ job_names ws jobs else job_names ws jobs

-- The body of the loop of `list_job_records`.
unfoldable pub list_entry : String → Disk → String → Result StoreError JobRecord
list_entry ws d job = elim (lookup (ws, job) d.jobs) [
  | some (child _) ↦ get_job_record ws job d
  | _ ↦ raise (storage "unexpected job storage entry")
]

-- By creation time, then identifier.
abbrev pub record_lt : JobRecord → JobRecord → Bool
record_lt a b =
    ltb a.created_at b.created_at || a.created_at == b.created_at && str_lt a.job_id b.job_id

unfoldable pub list_job_records : String → Disk → Result StoreError (List JobRecord)
unfolding jobs_directory list_entry
list_job_records ws d = do
  jobs_directory ws d
  raise_if (d.not_directory (jobs_root ws)) (storage "job storage is invalid")
  records ← each (list_entry ws d) (sort_by str_lt (job_names ws d.jobs))
  ok (sort_by record_lt records)

-- The records of all workspaces, in the order of the registry.
unfoldable pub all_job_records : List WorkspaceRecord → Disk → Result StoreError (List JobRecord)
unfolding list_job_records
all_job_records [] d = ok []
all_job_records (w ∷ ws) d = do
  records ← list_job_records w.workspace_id d
  others ← all_job_records ws d
  ok (records ++ others)

abbrev pub only : {A : Type 0} → List A → Option A
only (x ∷ []) = some x
only _ = none

unfoldable pub find_job_record : String → Disk → Result StoreError JobRecord
unfolding all_job_records list_workspaces
find_job_record job d = do
  raise_if (not (is_job_id job)) (storage "invalid job identifier")
  workspaces ← list_workspaces d
  records ← all_job_records workspaces d
  elim (only (keep (λ r. r.job_id == job) records)) [ some r ↦ ok r | none ↦ raise unknown_job ]

-- The arguments of `update_job_record` besides the identifiers.
pub record Update : Type 0 where
  pub expected_revision : ℕ
  pub next_state : Option JobState
  pub cancel_requested : Option Bool
  pub safe_error : Option SafeJobError

abbrev pub or_else {ℓ} : {A : Type ℓ} → Option A → A → A
or_else none a = a
or_else (some b) a = b

-- The record that `update_job_record` writes.
unfoldable pub updated_record : Update → ℕ → JobRecord → JobRecord
updated_record u now current = record current {
  state = or_else u.next_state current.state;
  revision = current.revision + 1;
  cancel_requested = or_else u.cancel_requested current.cancel_requested;
  safe_error = u.safe_error;
  updated_at = now;
}

-- The guards of `update_job_record`, and the record that it writes if they hold.
unfoldable pub next_record : Update → ℕ → JobRecord → Result StoreError JobRecord
unfolding validate_state updated_record
next_record u now current = do
  raise_if (not (current.revision == u.expected_revision)) (invalid_transition "stale job revision")
  raise_if (is_terminal current.state) (invalid_transition "terminal job cannot be modified")
  let target = or_else u.next_state current.state
  raise_if (is_some u.next_state && not (allowed current.state target))
      (invalid_transition "unsupported job state transition")
  let cancel = or_else u.cancel_requested current.cancel_requested
  raise_if (current.cancel_requested && not cancel)
      (invalid_transition "cancellation cannot be withdrawn")
  raise_if
      (current.cancel_requested
        && not (
            target == current.state
            || target == cancelled
            || target == failed
            || target == interrupted))
      (invalid_transition "cancelled job cannot advance")
  raise_if (is_some u.safe_error && not (target == failed || target == interrupted))
      (invalid_transition "safe error requires failed or interrupted state")
  raise_if (target == failed && not (is_some u.safe_error))
      (invalid_transition "failed job requires a safe error")
  raise_if (target == current.state && cancel == current.cancel_requested)
      (invalid_transition "job update is a no-op")
  let updated = updated_record u now current
  raise_if (not (validate_state updated)) validation_error
  ok updated

abbrev pub put_job : JobRecord → Disk → Disk
put_job r d = record d { jobs = insert (r.workspace_id, r.job_id) (child (file r)) d.jobs }

abbrev pub write_job : JobRecord → Action JobRecord
write_job r d = let (done, d') = atomic_write (put_job r) d in ((done >> ok r), d')

abbrev pub read_then : {A B : Type 0} → (Disk → Result StoreError A) → (A → Action B) → Action B
read_then q k d = elim (q d) [ ok a ↦ k a d | raise e ↦ (raise e, d) ]

unfoldable pub update_job_record : String → String → Update → ℕ → Action JobRecord
update_job_record ws job u now =
    read_then (λ d. get_job_record ws job d >>= next_record u now) write_job

-- No directory can be made where a stray entry stands.
abbrev pub is_stray : Option JobChild → Bool
is_stray (some stray) = true
is_stray _ = false

-- The guards of `save_job_record`.
unfoldable pub check_new_job : JobRecord → Disk → Result StoreError (Unit {0})
check_new_job r d = do
  snapshot ← get_run_snapshot r.workspace_id r.run_id d
  raise_if (not (snapshot.workspace_id == r.workspace_id))
      (storage "job workspace does not match its run")
  raise_if (not (r.state == queued) || not (r.revision == 0) || r.cancel_requested)
      (storage "new jobs must begin in QUEUED state")
  job_path r.workspace_id r.job_id d
  raise_if (is_taken (job_entry (r.workspace_id, r.job_id) d.jobs)) (storage "job already exists")
  raise_if (is_stray (lookup (r.workspace_id, r.job_id) d.jobs)) os_error

-- The directory of the file, which `_atomic_create_json` makes if there is none.
abbrev pub make_directory : Key → Disk → Disk
make_directory k d = record d {
  jobs = elim (lookup k d.jobs) [ none ↦ insert k (child missing) d.jobs | some _ ↦ d.jobs ];
}

-- `_atomic_create_json`: the directory stays when the device refuses the file.
abbrev pub create_job : JobRecord → Action JobRecord
create_job r d = write_job r (make_directory (r.workspace_id, r.job_id) d)

unfoldable pub save_job_record : JobRecord → Action JobRecord
unfolding check_new_job
save_job_record r = read_then (check_new_job r) (λ _. create_job r)
