-- ===== src/Storage/Evidence.antt =====
-- src/evalops/workspace/storage.py: the result and the provenance of a run, which are written with
-- the completion of its job and read back only for a completed one.
pub mod Promotion
pub mod Commit
pub mod RoundTrip
pub mod Refused
pub mod Rollback
use evalops_lab.Common.{
  ℕ, String, Bool, true, false, not, ◌&&◌, ◌||◌, Option, none, some, List, [], ◌∷◌, Result, ok,
  raise, insert, erase, any, keep, ◌==◌, string_eq, option_eq, if◌then◌else◌,
}
use evalops_lab.Jobs.States.{JobState, complete, writing_artifact, is_terminal, state_eq}
use evalops_lab.Jobs.Record.{JobRecord}
use evalops_lab.Models.Runs.{RunSnapshot, RunProvenance, config_beq, dict_beq}
use evalops_lab.Comparison.Evidence.{EvaluationResult}
use evalops_lab.Storage.Codec.{Codec}
use evalops_lab.Storage.Disk.{
  StoreError, storage, os_error, is_directory, Entry, missing, link, directory, unreadable,
  not_object, file, exists, is_taken, leads_to_file, is_link, Key, key_eq, Disk, entry_at, Action,
  atomic_write,
}
use evalops_lab.Storage.Actions.{carry, ◌>>=◌, ◌>>◌, return, fail, query, check, atomic_create}
use evalops_lab.Storage.Runs.{run_config_path, get_run_snapshot}
use evalops_lab.Storage.Jobs.{Update, get_job_record, list_job_records, update_job_record, only}

abbrev pub put_result : Key → String → Disk → Disk
put_result k content d = record d { results = insert k (file content) d.results }

abbrev pub put_provenance : Key → RunProvenance → Disk → Disk
put_provenance k p d = record d { provenances = insert k (file p) d.provenances }

abbrev pub drop_result : Key → Disk → Disk
drop_result k d = record d { results = erase k d.results }

abbrev pub drop_provenance : Key → Disk → Disk
drop_provenance k d = record d { provenances = erase k d.provenances }

-- What a provenance repeats of the snapshot of its run.
unfoldable pub repeats_snapshot : RunProvenance → RunSnapshot → Bool
repeats_snapshot p s =
    p.ground_truth_input_id == s.ground_truth_input_id
    && p.predictions_input_id == s.predictions_input_id
    && p.ground_truth_content_sha256 == s.ground_truth_content_sha256
    && p.predictions_content_sha256 == s.predictions_content_sha256
    && dict_beq p.evaluator_versions s.config.evaluator_versions
    && p.git_commit == s.config.git_commit

abbrev pub is_completed : String → JobRecord → Bool
is_completed run job = job.run_id == run && job.state == complete

abbrev pub is_active : String → JobRecord → Bool
is_active run job = job.run_id == run && not (is_terminal job.state)

-- The update that completes a job.
abbrev pub completion : JobRecord → Update
completion job = record {
  expected_revision = job.revision;
  next_state = some complete;
  cancel_requested = none;
  safe_error = none;
}

-- `path.unlink(missing_ok=True)` on the two files, in the order of the handler.
unfoldable pub unlink_evidence : Key → Action (Unit {0})
unlink_evidence k = do atomic_write (drop_provenance k); atomic_write (drop_result k)

-- The `except` of `write_run_artifacts`.
unfoldable pub roll_back : JobRecord → StoreError → Action (Unit {0})
unfolding unlink_evidence
roll_back job e = do
  current ← query (get_job_record job.workspace_id job.job_id)
  (if current.state == complete
      then fail e
      else (unlink_evidence (job.workspace_id, job.run_id) >> fail e))

-- The `try` of `write_run_artifacts`.
unfoldable pub promote : JobRecord → String → RunProvenance → ℕ → Action (Unit {0})
promote job content p now =
    let k : Key = (job.workspace_id, job.run_id) in
    do
      atomic_create (λ d. is_taken (entry_at k d.results)) (put_result k content)
      atomic_create (λ d. is_taken (entry_at k d.provenances)) (put_provenance k p)
      updated ← update_job_record job.workspace_id job.job_id (completion job) now
      return tt

abbrev pub or_roll_back :
    JobRecord → Result StoreError (Unit {0}) × Disk → Result StoreError (Unit {0}) × Disk
or_roll_back job (ok _, d) = (ok tt, d)
or_roll_back job (raise e, d) = roll_back job e d

-- The bytes of the result, and the provenance, as the `try` of `get_run_artifacts` reads them.
abbrev pub bytes_of : Entry String → Result StoreError String
bytes_of (file content) = ok content
bytes_of _ = raise (storage "run evidence is invalid")

abbrev pub provenance_of : Entry RunProvenance → Result StoreError RunProvenance
provenance_of (file p) = ok p
provenance_of unreadable = raise (storage "workspace metadata is unreadable")
provenance_of not_object = raise (storage "workspace metadata must be a JSON object")
provenance_of _ = raise (storage "run evidence is invalid")

-- `if len(completed) != 1: raise`
abbrev pub completed_job : List JobRecord → Result StoreError JobRecord
completed_job jobs = elim (only jobs) [
  | none ↦ raise (storage "completed run evidence is unavailable")
  | some job ↦ ok job
]

-- A validation in the `try` of `get_run_artifacts`.
abbrev pub validated : {A : Type 0} → Option A → Result StoreError A
validated none = raise (storage "run evidence is invalid")
validated (some a) = ok a

-- `if provenance is None: raise`
abbrev pub required : Option RunProvenance → Result StoreError RunProvenance
required none = raise (storage "run provenance is required")
required (some p) = ok p

module _ {N : Type 0} (codec : Codec N) where
  -- `EvaluationResult.model_validate_json` in `write_run_artifacts`.
  abbrev pub decoded_result : String → Result StoreError (EvaluationResult N)
  decoded_result content = elim (codec.decode content) [
    | none ↦ raise (storage "result payload is invalid")
    | some r ↦ ok r
  ]

  -- The checks of `write_run_artifacts`.
  unfoldable pub check_evidence :
      String → String → String → Option RunProvenance → Action (JobRecord × RunProvenance)
  unfolding repeats_snapshot
  check_evidence ws id content provenance = do
    job ← query (get_job_record ws id)
    check (λ _. not (job.state == writing_artifact) || job.cancel_requested)
        (storage "job is not eligible for artifact promotion")
    p ← query (λ _. required provenance)
    snapshot ← query (get_run_snapshot ws job.run_id)
    result ← query (λ _. decoded_result content)
    check (λ _. not (config_beq result.run snapshot.config))
        (storage "result config differs from immutable run snapshot")
    check
        (λ _.
          not (p.run_id == snapshot.run_id)
          || not (repeats_snapshot p snapshot)
          || not (p.result_sha256 == codec.sha256 content))
        (storage "run artifact provenance integrity mismatch")
    jobs ← query (list_job_records ws)
    check (λ _. any (is_completed job.run_id) jobs) (storage "completed run evidence is immutable")
    query (run_config_path ws job.run_id)
    check
        (λ d.
          exists (entry_at (ws, job.run_id) d.results)
          || exists (entry_at (ws, job.run_id) d.provenances))
        (storage "run evidence already exists")
    return (job, p)

  unfoldable pub write_run_artifacts :
      String → String → String → Option RunProvenance → ℕ → Action (Unit {0})
  unfolding check_evidence promote roll_back
  write_run_artifacts ws id content provenance now = do
    (job, p) ← check_evidence ws id content provenance
    (λ d. or_roll_back job (promote job content p now d))

  unfoldable pub get_run_artifacts : String → String → Action (EvaluationResult N × RunProvenance)
  unfolding repeats_snapshot
  get_run_artifacts ws run = do
    snapshot ← query (get_run_snapshot ws run)
    jobs ← query (list_job_records ws)
    completed ← query (λ _. completed_job (keep (is_completed run) jobs))
    query (run_config_path ws run)
    check
        (λ d.
          not (leads_to_file (entry_at (ws, run) d.results))
          || not (leads_to_file (entry_at (ws, run) d.provenances)))
        (storage "run evidence is incomplete")
    check
        (λ d. is_link (entry_at (ws, run) d.results) || is_link (entry_at (ws, run) d.provenances))
        (storage "run evidence paths are unsafe")
    content ← query (λ d. bytes_of (entry_at (ws, run) d.results))
    p ← query (λ d. provenance_of (entry_at (ws, run) d.provenances))
    check (λ _. not (p.result_sha256 == codec.sha256 content))
        (storage "run evidence checksum mismatch")
    result ← query (λ _. validated (codec.decode content))
    check
        (λ _.
          not (config_beq result.run snapshot.config)
          || not (p.run_id == run)
          || not (repeats_snapshot p snapshot))
        (storage "run evidence does not match its snapshot")
    return (result, p)

-- The body of the loop of `discard_unfinished_run_artifacts`.
unfoldable pub check_unfinished : String → List JobRecord → Result StoreError (Unit {0})
check_unfinished run [] = ok tt
check_unfinished run (job ∷ jobs) =
    if is_completed run job
    then raise (storage "completed run evidence is immutable")
    else if is_active run job
    then raise (storage "run has an active job")
    else check_unfinished run jobs

unfoldable pub discard_unfinished_run_artifacts : String → String → Action (Unit {0})
unfolding check_unfinished
discard_unfinished_run_artifacts ws run = do
  snapshot ← query (get_run_snapshot ws run)
  jobs ← query (list_job_records ws)
  query (λ _. check_unfinished run jobs)
  query (run_config_path ws run)
  check (λ d. is_link (entry_at (ws, run) d.results)) (storage "run evidence path is unsafe")
  check (λ d. is_directory (entry_at (ws, run) d.results)) os_error
  atomic_write (drop_result (ws, run))
  check (λ d. is_link (entry_at (ws, run) d.provenances)) (storage "run evidence path is unsafe")
  check (λ d. is_directory (entry_at (ws, run) d.provenances)) os_error
  atomic_write (drop_provenance (ws, run))
