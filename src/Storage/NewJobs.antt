-- ===== src/Storage/NewJobs.antt =====
-- What `save_job_record` of src/evalops/workspace/storage.py leaves on disk.
use evalops_lab.Common.{
  lookup, insert-insert, Option-cases, inl, inr, Dict, ℕ, ◌+◌, ◌≡◌, refl, ok, ==_refl, string_eq,
  lookup-insert, ap, ◌∙◌, arith,
}
use evalops_lab.Jobs.Record.{JobRecord}
use evalops_lab.Storage.Disk.{JobChild, missing, Disk, Key, key_eq, child, file, read_model}
use evalops_lab.Storage.Workspaces.{get_workspace}
use evalops_lab.Storage.Runs.{get_run_snapshot}
use evalops_lab.Storage.Jobs.{
  make_directory, create_job, get_job_record, put_job, job_path, check_new_job, save_job_record,
}
use evalops_lab.Storage.Updates.{read_then-eq-ok, write_job-eq-ok}

-- The guards of a new job do not depend on the writes that were counted.
check_new_job-written :
    (r : JobRecord) (n : ℕ) (d : Disk)
    → check_new_job r (record d { written = n }) ≡ check_new_job r d
unfolding check_new_job get_run_snapshot get_workspace job_path
check_new_job-written r n d = refl

-- A new job that passed the guards is read back.
get_job_record-new :
    (r : JobRecord) (d : Disk)
    → check_new_job r d ≡ ok tt
    → get_job_record r.workspace_id r.job_id (put_job r d) ≡ ok r
unfolding check_new_job get_job_record read_model get_run_snapshot get_workspace job_path
get_job_record-new r d h = ground (
  arith,
  lookup-insert {K = Key} (r.workspace_id, r.job_id) (r.workspace_id, r.job_id) (child (file r))
      d.jobs,
  ==_refl r.workspace_id,
  ==_refl r.job_id,
)

-- The file of a new job stands in its place, whether or not its directory was there.
put_job-make_directory :
    (r : JobRecord) (d : Disk)
    → put_job r (make_directory (r.workspace_id, r.job_id) d) ≡ put_job r d
put_job-make_directory r d =
    elim (Option-cases (lookup {K = Key} (r.workspace_id, r.job_id) d.jobs)) [
      | inl absent ↦
          rw (absent, make_directory)
            (ap (λ (t : Dict Key JobChild). record d { jobs = t })
              (insert-insert {K = Key} (r.workspace_id, r.job_id) (child (file r)) (child missing)
                d.jobs))
      | inr (_, there) ↦ rw (there, make_directory) refl
    ]

-- A saved job passed the guards, is the only change, and is read back.
pub save_job_record-eq-ok :
    (r s : JobRecord) (d d' : Disk)
    → save_job_record r d ≡ (ok s, d')
    → (check_new_job r d ≡ ok tt)
      × (d' ≡ put_job r (record d { written = d.written + 1 }))
      × (get_job_record r.workspace_id r.job_id d' ≡ ok r)
unfolding save_job_record
save_job_record-eq-ok r s d d' h =
    let (_, checked, w) = read_then-eq-ok (check_new_job r) (λ _. create_job r) d h in
    let counted : Disk = record d { written = d.written + 1 } in
    let (_, put) = write_job-eq-ok r (make_directory (r.workspace_id, r.job_id) d) w in
    let left = put ∙ put_job-make_directory r counted in
    let read = get_job_record-new r counted (check_new_job-written r (d.written + 1) d ∙ checked) in
    (checked, left, ap (get_job_record r.workspace_id r.job_id) left ∙ read)
