-- ===== src/Storage/Evidence/Refused.antt =====
-- The `try` and the `except` of `write_run_artifacts` in src/evalops/workspace/storage.py on a device
-- that refuses a write.
use evalops_lab.Common.{◌>>=◌ as bind}
use evalops_lab.Common.{
  nat_eq, ℕ, ◌+◌, String, ◌≡◌, ◌≢◌, refl, sym, ap, ◌∙◌, Bool-cases, inl, inr, true, false, none,
  Result, ok, raise, insert, erase, lookup-insert, lookup-erase, Dict, ==_refl, ==_iff, arith,
}
use evalops_lab.Jobs.States.{complete, writing_artifact, state_eq}
use evalops_lab.Jobs.Record.{JobRecord, validate_state}
use evalops_lab.Models.Runs.{RunProvenance}
use evalops_lab.Storage.Disk.{
  StoreError, os_error, Key, key_eq, Disk, Entry, file, is_taken, entry_at,
}
use evalops_lab.Storage.Actions.{
  return, fail, >>=-ok, >>=-raise, query-ok, atomic_create-ok, atomic_create-fault, atomic_write-ok,
}
use evalops_lab.Storage.Runs.{get_run_snapshot}
use evalops_lab.Storage.Workspaces.{get_workspace}
use evalops_lab.Storage.Jobs.{
  get_job_record, next_record, updated_record, put_job, update_job_record, write_job,
}
use evalops_lab.Storage.Updates.{read_then-ok, write_job-ok, write_job-fault}
use evalops_lab.Storage.Evidence.{
  promote, completion, roll_back, or_roll_back, unlink_evidence, put_result, put_provenance,
  drop_result, drop_provenance,
}

-- The files are taken away in the order of the handler.
unlinked : Key → Disk → Disk
unlinked k d = drop_result k (record (drop_provenance k (record d { written = d.written + 1 })) {
  written = d.written + 1 + 1;
})

unlink_evidence-ok :
    (k : Key) (d : Disk)
    → d.faults d.written ≡ false
    → d.faults (d.written + 1) ≡ false
    → unlink_evidence k d ≡ (ok tt, unlinked k d)
unfolding unlink_evidence unlinked
unlink_evidence-ok k d h g =
    >>=-ok _ _ d (atomic_write-ok (drop_provenance k) d h) ∙ atomic_write-ok (drop_result k) _ g

roll_back-ok :
    (job : JobRecord) (e : StoreError) (d : Disk)
    → get_job_record job.workspace_id job.job_id d ≡ ok job
    → job.state ≡ writing_artifact
    → d.faults d.written ≡ false
    → d.faults (d.written + 1) ≡ false
    → roll_back job e d ≡ (raise e, unlinked (job.workspace_id, job.run_id) d)
unfolding roll_back fail
roll_back-ok job e d read state h g =
    let k : Key = (job.workspace_id, job.run_id) in
    query-ok _ _ d read ∙ rw state (>>=-ok _ _ d (unlink_evidence-ok k d h g))

-- The completion passes the guards of the update.
pub completion-ok :
    (job : JobRecord) (now : ℕ)
    → job.state ≡ writing_artifact
    → job.cancel_requested ≡ false
    → (new : JobRecord) × (next_record (completion job) now job ≡ ok new)
unfolding next_record validate_state updated_record
completion-ok job now s c = (
  record job { state = complete; revision = job.revision + 1; safe_error = none; updated_at = now },
  ground (arith, s, c, ==_refl job.revision),
)

completed : JobRecord → ℕ → Disk → Result StoreError JobRecord
completed job now d =
    bind (get_job_record job.workspace_id job.job_id d) (next_record (completion job) now)

-- What a refused completion raises.
update-fault :
    (job new : JobRecord) (now : ℕ) (d : Disk)
    → get_job_record job.workspace_id job.job_id d ≡ ok job
    → next_record (completion job) now job ≡ ok new
    → d.faults d.written ≡ true
    → update_job_record job.workspace_id job.job_id (completion job) now d
      ≡ (raise os_error, record d { written = d.written + 1 })
unfolding update_job_record completed
update-fault job new now d read next h =
    read_then-ok (completed job now) write_job d (rw (read, next) refl) ∙ write_job-fault new d h

update-taken :
    (job new : JobRecord) (now : ℕ) (d : Disk)
    → get_job_record job.workspace_id job.job_id d ≡ ok job
    → next_record (completion job) now job ≡ ok new
    → d.faults d.written ≡ false
    → update_job_record job.workspace_id job.job_id (completion job) now d
      ≡ (ok new, put_job new (record d { written = d.written + 1 }))
unfolding update_job_record completed
update-taken job new now d read next h =
    read_then-ok (completed job now) write_job d (rw (read, next) refl) ∙ write_job-ok new d h

-- At an untaken path, what is put and taken away, and what is taken away, leaves every path as it was.
entry_at-erase :
    {A : Type 0} (k j : Key) (t : Dict Key (Entry A))
    → is_taken (entry_at k t) ≡ false
    → entry_at j (erase k t) ≡ entry_at j t
entry_at-erase k j t h = ground (arith, lookup-erase {K = Key} k j t, ==_iff {A = Key} j k)

entry_at-erase-insert :
    {A : Type 0} (k j : Key) (x : Entry A) (t : Dict Key (Entry A))
    → is_taken (entry_at k t) ≡ false
    → entry_at j (erase k (insert k x t)) ≡ entry_at j t
entry_at-erase-insert k j x t h = ground (
  arith,
  lookup-erase {K = Key} k j (insert k x t),
  lookup-insert {K = Key} k j x t,
  ==_iff {A = Key} j k,
)

-- The files of all runs and the jobs are as they were.
pub record IsRestored (d d' : Disk) : Type 0 where
  pub same_jobs : d'.jobs ≡ d.jobs
  pub same_results : (k : Key) → entry_at k d'.results ≡ entry_at k d.results
  pub same_provenances : (k : Key) → entry_at k d'.provenances ≡ entry_at k d.provenances

-- The device refuses one write at most.
unfoldable pub RefusesOnce : Disk → Type 0
RefusesOnce d = (n m : ℕ) → d.faults n ≡ true → d.faults m ≡ true → n ≡ m

pub others-work :
    (d : Disk) (n m : ℕ) → RefusesOnce d → d.faults n ≡ true → n ≢ m → d.faults m ≡ false
unfolding RefusesOnce
others-work d n m once refused apart = elim (Bool-cases (d.faults m)) [
  | inl again ↦ absurd (apart (once n m refused again))
  | inr works ↦ works
]

-- The promotion stopped at `e`, and the handler went on from there.
stopped-unlinked :
    (job : JobRecord) (content : String) (p : RunProvenance) (now : ℕ) (d e d' : Disk)
    (x : StoreError)
    → promote job content p now d ≡ (raise os_error, e)
    → get_job_record job.workspace_id job.job_id e ≡ ok job
    → job.state ≡ writing_artifact
    → e.faults e.written ≡ false
    → e.faults (e.written + 1) ≡ false
    → or_roll_back job (promote job content p now d) ≡ (raise x, d')
    → d' ≡ unlinked (job.workspace_id, job.run_id) e
stopped-unlinked job content p now d e d' x h read state f g r =
    let done = ap (or_roll_back job) h ∙ roll_back-ok job os_error e read state f g in
    ap (λ (o : Result StoreError (Unit {0}) × Disk). o.1) (sym r ∙ done)

-- At the three writes.
module _ (job new : JobRecord) (content : String) (p : RunProvenance) (now : ℕ) (d : Disk)
    (read : get_job_record job.workspace_id job.job_id d ≡ ok job)
    (state : job.state ≡ writing_artifact) (next : next_record (completion job) now job ≡ ok new)
    (no_result : is_taken (entry_at {K = Key} (job.workspace_id, job.run_id) d.results) ≡ false)
    (no_provenance : is_taken (entry_at {K = Key} (job.workspace_id, job.run_id) d.provenances)
      ≡ false)
    (once : RefusesOnce d) (d' : Disk) (x : StoreError)
    (stopped : or_roll_back job (promote job content p now d) ≡ (raise x, d')) where
  result_refused : d.faults d.written ≡ true → IsRestored d d'
  unfolding promote unlinked get_job_record get_run_snapshot get_workspace
  result_refused f0 =
      let k : Key = (job.workspace_id, job.run_id) in
      let e : Disk = record d { written = d.written + 1 } in
      let left =
        stopped-unlinked job content p now d e d' x
          (>>=-raise _ _ d (atomic_create-fault _ _ d no_result f0)) read state
          (others-work d d.written _ once f0 (λ q. omega arith))
          (others-work d d.written _ once f0 (λ q. omega arith)) stopped in
      record {
        same_jobs = ap (λ (z : Disk). z.jobs) left;
        same_results = λ j.
            ap (λ (z : Disk). entry_at j z.results) left ∙ entry_at-erase k j d.results no_result;
        same_provenances = λ j.
            ap (λ (z : Disk). entry_at j z.provenances) left
            ∙ entry_at-erase k j d.provenances no_provenance;
      }

  provenance_refused :
      d.faults d.written ≡ false → d.faults (d.written + 1) ≡ true → IsRestored d d'
  unfolding promote unlinked get_job_record get_run_snapshot get_workspace
  provenance_refused f0 f1 =
      let k : Key = (job.workspace_id, job.run_id) in
      let e1 : Disk = put_result k content (record d { written = d.written + 1 }) in
      let e : Disk = record e1 { written = d.written + 1 + 1 } in
      let left =
        stopped-unlinked job content p now d e d' x
          (>>=-ok _ _ d (atomic_create-ok _ _ d no_result f0)
            ∙ >>=-raise _ _ e1 (atomic_create-fault _ _ e1 no_provenance f1))
          read state (others-work d (d.written + 1) _ once f1 (λ q. omega arith))
          (others-work d (d.written + 1) _ once f1 (λ q. omega arith)) stopped in
      record {
        same_jobs = ap (λ (z : Disk). z.jobs) left;
        same_results = λ j.
            ap (λ (z : Disk). entry_at j z.results) left
            ∙ entry_at-erase-insert k j (file content) d.results no_result;
        same_provenances = λ j.
            ap (λ (z : Disk). entry_at j z.provenances) left
            ∙ entry_at-erase k j d.provenances no_provenance;
      }

  completion_refused :
      d.faults d.written ≡ false
      → d.faults (d.written + 1) ≡ false
      → d.faults (d.written + 1 + 1) ≡ true
      → IsRestored d d'
  unfolding promote unlinked get_job_record get_run_snapshot get_workspace
  completion_refused f0 f1 f2 =
      let k : Key = (job.workspace_id, job.run_id) in
      let e1 : Disk = put_result k content (record d { written = d.written + 1 }) in
      let e2 : Disk = put_provenance k p (record e1 { written = d.written + 1 + 1 }) in
      let e : Disk = record e2 { written = d.written + 1 + 1 + 1 } in
      let left =
        stopped-unlinked job content p now d e d' x
          (>>=-ok _ _ d (atomic_create-ok _ _ d no_result f0)
            ∙ >>=-ok _ _ e1 (atomic_create-ok _ _ e1 no_provenance f1)
            ∙ >>=-raise _ _ e2 (update-fault job new now e2 read next f2))
          read state (others-work d (d.written + 1 + 1) _ once f2 (λ q. omega arith))
          (others-work d (d.written + 1 + 1) _ once f2 (λ q. omega arith)) stopped in
      record {
        same_jobs = ap (λ (z : Disk). z.jobs) left;
        same_results = λ j.
            ap (λ (z : Disk). entry_at j z.results) left
            ∙ entry_at-erase-insert k j (file content) d.results no_result;
        same_provenances = λ j.
            ap (λ (z : Disk). entry_at j z.provenances) left
            ∙ entry_at-erase-insert k j (file p) d.provenances no_provenance;
      }

  nothing_refused :
      d.faults d.written ≡ false
      → d.faults (d.written + 1) ≡ false
      → d.faults (d.written + 1 + 1) ≡ false
      → IsRestored d d'
  unfolding promote return get_job_record get_run_snapshot get_workspace
  nothing_refused f0 f1 f2 =
      let k : Key = (job.workspace_id, job.run_id) in
      let e1 : Disk = put_result k content (record d { written = d.written + 1 }) in
      let e2 : Disk = put_provenance k p (record e1 { written = d.written + 1 + 1 }) in
      let e3 : Disk = put_job new (record e2 { written = d.written + 1 + 1 + 1 }) in
      let done : or_roll_back job (promote job content p now d) ≡ (ok tt, e3) =
        ap (or_roll_back job) (
          >>=-ok _ _ d (atomic_create-ok _ _ d no_result f0)
          ∙ >>=-ok _ _ e1 (atomic_create-ok _ _ e1 no_provenance f1)
          ∙ >>=-ok _ _ e2 (update-taken job new now e2 read next f2)) in
      absurd (cc (ap (λ (o : Result StoreError (Unit {0}) × Disk). o.0) (sym stopped ∙ done)))

  pub stopped-IsRestored : IsRestored d d'
  stopped-IsRestored = elim (Bool-cases (d.faults d.written)) [
    | inl f0 ↦ result_refused f0
    | inr f0 ↦ elim (Bool-cases (d.faults (d.written + 1))) [
      | inl f1 ↦ provenance_refused f0 f1
      | inr f1 ↦ elim (Bool-cases (d.faults (d.written + 1 + 1))) [
        | inl f2 ↦ completion_refused f0 f1 f2
        | inr f2 ↦ nothing_refused f0 f1 f2
      ]
    ]
  ]
