-- ===== src/Storage/Updates.antt =====
-- What `update_job_record` of src/evalops/workspace/storage.py leaves on disk.
use evalops_lab.Common.{
  ℕ, ◌+◌, String, ◌≡◌, refl, ok, raise, ==_iff, ==_refl, string_eq, lookup, is_some, true, false,
  lookup-insert, ◌>>=◌, >>=-eq-ok, Result, Result-cases, Bool-cases, ap, sym, ◌∙◌, inl, inr, arith,
}
use evalops_lab.Jobs.Record.{JobRecord}
use evalops_lab.Storage.Disk.{
  Action, StoreError, os_error, Disk, Key, key_eq, child, file, read_model, atomic_write,
}
use evalops_lab.Storage.Workspaces.{get_workspace}
use evalops_lab.Storage.Runs.{get_run_snapshot}
use evalops_lab.Storage.Jobs.{
  read_then, write_job, Update, get_job_record, next_record, put_job, update_job_record,
}
use evalops_lab.Storage.Transitions.{IsAdvance, next_record-IsAdvance}

-- A job record that is read is filed under its own identifiers.
pub get_job_record_ids :
    (ws job : String) (d : Disk) (r : JobRecord)
    → get_job_record ws job d ≡ ok r
    → (r.job_id ≡ job) × (r.workspace_id ≡ ws)
unfolding get_job_record
get_job_record_ids ws job d r h = ground (arith, ==_iff r.job_id job, ==_iff r.workspace_id ws)

-- A job whose record is read has a directory.
pub get_job_record_filed :
    (ws job : String) (d : Disk) (r : JobRecord)
    → get_job_record ws job d ≡ ok r
    → is_some (lookup {K = Key} (ws, job) d.jobs) ≡ true
unfolding get_job_record
get_job_record_filed ws job d r h = ground arith

-- The workspaces and the runs do not depend on the jobs.
pub get_workspace-put_job :
    (ws : String) (r : JobRecord) (d : Disk) → get_workspace ws (put_job r d) ≡ get_workspace ws d
unfolding get_workspace
get_workspace-put_job ws r d = refl

pub get_run_snapshot-put_job :
    (ws run : String) (r : JobRecord) (d : Disk)
    → get_run_snapshot ws run (put_job r d) ≡ get_run_snapshot ws run d
unfolding get_run_snapshot get_workspace
get_run_snapshot-put_job ws run r d = refl

-- Nor does a read depend on the writes that were counted.
pub get_job_record-written :
    (ws job : String) (n : ℕ) (d : Disk)
    → get_job_record ws job (record d { written = n }) ≡ get_job_record ws job d
unfolding get_job_record get_run_snapshot get_workspace
get_job_record-written ws job n d = refl

-- Writing a record of a job that is on disk, under the same identifiers and run, is read back.
get_job_record-put_job :
    (ws job : String) (d : Disk) (old new : JobRecord)
    → get_job_record ws job d ≡ ok old
    → IsAdvance old new
    → get_job_record ws job (put_job new d) ≡ ok new
unfolding get_job_record read_model
get_job_record-put_job ws job d old new h a =
    let (j, w) = get_job_record_ids ws job d old h in
    ground (
      arith,
      get_workspace-put_job ws new d,
      get_run_snapshot-put_job ws new.run_id new d,
      lookup-insert {K = Key} (new.workspace_id, new.job_id) (ws, job) (child (file new)) d.jobs,
      ==_refl ws,
      ==_refl job,
    )

pub read_then-eq-ok :
    {A B : Type 0} (q : Disk → Result StoreError A) (k : A → Action B) (d : Disk) {b : B}
    {d' : Disk}
    → read_then q k d ≡ (ok b, d')
    → (a : A) × (q d ≡ ok a) × (k a d ≡ (ok b, d'))
read_then-eq-ok q k d h = elim (Result-cases (q d)) [
  | inl (a, e) ↦ (a, e, rw (e, read_then) at h)
  | inr (_, e) ↦
      let r = rw (e, read_then) at h in cc (ap (λ (p : Result StoreError _ × Disk). p.0) r)
]

pub read_then-ok :
    {A B : Type 0} (q : Disk → Result StoreError A) (k : A → Action B) (d : Disk) {a : A}
    → q d ≡ ok a
    → read_then q k d ≡ k a d
read_then-ok q k d h = rw (h, read_then) refl

pub write_job-ok :
    (r : JobRecord) (d : Disk)
    → d.faults d.written ≡ false
    → write_job r d ≡ (ok r, put_job r (record d { written = d.written + 1 }))
unfolding atomic_write
write_job-ok r d h = rw h refl

pub write_job-fault :
    (r : JobRecord) (d : Disk)
    → d.faults d.written ≡ true
    → write_job r d ≡ (raise os_error, record d { written = d.written + 1 })
unfolding atomic_write
write_job-fault r d h = rw h refl

pub write_job-eq-ok :
    (r : JobRecord) (d : Disk) {s : JobRecord} {d' : Disk}
    → write_job r d ≡ (ok s, d')
    → (s ≡ r) × (d' ≡ put_job r (record d { written = d.written + 1 }))
unfolding atomic_write
write_job-eq-ok r d h = elim (Bool-cases (d.faults d.written)) [
  | inl refused ↦
      let g = rw refused at h in cc (ap (λ (p : Result StoreError JobRecord × Disk). p.0) g)
  | inr taken ↦
      let g = rw taken at h in
      (
        cc (ap (λ (p : Result StoreError JobRecord × Disk). p.0) g),
        sym (ap (λ (p : Result StoreError JobRecord × Disk). p.1) g),
      )
]

-- What an accepted update read, and what it left.
pub update-eq-ok :
    (ws job : String) (u : Update) (now : ℕ) (d d' : Disk) (r : JobRecord)
    → update_job_record ws job u now d ≡ (ok r, d')
    → (old : JobRecord) × (get_job_record ws job d ≡ ok old)
      × (next_record u now old ≡ ok r)
      × (d' ≡ put_job r (record d { written = d.written + 1 }))
unfolding update_job_record
update-eq-ok ws job u now d d' r h =
    let (new, q, w) =
      read_then-eq-ok (λ d. get_job_record ws job d >>= next_record u now) write_job d h in
    let (old, got, next) = >>=-eq-ok (get_job_record ws job d) (next_record u now) q in
    let (same, left) = write_job-eq-ok new d w in (old, got, next ∙ ap ok (sym same), rw same left)

-- An accepted update returns the record that the next read of the job returns, and changes nothing on
-- the disk but this job and the count of writes.
pub update_is_durable :
    (ws job : String) (u : Update) (now : ℕ) (d d' : Disk) (r : JobRecord)
    → update_job_record ws job u now d ≡ (ok r, d')
    → (get_job_record ws job d' ≡ ok r) × (d' ≡ put_job r (record d { written = d.written + 1 }))
update_is_durable ws job u now d d' r h =
    let (old, got, next, left) = update-eq-ok ws job u now d d' r h in
    let counted : Disk = record d { written = d.written + 1 } in
    let seen = get_job_record-written ws job (d.written + 1) d ∙ got in
    let advance = next_record-IsAdvance u now old r next in
    let read = get_job_record-put_job ws job counted old r seen advance in
    (ap (get_job_record ws job) left ∙ read, left)
