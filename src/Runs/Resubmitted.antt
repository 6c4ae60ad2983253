-- ===== src/Runs/Resubmitted.antt =====
-- What `retry_job` of src/evalops/workspace/application/runs.py has done when it returns.
use evalops_lab.Common.{
  ℕ, ◌+◌, String, ◌≡◌, refl, sym, ap, ◌∙◌, subst, Bool, Bool-cases, inl, inr, true, false, not,
  ◌&&◌, ◌||◌, List, [], ◌∷◌, Result, ok, raise, is_some, all, ◌==◌, string_eq, arith, if◌then◌else◌,
}
use evalops_lab.Jobs.States.{complete, is_terminal, state_eq}
use evalops_lab.Jobs.Record.{JobRecord, new_queued}
use evalops_lab.Jobs.Queue.{Queue, QueueError, stored, enqueue, schedule}
use evalops_lab.Storage.Disk.{StoreError, Disk, Key, key_eq}
use evalops_lab.Storage.Actions.{
  call_query-eq-ok, check-eq-ok, query-eq-ok, >>=-eq-ok, call_as-eq-ok, return-eq-ok,
  atomic_write-eq-ok,
}
use evalops_lab.Storage.Jobs.{get_job_record, list_job_records, save_job_record, put_job}
use evalops_lab.Storage.NewJobs.{save_job_record-eq-ok}
use evalops_lab.Storage.Evidence.{discard_unfinished_run_artifacts, drop_result, drop_provenance}
use evalops_lab.Runs.Creation.{
  RunError, can_retry, check_others, prepare_retry, retry_job, submit, enqueued,
}

-- The job is of another run, or is over without having completed it.
abbrev pub is_no_obstacle : String → JobRecord → Bool
is_no_obstacle run j = not (j.run_id == run) || is_terminal j.state && not (j.state == complete)

check_others-eq-ok :
    (run : String) (jobs : List JobRecord)
    → check_others run jobs ≡ ok tt
    → all (is_no_obstacle run) jobs ≡ true
unfolding check_others
check_others-eq-ok run [] h = refl
check_others-eq-ok run (j ∷ jobs) h = ground (arith, h, check_others-eq-ok run jobs)

-- The disk without the evidence of a run.
abbrev pub without_evidence : Key → ℕ → Disk → Disk
without_evidence k n d = record (drop_provenance k (drop_result k d)) { written = n }

discard-eq-ok :
    (ws run : String) (d d' : Disk)
    → discard_unfinished_run_artifacts ws run d ≡ (ok tt, d')
    → d' ≡ without_evidence (ws, run) (d.written + 2) d
unfolding discard_unfinished_run_artifacts
discard-eq-ok ws run d d' h =
    let (_, _, h1) = query-eq-ok _ _ d h in
    let (_, _, h2) = query-eq-ok _ _ d h1 in
    let (_, _, h3) = query-eq-ok _ _ d h2 in
    let (_, _, h4) = query-eq-ok _ _ d h3 in
    let (_, h5) = check-eq-ok _ _ _ d h4 in
    let (_, h5') = check-eq-ok _ _ _ d h5 in
    let (_, d1, w1, h6) = >>=-eq-ok _ _ d h5' in
    let (_, h6') = check-eq-ok _ _ _ d1 h6 in
    let (_, h7) = check-eq-ok _ _ _ d1 h6' in
    let first = atomic_write-eq-ok (drop_result (ws, run)) d w1 in
    let second = atomic_write-eq-ok (drop_provenance (ws, run)) d1 h7 in
    second
    ∙ ap (λ (e : Disk). drop_provenance (ws, run) (record e { written = e.written + 1 })) first
    ∙ ap (λ (n : ℕ). without_evidence (ws, run) n d) (omega arith)

-- What stands before the submission of a retry.
record IsPrepared (ws job new : String) (now : ℕ) (r : JobRecord) (d d' : Disk) : Type 0 where
  original : JobRecord
  read : get_job_record ws job d ≡ ok original
  retryable : can_retry original.state ≡ true
  jobs : List JobRecord
  listed : list_job_records ws d ≡ ok jobs
  over : all (is_no_obstacle original.run_id) jobs ≡ true
  made : r ≡ new_queued new now ws original.run_id
  left : d' ≡ without_evidence (ws, original.run_id) (d.written + 2) d

prepare_retry-IsPrepared :
    (ws job new : String) (now : ℕ) (r : JobRecord) (d d' : Disk)
    → prepare_retry ws job new now d ≡ (ok r, d')
    → IsPrepared ws job new now r d d'
unfolding prepare_retry
prepare_retry-IsPrepared ws job new now r d d' h =
    let (original, read, h1) = call_query-eq-ok _ _ _ d h in
    let (retryable, h2) = check-eq-ok _ _ _ d h1 in
    let (jobs, listed, h3) = call_query-eq-ok _ _ _ d h2 in
    let (_, free, h4) = query-eq-ok _ _ d h3 in
    let (_, d1, discards, h5) = >>=-eq-ok _ _ d h4 in
    let (same, left) = return-eq-ok _ d1 h5 in
    record {
      original = original;
      read = read;
      retryable = ground (arith, retryable);
      jobs = jobs;
      listed = listed;
      over = check_others-eq-ok original.run_id jobs free;
      made = sym same;
      left = left ∙ discard-eq-ok ws original.run_id d d1 (call_as-eq-ok _ _ d discards);
    }

enqueued-eq-ok :
    (job r : JobRecord) (o : Result QueueError (Unit {0}) × Queue × Disk) (q' : Queue) (d' : Disk)
    → enqueued job o ≡ (ok r, q', d')
    → (o ≡ (ok tt, q', d')) × (job ≡ r)
enqueued-eq-ok job r (ok u, q, d) q' d' h = (
  ap (λ (p : Result RunError JobRecord × Queue × Disk). (ok tt, p.1, p.2)) h,
  cc (ap (λ (p : Result RunError JobRecord × Queue × Disk). p.0) h),
)
enqueued-eq-ok job r (raise e, q, d) q' d' h =
    cc (ap (λ (p : Result RunError JobRecord × Queue × Disk). p.0) h)

submit-eq-ok :
    (o : Result RunError JobRecord × Disk) (q q' : Queue) (d' : Disk) (r : JobRecord)
    → submit o q ≡ (ok r, q', d')
    → (d1 : Disk) × (o ≡ (ok r, d1)) × (enqueue r q d1 ≡ (ok tt, q', d'))
submit-eq-ok (ok job, d1) q q' d' r h =
    let (e, same) = enqueued-eq-ok job r (enqueue job q d1) q' d' h in
    (
      d1,
      ap (λ (j : JobRecord). (ok j, d1)) same,
      subst (λ (j : JobRecord). enqueue j q d1 ≡ (ok tt, q', d')) same e,
    )
submit-eq-ok (raise e, d1) q q' d' r h =
    cc (ap (λ (p : Result RunError JobRecord × Queue × Disk). p.0) h)

-- What an accepted job leaves in the queue and on the disk.
record IsEnqueued (r : JobRecord) (q q' : Queue) (d d' : Disk) : Type 0 where
  open_queue : q.stop_requested ≡ false
  waits : q' ≡ (if is_some q.thread then schedule (r.workspace_id, r.job_id) q else q)
  left : d' ≡ put_job r (record d { written = d.written + 1 })
  durable : get_job_record r.workspace_id r.job_id d' ≡ ok r

enqueue-IsEnqueued :
    (r : JobRecord) (q q' : Queue) (d d' : Disk)
    → enqueue r q d ≡ (ok tt, q', d')
    → IsEnqueued r q q' d d'
unfolding enqueue
enqueue-IsEnqueued r q q' d d' h = elim (Bool-cases q.stop_requested) [
  | inl stops ↦
      let g = rw stops at h in cc (ap (λ (p : Result QueueError (Unit {0}) × Queue × Disk). p.0) g)
  | inr works ↦ go works (save_job_record r d) refl (rw works at h)
]
  where
    go :
        q.stop_requested ≡ false
        → (o : Result StoreError JobRecord × Disk) → save_job_record r d ≡ o
        → (elim o.0 as (λ _. Result QueueError (Unit {0}) × Queue × Disk) [
          | raise e ↦ (raise (stored e), q, o.1)
          | ok _ ↦
              (ok tt, (if is_some q.thread then schedule (r.workspace_id, r.job_id) q else q), o.1)
        ])
          ≡ (ok tt, q', d')
        → IsEnqueued r q q' d d'
    go works (raise e, d1) saves g =
        cc (ap (λ (p : Result QueueError (Unit {0}) × Queue × Disk). p.0) g)
    go works (ok s, d1) saves g =
        let (_, left, durable) = save_job_record-eq-ok r s d d1 saves in
        let same : d1 ≡ d' = ap (λ (p : Result QueueError (Unit {0}) × Queue × Disk). p.2) g in
        record {
          open_queue = works;
          waits = sym (ap (λ (p : Result QueueError (Unit {0}) × Queue × Disk). p.1) g);
          left = sym same ∙ left;
          durable =
              subst (λ (x : Disk). get_job_record r.workspace_id r.job_id x ≡ ok r) same durable;
        }

-- A run whose job was retried.
pub record IsResubmitted (ws job new : String) (now : ℕ) (r : JobRecord) (q q' : Queue)
    (d d' : Disk) : Type 0 where
  pub original : JobRecord
  pub read : get_job_record ws job d ≡ ok original
  pub retryable : can_retry original.state ≡ true
  pub jobs : List JobRecord
  pub listed : list_job_records ws d ≡ ok jobs
  pub over : all (is_no_obstacle original.run_id) jobs ≡ true
  pub made : r ≡ new_queued new now ws original.run_id
  pub durable : get_job_record ws new d' ≡ ok r
  pub left : d' ≡ put_job r (without_evidence (ws, original.run_id) (d.written + 3) d)
  pub open_queue : q.stop_requested ≡ false
  pub waits : q' ≡ (if is_some q.thread then schedule (ws, new) q else q)

-- If `retry_job` returns a job, then the original one was failed, cancelled or interrupted, every
-- other job of its run was over and none COMPLETE, the new job is a queued one of the same run,
-- `get_job_record` returns it from the disk that is left, the evidence of the run is gone, nothing
-- else has changed on the disk but the count of writes, and the queue was not stopping and has the
-- job scheduled if it has a worker.
pub retry_job-IsResubmitted :
    (ws job new : String) (now : ℕ) (r : JobRecord) (q q' : Queue) (d d' : Disk)
    → retry_job ws job new now q d ≡ (ok r, q', d')
    → IsResubmitted ws job new now r q q' d d'
unfolding retry_job new_queued
retry_job-IsResubmitted ws job new now r q q' d d' h =
    let (d1, prepares, enqueues) = submit-eq-ok (prepare_retry ws job new now d) q q' d' r h in
    let m = prepare_retry-IsPrepared ws job new now r d d1 prepares in
    let e = enqueue-IsEnqueued r q q' d1 d' enqueues in
    let own_ws : r.workspace_id ≡ ws = ap (λ (x : JobRecord). x.workspace_id) m.made in
    let own_id : r.job_id ≡ new = ap (λ (x : JobRecord). x.job_id) m.made in
    record {
      original = m.original;
      read = m.read;
      retryable = m.retryable;
      jobs = m.jobs;
      listed = m.listed;
      over = m.over;
      made = m.made;
      durable =
          subst (λ (w : String). get_job_record w new d' ≡ ok r) own_ws
            (subst (λ (j : String). get_job_record r.workspace_id j d' ≡ ok r) own_id e.durable);
      left =
          e.left
          ∙ ap (λ (x : Disk). put_job r (record x { written = x.written + 1 })) m.left
          ∙ ap (λ (n : ℕ). put_job r (without_evidence (ws, m.original.run_id) n d)) (omega arith);
      open_queue = e.open_queue;
      waits = rw (own_ws, own_id) at e.waits;
    }
