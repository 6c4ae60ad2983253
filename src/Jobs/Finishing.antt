-- ===== src/Jobs/Finishing.antt =====
-- How a job ends in src/evalops/workspace/jobs/queue.py: interruption, finalisation, cancellation
-- and the worker's turn.
use evalops_lab.Common.{
  ℕ, zero, suc, String, ◌≡◌, ◌≢◌, refl, ap, true, false, Option, Result, ok, raise, arith, if_elim,
  Result_elim,
}
use evalops_lab.Jobs.States.{is_terminal, interrupted, queued}
use evalops_lab.Jobs.Record.{SafeJobError, JobRecord}
use evalops_lab.Storage.Disk.{StoreError, invalid_transition, Disk, Action}
use evalops_lab.Storage.Jobs.{updated_record, get_job_record, next_record, update_job_record}
use evalops_lab.Storage.Updates.{update-eq-ok, update_is_durable}
use evalops_lab.Jobs.Queue.{
  interruption, finishing, finish_loop, finish_uncompleted, retry_on_conflict, and_return,
}

-- The update of `recover` is accepted on every job that is neither queued nor in a terminal state, and
-- makes it INTERRUPTED.
pub interruption_accepted :
    (now : ℕ) (r : JobRecord)
    → r.state ≢ queued
    → is_terminal r.state ≡ false
    → (s : JobRecord) × (next_record (interruption r) now r ≡ ok s) × (s.state ≡ interrupted)
unfolding next_record
interruption_accepted now r n t = (updated_record (interruption r) now r, ground arith, refl)

-- The update of `_finish_uncompleted` is accepted on every job that is not in a terminal state, and
-- puts it in one.
pub finishing_accepted :
    (error : Option SafeJobError) (now : ℕ) (r : JobRecord)
    → is_terminal r.state ≡ false
    → (s : JobRecord) × (next_record (finishing error r) now r ≡ ok s)
      × (is_terminal s.state ≡ true)
unfolding next_record
finishing_accepted error now r t =
    (updated_record (finishing error r) now r, ground arith, ground arith)

finishing-terminal :
    (error : Option SafeJobError) (now : ℕ) (r seen s : JobRecord)
    → next_record (finishing error r) now seen ≡ ok s
    → is_terminal s.state ≡ true
unfolding next_record
finishing-terminal error now r seen s h = ground arith

-- What holds of the three ways to go on after an update holds of the retry.
pub retry_ind :
    {A : Type 0} (P : Result StoreError A × Disk → Type 0) (o : Result StoreError A × Disk)
    (again : Action A)
    → ((a : A) (d : Disk) → o ≡ (ok a, d) → P (ok a, d))
    → ((m : String) (d : Disk) → o ≡ (raise (invalid_transition m), d) → P (again d))
    → ((e : StoreError) (d : Disk)
        → ((m : String) → e ≢ invalid_transition m)
        → o ≡ (raise e, d)
        → P (raise e, d))
    → P (retry_on_conflict o again)
unfolding retry_on_conflict
retry_ind P (ok a, d) again f g h = f a d refl
retry_ind P (raise (invalid_transition m), d) again f g h = g m d refl
retry_ind P (raise e, d) again f g h = h e d (λ m x. cc) refl

pub and_return-eq-ok :
    {A : Type 0} (o : Result StoreError A × Disk) {d : Disk}
    → and_return o ≡ (ok tt, d)
    → (a : A) × (o ≡ (ok a, d))
and_return-eq-ok (ok a, d) e = (a, ap (λ (p : Result StoreError (Unit {0}) × Disk). (ok a, p.1)) e)
and_return-eq-ok (raise x, d) e = cc (ap (λ (p : Result StoreError (Unit {0}) × Disk). p.0) e)

pub and_return-eq-raise :
    {A : Type 0} (o : Result StoreError A × Disk) {e : StoreError} {d : Disk}
    → and_return o ≡ (raise e, d)
    → o ≡ (raise e, d)
and_return-eq-raise (ok a, d) h = cc (ap (λ (p : Result StoreError (Unit {0}) × Disk). p.0) h)
and_return-eq-raise {A} (raise x, d) h = ap reraise h
  where
    reraise : Result StoreError (Unit {0}) × Disk → Result StoreError A × Disk
    reraise (ok _, d) = (raise x, d)
    reraise (raise y, d) = (raise y, d)

-- The job is on disk in a terminal state.
abbrev pub IsSettled : String → String → Disk → Type 0
IsSettled ws job d =
    (r : JobRecord) × (get_job_record ws job d ≡ ok r) × (is_terminal r.state ≡ true)

module _ (others : ℕ → Disk → Disk) (now : ℕ) (error : Option SafeJobError) (ws job : String) where
  abbrev Settles : Result StoreError (Unit {0}) × Disk → Type 0
  Settles (done, d) = done ≡ ok tt → IsSettled ws job d

  finish_loop-Settles : (n : ℕ) (d : Disk) → Settles (finish_loop others now error ws job n d)
  unfolding finish_loop
  finish_loop-Settles zero d = λ e. cc
  finish_loop-Settles (suc n) d =
      Result_elim Settles (get_job_record ws job d)
        (λ r got.
          if_elim Settles (is_terminal r.state) (λ t _. (r, got, t))
            (λ _.
              retry_ind Settles
                (and_return (update_job_record ws job (finishing error r) now (others n d)))
                (finish_loop others now error ws job n)
                (λ _ d' o _. updated r d' (and_return-eq-ok _ o))
                (λ _ d' _. finish_loop-Settles n d') (λ e d' _ _ h. cc)))
        (λ e _ h. cc)
    where
      updated :
          (r : JobRecord) (d' : Disk)
          → ((s : JobRecord) × (update_job_record ws job (finishing error r) now (others n d)
                ≡ (ok s, d')))
          → IsSettled ws job d'
      updated r d' (s, o) =
          let u = finishing error r in
          let (seen, _, next, _) = update-eq-ok ws job u now (others n d) d' s o in
          let (read, _) = update_is_durable ws job u now (others n d) d' s o in
          (s, read, finishing-terminal error now r seen s next)

  -- If `_finish_uncompleted` returns, then the job is in a terminal state, whatever other threads
  -- do between its reads and its updates.
  pub finish_uncompleted-IsSettled :
      (d : Disk)
      → (finish_uncompleted others now error ws job d).0 ≡ ok tt
      → IsSettled ws job (finish_uncompleted others now error ws job d).1
  unfolding finish_uncompleted
  finish_uncompleted-IsSettled d = finish_loop-Settles 8 d
