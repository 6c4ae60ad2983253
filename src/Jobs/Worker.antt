-- ===== src/Jobs/Worker.antt =====
-- src/evalops/workspace/jobs/queue.py: the loop of the worker. What other threads do between its reads
-- and its updates, and the executor, are the fields of `Environment`.
use evalops_lab.Common.{
  ℕ, String, Bool, not, Option, none, some, [], ◌∷◌, Result, ok, raise, keep, ◌==◌, if◌then◌else◌,
}
use evalops_lab.Jobs.States.{queued, validating, state_eq}
use evalops_lab.Jobs.Record.{SafeJobError, JobRecord}
use evalops_lab.Storage.Disk.{StoreError, invalid_transition, Key, key_eq, Disk}
use evalops_lab.Storage.Jobs.{Update, get_job_record, update_job_record}
use evalops_lab.Jobs.Queue.{Queue, finish_uncompleted}

-- What surrounds one turn of the worker: other threads before and after the move to VALIDATING and
-- during the finish, and the executor, which says whether it returned without an exception.
pub record Environment : Type 0 where
  pub before_validating : Disk → Disk
  pub after_validating : Disk → Disk
  pub executor : JobRecord → Disk → Bool × Disk
  pub while_finishing : ℕ → Disk → Disk

-- How one turn of `_worker_loop` ends: the worker returns, passes the item over, ends the job that
-- it took, or dies of an exception of the store.
pub data Turn : Type 0 where
  returned passed_over ended : Turn
  died : StoreError → Turn

abbrev pub worker_error : SafeJobError
worker_error = record { code = "WORKER_ERROR"; message = "job execution failed" }

abbrev pub validation_update : JobRecord → Update
validation_update job = record {
  expected_revision = job.revision;
  next_state = some validating;
  cancel_requested = none;
  safe_error = none;
}

-- The ends of the move to VALIDATING: a transition that lost the race passes the job over.
unfoldable pub after_move : Result StoreError JobRecord × Disk → (Disk → Turn × Disk) → Turn × Disk
after_move (ok _, d) next = next d
after_move (raise (invalid_transition _), d) next = (passed_over, d)
after_move (raise e, d) next = (died e, d)

module _ (env : Environment) (now : ℕ) where
  open env use {before_validating, after_validating, executor, while_finishing}

  abbrev pub finish : Option SafeJobError → String → String → Disk → Turn × Disk
  finish error ws job d =
      let (done, d') = finish_uncompleted while_finishing now error ws job d in
      (elim done [ ok _ ↦ ended | raise e ↦ died e ], d')

  -- From the second read of the job to the end of the turn.
  unfoldable pub run_validated : String → String → Disk → Turn × Disk
  run_validated ws job d = elim (get_job_record ws job d) [
    | raise e ↦ (died e, d)
    | ok latest ↦
        if latest.cancel_requested
        then finish none ws job d
        else let (returns, d') = executor latest d in
          finish (if returns then none else some worker_error) ws job d'
  ]

  -- From the first read of the job.
  unfoldable pub run_taken : String → String → Disk → Turn × Disk
  unfolding run_validated after_move
  run_taken ws job d = elim (get_job_record ws job d) [
    | raise e ↦ (died e, d)
    | ok current ↦
        if not (current.state == queued)
        then (passed_over, d)
        else after_move
            (update_job_record ws job (validation_update current) now (before_validating d))
            (λ d'. run_validated ws job (after_validating d'))
  ]

  -- The turn on an item that was taken from `pending`.
  unfoldable pub take_item : Option Key → Queue → Disk → Turn × Queue × Disk
  unfolding run_taken
  take_item none q d = (returned, q, d)
  take_item (some (ws, job)) q d =
      let q' = record q { pending_ids = keep (λ k. not (k == (ws, job))) q.pending_ids } in
      if q.stop_requested
      then (passed_over, q', d)
      else let (turn, d') = run_taken ws job d in (turn, q', d')

  -- One turn of `_worker_loop`; on an empty queue the worker waits.
  unfoldable pub worker_turn : Queue → Disk → Option (Turn × Queue × Disk)
  unfolding take_item
  worker_turn q d = elim q.pending [
    | [] ↦ none
    | item ∷ rest ↦ some (take_item item (record q { pending = rest }) d)
  ]
