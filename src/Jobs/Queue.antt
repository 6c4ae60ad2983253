-- ===== src/Jobs/Queue.antt =====
-- src/evalops/workspace/jobs/queue.py: the queue of the single worker. What other threads do to the disk between
-- a read and the update that follows it is the argument `others`, by the number of the attempts left.

use evalops_lab.Common.{
  ℕ, zero, suc, String, Bool, true, false, not, ◌||◌, Option, none, some, is_some, List, [], ◌∷◌,
  ◌++◌, Result, ok, raise, ◌>>=◌, member, ◌==◌, if◌then◌else◌,
}
use evalops_lab.Jobs.States.{
  JobState, queued, failed, cancelled, interrupted, is_terminal, state_eq,
}
use evalops_lab.Jobs.Record.{SafeJobError, JobRecord}
use evalops_lab.Models.Workspaces.{WorkspaceRecord}
use evalops_lab.Storage.Disk.{StoreError, invalid_transition, Key, key_eq, Disk, Action}
use evalops_lab.Storage.Workspaces.{list_workspaces}
use evalops_lab.Storage.Jobs.{
  Update, read_then, get_job_record, list_job_records, find_job_record, save_job_record,
  update_job_record,
}

-- The fields of SingleWorkerQueue. `pending` holds the references and the `None` that ends the
-- worker; `thread` says whether there is a worker, and if so whether it is alive.
pub record Queue : Type 0 where
  pub pending : List (Option Key)
  pub pending_ids : List Key
  pub stop_requested : Bool
  pub thread : Option Bool

-- A RuntimeError of the queue, or an exception of the store.
pub data QueueError : Type 0 where
  runtime : String → QueueError
  stored : StoreError → QueueError

abbrev pub Outcome : Type 0 → Type 0
Outcome A = Result QueueError A × Queue × Disk

-- `_schedule`
unfoldable pub schedule : Key → Queue → Queue
schedule k q =
    if member k q.pending_ids
    then q
    else record q { pending_ids = k ∷ q.pending_ids; pending = q.pending ++ some k ∷ [] }

abbrev pub is_alive : Queue → Bool
is_alive q = elim q.thread [ some alive ↦ alive | none ↦ false ]

unfoldable pub enqueue : JobRecord → Queue → Disk → Outcome (Unit {0})
unfolding schedule
enqueue job q d =
    if q.stop_requested
    then (raise (runtime "job queue is stopping"), q, d)
    else let (saved, d') = save_job_record job d in
      elim saved [
        | raise e ↦ (raise (stored e), q, d')
        | ok _ ↦
            (ok tt, (if is_some q.thread then schedule (job.workspace_id, job.job_id) q else q), d')
      ]

abbrev pub worker_restart : SafeJobError
worker_restart = record { code = "WORKER_RESTART"; message = "job interrupted by restart" }

-- The update by which `recover` interrupts a job.
abbrev pub interruption : JobRecord → Update
interruption job = record {
  expected_revision = job.revision;
  next_state = some interrupted;
  cancel_requested = none;
  safe_error = some worker_restart;
}

-- The body of the inner loop of `recover`.
unfoldable pub recover_job : ℕ → JobRecord → Queue → Disk → Outcome (Unit {0})
unfolding schedule
recover_job now job q d =
    if job.state == queued
    then (ok tt, schedule (job.workspace_id, job.job_id) q, d)
    else if not (is_terminal job.state)
    then (let (done, d') = update_job_record job.workspace_id job.job_id (interruption job) now d in
        elim done [ ok _ ↦ (ok tt, q, d') | raise e ↦ (raise (stored e), q, d') ])
    else (ok tt, q, d)

unfoldable pub recover_jobs : ℕ → List JobRecord → Queue → Disk → Outcome (Unit {0})
unfolding recover_job
recover_jobs now [] q d = (ok tt, q, d)
recover_jobs now (job ∷ jobs) q d =
    let (done, q', d') = recover_job now job q d in
    elim done [ ok _ ↦ recover_jobs now jobs q' d' | raise e ↦ (raise e, q', d') ]

unfoldable pub recover_workspaces : ℕ → List WorkspaceRecord → Queue → Disk → Outcome (Unit {0})
unfolding recover_jobs
recover_workspaces now [] q d = (ok tt, q, d)
recover_workspaces now (w ∷ ws) q d = elim (list_job_records w.workspace_id d) [
  | raise e ↦ (raise (stored e), q, d)
  | ok jobs ↦
      let (done, q', d') = recover_jobs now jobs q d in
      elim done [ ok _ ↦ recover_workspaces now ws q' d' | raise e ↦ (raise e, q', d') ]
]

unfoldable pub recover : ℕ → Queue → Disk → Outcome (Unit {0})
unfolding recover_workspaces
recover now q d =
    if is_alive q
    then (raise (runtime "cannot recover while worker is running"), q, d)
    else elim (list_workspaces d) [
      | raise e ↦ (raise (stored e), q, d)
      | ok ws ↦ recover_workspaces now ws q d
    ]

unfoldable pub start : ℕ → Queue → Disk → Outcome (Unit {0})
unfolding recover
start now q d =
    if is_alive q
    then (ok tt, q, d)
    else let fresh = record q { stop_requested = false; pending = []; pending_ids = [] } in
      let (done, q', d') = recover now fresh d in
      elim done [
        | ok _ ↦ (ok tt, record q' { thread = some true }, d')
        | raise e ↦ (raise e, q', d')
      ]

-- `stop`, for a caller that is not the worker; `ends` says whether the worker has ended when
-- `join` returns.
unfoldable pub stop : Bool → Queue → Disk → Outcome (Unit {0})
stop ends q d =
    if is_some q.thread
    then (let asked = record q { stop_requested = true; pending = q.pending ++ none ∷ [] } in
        if ends
        then (ok tt, record asked { thread = none }, d)
        else (raise (runtime "worker is still processing a job"), asked, d))
    else (ok tt, q, d)

-- The update of `transition`.
abbrev pub moving : JobState → Option SafeJobError → JobRecord → Update
moving next error job = record {
  expected_revision = job.revision;
  next_state = some next;
  cancel_requested = none;
  safe_error = error;
}

-- `transition`, where `between` is what others do between its read and its update.
unfoldable pub transition :
    (Disk → Disk) → String → String → JobState → Option SafeJobError → ℕ → Action JobRecord
transition between ws job next error now =
    read_then (get_job_record ws job)
      λ r d. update_job_record ws job (moving next error r) now (between d)

-- The update by which a job is cancelled.
abbrev pub cancellation : JobRecord → Update
cancellation job = record {
  expected_revision = job.revision;
  next_state = if job.state == queued then some cancelled else none;
  cancel_requested = some true;
  safe_error = none;
}

-- `except InvalidJobTransitionError: continue`, around an update.
unfoldable pub retry_on_conflict :
    {A : Type 0} → Result StoreError A × Disk → Action A → Result StoreError A × Disk
retry_on_conflict (ok a, d) again = (ok a, d)
retry_on_conflict (raise (invalid_transition _), d) again = again d
retry_on_conflict (raise e, d) again = (raise e, d)

module _ (others : ℕ → Disk → Disk) (now : ℕ) where
  -- The loop of `request_cancel`, with the attempts left.
  unfoldable pub cancel_loop : ℕ → String → Action JobRecord
  unfolding retry_on_conflict
  cancel_loop zero job d =
      (raise (invalid_transition "job cancellation could not be serialized"), d)
  cancel_loop (suc n) job d = elim (find_job_record job d) [
    | ok r ↦
        if is_terminal r.state || r.cancel_requested
        then (ok r, d)
        else retry_on_conflict
            (update_job_record r.workspace_id r.job_id (cancellation r) now (others n d))
            (cancel_loop n job)
    | raise e ↦ (raise e, d)
  ]

  unfoldable pub request_cancel : String → Action JobRecord
  unfolding cancel_loop
  request_cancel = cancel_loop 8

abbrev pub incomplete_execution : SafeJobError
incomplete_execution = record {
  code = "INCOMPLETE_EXECUTION";
  message = "job did not reach a terminal state";
}

-- The update by which `_finish_uncompleted` ends a job.
abbrev pub finishing : Option SafeJobError → JobRecord → Update
finishing error job = record {
  expected_revision = job.revision;
  next_state = some (if job.cancel_requested then cancelled else failed);
  cancel_requested = none;
  safe_error =
      if job.cancel_requested
      then none
      else (elim error [ some e ↦ some e | none ↦ some incomplete_execution ]);
}

-- `return` after a call whose result is not used.
abbrev pub and_return :
    {A : Type 0} → Result StoreError A × Disk → Result StoreError (Unit {0}) × Disk
and_return (r, d) = ((r >>= λ _. ok tt), d)

module _ (others : ℕ → Disk → Disk) (now : ℕ) (error : Option SafeJobError) (ws job : String) where
  -- The loop of `_finish_uncompleted`, with the attempts left.
  unfoldable pub finish_loop : ℕ → Action (Unit {0})
  unfolding retry_on_conflict
  finish_loop zero d = (raise (invalid_transition "job finalization could not be serialized"), d)
  finish_loop (suc n) d = elim (get_job_record ws job d) [
    | ok r ↦
        if is_terminal r.state
        then (ok tt, d)
        else retry_on_conflict
            (and_return (update_job_record ws job (finishing error r) now (others n d)))
            (finish_loop n)
    | raise e ↦ (raise e, d)
  ]

  unfoldable pub finish_uncompleted : Action (Unit {0})
  unfolding finish_loop
  finish_uncompleted = finish_loop 8
