-- ===== src/Jobs/Cancelling.antt =====
-- Cancellation and the worker's turn in src/evalops/workspace/jobs/queue.py.
use evalops_lab.Common.{
  ℕ, zero, suc, String, ◌≡◌, ap, subst, Result-cases, Bool, true, not, ◌||◌, Option, none, Result,
  ok, raise, inl, inr, arith, if_elim, Result_elim, ◌==◌,
}
use evalops_lab.Jobs.States.{is_terminal, queued, state_eq}
use evalops_lab.Jobs.Record.{SafeJobError, JobRecord}
use evalops_lab.Storage.Disk.{StoreError, invalid_transition, Disk}
use evalops_lab.Storage.Jobs.{next_record, get_job_record, update_job_record, find_job_record}
use evalops_lab.Storage.Updates.{update-eq-ok}
use evalops_lab.Jobs.Queue.{cancellation, cancel_loop, request_cancel, finish_uncompleted}
use evalops_lab.Jobs.Worker.{
  Environment, Turn, ended, finish, run_validated, run_taken, validation_update, after_move,
}
use evalops_lab.Jobs.Finishing.{retry_ind, IsSettled, finish_uncompleted-IsSettled}

-- Cancelled, asked to cancel, or over.
abbrev pub is_stopping : JobRecord → Bool
is_stopping r = is_terminal r.state || r.cancel_requested

cancellation-is_stopping :
    (now : ℕ) (r seen s : JobRecord)
    → next_record (cancellation r) now seen ≡ ok s
    → is_stopping s ≡ true
unfolding next_record
cancellation-is_stopping now r seen s h = ground arith

module _ (others : ℕ → Disk → Disk) (now : ℕ) where
  abbrev Stops : Result StoreError JobRecord × Disk → Type 0
  Stops o = (r : JobRecord) → o.0 ≡ ok r → is_stopping r ≡ true

  cancel_loop-Stops : (n : ℕ) (job : String) (d : Disk) → Stops (cancel_loop others now n job d)
  unfolding cancel_loop
  cancel_loop-Stops zero job d = λ r e. cc
  cancel_loop-Stops (suc n) job d =
      Result_elim Stops (find_job_record job d)
        (λ r _.
          if_elim Stops (is_stopping r) (λ t s e. ground arith)
            (λ _.
              let u = cancellation r in
              retry_ind Stops (update_job_record r.workspace_id r.job_id u now (others n d))
                (cancel_loop others now n job)
                (λ a d' o s e.
                  let (seen, _, next, _) =
                    update-eq-ok r.workspace_id r.job_id u now (others n d) d' a o in
                  let stops = cancellation-is_stopping now r seen a next in ground arith)
                (λ _ d' _. cancel_loop-Stops n job d') (λ e d' _ _ s h. cc)))
        (λ e _ s h. cc)

  -- A job that `request_cancel` returns is over or has cancellation requested, whatever other
  -- threads do meanwhile.
  pub request_cancel_stops :
      (job : String) (d d' : Disk) (r : JobRecord)
      → request_cancel others now job d ≡ (ok r, d')
      → is_stopping r ≡ true
  unfolding request_cancel
  request_cancel_stops job d d' r h =
      cancel_loop-Stops 8 job d r (ap (λ (o : Result StoreError JobRecord × Disk). o.0) h)

module _ (env : Environment) (now : ℕ) (ws job : String) where
  abbrev Ends : Turn × Disk → Type 0
  Ends o = o.0 ≡ ended → IsSettled ws job o.1

  finish-Ends : (error : Option SafeJobError) (d : Disk) → Ends (finish env now error ws job d)
  finish-Ends error d h =
      let done = (finish_uncompleted env.while_finishing now error ws job d).0 in
      elim (Result-cases done) [
        | inl (_, e) ↦ finish_uncompleted-IsSettled env.while_finishing now error ws job d e
        | inr (x, e) ↦ let died_now = rw (e, finish) at h in cc
      ]

  run_validated-Ends : (d : Disk) → Ends (run_validated env now ws job d)
  unfolding run_validated
  run_validated-Ends d =
      Result_elim Ends (get_job_record ws job d)
        (λ latest _.
          if_elim Ends latest.cancel_requested (λ _. finish-Ends none d) (λ _. finish-Ends _ _))
        (λ e _ h. cc)

  after_move-Ends :
      (o : Result StoreError JobRecord × Disk) (next : Disk → Turn × Disk)
      → ((d : Disk) → Ends (next d))
      → Ends (after_move o next)
  unfolding after_move
  after_move-Ends (ok _, d) next f = f d
  after_move-Ends (raise (invalid_transition _), d) next f = λ h. cc
  after_move-Ends (raise e, d) next f = λ h. cc

  run_taken-Ends : (d : Disk) → Ends (run_taken env now ws job d)
  unfolding run_taken
  run_taken-Ends d =
      Result_elim Ends (get_job_record ws job d)
        (λ current _.
          if_elim Ends (not (current.state == queued)) (λ _ h. cc)
            (λ _.
              after_move-Ends
                (update_job_record ws job (validation_update current) now (env.before_validating d))
                (λ d'. run_validated env now ws job (env.after_validating d'))
                (λ d'. run_validated-Ends (env.after_validating d'))))
        (λ e _ h. cc)

  -- A job that a turn of the worker takes and ends is in a terminal state afterwards, whatever the
  -- executor and other threads do.
  pub run_taken-IsSettled :
      (d d' : Disk) → run_taken env now ws job d ≡ (ended, d') → IsSettled ws job d'
  run_taken-IsSettled d d' h =
      subst (IsSettled ws job) (ap (λ (o : Turn × Disk). o.1) h)
        (run_taken-Ends d (ap (λ (o : Turn × Disk). o.0) h))
