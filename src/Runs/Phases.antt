-- ===== src/Runs/Phases.antt =====
-- The phases of a job in src/evalops/workspace/application/runs.py, under any interference.
use evalops_lab.Common.{
  ℕ, zero, suc, String, ◌≡◌, refl, subst, Bool, true, false, Option, none, some, Result, ok, raise,
  Result_elim, if_elim, arith,
}
use evalops_lab.Jobs.States.{JobState, failed, cancelled, is_terminal, state_eq}
use evalops_lab.Jobs.Record.{SafeJobError, JobRecord}
use evalops_lab.Jobs.Queue.{moving, transition}
use evalops_lab.Jobs.Finishing.{IsSettled}
use evalops_lab.Storage.Disk.{StoreError, invalid_transition, Disk, Action}
use evalops_lab.Storage.Actions.{return, >>=_elim}
use evalops_lab.Storage.Jobs.{get_job_record, next_record, update_job_record}
use evalops_lab.Storage.Updates.{read_then-eq-ok, update-eq-ok, update_is_durable}
use evalops_lab.Runs.Execution.{
  Others, or_again, advance_loop, advance, check_cancel, after_check, fail_job,
}

-- The job is on disk in a phase; in one that does not end it, no cancellation is requested.
pub record IsIn (ws job : String) (phase : JobState) (d : Disk) : Type 0 where
  pub at : JobRecord
  pub read : get_job_record ws job d ≡ ok at
  pub in_phase : at.state ≡ phase
  pub uncancelled : is_terminal phase ≡ false → at.cancel_requested ≡ false

moving-eq-ok :
    (phase : JobState) (error : Option SafeJobError) (now : ℕ) (seen old new : JobRecord)
    → next_record (moving phase error seen) now old ≡ ok new
    → (new.state ≡ phase) × (is_terminal phase ≡ false → new.cancel_requested ≡ false)
unfolding next_record
moving-eq-ok phase error now seen old new h = (ground arith, λ t. ground arith)

-- A transition that returns has reached its state.
pub transition-IsIn :
    (between : Disk → Disk) (ws job : String) (phase : JobState) (error : Option SafeJobError)
    (now : ℕ) (d d' : Disk) (r : JobRecord)
    → transition between ws job phase error now d ≡ (ok r, d')
    → IsIn ws job phase d'
unfolding transition
transition-IsIn between ws job phase error now d d' r h =
    let (seen, _, u) =
      read_then-eq-ok (get_job_record ws job)
        (λ x d1. update_job_record ws job (moving phase error x) now (between d1)) d h in
    let (old, _, next, _) = update-eq-ok ws job (moving phase error seen) now (between d) d' r u in
    let (read, _) = update_is_durable ws job (moving phase error seen) now (between d) d' r u in
    let (state, free) = moving-eq-ok phase error now seen old r next in
    record { at = r; read = read; in_phase = state; uncancelled = free }

pub IsIn-IsSettled :
    (ws job : String) (phase : JobState) (d : Disk)
    → is_terminal phase ≡ true
    → IsIn ws job phase d
    → IsSettled ws job d
IsIn-IsSettled ws job phase d t i = (i.at, i.read, ground (arith, i.in_phase))

module _ (others : Others) (now : ℕ) (ws job : String) where
  -- How an attempt to enter a phase may end.
  abbrev pub Reaches : JobState → Result StoreError Bool × Disk → Type 0
  Reaches phase (ok true, d) = IsIn ws job phase d
  Reaches phase (ok false, d) = IsSettled ws job d
  Reaches phase (raise e, d) = Unit

  or_again-Reaches :
      (phase : JobState) (b : Bool) (o : Result StoreError JobRecord × Disk) (again : Action Bool)
      → ((r : JobRecord) (d : Disk) → o ≡ (ok r, d) → Reaches phase (ok b, d))
      → ((d : Disk) → Reaches phase (again d))
      → Reaches phase (or_again b o again)
  unfolding or_again
  or_again-Reaches phase b (ok r, d) again f g = f r d refl
  or_again-Reaches phase b (raise (invalid_transition m), d) again f g = g d
  or_again-Reaches phase b (raise e, d) again f g = tt

  advance_loop-Reaches :
      (phase : JobState) (n : ℕ) (d : Disk)
      → Reaches phase (advance_loop others now ws job phase n d)
  unfolding advance_loop
  advance_loop-Reaches phase zero d = tt
  advance_loop-Reaches phase (suc n) d =
      let seen = others.before phase n d in
      let free = others.after_read phase n seen in
      Result_elim (Reaches phase) (get_job_record ws job seen)
        (λ r got.
          if_elim (Reaches phase) (is_terminal r.state) (λ t. (r, got, t))
            λ _.
              if_elim (Reaches phase) r.cancel_requested
                (λ _.
                  or_again-Reaches phase false
                    (transition (others.inside phase n) ws job cancelled none now free) _
                    (λ r' d' e. IsIn-IsSettled ws job cancelled d' refl (
                      transition-IsIn (others.inside phase n) ws job cancelled none now free d' r'
                        e))
                    (advance_loop-Reaches phase n))
                (λ _.
                  or_again-Reaches phase true
                    (transition (others.inside phase n) ws job phase none now free) _
                    (λ r' d' e.
                      transition-IsIn (others.inside phase n) ws job phase none now free d' r' e)
                    (advance_loop-Reaches phase n)))
        (λ e _. tt)

  -- An attempt that returns has entered the phase, or the job is over.
  pub advance-Reaches :
      (phase : JobState) (d : Disk) → Reaches phase (advance others now ws job phase d)
  unfolding advance
  advance-Reaches phase d = advance_loop-Reaches phase 8 d

  -- A check that stops the job leaves it in a terminal state.
  abbrev Stopped : Result StoreError Bool × Disk → Type 0
  Stopped o = o.0 ≡ ok true → IsSettled ws job o.1

  cancelled-IsSettled :
      (o : Result StoreError Bool × Disk)
      → Reaches cancelled o
      → (b : Bool) → o.0 ≡ ok b
      → IsSettled ws job o.1
  cancelled-IsSettled (ok true, d) i b h = IsIn-IsSettled ws job cancelled d refl i
  cancelled-IsSettled (ok false, d) i b h = i
  cancelled-IsSettled (raise e, d) i b h = cc

  pub check_cancel-Stopped : (d : Disk) → Stopped (check_cancel others now ws job d)
  unfolding check_cancel return
  check_cancel-Stopped d =
      let seen = others.before cancelled 8 d in
      Result_elim Stopped (get_job_record ws job seen)
        (λ r got.
          if_elim Stopped (is_terminal r.state) (λ t _. (r, got, t))
            λ _.
              if_elim Stopped r.cancel_requested
                (λ _.
                  >>=_elim Stopped (advance others now ws job cancelled) _ seen
                    (λ b d1 e _.
                      subst
                        (λ (o : Result StoreError Bool × Disk).
                          (c : Bool) → o.0 ≡ ok c → IsSettled ws job o.1)
                        e (cancelled-IsSettled _ (advance-Reaches cancelled seen)) b refl)
                    (λ e d1 _ h. cc))
                (λ _ h. cc))
        (λ e _ h. cc)

  abbrev pub Settled : Result StoreError (Unit {0}) × Disk → Type 0
  Settled o = o.0 ≡ ok tt → IsSettled ws job o.1

  pub stopped-IsSettled :
      (d d1 : Disk) → check_cancel others now ws job d ≡ (ok true, d1) → IsSettled ws job d1
  stopped-IsSettled d d1 e = subst Stopped e (check_cancel-Stopped d) refl

  failing-Settled :
      (code message : String) (d : Disk) (stopped : Bool) (d1 : Disk)
      → check_cancel others now ws job d ≡ (ok stopped, d1)
      → Settled (after_check others now ws job code message stopped d1)
  unfolding after_check return
  failing-Settled code message d true d1 e = λ h. stopped-IsSettled d d1 e
  failing-Settled code message d false d1 e =
      let error : Option SafeJobError = some (record { code = code; message = message }) in
      let free = others.after_read failed zero d1 in
      >>=_elim Settled (transition (others.inside failed zero) ws job failed error now) _ free
        (λ r d2 u _.
          IsIn-IsSettled ws job failed d2 refl
            (transition-IsIn (others.inside failed zero) ws job failed error now free d2 r u))
        (λ x d2 _ h. cc)

  -- A handler that returns has ended the job.
  pub fail_job-Settled :
      (code message : String) (d : Disk) → Settled (fail_job others now ws job code message d)
  unfolding fail_job
  fail_job-Settled code message d =
      >>=_elim Settled (check_cancel others now ws job) _ d (failing-Settled code message d)
        (λ e d1 _ h. cc)
