-- ===== src/Jobs/Liveness.antt =====
-- When `_finish_uncompleted` of src/evalops/workspace/jobs/queue.py returns.
use native.Mathlib.Decide.{ℕ_discrete}
use evalops_lab.Common.{
  ℕ, zero, suc, ◌<◌, String, ◌≡◌, refl, sym, ap, subst, ◌∙◌, false, Option, Result, ok, raise,
  Result-cases, inl, inr, arith, if_elim,
}
use evalops_lab.Jobs.States.{is_terminal}
use evalops_lab.Jobs.Record.{SafeJobError, JobRecord}
use evalops_lab.Storage.Disk.{StoreError, invalid_transition, Disk, atomic_write}
use evalops_lab.Storage.Jobs.{Update, read_then, get_job_record, next_record, update_job_record}
use evalops_lab.Jobs.Queue.{finishing, finish_loop, finish_uncompleted, and_return}
use evalops_lab.Jobs.Finishing.{and_return-eq-raise, retry_ind, finishing_accepted}

abbrev message : StoreError → String
message (invalid_transition m) = m
message _ = ""

next_record-raises :
    (u : Update) (now : ℕ) (old : JobRecord) (e : StoreError)
    → next_record u now old ≡ raise e
    → e ≡ invalid_transition (message e)
unfolding next_record
next_record-raises u now old e h = ground arith

-- The job can be read, and the device takes every write.
pub record IsReadable (ws job : String) (d : Disk) : Type 0 where
  pub found : JobRecord
  pub reads : get_job_record ws job d ≡ ok found
  pub sound : (n : ℕ) → d.faults n ≡ false

module _ (ws job : String) (u : Update) (now : ℕ) where
  abbrev First : Result StoreError JobRecord × Disk → Result StoreError JobRecord
  First o = o.0

  update-accepts :
      (d : Disk) (r s : JobRecord)
      → get_job_record ws job d ≡ ok r
      → next_record u now r ≡ ok s
      → d.faults d.written ≡ false
      → (update_job_record ws job u now d).0 ≡ ok s
  unfolding update_job_record atomic_write
  update-accepts d r s got next sound = rw (got, read_then) (rw next (rw sound refl))

  update-refuses :
      (d : Disk) (r : JobRecord) (x : StoreError)
      → get_job_record ws job d ≡ ok r
      → next_record u now r ≡ raise x
      → update_job_record ws job u now d ≡ (raise x, d)
  unfolding update_job_record
  update-refuses d r x got next = rw (got, read_then) (rw next refl)

  -- On a readable job an update is refused by its guards alone, and then changes nothing.
  update-raises :
      (d d' : Disk) (e : StoreError)
      → IsReadable ws job d
      → update_job_record ws job u now d ≡ (raise e, d')
      → (d' ≡ d) × (e ≡ invalid_transition (message e))
  unfolding update_job_record atomic_write
  update-raises d d' e r h = elim (Result-cases (next_record u now r.found)) [
    | inl (s, next) ↦
        absurd (cc (ap First h, update-accepts d r.found s r.reads next (r.sound d.written)))
    | inr (x, next) ↦
        let same = sym h ∙ update-refuses d r.found x r.reads next in
        let e-eq-x : e ≡ x = cc (ap First same) in
        (
          ap (λ (o : Result StoreError JobRecord × Disk). o.1) same,
          rw e-eq-x (next_record-raises u now r.found x next),
        )
  ]

module _ (others : ℕ → Disk → Disk) (now : ℕ) (error : Option SafeJobError) (ws job : String)
    (keeps : (n : ℕ) (d : Disk) → IsReadable ws job d → IsReadable ws job (others n d)) (k : ℕ)
    (quiet : (d : Disk) → others k d ≡ d) where
  abbrev attempt : ℕ → Disk → JobRecord → Result StoreError JobRecord × Disk
  attempt n d r = update_job_record ws job (finishing error r) now (others n d)

  -- An attempt that is refused leaves the disk as other threads left it.
  refused :
      (n : ℕ) (d : Disk) (r : IsReadable ws job d) (d' : Disk) (e : StoreError)
      → and_return (attempt n d r.found) ≡ (raise e, d')
      → (d' ≡ others n d) × (e ≡ invalid_transition (message e))
  refused n d r d' e h =
      update-raises ws job (finishing error r.found) now (others n d) d' e (keeps n d r)
        (and_return-eq-raise (attempt n d r.found) h)

  -- An attempt that is not disturbed is accepted.
  undisturbed :
      (n : ℕ) (d : Disk) (r : IsReadable ws job d)
      → is_terminal r.found.state ≡ false
      → k ≡ n
      → (d' : Disk) (e : StoreError) → ¬ (and_return (attempt n d r.found) ≡ (raise e, d'))
  undisturbed n d r active same d' e h =
      let (s, next, _) = finishing_accepted error now r.found active in
      let calm : others n d ≡ d = ap (λ (m : ℕ). others m d) (sym same) ∙ quiet d in
      let done =
        update-accepts ws job (finishing error r.found) now d r.found s r.reads next
          (r.sound d.written) in
      let stays : (attempt n d r.found).0 ≡ ok s = rw calm done in
      cc (
        stays,
        ap (λ (o : Result StoreError JobRecord × Disk). o.0)
            (and_return-eq-raise (attempt n d r.found) h),
      )

  abbrev Returns : Result StoreError (Unit {0}) × Disk → Type 0
  Returns o = o.0 ≡ ok tt

  finish_loop-Returns :
      (n : ℕ) (d : Disk)
      → k < n
      → IsReadable ws job d
      → Returns (finish_loop others now error ws job n d)
  unfolding finish_loop
  finish_loop-Returns zero d h r = absurd (omega arith)
  finish_loop-Returns (suc n) d h r =
      rw (r.reads, finish_loop)
        (if_elim Returns (is_terminal r.found.state) (λ _. refl)
          (λ active.
            retry_ind Returns (and_return (attempt n d r.found))
              (finish_loop others now error ws job n) (λ _ _ _. refl)
              (λ m d' e.
                let (left, _) = refused n d r d' (invalid_transition m) e in
                elim (ℕ_discrete k n) [
                  | yes same ↦ absurd (undisturbed n d r active same d' (invalid_transition m) e)
                  | no other ↦
                      finish_loop-Returns n d' (omega arith)
                        (subst (IsReadable ws job) (sym left) (keeps n d r))
                ])
              (λ x d' new e.
                let (_, same) = refused n d r d' x e in absurd (new (message x) same))))

  -- While a job can be read and its device takes every write, and other threads leave it so,
  -- `_finish_uncompleted` returns if of its eight attempts one is not disturbed.
  pub finish_uncompleted_returns :
      (d : Disk)
      → k < 8
      → IsReadable ws job d
      → (finish_uncompleted others now error ws job d).0 ≡ ok tt
  unfolding finish_uncompleted
  finish_uncompleted_returns d h r = finish_loop-Returns 8 d h r
