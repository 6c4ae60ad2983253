-- ===== src/Jobs/Scheduling.antt =====
-- The in-memory queue of src/evalops/workspace/jobs/queue.py: `_pending_ids` and the references in
-- `_pending`, after each operation.
use evalops_lab.Common.{
  ℕ, ◌≡◌, refl, Bool, true, false, not, Option, none, some, List, [], ◌∷◌, ◌++◌, member, unique,
  ◌==◌, ==_iff, arith, Bool-cases, inl, inr, unique-tail, member-discard_head, ap, sym, subst, ◌∙◌,
  Result_ind, if_ind, is_some, if◌then◌else◌,
}
use evalops_lab.Jobs.Record.{JobRecord}
use evalops_lab.Models.Workspaces.{WorkspaceRecord}
use evalops_lab.Storage.Disk.{Key, key_eq, Disk}
use evalops_lab.Jobs.States.{queued, is_terminal, state_eq}
use evalops_lab.Storage.Jobs.{list_job_records, save_job_record, update_job_record}
use evalops_lab.Storage.Workspaces.{list_workspaces}
use evalops_lab.Jobs.Queue.{
  interruption, is_alive, Queue, schedule, enqueue, recover_job, recover_jobs, recover_workspaces,
  recover, start, stop,
}
use evalops_lab.Jobs.Worker.{Environment, Turn, take_item}

-- The references in the queue.
abbrev pub scheduled : List (Option Key) → List Key
scheduled [] = []
scheduled (none ∷ items) = scheduled items
scheduled (some k ∷ items) = k ∷ scheduled items

pub record IsScheduled (q : Queue) : Type 0 where
  pub once : unique (scheduled q.pending) ≡ true
  pub same : (k : Key) → member k q.pending_ids ≡ member k (scheduled q.pending)

member-scheduled_snoc :
    (j k : Key) (items : List (Option Key))
    → member j (scheduled (items ++ some k ∷ []))
      ≡ (if j == k then true else member j (scheduled items))
member-scheduled_snoc j k [] = ground arith
member-scheduled_snoc j k (none ∷ items) = member-scheduled_snoc j k items
member-scheduled_snoc j k (some i ∷ items) = ground (arith, member-scheduled_snoc j k items)

unique-scheduled_snoc :
    (k : Key) (items : List (Option Key))
    → member k (scheduled items) ≡ false
    → unique (scheduled items) ≡ true
    → unique (scheduled (items ++ some k ∷ [])) ≡ true
unique-scheduled_snoc k [] m u = refl
unique-scheduled_snoc k (none ∷ items) m u = unique-scheduled_snoc k items m u
unique-scheduled_snoc k (some i ∷ items) m u =
    ground (
      arith,
      unique-scheduled_snoc k items,
      member-scheduled_snoc i k items,
      ==_iff i k,
      ==_iff k i,
    )

scheduled-snoc_none : (items : List (Option Key)) → scheduled (items ++ none ∷ []) ≡ scheduled items
scheduled-snoc_none [] = refl
scheduled-snoc_none (none ∷ items) = scheduled-snoc_none items
scheduled-snoc_none (some k ∷ items) = ground (arith, scheduled-snoc_none items)

schedule-IsScheduled : (k : Key) (q : Queue) → IsScheduled q → IsScheduled (schedule k q)
unfolding schedule
schedule-IsScheduled k q s = elim (Bool-cases (member k q.pending_ids)) [
  | inl old ↦ rw old s
  | inr new ↦ rw new (record {
    once = unique-scheduled_snoc k q.pending (ground (arith, s.same k)) s.once;
    same = λ j. ground (arith, s.same j, member-scheduled_snoc j k q.pending);
  })
]

-- What a call leaves is scheduled.
abbrev Keeps : {A : Type 0} → A × Queue × Disk → Type 0
Keeps o = IsScheduled o.1

pub enqueue-IsScheduled :
    (job : JobRecord) (q : Queue) (d : Disk) → IsScheduled q → IsScheduled (enqueue job q d).1
unfolding enqueue
enqueue-IsScheduled job q d s = if_ind Keeps q.stop_requested s (
    Result_ind Keeps (save_job_record job d).0
      (λ _.
        if_ind IsScheduled (is_some q.thread)
          (schedule-IsScheduled (job.workspace_id, job.job_id) q s) s)
      (λ _. s))

recover_job-IsScheduled :
    (now : ℕ) (job : JobRecord) (q : Queue) (d : Disk)
    → IsScheduled q
    → IsScheduled (recover_job now job q d).1
unfolding recover_job
recover_job-IsScheduled now job q d s =
    if_ind Keeps (job.state == queued) (schedule-IsScheduled (job.workspace_id, job.job_id) q s) (
      if_ind Keeps (not (is_terminal job.state))
        (Result_ind Keeps (update_job_record job.workspace_id job.job_id (interruption job) now d).0
          (λ _. s) (λ _. s))
        s)

recover_jobs-IsScheduled :
    (now : ℕ) (jobs : List JobRecord) (q : Queue) (d : Disk)
    → IsScheduled q
    → IsScheduled (recover_jobs now jobs q d).1
unfolding recover_jobs
recover_jobs-IsScheduled now [] q d s = s
recover_jobs-IsScheduled now (job ∷ jobs) q d s =
    let o = recover_job now job q d in
    let s' = recover_job-IsScheduled now job q d s in
    Result_ind Keeps o.0 (λ _. recover_jobs-IsScheduled now jobs o.1 o.2 s') (λ _. s')

recover_workspaces-IsScheduled :
    (now : ℕ) (ws : List WorkspaceRecord) (q : Queue) (d : Disk)
    → IsScheduled q
    → IsScheduled (recover_workspaces now ws q d).1
unfolding recover_workspaces
recover_workspaces-IsScheduled now [] q d s = s
recover_workspaces-IsScheduled now (w ∷ ws) q d s =
    Result_ind Keeps (list_job_records w.workspace_id d)
      (λ jobs.
        let o = recover_jobs now jobs q d in
        let s' = recover_jobs-IsScheduled now jobs q d s in
        Result_ind Keeps o.0 (λ _. recover_workspaces-IsScheduled now ws o.1 o.2 s') (λ _. s'))
      (λ _. s)

recover-IsScheduled :
    (now : ℕ) (q : Queue) (d : Disk) → IsScheduled q → IsScheduled (recover now q d).1
unfolding recover
recover-IsScheduled now q d s = if_ind Keeps (is_alive q) s (
    Result_ind Keeps (list_workspaces d) (λ ws. recover_workspaces-IsScheduled now ws q d s)
      (λ _. s))

pub start-IsScheduled :
    (now : ℕ) (q : Queue) (d : Disk) → IsScheduled q → IsScheduled (start now q d).1
unfolding start
start-IsScheduled now q d s =
    let fresh : Queue = record q { stop_requested = false; pending = []; pending_ids = [] } in
    let s' = recover-IsScheduled now fresh d (record { once = refl; same = λ _. refl }) in
    if_ind Keeps (is_alive q) s (
      Result_ind Keeps (recover now fresh d).0 (λ _. record { once = s'.once; same = s'.same })
        (λ _. s'))

pub stop-IsScheduled :
    (ends : Bool) (q : Queue) (d : Disk) → IsScheduled q → IsScheduled (stop ends q d).1
unfolding stop
stop-IsScheduled ends q d s =
    let asked : IsScheduled (record q { stop_requested = true; pending = q.pending ++ none ∷ [] }) =
      let e = scheduled-snoc_none q.pending in
      record {
        once = subst (λ ks. unique ks ≡ true) (sym e) s.once;
        same = λ k. s.same k ∙ ap (member k) (sym e);
      } in
    if_ind Keeps (is_some q.thread)
      (if_ind Keeps ends (record { once = asked.once; same = asked.same }) asked) s

pub take_item-IsScheduled :
    (env : Environment) (now : ℕ) (item : Option Key) (rest : List (Option Key)) (q : Queue)
    (d : Disk)
    → q.pending ≡ item ∷ rest
    → IsScheduled q
    → IsScheduled (take_item env now item (record q { pending = rest }) d).1
unfolding take_item
take_item-IsScheduled env now none rest q d e s = record {
  once = subst (λ items. unique (scheduled items) ≡ true) e s.once;
  same = λ k. s.same k ∙ ap (λ items. member k (scheduled items)) e;
}
take_item-IsScheduled env now (some (ws, job)) rest q d e s =
    let u = subst (λ items. unique (scheduled items) ≡ true) e s.once in
    let once' = unique-tail (ws, job) (scheduled rest) u in
    let same' = λ (k : Key).
      member-discard_head (ws, job) k q.pending_ids (scheduled rest) u
        (s.same k ∙ ap (λ items. member k (scheduled items)) e) in
    if_ind (λ (o : Turn × Queue × Disk). IsScheduled o.1) q.stop_requested
      (record { once = once'; same = same' }) (record { once = once'; same = same' })
