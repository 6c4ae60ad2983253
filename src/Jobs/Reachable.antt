-- ===== src/Jobs/Reachable.antt =====
-- The queue of src/evalops/workspace/jobs/queue.py over every sequence of its operations.
use evalops_lab.Common.{
  ℕ, ◌≡◌, refl, sym, ap, subst, ◌∙◌, Bool, true, false, Option, none, some, List, [], ◌∷◌, member,
  unique,
}
use evalops_lab.Jobs.Record.{JobRecord}
use evalops_lab.Storage.Disk.{Key, key_eq, Disk}
use evalops_lab.Jobs.Queue
use evalops_lab.Jobs.Queue.{Queue}
use evalops_lab.Jobs.Worker.{Environment, Turn, take_item, worker_turn}
use evalops_lab.Jobs.Scheduling.{
  IsScheduled, scheduled, enqueue-IsScheduled, start-IsScheduled, stop-IsScheduled,
  take_item-IsScheduled,
}

-- The operations of the queue, with all that surrounds them.
pub data Operation : Type 0 where
  enqueue : JobRecord → Operation
  start : ℕ → Operation
  stop : Bool → Operation
  work : Environment → ℕ → Operation
  worker_ends : Operation

-- The queue after an operation on any disk, also after one that raises.
pub after : Operation → Queue → Disk → Queue
after (enqueue job) q d = (Queue.enqueue job q d).1
after (start now) q d = (Queue.start now q d).1
after (stop ends) q d = (Queue.stop ends q d).1
after (work env now) q d = elim (worker_turn env now q d) [ none ↦ q | some o ↦ o.1 ]
after worker_ends q d = record q { thread = some false }

-- The queues that a process can reach from an empty one.
pub data Reach : Queue → Type 0 where
  initial : (q : Queue) → q.pending ≡ [] → q.pending_ids ≡ [] → Reach q
  step : (op : Operation) (q : Queue) (d : Disk) → Reach q → Reach (after op q d)

worker_turn-IsScheduled :
    (env : Environment) (now : ℕ) (q : Queue) (d : Disk)
    → IsScheduled q
    → IsScheduled (after (work env now) q d)
unfolding after worker_turn
worker_turn-IsScheduled env now q d s = go q.pending refl
  where
    go :
        (items : List (Option Key))
        → q.pending ≡ items
        → IsScheduled
            (elim (elim items as (λ _. Option (Turn × Queue × Disk)) [
              | [] ↦ none
              | item ∷ rest ↦ some (take_item env now item (record q { pending = rest }) d)
            ])
              as (λ _. Queue) [ none ↦ q | some o ↦ o.1 ])
    go [] e = s
    go (item ∷ rest) e = take_item-IsScheduled env now item rest q d e s

-- Whatever operations a process makes, the set `_pending_ids` holds exactly the references in
-- `_pending`, and no reference stands there twice.
pub pending_ids-eq-pending : (q : Queue) → Reach q → IsScheduled q
unfolding after
pending_ids-eq-pending _ (initial q e f) = record {
  once = subst (λ items. unique (scheduled items) ≡ true) (sym e) refl;
  same = λ k. ap (member k) f ∙ ap (λ items. member k (scheduled items)) (sym e);
}
pending_ids-eq-pending _ (step op q d r) = kept op (pending_ids-eq-pending q r)
  where
    kept : (op : Operation) → IsScheduled q → IsScheduled (after op q d)
    kept (enqueue job) s = enqueue-IsScheduled job q d s
    kept (start now) s = start-IsScheduled now q d s
    kept (stop ends) s = stop-IsScheduled ends q d s
    kept worker_ends s = record { once = s.once; same = s.same }
    kept (work env now) s = worker_turn-IsScheduled env now q d s
