-- ===== src/Storage/CompareAndSet.antt =====
-- What `update_job_record` of src/evalops/workspace/storage.py promises of one job: an update is compared
-- with the record that it was made for, and is taken as a whole or not at all.
use evalops_lab.Common.{
  ℕ, ◌+◌, ◌≡◌, Bool, true, false, not, ◌&&◌, Option, none, some, is_some, Result, ok, raise, ◌==◌,
  ==_iff, nat_eq, nat_beq, if◌then◌else◌, arith,
}
use evalops_lab.Jobs.States.{
  JobState, queued, validating, evaluating, analyzing, writing_artifact, complete, failed,
  cancelled, interrupted, state_eq,
}
use evalops_lab.Jobs.Record.{JobRecord, SafeJobError}
use evalops_lab.Storage.Disk.{StoreError}
use evalops_lab.Storage.Jobs.{Update, next_record}

-- The phases of a job, in order; a job that is over has none before it.
abbrev pub following : JobState → Option JobState
following queued = some validating
following validating = some evaluating
following evaluating = some analyzing
following analyzing = some writing_artifact
following writing_artifact = some complete
following _ = none

abbrev pub leads : Option JobState → JobState → Bool
leads none t = false
leads (some n) t = n == t

-- Where a job may go: on to the next phase while nobody wants it cancelled, or to an end. A job that
-- waits in the queue is not interrupted.
abbrev pub can_go : Bool → JobState → JobState → Bool
can_go unwanted s failed = true
can_go unwanted s cancelled = true
can_go unwanted s interrupted = not (s == queued)
can_go unwanted s t = not unwanted && leads (following s) t

-- The error that goes with an end: always with a failure, perhaps with an interruption.
abbrev pub has_right_error : Option JobState → Option SafeJobError → Bool
has_right_error (some failed) none = false
has_right_error (some failed) (some _) = true
has_right_error (some interrupted) _ = true
has_right_error _ none = true
has_right_error _ (some _) = false

-- A move, or a request to cancel that is new; a request is not taken back.
abbrev pub is_change : JobRecord → Option JobState → Option Bool → Bool
is_change old (some t) (some false) =
    not old.cancel_requested && can_go old.cancel_requested old.state t
is_change old (some t) _ = can_go old.cancel_requested old.state t
is_change old none (some true) = not old.cancel_requested
is_change old none _ = false

-- An update is for the record with its revision, which is not over.
abbrev pub suits : Update → JobRecord → Bool
suits u old =
    nat_beq u.expected_revision old.revision
    && is_some (following old.state)
    && is_change old u.next_state u.cancel_requested
    && has_right_error u.next_state u.safe_error

abbrev pub new_state : Option JobState → JobState → JobState
new_state none s = s
new_state (some t) s = t

abbrev pub wants_off : Option Bool → Bool → Bool
wants_off (some true) b = true
wants_off _ b = b

-- The record after an update that suits it.
abbrev pub changed : Update → ℕ → JobRecord → JobRecord
changed u now old = record {
  job_id = old.job_id;
  workspace_id = old.workspace_id;
  run_id = old.run_id;
  state = new_state u.next_state old.state;
  revision = old.revision + 1;
  cancel_requested = wants_off u.cancel_requested old.cancel_requested;
  safe_error = u.safe_error;
  created_at = old.created_at;
  updated_at = now;
}

abbrev pub taken : {A : Type 0} → Result StoreError A → Option A
taken (ok a) = some a
taken (raise e) = none

-- The guards of `update_job_record` take exactly the updates that suit the record.
pub next_record_lem :
    (u : Update) (now : ℕ) (old : JobRecord)
    → taken (next_record u now old) ≡ (if suits u old then some (changed u now old) else none)
unfolding next_record
next_record_lem u now old = ground (arith, ==_iff old.revision u.expected_revision)
