-- ===== src/Storage/Transitions.antt =====
-- What an accepted update does to one job record (src/evalops/workspace/storage.py,
-- `update_job_record`), over every history of updates.
use evalops_lab.Common.{
  String, refl, ap, ℕ, ◌+◌, ◌≤◌, Bool, ◌≡◌, ◌≢◌, ◌⊎◌, true, false, ok, raise, arith,
}
use evalops_lab.Jobs.States.{
  JobState, queued, validating, evaluating, analyzing, writing_artifact, complete, is_terminal,
  allowed,
}
use evalops_lab.Jobs.Record.{JobRecord, validate_state, new_queued}
use evalops_lab.Storage.Disk.{validation_error, invalid_transition}
use evalops_lab.Storage.Jobs.{Update, next_record}

-- What one accepted update may do to a record.
pub record IsAdvance (old new : JobRecord) : Type 0 where
  pub same_job : new.job_id ≡ old.job_id
  pub same_workspace : new.workspace_id ≡ old.workspace_id
  pub same_run : new.run_id ≡ old.run_id
  pub next_revision : new.revision ≡ old.revision + 1
  pub was_active : is_terminal old.state ≡ false
  pub moved : (new.state ≡ old.state) ⊎ (allowed old.state new.state ≡ true)
  pub changes : (new.state ≢ old.state) ⊎ (new.cancel_requested ≢ old.cancel_requested)
  pub keeps_cancel : old.cancel_requested ≡ true → new.cancel_requested ≡ true
  pub never_completes : old.cancel_requested ≡ true → new.state ≢ complete
  pub is_valid : validate_state new ≡ true

-- An accepted update keeps the identifiers, raises the revision by one, starts from a state that is
-- not terminal, makes an allowed move or none, changes the state or the cancellation, keeps a
-- requested cancellation, does not complete a job with one, and leaves a valid record.
pub next_record-IsAdvance :
    (u : Update) (now : ℕ) (old new : JobRecord)
    → next_record u now old ≡ ok new
    → IsAdvance old new
unfolding next_record
next_record-IsAdvance u now old new h = ground arith

-- The guards of `update_job_record` leave nothing for the validation of the record: it never raises.
pub next_record-ne-validation_error :
    (u : Update) (now : ℕ) (old : JobRecord) → next_record u now old ≢ raise validation_error
unfolding next_record
next_record-ne-validation_error u now old = ground arith

-- How far a job has come.
abbrev pub phase : JobState → ℕ
phase queued = 0
phase validating = 1
phase evaluating = 2
phase analyzing = 3
phase writing_artifact = 4
phase _ = 5

abbrev pub flag : Bool → ℕ
flag true = 1
flag false = 0

-- The updates that a job has had, counted by its revision.
pub record IsCounted (r : JobRecord) : Type 0 where
  pub valid : validate_state r ≡ true
  pub lower : is_terminal r.state ≡ false → phase r.state ≤ r.revision
  pub upper : r.revision ≤ phase r.state + flag r.cancel_requested
  pub completed : r.state ≡ complete → r.revision ≡ 5

IsAdvance-IsCounted : (old new : JobRecord) → IsAdvance old new → IsCounted old → IsCounted new
IsAdvance-IsCounted old new a c = ground arith

-- The records that a new job can pass through, by any accepted updates at any times.
pub data History (first : JobRecord) : JobRecord → Type 0 where
  start : History first first
  update :
      {old new : JobRecord} (u : Update) (now : ℕ)
      → History first old
      → next_record u now old ≡ ok new
      → History first new

new_queued-IsCounted : (job ws run : String) (now : ℕ) → IsCounted (new_queued job now ws run)
unfolding new_queued validate_state
new_queued-IsCounted job ws run now = ground arith

History-IsCounted : {first r : JobRecord} → History first r → IsCounted first → IsCounted r
History-IsCounted start c = c
History-IsCounted (update {old = old} {new = new} u now h e) c =
    IsAdvance-IsCounted old new (next_record-IsAdvance u now old new e) (History-IsCounted h c)

-- Whatever updates a new job has had, its record is valid, it has had at most six of them, and if
-- it is COMPLETE it has had exactly the five that lead through all phases.
pub history_bounds :
    (job ws run : String) (now : ℕ) (r : JobRecord)
    → History (new_queued job now ws run) r
    → (validate_state r ≡ true) × (r.revision ≤ 6) × (r.state ≡ complete → r.revision ≡ 5)
history_bounds job ws run now r h =
    let c = History-IsCounted h (new_queued-IsCounted job ws run now) in
    (c.valid, ground (arith, phase_le r.state), c.completed)
  where
    phase_le : (s : JobState) → phase s ≤ 5
    phase_le s = ground arith

-- Once cancellation is requested it stays requested, and the job is never COMPLETE afterwards,
-- unless it was COMPLETE already.
pub cancel_is_final :
    (old new : JobRecord)
    → old.cancel_requested ≡ true
    → old.state ≢ complete
    → History old new
    → (new.cancel_requested ≡ true) × (new.state ≢ complete)
cancel_is_final old _ c n start = (c, n)
cancel_is_final old new c n (update {old = mid} u now h e) =
    let (kept, _) = cancel_is_final old mid c n h in
    let a = next_record-IsAdvance u now mid new e in (a.keeps_cancel kept, a.never_completes kept)

-- No update is accepted on a record in a terminal state, so that any history from it leaves it as it
-- was.
pub terminal_is_final :
    (old new : JobRecord) → is_terminal old.state ≡ true → History old new → new ≡ old
terminal_is_final old _ t start = refl
terminal_is_final old new t (update {old = mid} u now h e) =
    let same = terminal_is_final old mid t h in
    let a = next_record-IsAdvance u now mid new e in
    ground (arith, ap (λ (r : JobRecord). is_terminal r.state) same)

-- Of two writers that read the same revision at most one succeeds: after an accepted update, an
-- update for the revision before it is refused as stale.
pub stale_refused :
    (u v : Update) (now later : ℕ) (old new : JobRecord)
    → next_record u now old ≡ ok new
    → v.expected_revision ≡ old.revision
    → next_record v later new ≡ raise (invalid_transition "stale job revision")
unfolding next_record
stale_refused u v now later old new e same =
    let a = next_record-IsAdvance u now old new e in ground arith
