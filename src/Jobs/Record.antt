-- ===== src/Jobs/Record.antt =====
-- src/evalops/workspace/jobs/models.py: the persisted record of a job.
use evalops_lab.Common.{ℕ, String, Bool, false, not, ◌&&◌, ◌||◌, Option, none, is_some, ◌==◌}
use evalops_lab.Jobs.States.{JobState, queued, failed, interrupted, state_eq}

pub record SafeJobError : Type 0 where
  pub code : String
  pub message : String

-- Times are numbers, since they are only compared.
pub record JobRecord : Type 0 where
  pub job_id : String
  pub workspace_id : String
  pub run_id : String
  pub state : JobState
  pub revision : ℕ
  pub cancel_requested : Bool
  pub safe_error : Option SafeJobError
  pub created_at : ℕ
  pub updated_at : ℕ

-- `JobRecord.validate_state`: the record is accepted.
unfoldable pub validate_state : JobRecord → Bool
validate_state job =
    not (is_some job.safe_error && not (job.state == failed || job.state == interrupted))
    && not (job.state == failed && not (is_some job.safe_error))

-- `JobRecord.queued`, with the identifier and the time that it draws.
unfoldable pub new_queued : String → ℕ → String → String → JobRecord
new_queued job_id now workspace_id run_id = record {
  job_id = job_id;
  workspace_id = workspace_id;
  run_id = run_id;
  state = queued;
  revision = 0;
  cancel_requested = false;
  safe_error = none;
  created_at = now;
  updated_at = now;
}
