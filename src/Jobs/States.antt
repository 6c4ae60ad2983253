-- ===== src/Jobs/States.antt =====
-- src/evalops/workspace/jobs/models.py: the states of a job and the transitions between them.
use evalops_lab.Common.{◌≡◌, ◌↔◌, Bool, true, false, arith, Eq}

pub data JobState : Type 0 where
  queued validating evaluating analyzing writing_artifact : JobState
  complete failed cancelled interrupted : JobState

-- `state in TERMINAL_STATES`
abbrev pub is_terminal : JobState → Bool
is_terminal complete = true
is_terminal failed = true
is_terminal cancelled = true
is_terminal interrupted = true
is_terminal _ = false

-- `target in ALLOWED_TRANSITIONS[state]`
abbrev pub allowed : JobState → JobState → Bool
allowed queued validating = true
allowed queued cancelled = true
allowed queued failed = true
allowed validating evaluating = true
allowed validating failed = true
allowed validating cancelled = true
allowed validating interrupted = true
allowed evaluating analyzing = true
allowed evaluating failed = true
allowed evaluating cancelled = true
allowed evaluating interrupted = true
allowed analyzing writing_artifact = true
allowed analyzing failed = true
allowed analyzing cancelled = true
allowed analyzing interrupted = true
allowed writing_artifact complete = true
allowed writing_artifact failed = true
allowed writing_artifact cancelled = true
allowed writing_artifact interrupted = true
allowed _ _ = false

abbrev pub state_beq : JobState → JobState → Bool
state_beq queued queued = true
state_beq validating validating = true
state_beq evaluating evaluating = true
state_beq analyzing analyzing = true
state_beq writing_artifact writing_artifact = true
state_beq complete complete = true
state_beq failed failed = true
state_beq cancelled cancelled = true
state_beq interrupted interrupted = true
state_beq _ _ = false

pub state_beq_iff : (a b : JobState) → (state_beq a b ≡ true) ↔ (a ≡ b)
state_beq_iff a b = ground arith

instance abbrev pub state_eq : Eq JobState
state_eq = record { beq = state_beq; beq_iff = state_beq_iff }

-- Nothing follows a terminal state.
pub allowed-terminal : (s t : JobState) → is_terminal s ≡ true → allowed s t ≡ false
allowed-terminal s t h = ground arith
