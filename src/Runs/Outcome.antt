-- ===== src/Runs/Outcome.antt =====
-- How `execute_job` of src/evalops/workspace/application/runs.py ends.
use evalops_lab.Common.{
  ℕ, String, ◌≡◌, refl, ap, subst, sym, Bool, false, some, Dict, List, Result, ok, raise,
  Result_elim, if_elim, inl, inr, ◌⊎◌, Float, arith, if◌then◌else◌, not, ◌||◌, ◌==◌,
}
use evalops_lab.Datasets.{Reader}
use evalops_lab.Jobs.States.{
  JobState, evaluating, analyzing, writing_artifact, validating, state_eq,
}
use evalops_lab.Jobs.Finishing.{IsSettled}
use evalops_lab.Models.Runs.{RunSnapshot, RunProvenance}
use evalops_lab.Comparison.Evidence.{EvaluationResult}
use evalops_lab.Storage.Codec.{Codec}
use evalops_lab.Storage.Disk.{StoreError, Disk, Action}
use evalops_lab.Storage.Actions.{
  Proc, ◌>>=◌, return, fail, query, >>=_elim, call_as, call_as-eq-ok, reraise,
}
use evalops_lab.Storage.Runs.{get_run_snapshot}
use evalops_lab.Storage.Jobs.{get_job_record}
use evalops_lab.Storage.Evidence.{write_run_artifacts}
use evalops_lab.Storage.Evidence.Commit.{write_run_artifacts-IsCommitted}
use evalops_lab.Runs.Pairing.{is_storage_error}
use evalops_lab.Runs.Execution.{
  Others, ExecutionError, of_store, stored_call, advance, check_cancel, fail_job, is_hash_changed,
  evaluated, persist_result, write_phase, evaluation_phase, evaluate_inputs, failed_read,
  with_inputs, read_both, load_both, execute_job,
}
use evalops_lab.Runs.Phases.{Reaches, advance-Reaches, stopped-IsSettled, fail_job-Settled}

module _ (fl : Float) (exp2 : fl.Number → fl.Number) (log2 : ℕ → fl.Number) (show : ℕ → String)
    (reader : Reader) (codec : Codec fl.Number) (evalops_version : String) (others : Others)
    (now : ℕ) (ws job : String) where
  -- A sequence that returns has ended the job.
  abbrev Ends : Result ExecutionError (Unit {0}) × Disk → Type 0
  Ends o = o.0 ≡ ok tt → IsSettled ws job o.1

  stored-Ends :
      (m : Action (Unit {0})) (d : Disk)
      → ((d' : Disk) → m d ≡ (ok tt, d') → IsSettled ws job d')
      → Ends (stored_call m d)
  unfolding call_as
  stored-Ends m d f = lifted (m d) f
    where
      lifted :
          (o : Result StoreError (Unit {0}) × Disk)
          → ((d' : Disk) → o ≡ (ok tt, d') → IsSettled ws job d')
          → Ends (reraise of_store o)
      lifted (ok tt, e) g h = g e refl
      lifted (raise x, e) g h = cc

  failed-Ends :
      (code message : String) (d : Disk)
      → Ends (stored_call (fail_job others now ws job code message) d)
  failed-Ends code message d = stored-Ends _ d λ d' e.
      subst (λ (o : Result StoreError (Unit {0}) × Disk). o.0 ≡ ok tt → IsSettled ws job o.1) e
        (fail_job-Settled others now ws job code message d) refl

  settled-Ends : (d : Disk) → IsSettled ws job d → Ends (return {E = ExecutionError} tt d)
  unfolding return
  settled-Ends d s h = s

  -- The end of a phase that was not entered.
  not_advanced :
      (phase : JobState) (entered : Bool) (d d1 : Disk)
      → stored_call (advance others now ws job phase) d ≡ (ok entered, d1)
      → entered ≡ false
      → IsSettled ws job d1
  not_advanced phase entered d d1 e f =
      let reached =
        subst (Reaches others now ws job phase)
          (call_as-eq-ok of_store (advance others now ws job phase) d e)
          (advance-Reaches others now ws job phase d) in
      subst (λ b. Reaches others now ws job phase (ok b, d1)) f reached

  -- A phase that is entered or ends the job.
  advancing-Ends :
      (phase : JobState) (next : Proc ExecutionError (Unit {0})) (d : Disk)
      → ((d1 : Disk) → Ends (next d1))
      → Ends (
          (stored_call (advance others now ws job phase) >>= λ entered.
          if entered then next else return tt)
            d)
  advancing-Ends phase next d ends =
      >>=_elim Ends (stored_call (advance others now ws job phase)) _ d
        (λ entered d1 e.
          if_elim (λ (m : Proc ExecutionError (Unit {0})). Ends (m d1)) entered (λ _. ends d1)
            (λ f. settled-Ends d1 (not_advanced phase entered d d1 e f)))
        (λ x d1 _ h. cc)

  written-Ends :
      (content : String) (p : RunProvenance) (d : Disk)
      → Ends (stored_call (write_run_artifacts codec ws job content (some p) now) d)
  written-Ends content p d = stored-Ends _ d λ d' e.
      let c = write_run_artifacts-IsCommitted codec ws job content (some p) now d d' e in
      (c.done, c.read, ground (arith, c.completed))

  persisting-Ends :
      (snapshot : RunSnapshot) (result : EvaluationResult fl.Number) (d : Disk)
      → Ends (
          persist_result fl exp2 log2 show reader codec evalops_version others now ws job snapshot
            result d)
  unfolding persist_result
  persisting-Ends snapshot result d =
      >>=_elim Ends (stored_call (check_cancel others now ws job)) _ d
        (λ stopped d1 e.
          if_elim (λ (m : Proc ExecutionError (Unit {0})). Ends (m d1)) stopped
            (λ t. settled-Ends d1 (
              stopped-IsSettled others now ws job d d1 (
                subst (λ b. check_cancel others now ws job d ≡ (ok b, d1)) t
                  (call_as-eq-ok of_store _ d e))))
            (λ _. written-Ends _ _ d1))
        (λ x d1 _ h. cc)

  evaluation-Ends :
      (snapshot : RunSnapshot) (truth predictions : Dict String (List String)) (d : Disk)
      → Ends (
          evaluation_phase fl exp2 log2 show reader codec evalops_version others now ws job snapshot
            truth predictions d)
  unfolding evaluation_phase write_phase
  evaluation-Ends snapshot truth predictions d =
      >>=_elim Ends
        (query (λ _.
          evaluated fl exp2 log2 show reader codec evalops_version others now ws job truth
            predictions snapshot.config))
        _ d
        (λ result d1 _.
          advancing-Ends analyzing
            (write_phase fl exp2 log2 show reader codec evalops_version others now ws job snapshot
              result)
            d1
            (λ d2.
              advancing-Ends writing_artifact
                (persist_result fl exp2 log2 show reader codec evalops_version others now ws job
                  snapshot result)
                d2 (persisting-Ends snapshot result)))
        (λ x d1 _ h. cc)

  with_inputs-Ends :
      (snapshot : RunSnapshot) (read : Result StoreError (String × String)) (d : Disk)
      → Ends (
          with_inputs fl exp2 log2 show reader codec evalops_version others now ws job snapshot read
            d)
  unfolding with_inputs failed_read evaluate_inputs fail
  with_inputs-Ends snapshot (raise e) d =
      if_elim (λ (m : Proc ExecutionError (Unit {0})). Ends (m d)) (is_hash_changed e)
        (λ _. failed-Ends _ _ d)
        (λ _.
          if_elim (λ (m : Proc ExecutionError (Unit {0})). Ends (m d)) (is_storage_error e)
            (λ _. failed-Ends _ _ d) (λ _ h. cc))
  with_inputs-Ends snapshot (ok (truth, predictions)) d =
      Result_elim (λ (m : Proc ExecutionError (Unit {0})). Ends (m d))
        (load_both fl exp2 log2 show reader codec evalops_version others now ws job truth
          predictions)
        (λ records _.
          advancing-Ends evaluating
            (evaluation_phase fl exp2 log2 show reader codec evalops_version others now ws job
              snapshot records.0 records.1)
            d (evaluation-Ends snapshot records.0 records.1))
        (λ e _. failed-Ends _ _ d)

  -- Nothing was done, or the job was ended.
  abbrev EndsFrom : Disk → Result ExecutionError (Unit {0}) × Disk → Type 0
  EndsFrom d o = o.0 ≡ ok tt → (o.1 ≡ d) ⊎ IsSettled ws job o.1

  query-same :
      {A : Type 0} (q : Disk → Result StoreError A) (d : Disk) {a : A} {d1 : Disk}
      → stored_call (query q) d ≡ (ok a, d1)
      → d1 ≡ d
  unfolding query
  query-same {A} q d e =
      sym (ap (λ (o : Result StoreError A × Disk). o.1) (call_as-eq-ok of_store (query q) d e))

  executing-EndsFrom :
      (d : Disk)
      → EndsFrom d (execute_job fl exp2 log2 show reader codec evalops_version others now ws job d)
  unfolding execute_job return
  executing-EndsFrom d =
      >>=_elim (EndsFrom d) (stored_call (query (get_job_record ws job))) _ d
        (λ current d1 e.
          if_elim (λ (m : Proc ExecutionError (Unit {0})). EndsFrom d (m d1))
            (not (current.state == validating) || current.cancel_requested)
            (λ _ _. inl (query-same (get_job_record ws job) d e))
            (λ _.
              >>=_elim (EndsFrom d) (stored_call (query (get_run_snapshot ws current.run_id))) _ d1
                (λ snapshot d2 _ h. inr (
                  with_inputs-Ends snapshot
                    (read_both fl exp2 log2 show reader codec evalops_version others now ws job
                      snapshot d2)
                    d2 h))
                (λ x d2 _ h. cc)))
        (λ x d1 _ h. cc)

  -- If `execute_job` returns, then the disk is as before or the job is on disk in a terminal
  -- state, whatever other threads do between its reads and its updates.
  pub execute_job_ends :
      (d d' : Disk)
      → execute_job fl exp2 log2 show reader codec evalops_version others now ws job d ≡ (ok tt, d')
      → (d' ≡ d) ⊎ IsSettled ws job d'
  execute_job_ends d d' h = subst (EndsFrom d) h (executing-EndsFrom d) refl
