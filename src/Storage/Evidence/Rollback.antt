-- ===== src/Storage/Evidence/Rollback.antt =====
-- `write_run_artifacts` of src/evalops/workspace/storage.py on a device that refuses a write.

use evalops_lab.Common.{
  nat_eq, ℕ, String, ◌≡◌, refl, sym, ap, ◌∙◌, subst, Option, Result, Bool, true, false, arith, Dict,
  ok, raise,
}
use evalops_lab.Jobs.States.{state_eq}
use evalops_lab.Jobs.Record.{JobRecord}
use evalops_lab.Models.Runs.{RunProvenance}
use evalops_lab.Storage.Codec.{Codec}
use evalops_lab.Storage.Disk.{
  StoreError, Key, key_eq, Disk, Entry, dangling, exists, is_taken, entry_at,
}
use evalops_lab.Storage.Actions.{
  carry, ◌>>=◌, Reads, query-Reads, check-Reads, return-Reads, >>=-Reads,
}
use evalops_lab.Storage.Updates.{get_job_record_ids}
use evalops_lab.Storage.Evidence.{check_evidence, write_run_artifacts, promote, or_roll_back}
use evalops_lab.Storage.Evidence.Commit.{check_evidence-IsChecked}
use evalops_lab.Storage.Evidence.Refused.{
  IsRestored, RefusesOnce, completion-ok, stopped-IsRestored,
}

abbrev pub is_dangling : {A : Type 0} → Entry A → Bool
is_dangling dangling = true
is_dangling _ = false

-- No link that leads nowhere stands at the path of a result or of a provenance.
abbrev pub NoDangling : Disk → Type 0
NoDangling d =
    (k : Key)
    → (is_dangling (entry_at k d.results) ≡ false)
      × (is_dangling (entry_at k d.provenances) ≡ false)

nothing_there :
    {A : Type 0} (x : Entry A) → is_dangling x ≡ false → exists x ≡ false → is_taken x ≡ false
nothing_there x h g = ground arith

module _ {N : Type 0} (codec : Codec N) where
  check_evidence-Reads :
      (ws id content : String) (provenance : Option RunProvenance)
      → Reads (check_evidence codec ws id content provenance)
  unfolding check_evidence
  check_evidence-Reads ws id content provenance = >>=-Reads _ _ (query-Reads _) λ job.
      >>=-Reads _ _ (check-Reads _ _) λ _. >>=-Reads _ _ (query-Reads _) λ p.
        >>=-Reads _ _ (query-Reads _) λ snapshot. >>=-Reads _ _ (query-Reads _) λ result.
          >>=-Reads _ _ (check-Reads _ _) λ _. >>=-Reads _ _ (check-Reads _ _) λ _.
            >>=-Reads _ _ (query-Reads _) λ jobs. >>=-Reads _ _ (check-Reads _ _) λ _.
              >>=-Reads _ _ (query-Reads _)
                λ _. >>=-Reads _ _ (check-Reads _ _) λ _. return-Reads StoreError (job, p)

  went_on-IsRestored :
      (ws id content : String) (provenance : Option RunProvenance) (now : ℕ) (d d' : Disk)
      (e : StoreError) (o : Result StoreError (JobRecord × RunProvenance) × Disk)
      → RefusesOnce d
      → NoDangling d
      → check_evidence codec ws id content provenance d ≡ o
      → carry o (λ (c : JobRecord × RunProvenance) (z : Disk).
        or_roll_back c.0 (promote c.0 content c.1 now z))
        ≡ (raise e, d')
      → IsRestored d d'
  unfolding Reads
  went_on-IsRestored ws id content provenance now d d' e (raise x, d1) once links h g =
      let left : d' ≡ d =
        ap (λ (z : Result StoreError (Unit {0}) × Disk). z.1) (sym g)
        ∙ sym (ap (λ (z : Result StoreError (JobRecord × RunProvenance) × Disk). z.1) h)
        ∙ check_evidence-Reads ws id content provenance d in
      record {
        same_jobs = ap (λ (z : Disk). z.jobs) left;
        same_results = λ j. ap (λ (z : Disk). entry_at j z.results) left;
        same_provenances = λ j. ap (λ (z : Disk). entry_at j z.provenances) left;
      }
  went_on-IsRestored ws id content provenance now d d' e (ok (job, p), d1) once links h g =
      let (given, c, same) = check_evidence-IsChecked codec ws id content provenance d d1 job p h in
      let (same_id, same_ws) = get_job_record_ids ws id d job c.reads in
      let start =
        subst (λ (z : Disk). or_roll_back job (promote job content p now z) ≡ (raise e, d')) same
          g in
      let (new, next) = completion-ok job now c.state c.uncancelled in
      stopped-IsRestored job new content p now d (rw (sym same_ws, sym same_id) at c.reads) c.state
        next (free job.run_id d.results same_ws (links (ws, job.run_id)).0 c.no_result)
        (free job.run_id d.provenances same_ws (links (ws, job.run_id)).1 c.no_provenance) once d' e
        start
    where
      free :
          {A : Type 0} {w : String} (run : String) (t : Dict Key (Entry A))
          → w ≡ ws
          → is_dangling (entry_at {K = Key} (ws, run) t) ≡ false
          → exists (entry_at {K = Key} (ws, run) t) ≡ false
          → is_taken (entry_at {K = Key} (w, run) t) ≡ false
      free run t same h g = rw same (nothing_there (entry_at {K = Key} (ws, run) t) h g)

  -- If the device refuses at most one write, no path of a result or of a provenance holds a link
  -- that leads nowhere, and `write_run_artifacts` raises, then the jobs are as before and at every
  -- path of a result or of a provenance stands what stood there before.
  pub write_run_artifacts_rolls_back :
      (ws id content : String) (provenance : Option RunProvenance) (now : ℕ) (d d' : Disk)
      (e : StoreError)
      → RefusesOnce d
      → NoDangling d
      → write_run_artifacts codec ws id content provenance now d ≡ (raise e, d')
      → IsRestored d d'
  unfolding write_run_artifacts ◌>>=◌
  write_run_artifacts_rolls_back ws id content provenance now d d' e once links h =
      went_on-IsRestored ws id content provenance now d d' e _ once links refl h
