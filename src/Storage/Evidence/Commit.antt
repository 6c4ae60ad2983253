-- ===== src/Storage/Evidence/Commit.antt =====
-- What `write_run_artifacts` of src/evalops/workspace/storage.py has done when it returns.
use evalops_lab.Common.{
  ℕ, ◌+◌, String, ◌≡◌, refl, sym, ap, ◌∙◌, true, false, not, ◌||◌, Option, lookup, some, List,
  Result, ok, raise, any, lookup-insert_self, ==_iff, subst, arith, string_eq, option_eq, ◌==◌,
}
use evalops_lab.Jobs.States.{complete, writing_artifact, state_eq}
use evalops_lab.Jobs.Record.{JobRecord}
use evalops_lab.Models.Runs.{RunSnapshot, RunProvenance, config_beq}
use evalops_lab.Comparison.Evidence.{EvaluationResult}
use evalops_lab.Storage.Codec.{Codec}
use evalops_lab.Storage.Disk.{StoreError, Key, key_eq, Disk, file, entry_at, exists, is_taken}
use evalops_lab.Storage.Actions.{return-eq-ok, query-eq-ok, check-eq-ok, >>=-eq-ok}
use evalops_lab.Storage.Runs.{run_config_path, get_run_snapshot}
use evalops_lab.Storage.Jobs.{get_job_record, list_job_records, put_job}
use evalops_lab.Storage.Transitions.{next_record-IsAdvance}
use evalops_lab.Storage.Updates.{get_job_record_ids}
use evalops_lab.Storage.Evidence.Promotion.{
  with_evidence, IsPromoted, completion-eq-ok, promote-IsPromoted, roll_back-raises,
}
use evalops_lab.Storage.Evidence.{
  is_completed, repeats_snapshot, check_evidence, write_run_artifacts, promote, completion,
  or_roll_back, required, decoded_result,
}

module _ {N : Type 0} (codec : Codec N) where
  -- What `write_run_artifacts` has checked before it writes.
  pub record IsChecked (ws id content : String) (d : Disk) (job : JobRecord) (p : RunProvenance)
      : Type 0 where
    pub reads : get_job_record ws id d ≡ ok job
    pub state : job.state ≡ writing_artifact
    pub uncancelled : job.cancel_requested ≡ false
    pub snapshot : RunSnapshot
    pub snapshot_read : get_run_snapshot ws job.run_id d ≡ ok snapshot
    pub result : EvaluationResult N
    pub decoded : codec.decode content ≡ some result
    pub own_config : config_beq result.run snapshot.config ≡ true
    pub own_run : p.run_id ≡ snapshot.run_id
    pub repeats : repeats_snapshot p snapshot ≡ true
    pub digest : p.result_sha256 ≡ codec.sha256 content
    pub jobs : List JobRecord
    pub listed : list_job_records ws d ≡ ok jobs
    pub first : any (is_completed job.run_id) jobs ≡ false
    pub safe : run_config_path ws job.run_id d ≡ ok tt
    pub no_result : exists (entry_at (ws, job.run_id) d.results) ≡ false
    pub no_provenance : exists (entry_at (ws, job.run_id) d.provenances) ≡ false

  abbrev Passed :
      String → String → String → Option RunProvenance → Disk → JobRecord × RunProvenance → Type 0
  Passed ws id content provenance d (job, p) =
      (provenance ≡ some p) × IsChecked ws id content d job p

  checked :
      (ws id content : String) (provenance : Option RunProvenance) (d : Disk) (job : JobRecord)
      (p : RunProvenance) (snapshot : RunSnapshot) (result : EvaluationResult N)
      (jobs : List JobRecord)
      → get_job_record ws id d ≡ ok job
      → not (job.state == writing_artifact) || job.cancel_requested ≡ false
      → required provenance ≡ ok p
      → get_run_snapshot ws job.run_id d ≡ ok snapshot
      → decoded_result codec content ≡ ok result
      → not (config_beq result.run snapshot.config) ≡ false
      → not (p.run_id == snapshot.run_id)
          || not (repeats_snapshot p snapshot)
          || not (p.result_sha256 == codec.sha256 content)
        ≡ false
      → list_job_records ws d ≡ ok jobs
      → any (is_completed job.run_id) jobs ≡ false
      → run_config_path ws job.run_id d ≡ ok tt
      → exists (entry_at (ws, job.run_id) d.results)
          || exists (entry_at (ws, job.run_id) d.provenances)
        ≡ false
      → Passed ws id content provenance d (job, p)
  checked ws id content provenance d job p snapshot result jobs reads eligible given snapshot_read
        decoded own integrity listed first safe fresh =
      (
        ground (arith, given),
        record {
          reads = reads;
          state = ground (arith, eligible);
          uncancelled = ground (arith, eligible);
          snapshot = snapshot;
          snapshot_read = snapshot_read;
          result = result;
          decoded = ground (arith, decoded);
          own_config = ground (arith, own);
          own_run = ground (arith, integrity, ==_iff p.run_id snapshot.run_id);
          repeats = ground (arith, integrity);
          digest = ground (arith, integrity, ==_iff p.result_sha256 (codec.sha256 content));
          jobs = jobs;
          listed = listed;
          first = first;
          safe = safe;
          no_result = ground (arith, fresh);
          no_provenance = ground (arith, fresh);
        },
      )

  pub check_evidence-IsChecked :
      (ws id content : String) (provenance : Option RunProvenance) (d d' : Disk) (job : JobRecord)
      (p : RunProvenance)
      → check_evidence codec ws id content provenance d ≡ (ok (job, p), d')
      → (provenance ≡ some p) × (IsChecked ws id content d job p) × (d' ≡ d)
  unfolding check_evidence
  check_evidence-IsChecked ws id content provenance d d' job p h =
      let (job', reads, h1) = query-eq-ok _ _ d h in
      let (eligible, h2) = check-eq-ok _ _ _ d h1 in
      let (p', given, h3) = query-eq-ok _ _ d h2 in
      let (snapshot, snapshot_read, h4) = query-eq-ok _ _ d h3 in
      let (result, decoded, h5) = query-eq-ok _ _ d h4 in
      let (own, h6) = check-eq-ok _ _ _ d h5 in
      let (integrity, h7) = check-eq-ok _ _ _ d h6 in
      let (jobs, listed, h8) = query-eq-ok _ _ d h7 in
      let (first, h9) = check-eq-ok _ _ _ d h8 in
      let (u, safe, h10) = query-eq-ok _ _ d h9 in
      let (fresh, h11) = check-eq-ok _ _ _ d h10 in
      let (same, left) = return-eq-ok _ d h11 in
      let read =
        checked ws id content provenance d job' p' snapshot result jobs reads eligible given
          snapshot_read decoded own integrity listed first safe fresh in
      let all : Passed ws id content provenance d (job, p) =
        subst (Passed ws id content provenance d) same read in
      (all.0, all.1, left)

  -- What is on disk when `write_run_artifacts` returns.
  pub record IsCommitted (ws id content : String) (provenance : Option RunProvenance) (d d' : Disk)
      : Type 0 where
    pub job : JobRecord
    pub p : RunProvenance
    pub given : provenance ≡ some p
    pub checks : IsChecked ws id content d job p
    pub free_result : is_taken (entry_at (ws, job.run_id) d.results) ≡ false
    pub free_provenance : is_taken (entry_at (ws, job.run_id) d.provenances) ≡ false
    pub done : JobRecord
    pub read : get_job_record ws id d' ≡ ok done
    pub completed : done.state ≡ complete
    pub revision : done.revision ≡ job.revision + 1
    pub same_run : done.run_id ≡ job.run_id
    pub left :
        d'
        ≡ put_job done (record (with_evidence (ws, job.run_id) content p d) {
          written = d.written + 1 + 1 + 1;
        })
    pub result_kept : lookup (ws, job.run_id) d'.results ≡ some (file content)
    pub provenance_kept : lookup (ws, job.run_id) d'.provenances ≡ some (file p)

  -- A read returns one record.
  reads_same :
      (ws id : String) (d : Disk) (a b : JobRecord)
      → get_job_record ws id d ≡ ok a
      → get_job_record ws id d ≡ ok b
      → a ≡ b
  reads_same ws id d a b h g = cc (sym h ∙ g)

  promoted-IsCommitted :
      (ws id content : String) (provenance : Option RunProvenance) (now : ℕ) (d d' : Disk)
      (job : JobRecord) (p : RunProvenance)
      → provenance ≡ some p
      → IsChecked ws id content d job p
      → job.job_id ≡ id
      → job.workspace_id ≡ ws
      → IsPromoted job content p now d d'
      → IsCommitted ws id content provenance d d'
  promoted-IsCommitted ws id content provenance now d d' job p given c same_id same_ws m = record {
    job = job;
    p = p;
    given = given;
    checks = c;
    free_result = rw same_ws at m.free_result;
    free_provenance = rw same_ws at m.free_provenance;
    done = m.new;
    read = rw (same_ws, same_id) at m.read;
    completed = (completion-eq-ok job now m.old m.new m.next).0;
    revision = (completion-eq-ok job now m.old m.new m.next).1;
    same_run =
        (next_record-IsAdvance (completion job) now m.old m.new m.next).same_run
        ∙ ap (λ (x : JobRecord). x.run_id)
            (reads_same ws id d m.old job (rw (same_ws, same_id) at m.was) c.reads);
    left = rw same_ws at m.left;
    result_kept = rw same_ws at (
        ap (λ (x : Disk). lookup (job.workspace_id, job.run_id) x.results) m.left
        ∙ lookup-insert_self {K = Key} (job.workspace_id, job.run_id) (file content) d.results);
    provenance_kept = rw same_ws at (
        ap (λ (x : Disk). lookup (job.workspace_id, job.run_id) x.provenances) m.left
        ∙ lookup-insert_self {K = Key} (job.workspace_id, job.run_id) (file p) d.provenances);
  }

  returned-IsPromoted :
      (job : JobRecord) (content : String) (p : RunProvenance) (now : ℕ) (d d' : Disk)
      (o : Result StoreError (Unit {0}) × Disk)
      → promote job content p now d ≡ o
      → or_roll_back job o ≡ (ok tt, d')
      → IsPromoted job content p now d d'
  returned-IsPromoted job content p now d d' (ok tt, d1) e h =
      promote-IsPromoted job content p now d d' (e ∙ h)
  returned-IsPromoted job content p now d d' (raise x, d1) e h =
      absurd (roll_back-raises job x d1 d' h)

  -- If `write_run_artifacts` returns, then the job was in WRITING_ARTIFACT without cancellation,
  -- what was given passed all the checks, no job of the run was COMPLETE and no evidence existed,
  -- and afterwards the job is COMPLETE at the next revision with the result and the provenance
  -- that were given at the paths of its run.
  pub write_run_artifacts-IsCommitted :
      (ws id content : String) (provenance : Option RunProvenance) (now : ℕ) (d d' : Disk)
      → write_run_artifacts codec ws id content provenance now d ≡ (ok tt, d')
      → IsCommitted ws id content provenance d d'
  unfolding write_run_artifacts
  write_run_artifacts-IsCommitted ws id content provenance now d d' h =
      let ((job, p), d1, h1, h2) = >>=-eq-ok _ _ d h in
      let (given, c, same) = check_evidence-IsChecked ws id content provenance d d1 job p h1 in
      let (same_id, same_ws) = get_job_record_ids ws id d job c.reads in
      let start =
        subst (λ (x : Disk). or_roll_back job (promote job content p now x) ≡ (ok tt, d')) same
          h2 in
      let m = returned-IsPromoted job content p now d d' _ refl start in
      promoted-IsCommitted ws id content provenance now d d' job p given c same_id same_ws m
