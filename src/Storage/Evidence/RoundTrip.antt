-- ===== src/Storage/Evidence/RoundTrip.antt =====
-- `get_run_artifacts` of src/evalops/workspace/storage.py after `write_run_artifacts`.
use evalops_lab.Common.{
  ℕ, ◌+◌, String, ◌≡◌, refl, sym, ap, ◌∙◌, subst, true, Option, some, List, ok, keys, unique, keep,
  ==_refl, ==_iff, arith, string_eq, option_eq,
}
use evalops_lab.Jobs.States.{state_eq}
use evalops_lab.Jobs.Record.{JobRecord}
use evalops_lab.Models.Runs.{RunSnapshot, RunProvenance, config_beq}
use evalops_lab.Comparison.Evidence.{EvaluationResult}
use evalops_lab.Storage.Codec.{Codec}
use evalops_lab.Storage.Disk.{Key, key_eq, Disk, file, entry_at}
use evalops_lab.Storage.Actions.{return, query-ok, check-ok}
use evalops_lab.Storage.Runs.{run_config_path, get_run_snapshot}
use evalops_lab.Storage.Workspaces.{get_workspace}
use evalops_lab.Storage.Jobs.{
  jobs_directory, list_entry, get_job_record, list_job_records, only, put_job,
}
use evalops_lab.Storage.Listing.{list-replaced, only-count}
use evalops_lab.Storage.Updates.{get_job_record_ids, get_job_record_filed}
use evalops_lab.Storage.Evidence.{
  is_completed, repeats_snapshot, get_run_artifacts, write_run_artifacts, bytes_of, completed_job,
  validated, provenance_of,
}
use evalops_lab.Storage.Evidence.Promotion.{with_evidence}
use evalops_lab.Storage.Evidence.Commit.{IsCommitted, write_run_artifacts-IsCommitted}

-- A snapshot that is read is the one of the run.
get_run_snapshot_id :
    (ws run : String) (d : Disk) (s : RunSnapshot)
    → get_run_snapshot ws run d ≡ ok s
    → s.run_id ≡ run
unfolding get_run_snapshot
get_run_snapshot_id ws run d s h = ground (arith, ==_iff s.run_id run)

-- The evidence does not change what is read of the jobs and the snapshots.
list_job_records-evidence :
    (ws run content : String) (p : RunProvenance) (d : Disk)
    → list_job_records ws
        (record (with_evidence (ws, run) content p d) { written = d.written + 1 + 1 + 1 })
      ≡ list_job_records ws d
unfolding list_job_records list_entry jobs_directory get_job_record get_run_snapshot get_workspace
list_job_records-evidence ws run content p d = refl

get_run_snapshot-evidence :
    (ws run content : String) (p : RunProvenance) (job : JobRecord) (d : Disk)
    → get_run_snapshot ws run (
        put_job job
          (record (with_evidence (ws, run) content p d) { written = d.written + 1 + 1 + 1 }))
      ≡ get_run_snapshot ws run d
unfolding get_run_snapshot get_workspace
get_run_snapshot-evidence ws run content p job d = refl

run_config_path-evidence :
    (ws run content : String) (p : RunProvenance) (job : JobRecord) (d : Disk)
    → run_config_path ws run (
        put_job job
          (record (with_evidence (ws, run) content p d) { written = d.written + 1 + 1 + 1 }))
      ≡ run_config_path ws run d
unfolding run_config_path
run_config_path-evidence ws run content p job d = refl

module _ {N : Type 0} (codec : Codec N) where
  -- What a read of the evidence needs.
  get_run_artifacts-ok :
      (ws run content : String) (d : Disk) (s : RunSnapshot) (jobs : List JobRecord)
      (job : JobRecord) (p : RunProvenance) (r : EvaluationResult N)
      → get_run_snapshot ws run d ≡ ok s
      → list_job_records ws d ≡ ok jobs
      → only (keep (is_completed run) jobs) ≡ some job
      → run_config_path ws run d ≡ ok tt
      → entry_at {K = Key} (ws, run) d.results ≡ file content
      → entry_at {K = Key} (ws, run) d.provenances ≡ file p
      → p.result_sha256 ≡ codec.sha256 content
      → codec.decode content ≡ some r
      → config_beq r.run s.config ≡ true
      → p.run_id ≡ run
      → repeats_snapshot p s ≡ true
      → get_run_artifacts codec ws run d ≡ (ok (r, p), d)
  unfolding get_run_artifacts return
  get_run_artifacts-ok ws run content d s jobs job p r hs hj ho hp hr hv hd hdec hc hid hrep =
      let found : completed_job (keep (is_completed run) jobs) ≡ ok job = ground (arith, ho) in
      let decoded : validated (codec.decode content) ≡ ok r = ap validated hdec in
      query-ok _ _ d hs
      ∙ query-ok _ _ d hj
      ∙ query-ok _ _ d found
      ∙ query-ok _ _ d hp
      ∙ check-ok _ _ _ d (ground (arith, hr, hv))
      ∙ check-ok _ _ _ d (ground (arith, hr, hv))
      ∙ query-ok _ _ d (ap bytes_of hr)
      ∙ query-ok _ _ d (ap provenance_of hv)
      ∙ check-ok _ _ _ d (ground (arith, hd, ==_refl (codec.sha256 content)))
      ∙ query-ok _ _ d decoded
      ∙ check-ok _ _ _ d (ground (arith, hc, hid, hrep, ==_refl run))
      ∙ refl

  -- After the promotion the read succeeds.
  committed-read :
      (ws id content : String) (provenance : Option RunProvenance) (d d' : Disk)
      (m : IsCommitted codec ws id content provenance d d')
      → unique (keys d.jobs) ≡ true
      → get_run_artifacts codec ws m.job.run_id d' ≡ (ok (m.checks.result, m.p), d')
  committed-read ws id content provenance d d' m u =
      let c = m.checks in
      let run = m.job.run_id in
      let e : Disk = record (with_evidence (ws, run) content m.p d) {
        written = d.written + 1 + 1 + 1;
      } in
      let (same_id, same_ws) = get_job_record_ids ws id d' m.done m.read in
      let read = subst (λ (x : Disk). get_job_record ws id x ≡ ok m.done) m.left m.read in
      let completed : is_completed run m.done ≡ true =
        ground (arith, m.same_run, m.completed, ==_iff m.done.run_id run) in
      let (jobs, listed, counted) =
        list-replaced ws id (is_completed run) e m.done c.jobs same_ws same_id u
          (get_job_record_filed ws id d m.job c.reads) read completed
          (list_job_records-evidence ws run content m.p d ∙ c.listed) c.first in
      let (job, only_job) = only-count (is_completed run) jobs counted in
      let snapshot_id = get_run_snapshot_id ws run d c.snapshot c.snapshot_read in
      let listed' : list_job_records ws d' ≡ ok jobs = ap (list_job_records ws) m.left ∙ listed in
      let snap : get_run_snapshot ws run d' ≡ ok c.snapshot =
        ap (get_run_snapshot ws run) m.left
        ∙ get_run_snapshot-evidence ws run content m.p m.done d
        ∙ c.snapshot_read in
      let safe : run_config_path ws run d' ≡ ok tt =
        ap (run_config_path ws run) m.left
        ∙ run_config_path-evidence ws run content m.p m.done d
        ∙ c.safe in
      get_run_artifacts-ok ws run content d' c.snapshot jobs job m.p c.result snap listed' only_job
        safe (ground (arith, m.result_kept)) (ground (arith, m.provenance_kept)) c.digest c.decoded
        c.own_config (c.own_run ∙ snapshot_id) c.repeats

  -- If the validation reads back the dumped result, no two jobs have one path, and
  -- `write_run_artifacts` returns for a job, then `get_run_artifacts` returns for its run, from
  -- the disk that is left, the result and the provenance that were written.
  pub run_evidence_round_trip :
      (ws id : String) (r : EvaluationResult N) (p : RunProvenance) (now : ℕ) (d d' : Disk)
      → codec.decode (codec.encode r) ≡ some r
      → unique (keys d.jobs) ≡ true
      → write_run_artifacts codec ws id (codec.encode r) (some p) now d ≡ (ok tt, d')
      → (job : JobRecord) × (get_job_record ws id d ≡ ok job)
        × (get_run_artifacts codec ws job.run_id d' ≡ (ok (r, p), d'))
  run_evidence_round_trip ws id r p now d d' reads_back u h =
      let m = write_run_artifacts-IsCommitted codec ws id (codec.encode r) (some p) now d d' h in
      let same_r : m.checks.result ≡ r = cc (sym m.checks.decoded ∙ reads_back) in
      let same_p : m.p ≡ p = cc m.given in
      let read = committed-read ws id (codec.encode r) (some p) d d' m u in
      (m.job, m.checks.reads, rw (same_r, same_p) at read)
