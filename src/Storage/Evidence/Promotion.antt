-- ===== src/Storage/Evidence/Promotion.antt =====
-- What the `try` of `write_run_artifacts` in src/evalops/workspace/storage.py has done when it
-- returns, and its `except`.
use evalops_lab.Common.{
  ℕ, ◌+◌, String, ◌≡◌, refl, sym, subst, ◌≢◌, ap, ◌∙◌, Bool, true, false, Result, ok, arith,
  if◌then◌else◌, ◌==◌,
}
use evalops_lab.Jobs.States.{complete, state_eq}
use evalops_lab.Jobs.Record.{JobRecord}
use evalops_lab.Models.Runs.{RunProvenance}
use evalops_lab.Storage.Disk.{StoreError, Key, key_eq, Disk, entry_at, is_taken}
use evalops_lab.Storage.Actions.{
  ◌>>◌, fail, >>=-eq-ok, query-eq-ok, return-eq-ok, atomic_create-eq-ok,
}
use evalops_lab.Storage.Runs.{get_run_snapshot}
use evalops_lab.Storage.Workspaces.{get_workspace}
use evalops_lab.Storage.Jobs.{
  get_job_record, next_record, put_job, updated_record, update_job_record,
}
use evalops_lab.Storage.Updates.{update-eq-ok, update_is_durable}
use evalops_lab.Storage.Evidence.{
  promote, completion, put_result, put_provenance, roll_back, unlink_evidence,
}

-- The two files of a run's evidence, written one after the other.
abbrev pub with_evidence : Key → String → RunProvenance → Disk → Disk
with_evidence k content p d =
    put_provenance k p (record (put_result k content (record d { written = d.written + 1 })) {
      written = d.written + 1 + 1;
    })

-- The records of the jobs do not depend on the evidence.
pub get_job_record-with_evidence :
    (ws id : String) (k : Key) (content : String) (p : RunProvenance) (d : Disk)
    → get_job_record ws id (with_evidence k content p d) ≡ get_job_record ws id d
unfolding get_job_record get_run_snapshot get_workspace
get_job_record-with_evidence ws id k content p d = refl

-- What is on disk when the promotion returns.
pub record IsPromoted (job : JobRecord) (content : String) (p : RunProvenance) (now : ℕ)
    (d d' : Disk) : Type 0 where
  pub free_result : is_taken (entry_at {K = Key} (job.workspace_id, job.run_id) d.results) ≡ false
  pub free_provenance :
      is_taken (entry_at {K = Key} (job.workspace_id, job.run_id) d.provenances) ≡ false
  pub old : JobRecord
  pub was : get_job_record job.workspace_id job.job_id d ≡ ok old
  pub new : JobRecord
  pub next : next_record (completion job) now old ≡ ok new
  pub read : get_job_record job.workspace_id job.job_id d' ≡ ok new
  pub left :
      d'
      ≡ put_job new (record (with_evidence (job.workspace_id, job.run_id) content p d) {
        written = d.written + 1 + 1 + 1;
      })

abbrev with_result : Key → String → Disk → Disk
with_result k content d = put_result k content (record d { written = d.written + 1 })

abbrev and_provenance : Key → RunProvenance → Disk → Disk
and_provenance k p d = put_provenance k p (record d { written = d.written + 1 })

updated-IsPromoted :
    (job : JobRecord) (content : String) (p : RunProvenance) (now : ℕ) (d d1 d2 d3 d' : Disk)
    (new : JobRecord)
    → is_taken (entry_at {K = Key} (job.workspace_id, job.run_id) d.results) ≡ false
    → is_taken (entry_at {K = Key} (job.workspace_id, job.run_id) d1.provenances) ≡ false
    → d1 ≡ with_result (job.workspace_id, job.run_id) content d
    → d2 ≡ and_provenance (job.workspace_id, job.run_id) p d1
    → update_job_record job.workspace_id job.job_id (completion job) now d2 ≡ (ok new, d3)
    → d' ≡ d3
    → IsPromoted job content p now d d'
updated-IsPromoted job content p now d d1 d2 d3 d' new free free' e1 e2 h e3 =
    let k : Key = (job.workspace_id, job.run_id) in
    let ws = job.workspace_id in
    let written : d2 ≡ with_evidence k content p d = e2 ∙ ap (and_provenance k p) e1 in
    let done =
      subst (λ (x : Disk). update_job_record ws job.job_id (completion job) now x ≡ (ok new, d3))
        written h in
    let (old, got, next, _) =
      update-eq-ok ws job.job_id (completion job) now (with_evidence k content p d) d3 new done in
    let (read, left) =
      update_is_durable ws job.job_id (completion job) now (with_evidence k content p d) d3 new
        done in
    record {
      free_result = free;
      free_provenance =
          subst (λ (x : Disk). is_taken (entry_at {K = Key} k x.provenances) ≡ false) e1 free';
      old = old;
      was = sym (get_job_record-with_evidence ws job.job_id k content p d) ∙ got;
      new = new;
      next = next;
      read = ap (get_job_record ws job.job_id) e3 ∙ read;
      left = e3 ∙ left;
    }

-- What a completion does to the record.
pub completion-eq-ok :
    (job : JobRecord) (now : ℕ) (old new : JobRecord)
    → next_record (completion job) now old ≡ ok new
    → (new.state ≡ complete) × (new.revision ≡ job.revision + 1)
unfolding next_record updated_record
completion-eq-ok job now old new h = ground arith

pub promote-IsPromoted :
    (job : JobRecord) (content : String) (p : RunProvenance) (now : ℕ) (d d' : Disk)
    → promote job content p now d ≡ (ok tt, d')
    → IsPromoted job content p now d d'
unfolding promote
promote-IsPromoted job content p now d d' h =
    let k : Key = (job.workspace_id, job.run_id) in
    let (u, d1, h1, g1) = >>=-eq-ok _ _ d h in
    let (free, e1) = atomic_create-eq-ok _ _ d h1 in
    let (v, d2, h2, g2) = >>=-eq-ok _ _ d1 g1 in
    let (free', e2) = atomic_create-eq-ok _ _ d1 h2 in
    let (r, d3, h3, g3) = >>=-eq-ok _ _ d2 g2 in
    let (_, e3) = return-eq-ok _ d3 g3 in
    updated-IsPromoted job content p now d d1 d2 d3 d' r free free' e1 e2 h3 e3

fail-raises : {A : Type 0} (e : StoreError) (d : Disk) {a : A} {d' : Disk} → fail e d ≢ (ok a, d')
unfolding fail
fail-raises {A} e d h = cc (ap (λ (x : Result StoreError A × Disk). x.0) h)

-- The `except` never returns.
pub roll_back-raises :
    (job : JobRecord) (e : StoreError) (d d' : Disk) → roll_back job e d ≢ (ok tt, d')
unfolding roll_back
roll_back-raises job e d d' h =
    let (current, _, g) = query-eq-ok _ _ d h in fails (current.state == complete) g
  where
    fails :
        (b : Bool)
        → (if b then fail e else (unlink_evidence (job.workspace_id, job.run_id) >> fail e)) d
          ≢ (ok tt, d')
    fails true g = fail-raises e d g
    fails false g = let (_, d1, _, g1) = >>=-eq-ok _ _ d g in fail-raises e d1 g1
