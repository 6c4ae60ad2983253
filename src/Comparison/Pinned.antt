-- ===== src/Comparison/Pinned.antt =====
-- What `set_baseline` of src/evalops/workspace/application/comparisons.py has done when it returns.
use evalops_lab.Common.{
  ℕ, ◌+◌, String, ◌≡◌, refl, ap, ◌∙◌, some, ok, lookup-insert_self, Float, insert, string_eq,
}
use evalops_lab.Datasets.{Reader}
use evalops_lab.Models.Runs.{RunProvenance}
use evalops_lab.Models.Workspaces.{WorkspaceState}
use evalops_lab.Comparison.Evidence.{EvaluationResult}
use evalops_lab.Storage.Codec.{Codec}
use evalops_lab.Storage.Disk.{file, read_model, Disk}
use evalops_lab.Storage.Workspaces.{get_workspace}
use evalops_lab.Storage.Registry.{get_workspace_state, save_workspace_state}
use evalops_lab.Storage.Actions.{
  read_first-eq-ok, query-eq-ok, >>=-eq-ok, return-eq-ok, atomic_write-eq-ok,
}
use evalops_lab.Storage.Evidence.{get_run_artifacts}
use evalops_lab.Comparison.Service.{Digestible, get_baseline, set_baseline}
use evalops_lab.Comparison.Drafted.{get_run_artifacts-Reads}

-- The disk with the state of a workspace, after one more write.
abbrev pub with_state : String → WorkspaceState → Disk → Disk
with_state ws s d = record d { states = insert ws (file s) d.states; written = d.written + 1 }

get_workspace-with_state :
    (j ws : String) (s : WorkspaceState) (d : Disk)
    → get_workspace j (with_state ws s d) ≡ get_workspace j d
unfolding get_workspace
get_workspace-with_state j ws s d = refl

-- A saved state is what is read of the workspace afterwards.
get_workspace_state-saved :
    (ws : String) (s : WorkspaceState) (d d' : Disk)
    → save_workspace_state ws s d ≡ (ok tt, d')
    → (d' ≡ with_state ws s d) × (get_workspace_state ws d' ≡ ok s)
unfolding save_workspace_state read_model get_workspace_state
get_workspace_state-saved ws s d d' h =
    let (w, found, h1) = query-eq-ok (get_workspace ws) _ d h in
    let (_, _, h2) = query-eq-ok _ _ d h1 in
    let left = atomic_write-eq-ok _ d h2 in
    let here = get_workspace-with_state ws ws s d ∙ found in
    let read = lookup-insert_self ws (file s) d.states in
    (left, ap (get_workspace_state ws) left ∙ rw (here, get_workspace_state) (rw read refl))

get_baseline-read :
    (ws : String) (s : WorkspaceState) (d : Disk)
    → get_workspace_state ws d ≡ ok s
    → get_baseline ws d ≡ ok s.baseline
unfolding get_baseline
get_baseline-read ws s d h = rw (h, get_baseline) refl

module _ (fl : Float) (show : ℕ → String) (reader : Reader) (codec : Codec fl.Number)
    (digest : Digestible → String) where
  -- A baseline that was pinned.
  pub record IsPinned (ws run : String) (now : ℕ) (s : WorkspaceState) (d d' : Disk) : Type 0 where
    pub result : EvaluationResult fl.Number
    pub provenance : RunProvenance
    pub verified : get_run_artifacts codec ws run d ≡ (ok (result, provenance), d)
    pub pinned :
        get_baseline ws d'
        ≡ ok (
            some
              (record { run_id = run; result_sha256 = provenance.result_sha256; pinned_at = now }))
    pub read : get_workspace_state ws d' ≡ ok s
    pub left : d' ≡ with_state ws s d

  -- If `set_baseline` returns a state, then the store verified the evidence of the run,
  -- `get_baseline` returns the pointer to the run with the digest of that evidence and the time,
  -- from the disk that is left, the store reads the returned state, and nothing else has changed
  -- on the disk but the count of writes.
  pub set_baseline-IsPinned :
      (ws run : String) (now : ℕ) (s : WorkspaceState) (d d' : Disk)
      → set_baseline fl show reader codec digest ws run now d ≡ (ok s, d')
      → IsPinned ws run now s d d'
  unfolding set_baseline
  set_baseline-IsPinned ws run now s d d' h =
      let (evidence, verified, h1) =
        read_first-eq-ok _ _ d (get_run_artifacts-Reads codec ws run) h in
      let (current, _, h2) = query-eq-ok (get_workspace_state ws) _ d h1 in
      let updated : WorkspaceState = record current {
        baseline =
            some
              (record { run_id = run; result_sha256 = evidence.1.result_sha256; pinned_at = now });
      } in
      let (_, d1, saves, h3) = >>=-eq-ok _ _ d h2 in
      let (same, over) = return-eq-ok updated d1 h3 in
      let (left, read) = get_workspace_state-saved ws updated d d1 saves in
      record {
        result = evidence.0;
        provenance = evidence.1;
        verified = verified;
        pinned = ap (get_baseline ws) over ∙ get_baseline-read ws updated d1 read;
        read = ap (get_workspace_state ws) over ∙ read ∙ ap ok same;
        left = over ∙ left ∙ ap (λ (x : WorkspaceState). with_state ws x d) same;
      }
