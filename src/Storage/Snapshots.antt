-- ===== src/Storage/Snapshots.antt =====
-- What `save_run_snapshot` of src/evalops/workspace/storage.py has done when it returns.
use evalops_lab.Common.{
  ℕ, ◌+◌, String, ◌≡◌, refl, sym, ap, ◌∙◌, subst, false, not, ◌||◌, ok, lookup-insert_self, ==_iff,
  ==_refl, string_eq, ◌==◌, arith,
}
use evalops_lab.Models.Inputs.{
  InputKind, kind_eq, kind_beq_iff, InputManifest, retrieval_ground_truth, retrieval_predictions,
}
use evalops_lab.Models.Runs.{RunSnapshot}
use evalops_lab.Models.Workspaces.{WorkspaceRecord}
use evalops_lab.Storage.Disk.{Key, key_eq, Disk, file, read_model}
use evalops_lab.Storage.Workspaces.{get_workspace}
use evalops_lab.Storage.Runs.{run_config_path, get_run_snapshot}
use evalops_lab.Storage.Inputs.{get_input}
use evalops_lab.Storage.Actions.{
  >>=-eq-ok, query-eq-ok, check-eq-ok, check_done, atomic_create-eq-ok,
}
use evalops_lab.Storage.Registration.{check_input, put_snapshot, save_run_snapshot}

-- An input is registered with a kind and a digest.
pub record IsRegistered (ws input sha : String) (kind : InputKind) (d : Disk) : Type 0 where
  pub manifest : InputManifest
  pub read : get_input ws input d ≡ ok manifest
  pub of_kind : manifest.kind ≡ kind
  pub digest : manifest.content_sha256 ≡ sha

check_input-IsRegistered :
    (ws input sha : String) (kind : InputKind) (d d' : Disk)
    → check_input ws input sha kind d ≡ (ok tt, d')
    → (IsRegistered ws input sha kind d) × (d' ≡ d)
unfolding check_input
check_input-IsRegistered ws input sha kind d d' h =
    let (m, read, h1) = query-eq-ok (get_input ws input) _ d h in
    let (matches, left) = check_done _ _ d h1 in (registered m read matches, left)
  where
    registered :
        (m : InputManifest)
        → get_input ws input d ≡ ok m
        → not (m.kind == kind) || not (m.content_sha256 == sha) ≡ false
        → IsRegistered ws input sha kind d
    registered m read matches = record {
      manifest = m;
      read = read;
      of_kind = ground (arith, matches, kind_beq_iff m.kind kind);
      digest = ground (arith, matches, ==_iff m.content_sha256 sha);
    }

-- What the disk holds after the snapshot is saved.
pub record IsSaved (ws : String) (s : RunSnapshot) (d d' : Disk) : Type 0 where
  pub workspace : s.workspace_id ≡ ws
  pub own_config : s.config.run_id ≡ s.run_id
  pub truth :
      IsRegistered ws s.ground_truth_input_id s.ground_truth_content_sha256 retrieval_ground_truth d
  pub predictions :
      IsRegistered ws s.predictions_input_id s.predictions_content_sha256 retrieval_predictions d
  pub left : d' ≡ put_snapshot ws s (record d { written = d.written + 1 })
  pub read : get_run_snapshot ws s.run_id d' ≡ ok s

get_workspace-put_snapshot :
    (ws : String) (s : RunSnapshot) (n : ℕ) (d : Disk)
    → get_workspace ws (put_snapshot ws s (record d { written = n })) ≡ get_workspace ws d
unfolding get_workspace
get_workspace-put_snapshot ws s n d = refl

run_config_path-put_snapshot :
    (ws : String) (s : RunSnapshot) (n : ℕ) (d : Disk)
    → run_config_path ws s.run_id (put_snapshot ws s (record d { written = n }))
      ≡ run_config_path ws s.run_id d
unfolding run_config_path
run_config_path-put_snapshot ws s n d = refl

get_run_snapshot-put_snapshot :
    (ws : String) (s : RunSnapshot) (n : ℕ) (d : Disk) (w : WorkspaceRecord)
    → get_workspace ws d ≡ ok w
    → run_config_path ws s.run_id d ≡ ok tt
    → s.workspace_id ≡ ws
    → s.config.run_id ≡ s.run_id
    → get_run_snapshot ws s.run_id (put_snapshot ws s (record d { written = n })) ≡ ok s
unfolding get_run_snapshot read_model
get_run_snapshot-put_snapshot ws s n d w hw hp own config = ground (
  arith,
  get_workspace-put_snapshot ws s n d,
  run_config_path-put_snapshot ws s n d,
  lookup-insert_self {K = Key} (ws, s.run_id) (file s) d.run_configs,
  hw,
  hp,
  ==_refl ws,
  ==_refl s.run_id,
)

steps-IsSaved :
    (ws : String) (s : RunSnapshot) (d d1 d2 d' : Disk) (w : WorkspaceRecord)
    → get_workspace ws d ≡ ok w
    → not (s.workspace_id == ws) || not (s.config.run_id == s.run_id) ≡ false
    → IsRegistered ws s.ground_truth_input_id s.ground_truth_content_sha256 retrieval_ground_truth d
    → d1 ≡ d
    → IsRegistered ws s.predictions_input_id s.predictions_content_sha256 retrieval_predictions d1
    → d2 ≡ d1
    → run_config_path ws s.run_id d2 ≡ ok tt
    → d' ≡ put_snapshot ws s (record d2 { written = d2.written + 1 })
    → IsSaved ws s d d'
steps-IsSaved ws s d d1 d2 d' w hw own truth e1 predictions e2 path left =
    let same : d2 ≡ d = e2 ∙ e1 in
    let workspace : s.workspace_id ≡ ws = ground (arith, own, ==_iff s.workspace_id ws) in
    let config : s.config.run_id ≡ s.run_id =
      ground (arith, own, ==_iff s.config.run_id s.run_id) in
    let left' =
      left ∙ ap (λ (x : Disk). put_snapshot ws s (record x { written = x.written + 1 })) same in
    record {
      workspace = workspace;
      own_config = config;
      truth = truth;
      predictions =
          subst
            (IsRegistered ws s.predictions_input_id s.predictions_content_sha256
              retrieval_predictions)
            e1 predictions;
      left = left';
      read =
          ap (get_run_snapshot ws s.run_id) left'
          ∙ get_run_snapshot-put_snapshot ws s (d.written + 1) d w hw
              (sym (ap (run_config_path ws s.run_id) same) ∙ path) workspace config;
    }

pub save_run_snapshot-IsSaved :
    (ws : String) (s : RunSnapshot) (d d' : Disk)
    → save_run_snapshot ws s d ≡ (ok tt, d')
    → IsSaved ws s d d'
unfolding save_run_snapshot
save_run_snapshot-IsSaved ws s d d' h =
    let (w, hw, h1) = query-eq-ok (get_workspace ws) _ d h in
    let (own, h2) = check-eq-ok _ _ _ d h1 in
    let (u, d1, c1, h3) =
      >>=-eq-ok
        (check_input ws s.ground_truth_input_id s.ground_truth_content_sha256
          retrieval_ground_truth)
        _ d h2 in
    let (truth, e1) =
      check_input-IsRegistered ws s.ground_truth_input_id s.ground_truth_content_sha256
        retrieval_ground_truth d d1 c1 in
    let (v, d2, c2, h4) =
      >>=-eq-ok
        (check_input ws s.predictions_input_id s.predictions_content_sha256 retrieval_predictions) _
        d1 h3 in
    let (predictions, e2) =
      check_input-IsRegistered ws s.predictions_input_id s.predictions_content_sha256
        retrieval_predictions d1 d2 c2 in
    let (x, path, h5) = query-eq-ok (run_config_path ws s.run_id) _ d2 h4 in
    let (_, h6) = check-eq-ok _ _ _ d2 h5 in
    let (_, left) = atomic_create-eq-ok _ _ d2 h6 in
    steps-IsSaved ws s d d1 d2 d' w hw own truth e1 predictions e2 path left
