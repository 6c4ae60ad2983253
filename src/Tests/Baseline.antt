-- ===== src/Tests/Baseline.antt =====
-- The theorem of Comparison/Pinned on a workspace with two completed runs.
use evalops_lab.Common.{◌≡◌, refl, some, ok, fractions}
use evalops_lab.Models.Runs.{config_beq}
use evalops_lab.Models.Workspaces.{WorkspaceState}
use evalops_lab.Comparison.Service.{set_baseline}
use evalops_lab.Comparison.Pinned.{IsPinned, set_baseline-IsPinned}
use evalops_lab.Storage.Disk.{Disk, read_model, atomic_write}
use evalops_lab.Storage.Actions.{◌>>=◌, query, check, return}
use evalops_lab.Storage.Registry.{get_workspace_state, save_workspace_state}
use evalops_lab.Storage.Workspaces.{get_workspace, load_registry, load_workspace, workspace_path}
use evalops_lab.Storage.Identifiers.{is_workspace_id, is_run_id, is_job_id}
use evalops_lab.Storage.Evidence.{get_run_artifacts, repeats_snapshot}
use evalops_lab.Storage.Runs.{get_run_snapshot, run_config_path}
use evalops_lab.Storage.Jobs.{
  list_job_records, get_job_record, job_path, jobs_directory, list_entry,
}
use evalops_lab.Tests.ComparisonService.{other_run, codec, reader, digest, two_runs}
use evalops_lab.Tests.Samples.{ws_id}

abbrev repinned : WorkspaceState
repinned = record {
  baseline = some (record { run_id = other_run; result_sha256 = "new"; pinned_at = 40 });
}

abbrev after : Disk
after = (set_baseline fractions (λ _. "5") reader codec digest ws_id other_run 40 two_runs).1

pins :
    set_baseline fractions (λ _. "5") reader codec digest ws_id other_run 40 two_runs
    ≡ (ok repinned, after)
unfolding set_baseline ◌>>=◌ query check return get_workspace_state save_workspace_state
    get_workspace read_model is_workspace_id get_run_artifacts get_run_snapshot is_run_id
    list_job_records get_job_record is_job_id config_beq repeats_snapshot job_path jobs_directory
    list_entry run_config_path load_registry load_workspace workspace_path atomic_write
pins = refl

set_baseline-IsPinned_example :
    IsPinned fractions (λ _. "5") reader codec digest ws_id other_run 40 repinned two_runs after
set_baseline-IsPinned_example =
    set_baseline-IsPinned fractions (λ _. "5") reader codec digest ws_id other_run 40 repinned
      two_runs after pins
