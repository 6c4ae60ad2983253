-- ===== src/Tests/ComparisonArchive.antt =====
-- The theorems of Comparison/Archive and Comparison/Created on the comparison of two completed runs.
use evalops_lab.Common.{
  ℕ, String, ◌≡◌, refl, some, [], ◌∷◌, ok, raise, fractions, nat_eq, string_eq, nat_beq, arith,
  ==_iff,
}
use evalops_lab.Tests.ComparisonService.{
  other_run, comparison_id, codec, reader, digest, two_runs, unchanged, compared,
}
use evalops_lab.Comparison.Archive.{
  ArchiveCodec, ComparisonFailureArtifact, comparison_path, comparisons_directory,
  comparison_config, get_comparison_record, get_comparison_failures,
}
use evalops_lab.Comparison.Archive.Saving.{
  save_comparison_record, create_files, create_file, new_files, undo, unlink_created,
  remove_directory,
}
use evalops_lab.Comparison.Archive.RoundTrip.{comparison_round_trip}
use evalops_lab.Comparison.Archive.Rollback.{IsRestored, save_comparison_record_rolls_back}
use evalops_lab.Comparison.Creation.{create_comparison}
use evalops_lab.Comparison.Created.{IsCreated, create_comparison-IsCreated}
use evalops_lab.Storage.Identifiers.{is_comparison_id, is_sha256}
use evalops_lab.Storage.Disk.{os_error, atomic_write}
use evalops_lab.Storage.Actions.{atomic_create}
use evalops_lab.Storage.Evidence.Refused.{RefusesOnce}
use evalops_lab.Datasets.{
  load_lines, load_retrieval_ground_truth, load_retrieval_predictions, load_unique_query_records,
}
use evalops_lab.Models.Runs.{config_beq}
use evalops_lab.Comparison.Failures.{
  build_failure_transitions, checked_entries, outcome, per_query, transition_of,
}
use evalops_lab.Comparison.Compatibility.{
  all_checks, assess_local_retrieval_compatibility, config_checks, coverage_checks, identity_check,
  population_checks, safe_difference,
}
use evalops_lab.Regression.{beyond_limit, compare_metrics, compare_one, compare_values, regressed}
use evalops_lab.Comparison.Service.{
  canonical, draft_comparison, get_baseline, build_workspace_retrieval_rules,
  canonical_population_evidence, failure_rows, load_population_input, load_verified_population,
  report_comparison,
}
use evalops_lab.Storage.Disk.{Disk, read_model}
use evalops_lab.Storage.Actions.{◌>>=◌, call_as, query, check, return}
use evalops_lab.Storage.Registry.{get_workspace_state}
use evalops_lab.Storage.Workspaces.{get_workspace, load_registry, load_workspace, workspace_path}
use evalops_lab.Storage.Identifiers.{is_workspace_id, is_run_id, is_job_id, is_input_id}
use evalops_lab.Storage.Evidence.{get_run_artifacts, repeats_snapshot}
use evalops_lab.Storage.Runs.{get_run_snapshot, run_config_path}
use evalops_lab.Storage.Jobs.{
  list_job_records, get_job_record, job_path, jobs_directory, list_entry,
}
use evalops_lab.Runs.Pairing.{load_records}
use evalops_lab.Storage.Inputs.{
  get_input, imported_path, input_manifest_path, read_imported, read_input_bytes, read_referenced,
  section_path,
}
use evalops_lab.Tests.Samples.{ws_id}

abbrev a_digest : String
a_digest = "0123456789abcdef0123456789abcdef0123456789abcdef0123456789abcdef"

abbrev artifact : ComparisonFailureArtifact (ℕ × ℕ)
artifact = record { comparison_id = comparison_id; transitions = unchanged ∷ [] }

abbrev archive : ArchiveCodec (ℕ × ℕ)
archive = record {
  encode_record = λ r. r.comparison_id;
  decode_record = λ s. some compared;
  encode_failures = λ a. a.comparison_id;
  decode_failures = λ s. some artifact;
  sha256 = λ s. a_digest;
}

abbrev saved_on : Disk
saved_on = (save_comparison_record archive ws_id compared (some artifact) two_runs).1

saves : save_comparison_record archive ws_id compared (some artifact) two_runs ≡ (ok tt, saved_on)
unfolding save_comparison_record ◌>>=◌ check query return comparison_path comparisons_directory
    get_workspace load_registry load_workspace workspace_path read_model is_workspace_id
    is_comparison_id create_files create_file new_files comparison_config atomic_create atomic_write
saves = refl

comparison_round_trip_example :
    (get_comparison_record archive ws_id comparison_id saved_on ≡ ok compared)
    × (get_comparison_failures archive ws_id comparison_id saved_on ≡ ok artifact)
unfolding is_sha256
comparison_round_trip_example =
    comparison_round_trip archive ws_id compared artifact two_runs saved_on refl refl refl refl
      saves

-- The device refuses the second file.
abbrev refusing : Disk
refusing = record two_runs { faults = λ n. nat_beq n 1 }

abbrev stopped_on : Disk
stopped_on = (save_comparison_record archive ws_id compared (some artifact) refusing).1

stops :
    save_comparison_record archive ws_id compared (some artifact) refusing
    ≡ (raise os_error, stopped_on)
unfolding save_comparison_record ◌>>=◌ check query return comparison_path comparisons_directory
    get_workspace load_registry load_workspace workspace_path read_model is_workspace_id
    is_comparison_id create_files create_file new_files comparison_config atomic_create atomic_write
    undo unlink_created remove_directory
stops = refl

refuses_once : RefusesOnce refusing
unfolding RefusesOnce
refuses_once n m h g = ground (arith, ==_iff n 1, ==_iff m 1)

save_comparison_record_rolls_back_example : IsRestored refusing stopped_on
save_comparison_record_rolls_back_example =
    save_comparison_record_rolls_back archive ws_id compared (some artifact) refusing stopped_on
      os_error refuses_once stops

abbrev created_on : Disk
created_on =
    (create_comparison fractions (λ _. "5") reader codec archive digest ws_id other_run canonical
      comparison_id 30 two_runs).1

creates :
    create_comparison fractions
      (λ _. "5")
      reader
      codec
      archive
      digest
      ws_id
      other_run
      canonical
      comparison_id
      30
      two_runs
    ≡ (ok compared, created_on)
unfolding draft_comparison ◌>>=◌ call_as query get_baseline get_workspace_state get_workspace
    read_model is_workspace_id check get_run_artifacts get_run_snapshot is_run_id list_job_records
    get_job_record is_job_id config_beq return all_checks assess_local_retrieval_compatibility
    config_checks coverage_checks identity_check population_checks safe_difference
    build_failure_transitions checked_entries outcome per_query transition_of
    build_workspace_retrieval_rules canonical_population_evidence failure_rows load_population_input
    load_verified_population report_comparison load_lines load_retrieval_ground_truth
    load_retrieval_predictions load_unique_query_records beyond_limit compare_metrics compare_one
    compare_values regressed load_records repeats_snapshot is_input_id get_input imported_path
    input_manifest_path read_imported read_input_bytes read_referenced section_path job_path
    jobs_directory list_entry run_config_path load_registry load_workspace workspace_path
    create_comparison save_comparison_record comparison_path comparisons_directory is_comparison_id
    create_files create_file new_files comparison_config atomic_create atomic_write
creates = refl

create_comparison-IsCreated_example :
    IsCreated fractions
      (λ _. "5")
      reader
      codec
      digest
      archive
      ws_id
      other_run
      comparison_id
      canonical
      30
      compared
      two_runs
      created_on
create_comparison-IsCreated_example =
    create_comparison-IsCreated fractions (λ _. "5") reader codec digest archive ws_id other_run
      comparison_id canonical 30 two_runs created_on compared refl creates
