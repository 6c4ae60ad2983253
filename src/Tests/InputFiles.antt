-- ===== src/Tests/InputFiles.antt =====
-- The theorems of Ingestion on a small CSV file and a small JSONL file.
use evalops_lab.Common.{
  string_eq, String, ◌≡◌, refl, true, false, none, some, [], ◌∷◌, List, ok, raise, Dict, keys,
  unique, ◌↔◌, if◌then◌else◌,
}
use evalops_lab.Datasets.{
  Reader, load_lines, load_retrieval_ground_truth, load_unique_query_records,
}
use evalops_lab.Models.Inputs.{InputSourceMode, retrieval_ground_truth}
use evalops_lab.Ingestion.Jsonl.{
  TextTools, code, InputValidationSummary, load_kind, validate_retrieval_jsonl,
}
use evalops_lab.Ingestion.Csv.{
  CsvTools, CsvMapping, csv_table, csv_records, normalize_retrieval_csv_bytes, normalize_row,
  normalize_rows, split_header, check_header,
}
use evalops_lab.Ingestion.Canonical.{canonical_of, summary_of, normalize_retrieval_csv_bytes_lem}
use evalops_lab.Ingestion.Service.{
  PathTools, InputRegistrationResult, persist_imported, save_or_discard, register_imported_jsonl,
  register_imported_csv,
}
use evalops_lab.Ingestion.Usable.{IsUsable, register_imported_csv-IsUsable}
use evalops_lab.Storage.Disk.{Disk, read_model, atomic_write}
use evalops_lab.Storage.Actions.{◌>>=◌, call_as, query, check, return, atomic_create}
use evalops_lab.Storage.Workspaces.{get_workspace, load_registry, load_workspace, workspace_path}
use evalops_lab.Storage.Identifiers.{is_workspace_id, is_input_id}
use evalops_lab.Storage.Inputs.{imported_path, input_manifest_path, section_path}
use evalops_lab.Storage.Registration.{check_source, save_input_manifest, save_imported_input}
use evalops_lab.Tests.Samples.{ws_id, first_job, disk_with}

abbrev input_id : String
input_id = "input-0123456789abcdef0123456789abcdef"

abbrev tools : TextTools
tools = record {
  is_blank = λ _. false;
  is_utf8 = λ _. true;
  mentions = λ _. false;
  sha256 = λ s. s;
}

abbrev joined : List String → String
joined [] = ""
joined (line ∷ _) = line

abbrev csv : CsvTools
csv = record {
  decode = λ content. some content;
  strip = λ s. s;
  split = λ delimiter s. s ∷ [];
  rows = λ _. some ("query" ∷ "documents" ∷ []) ∷ some ("q1" ∷ "d1" ∷ []) ∷ [];
  dump = λ _ r. r.0;
  encode = joined;
}

abbrev mapping : CsvMapping
mapping = record {
  query_id_column = "query";
  document_ids_column = "documents";
  document_ids_delimiter = "|";
}

abbrev paths : PathTools
paths = record {
  suffix = λ name. name;
  base_name = λ name. name;
  is_local = λ _. true;
  resolved = λ path. path;
}

abbrev reader : Reader
reader = record {
  lines = λ content. some (content ∷ []);
  is_blank = λ _. false;
  ground_truth = λ line. some (line, "d1" ∷ []);
  prediction = λ line. some (line, "d1" ∷ []);
}

abbrev table : Dict String (List String)
table = ("q1", "d1" ∷ []) ∷ []

reads_table : csv_records csv "file" retrieval_ground_truth mapping ≡ ok table
unfolding csv_records csv_table split_header check_header normalize_rows normalize_row
reads_table = refl

normalize_retrieval_csv_bytes_lem_example :
    (normalize_retrieval_csv_bytes csv tools reader "file" retrieval_ground_truth mapping ≡ (
      if unique (keys table)
      then ok (
        canonical_of csv tools reader retrieval_ground_truth table,
        summary_of csv tools reader retrieval_ground_truth table,
      )
      else raise (code "DUPLICATE_QUERY_ID")))
    × ((load_kind reader retrieval_ground_truth
            (canonical_of csv tools reader retrieval_ground_truth table)
          ≡ ok table)
        ↔ (unique (keys table) ≡ true))
normalize_retrieval_csv_bytes_lem_example =
    normalize_retrieval_csv_bytes_lem csv tools reader "file" retrieval_ground_truth mapping table
      reads_table refl ((refl, refl), tt) refl refl

abbrev start : Disk
start = disk_with first_job

abbrev summary : InputValidationSummary
summary = record { record_count = 1; unique_query_count = 1; content_sha256 = "q1" }

abbrev result_for : String → String → InputRegistrationResult
result_for source name = record {
  manifest = record {
    input_id = input_id;
    kind = retrieval_ground_truth;
    source_mode = InputSourceMode.imported;
    content_sha256 = "q1";
    source_sha256 = source;
    record_count = 1;
    source_path = none;
    stored_relative_path = some "inputs/imported/input-0123456789abcdef0123456789abcdef.jsonl";
    source_filename = some name;
    created_at = 40;
  };
  summary = summary;
}

abbrev after_jsonl : Disk
after_jsonl =
    (register_imported_jsonl tools paths reader input_id 40 ws_id retrieval_ground_truth "q1"
      ".jsonl" start).1

registers_jsonl :
    register_imported_jsonl tools paths reader input_id 40 ws_id retrieval_ground_truth "q1"
      ".jsonl" start
    ≡ (ok (result_for "q1" ".jsonl"), after_jsonl)
unfolding register_imported_jsonl persist_imported save_or_discard validate_retrieval_jsonl
    load_retrieval_ground_truth load_unique_query_records load_lines ◌>>=◌ call_as query check
    return get_workspace load_registry load_workspace workspace_path read_model is_workspace_id
    is_input_id imported_path input_manifest_path section_path check_source save_input_manifest
    save_imported_input atomic_create atomic_write
registers_jsonl = refl

abbrev after_csv : Disk
after_csv =
    (register_imported_csv tools paths reader input_id 40 csv ws_id retrieval_ground_truth "file"
      ".csv" mapping start).1

registers_csv :
    register_imported_csv tools paths reader input_id 40 csv ws_id retrieval_ground_truth "file"
      ".csv" mapping start
    ≡ (ok (result_for "file" ".csv"), after_csv)
unfolding register_imported_csv normalize_retrieval_csv_bytes csv_records csv_table split_header
    check_header normalize_rows normalize_row persist_imported save_or_discard
    validate_retrieval_jsonl load_retrieval_ground_truth load_unique_query_records load_lines ◌>>=◌
    call_as query check return get_workspace load_registry load_workspace workspace_path read_model
    is_workspace_id is_input_id imported_path input_manifest_path section_path check_source
    save_input_manifest save_imported_input atomic_create atomic_write
registers_csv = refl

register_imported_csv-IsUsable_example :
    (canonical : String) × (normalize_retrieval_csv_bytes csv tools reader "file"
        retrieval_ground_truth mapping
      ≡ ok (canonical, summary))
    × IsUsable tools reader ws_id input_id canonical retrieval_ground_truth after_csv
        (result_for "file" ".csv")
register_imported_csv-IsUsable_example =
    register_imported_csv-IsUsable tools paths reader input_id 40 csv ws_id "file" ".csv"
      retrieval_ground_truth mapping start after_csv (result_for "file" ".csv") registers_csv
