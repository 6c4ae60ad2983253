-- ===== src/Ingestion/Csv.antt =====
-- src/evalops/workspace/ingestion/csv_adapter.py: a CSV file made into canonical JSONL. `CsvTools` is what the
-- code calls of `str`, `csv` and `json`: decoding with `utf-8-sig`, `str.strip`, `str.split`, the fields
-- of the header and of each row that a strict `csv.DictReader` reads (none for csv.Error, which ends
-- the file), `json.dumps` of a record, and the lines joined and encoded.
use evalops_lab.Common.{
  String, Bool, not, ◌&&◌, ◌||◌, Option, none, some, List, [], ◌∷◌, Result, ok, raise, ◌>>=◌, ◌>>◌,
  raise_if, Dict, lookup, keep, length, map, member, unique, ◌==◌, nat_eq, string_eq,
}
use evalops_lab.Datasets.{Reader}
use evalops_lab.Models.Inputs.{InputKind, retrieval_ground_truth, retrieval_predictions}
use evalops_lab.Ingestion.Jsonl.{
  TextTools, InputValidationSummary, ValidationError, code, validate_retrieval_jsonl,
}

pub record CsvMapping : Type 0 where
  pub query_id_column : String
  pub document_ids_column : String
  pub document_ids_delimiter : String

pub record CsvTools : Type 0 where
  pub decode : String → Option String
  pub strip : String → String
  pub split : String → String → List String
  pub rows : String → List (Option (List String))
  pub dump : InputKind → String × List String → String
  pub encode : List String → String

-- `dict(zip(fieldnames, fields))`, where the two are as long.
abbrev pub row_of : List String → List String → Dict String String
row_of (name ∷ names) (field ∷ fields) = (name, field) ∷ row_of names fields
row_of _ _ = []

-- `row[column]`
abbrev pub cell : String → Dict String String → Result ValidationError String
cell column row = elim (lookup column row) [
  | none ↦ raise (code "INVALID_CSV")
  | some value ↦ ok value
]

-- What the models of the two kinds accept.
abbrev pub is_valid_record : InputKind → String × List String → Bool
is_valid_record retrieval_ground_truth (query, documents) = not (query == "")
is_valid_record retrieval_predictions (query, documents) = not (query == "") && unique documents

module _ (csv : CsvTools) where
  -- The body of the loop over the rows.
  unfoldable pub normalize_row :
      InputKind
      → CsvMapping
      → List String
      → List String
      → Result ValidationError (String × List String)
  normalize_row kind mapping header fields = do
    raise_if (not (length fields == length header)) (code "INVALID_CSV")
    query ← cell (csv.strip mapping.query_id_column) (row_of header fields)
    documents ← cell (csv.strip mapping.document_ids_column) (row_of header fields)
    let ids =
        keep (λ id. not (id == ""))
          (map csv.strip (csv.split mapping.document_ids_delimiter documents))
    raise_if (not (is_valid_record kind (csv.strip query, ids))) (code "INVALID_CSV")
    ok (csv.strip query, ids)

  unfoldable pub normalize_rows :
      InputKind
      → CsvMapping
      → List String
      → List (Option (List String))
      → Result ValidationError (List (String × List String))
  unfolding normalize_row
  normalize_rows kind mapping header [] = ok []
  normalize_rows kind mapping header (none ∷ rows) = raise (code "INVALID_CSV")
  normalize_rows kind mapping header (some fields ∷ rows) = do
    r ← normalize_row kind mapping header fields
    others ← normalize_rows kind mapping header rows
    ok (r ∷ others)

  -- The header, and the rows after it.
  unfoldable pub split_header :
      List (Option (List String))
      → Result ValidationError (List String × List (Option (List String)))
  split_header [] = raise (code "EMPTY_INPUT")
  split_header (none ∷ rows) = raise (code "INVALID_CSV")
  split_header (some names ∷ rows) = ok (map csv.strip names, rows)

  unfoldable pub check_header : CsvMapping → List String → Result ValidationError (Unit {0})
  check_header mapping header = do
    raise_if (not (unique header) || member "" header) (code "DUPLICATE_HEADERS")
    raise_if
        (not (member (csv.strip mapping.query_id_column) header)
          || not (member (csv.strip mapping.document_ids_column) header))
        (code "MISSING_COLUMN")

  -- `normalize_retrieval_csv_bytes`, up to the end of the loop over the rows.
  unfoldable pub csv_table :
      String → InputKind → CsvMapping → Result ValidationError (List (String × List String))
  unfolding split_header check_header normalize_rows
  csv_table content kind mapping = do
    text ← elim (csv.decode content) [ none ↦ raise (code "INVALID_UTF8") | some t ↦ ok t ]
    raise_if (csv.strip text == "") (code "EMPTY_INPUT")
    raise_if
        (csv.strip mapping.query_id_column == ""
          || csv.strip mapping.document_ids_column == ""
          || csv.strip mapping.query_id_column == csv.strip mapping.document_ids_column)
        (code "INVALID_MAPPING")
    (header, rows) ← split_header (csv.rows text)
    check_header mapping header
    normalize_rows kind mapping header rows

  -- `if not normalized: raise`
  unfoldable pub csv_records :
      String → InputKind → CsvMapping → Result ValidationError (List (String × List String))
  unfolding csv_table
  csv_records content kind mapping = do
    records ← csv_table content kind mapping
    raise_if (length records == 0) (code "EMPTY_INPUT")
    ok records

  unfoldable pub normalize_retrieval_csv_bytes :
      TextTools
      → Reader
      → String
      → InputKind
      → CsvMapping
      → Result ValidationError (String × InputValidationSummary)
  unfolding csv_records
  normalize_retrieval_csv_bytes tools reader content kind mapping = do
    records ← csv_records content kind mapping
    let canonical = csv.encode (map (csv.dump kind) records)
    summary ← validate_retrieval_jsonl tools reader canonical kind
    ok (canonical, summary)
