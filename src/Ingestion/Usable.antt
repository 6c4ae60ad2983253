-- ===== src/Ingestion/Usable.antt =====
-- What a registered input of src/evalops/workspace/ingestion/service.py is to a run: its content is read and loaded.
use evalops_lab.Common.{
  ℕ, String, ◌≡◌, ap, subst, not, false, List, map, Result, ok, raise, Dict, length, ◌==◌, nat_eq,
  >>=-eq-ok as bind_returned, raise_if, arith,
}
use evalops_lab.Datasets.{Reader, LoadError}
use evalops_lab.Models.Inputs.{InputKind}
use evalops_lab.Storage.Disk.{Disk}
use evalops_lab.Storage.Actions.{check-eq-ok, call_query-eq-ok}
use evalops_lab.Storage.Workspaces.{get_workspace}
use evalops_lab.Ingestion.Jsonl.{
  TextTools, InputValidationSummary, ValidationError, load_kind, or_code, validate_retrieval_jsonl,
}
use evalops_lab.Ingestion.Csv.{CsvTools, CsvMapping, csv_records, normalize_retrieval_csv_bytes}
use evalops_lab.Ingestion.Service.{
  PathTools, of_store, invalid, InputRegistrationResult, persist_imported, register_imported_jsonl,
  register_imported_csv,
}
use evalops_lab.Ingestion.Registered.{IsRegistered, persist_imported-IsRegistered}

-- A content that validates: it loads, to as many records as the summary says, and at least one.
pub record IsLoadable (tools : TextTools) (reader : Reader) (kind : InputKind) (content : String)
    (summary : InputValidationSummary) : Type 0 where
  pub records : Dict String (List String)
  pub loads : load_kind reader kind content ≡ ok records
  pub counted : summary.record_count ≡ length records
  pub some_record : (length records == 0) ≡ false
  pub digest : summary.content_sha256 ≡ tools.sha256 content

or_code-eq-ok :
    {A : Type 0} (tools : TextTools) (r : Result LoadError A) {a : A}
    → or_code tools r ≡ ok a
    → r ≡ ok a
or_code-eq-ok {A} tools (ok b) h = ap back h
  where
    back : Result ValidationError A → Result LoadError A
    back (ok c) = ok c
    back (raise _) = ok b
or_code-eq-ok tools (raise e) h = cc h

module _ (tools : TextTools) (reader : Reader) where
  validate_retrieval_jsonl-IsLoadable :
      (content : String) (kind : InputKind) (summary : InputValidationSummary)
      → validate_retrieval_jsonl tools reader content kind ≡ ok summary
      → IsLoadable tools reader kind content summary
  unfolding validate_retrieval_jsonl
  validate_retrieval_jsonl-IsLoadable content kind summary h =
      let (_, _, h1) = bind_returned (raise_if (tools.is_blank content) _) _ h in
      let (_, _, h2) = bind_returned (raise_if (not (tools.is_utf8 content)) _) _ h1 in
      let (records, loads, h3) =
        bind_returned (or_code tools (load_kind reader kind content)) _ h2 in
      record {
        records = records;
        loads = or_code-eq-ok tools _ loads;
        counted = ground (arith, h3);
        some_record = ground (arith, h3);
        digest = ground (arith, h3);
      }

  normalize_retrieval_csv_bytes-IsLoadable :
      (csv : CsvTools) (content : String) (kind : InputKind) (mapping : CsvMapping)
      (canonical : String) (summary : InputValidationSummary)
      → normalize_retrieval_csv_bytes csv tools reader content kind mapping
        ≡ ok (canonical, summary)
      → IsLoadable tools reader kind canonical summary
  unfolding normalize_retrieval_csv_bytes
  normalize_retrieval_csv_bytes-IsLoadable csv content kind mapping canonical summary h =
      let (records, _, h1) = bind_returned (csv_records csv content kind mapping) _ h in
      let made = csv.encode (map (csv.dump kind) records) in
      let (s, validates, h2) =
        bind_returned (validate_retrieval_jsonl tools reader made kind) _ h1 in
      let pair : ◌≡◌ {A = String × InputValidationSummary} (made, s) (canonical, summary) = cc h2 in
      subst (λ (p : String × InputValidationSummary). IsLoadable tools reader kind p.0 p.1) pair
        (validate_retrieval_jsonl-IsLoadable made kind s validates)

-- An input that a run can use.
pub record IsUsable (tools : TextTools) (reader : Reader) (ws id content : String)
    (kind : InputKind) (d' : Disk) (r : InputRegistrationResult) : Type 0 where
  pub registered : IsRegistered tools.sha256 ws id content d' r
  pub loadable : IsLoadable tools reader kind content r.summary

module _ (tools : TextTools) (paths : PathTools) (reader : Reader) (id : String) (now : ℕ) where
  persisted :
      (ws canonical source_sha name : String) (kind : InputKind) (summary : InputValidationSummary)
      (d d' : Disk) (r : InputRegistrationResult)
      → IsLoadable tools reader kind canonical summary
      → persist_imported tools paths reader id now ws kind canonical summary source_sha name d
        ≡ (ok r, d')
      → IsUsable tools reader ws id canonical kind d' r
  persisted ws canonical source_sha name kind summary d d' r loadable h =
      let m =
        persist_imported-IsRegistered tools paths reader id now ws canonical source_sha name kind
          summary d d' r loadable.digest h in
      record {
        registered = m.0;
        loadable = subst (IsLoadable tools reader kind canonical) m.1 loadable;
      }

  -- A JSONL input that was registered is stored with its digest, and its kind of loader reads it.
  pub register_imported_jsonl-IsUsable :
      (ws content name : String) (kind : InputKind) (d d' : Disk) (r : InputRegistrationResult)
      → register_imported_jsonl tools paths reader id now ws kind content name d ≡ (ok r, d')
      → IsUsable tools reader ws id content kind d' r
  unfolding register_imported_jsonl
  register_imported_jsonl-IsUsable ws content name kind d d' r h =
      let (_, _, h1) = call_query-eq-ok of_store (get_workspace ws) _ d h in
      let (_, h2) = check-eq-ok _ _ _ d h1 in
      let (_, h3) = check-eq-ok _ _ _ d h2 in
      let (summary, validates, h4) = call_query-eq-ok invalid _ _ d h3 in
      persisted ws content summary.content_sha256 name kind summary d d' r
        (validate_retrieval_jsonl-IsLoadable tools reader content kind summary validates) h4

  -- If `register_imported_csv` returns, then the content was made into canonical text with the
  -- summary of the result, that text is within the limit of reads, the store returns the
  -- registered manifest and this text as its content, with its digest, and the loader of the kind
  -- reads as many records from it as the summary says, at least one.
  pub register_imported_csv-IsUsable :
      (csv : CsvTools) (ws content name : String) (kind : InputKind) (mapping : CsvMapping)
      (d d' : Disk) (r : InputRegistrationResult)
      → register_imported_csv tools paths reader id now csv ws kind content name mapping d
        ≡ (ok r, d')
      → (canonical : String) × (normalize_retrieval_csv_bytes csv tools reader content kind mapping
          ≡ ok (canonical, r.summary))
        × IsUsable tools reader ws id canonical kind d' r
  unfolding register_imported_csv
  register_imported_csv-IsUsable csv ws content name kind mapping d d' r h =
      let (_, _, h1) = call_query-eq-ok of_store (get_workspace ws) _ d h in
      let (_, h2) = check-eq-ok _ _ _ d h1 in
      let (_, h3) = check-eq-ok _ _ _ d h2 in
      let (made, normalizes, h4) = call_query-eq-ok invalid _ _ d h3 in
      let m =
        persist_imported-IsRegistered tools paths reader id now ws made.0 (tools.sha256 content)
          name kind made.1 d d' r
          (normalize_retrieval_csv_bytes-IsLoadable tools reader csv content kind mapping made.0
            made.1 normalizes).digest
          h4 in
      (
        made.0,
        subst
            (λ (s : InputValidationSummary).
              normalize_retrieval_csv_bytes csv tools reader content kind mapping ≡ ok (made.0, s))
            m.1 normalizes,
        persisted ws made.0 (tools.sha256 content) name kind made.1 d d' r
            (normalize_retrieval_csv_bytes-IsLoadable tools reader csv content kind mapping made.0
              made.1 normalizes)
            h4,
      )
