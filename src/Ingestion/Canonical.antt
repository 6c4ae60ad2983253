-- ===== src/Ingestion/Canonical.antt =====
-- The canonical JSONL of src/evalops/workspace/ingestion/csv_adapter.py, read back by datasets/io.py.
use evalops_lab.Common.{
  ℕ, ◌+◌, String, ◌≡◌, refl, sym, ap, ◌∙◌, Bool, true, false, not, ◌&&◌, some, List, [], ◌∷◌, ◌++◌,
  Result, ok, raise, Dict, nat_eq, >>=-eq-ok, ◌↔◌, Option, Bool-cases, inl, inr, member-append,
  keys, insert, All, all, member, unique, length, map, ◌==◌, ==_iff, string_eq, arith,
  if◌then◌else◌,
}
use evalops_lab.Common.{◌>>=◌ as bind}
use mathlib.Core.List.{append_assoc, append-nil}
use evalops_lab.Datasets.{
  Reader, LoadError, duplicate_query, load_lines, dict_of, load_unique_query_records,
  load_retrieval_ground_truth, load_retrieval_predictions,
}
use evalops_lab.Models.Inputs.{InputKind, retrieval_ground_truth, retrieval_predictions}
use evalops_lab.Ingestion.Jsonl.{
  TextTools, InputValidationSummary, code, load_kind, validate_retrieval_jsonl,
}
use evalops_lab.Ingestion.Csv.{
  CsvTools, CsvMapping, csv_table, csv_records, normalize_retrieval_csv_bytes,
}

-- None of the queries is among those seen, and none occurs twice.
abbrev all_new : List String → List String → Bool
all_new seen ks = all (λ k. not (member k seen)) ks && unique ks

all_new-cons :
    (q : String) (seen ks : List String)
    → all (λ k. not (member k (q ∷ seen))) ks
      ≡ (all (λ k. not (member k seen)) ks && not (member q ks))
all_new-cons q seen [] = refl
all_new-cons q seen (k ∷ ks) = ground (arith, ==_iff k q, ==_iff q k, all_new-cons q seen ks)

module _ (is_blank : String → Bool) (parse : String → Option (String × List String))
    (dump : String × List String → String) where
  -- A line that is not skipped and parses to what was dumped.
  abbrev pub ReadsBack : String × List String → Type 0
  ReadsBack r = (is_blank (dump r) ≡ false) × (parse (dump r) ≡ some r)

  load_lines-new :
      (n : ℕ) (seen : List String) (rs : List (String × List String))
      → All ReadsBack rs
      → all_new seen (keys rs) ≡ true
      → load_lines is_blank parse n seen (map dump rs) ≡ ok rs
  unfolding load_lines
  load_lines-new n seen [] back new = refl
  load_lines-new n seen ((q, documents) ∷ rs) back new =
      let later : all_new (q ∷ seen) (keys rs) ≡ true =
        ground (arith, new, all_new-cons q seen (keys rs)) in
      let first : member q seen ≡ false = ground (arith, new) in
      rw (back.0.0, back.0.1, first, load_lines-new (n + 1) (q ∷ seen) rs back.1 later) refl

  load_lines-again :
      (n : ℕ) (seen : List String) (rs : List (String × List String))
      → All ReadsBack rs
      → all_new seen (keys rs) ≡ false
      → (q : String) × (m : ℕ) × (load_lines is_blank parse n seen (map dump rs)
          ≡ raise (duplicate_query q m))
  unfolding load_lines
  load_lines-again n seen [] back old = cc old
  load_lines-again n seen ((q, documents) ∷ rs) back old = elim (Bool-cases (member q seen)) [
    | inl first ↦ (q, n, rw (back.0.0, back.0.1, first) refl)
    | inr first ↦
        let later : all_new (q ∷ seen) (keys rs) ≡ false =
          ground (arith, old, first, all_new-cons q seen (keys rs)) in
        let (p, m, stops) = load_lines-again (n + 1) (q ∷ seen) rs back.1 later in
        (p, m, rw (back.0.0, back.0.1, first, stops) refl)
  ]

-- New keys are added at the end of a dict.
insert-new :
    (q : String) (v : List String) (d : Dict String (List String))
    → member q (keys d) ≡ false
    → insert q v d ≡ d ++ (q, v) ∷ []
insert-new q v [] h = refl
insert-new q v ((k, w) ∷ d) h = ground (arith, h, insert-new q v d)

keys-append : (d e : Dict String (List String)) → keys (d ++ e) ≡ keys d ++ keys e
keys-append [] e = refl
keys-append ((k, v) ∷ d) e = ap (λ (x : List String). k ∷ x) (keys-append d e)

all_new-append :
    (q : String) (seen ks : List String)
    → all (λ k. not (member k (seen ++ q ∷ []))) ks ≡ all (λ k. not (member k (q ∷ seen))) ks
all_new-append q seen [] = refl
all_new-append q seen (k ∷ ks) =
    ground (arith, member-append k seen (q ∷ []), all_new-append q seen ks)

dict_of-new :
    (d rs : Dict String (List String)) → all_new (keys d) (keys rs) ≡ true → dict_of d rs ≡ d ++ rs
dict_of-new d [] h = sym (append-nil d)
dict_of-new d ((q, v) ∷ rs) h =
    let added = insert-new q v d (ground (arith, h)) in
    let later : all_new (keys (d ++ (q, v) ∷ [])) (keys rs) ≡ true = ground (
      arith,
      h,
      keys-append d ((q, v) ∷ []),
      all_new-append q (keys d) (keys rs),
      all_new-cons q (keys d) (keys rs),
    ) in
    ap (λ (x : Dict String (List String)). dict_of x rs) added
    ∙ dict_of-new (d ++ (q, v) ∷ []) rs later
    ∙ append_assoc d ((q, v) ∷ []) rs

abbrev pub parser : Reader → InputKind → String → Option (String × List String)
parser reader retrieval_ground_truth = reader.ground_truth
parser reader retrieval_predictions = reader.prediction

abbrev read_lines :
    (is_blank : String → Bool) (parse : String → Option (String × List String))
    → List String
    → Result LoadError (Dict String (List String))
read_lines is_blank parse lines =
    bind (load_lines is_blank parse 1 [] lines) (λ records. ok (dict_of [] records))

load_kind_lem :
    (reader : Reader) (kind : InputKind) (content : String) (lines : List String)
    → reader.lines content ≡ some lines
    → load_kind reader kind content ≡ read_lines reader.is_blank (parser reader kind) lines
unfolding load_retrieval_ground_truth load_retrieval_predictions load_unique_query_records
load_kind_lem reader retrieval_ground_truth content lines h =
    rw (h, load_retrieval_ground_truth, load_unique_query_records) refl
load_kind_lem reader retrieval_predictions content lines h =
    rw (h, load_retrieval_predictions, load_unique_query_records) refl

all_new-nil : (ks : List String) → all_new [] ks ≡ unique ks
all_new-nil [] = refl
all_new-nil (k ∷ ks) = ground (arith, all_new-nil ks)

module _ (csv : CsvTools) (tools : TextTools) (reader : Reader) where
  csv_records-nonempty :
      (content : String) (kind : InputKind) (mapping : CsvMapping)
      (records : List (String × List String))
      → csv_records csv content kind mapping ≡ ok records
      → (length records == 0) ≡ false
  unfolding csv_records
  csv_records-nonempty content kind mapping records h =
      let (rs, _, kept) = >>=-eq-ok (csv_table csv content kind mapping) _ h in ground (arith, kept)

  abbrev pub canonical_of : InputKind → List (String × List String) → String
  canonical_of kind records = csv.encode (map (csv.dump kind) records)

  load-canonical :
      (kind : InputKind) (records : List (String × List String))
      → reader.lines (canonical_of kind records) ≡ some (map (csv.dump kind) records)
      → All (ReadsBack reader.is_blank (parser reader kind) (csv.dump kind)) records
      → unique (keys records) ≡ true
      → load_kind reader kind (canonical_of kind records) ≡ ok records
  load-canonical kind records split back u =
      let new = all_new-nil (keys records) ∙ u in
      load_kind_lem reader kind (canonical_of kind records) _ split
      ∙ rw
          (load_lines-new reader.is_blank (parser reader kind) (csv.dump kind) 1 [] records back
            new)
          (ap (λ (d : Dict String (List String)). ok d) (dict_of-new [] records new))

  load-canonical_again :
      (kind : InputKind) (records : List (String × List String))
      → reader.lines (canonical_of kind records) ≡ some (map (csv.dump kind) records)
      → All (ReadsBack reader.is_blank (parser reader kind) (csv.dump kind)) records
      → unique (keys records) ≡ false
      → (q : String) × (m : ℕ) × (load_kind reader kind (canonical_of kind records)
          ≡ raise (duplicate_query q m))
  load-canonical_again kind records split back u =
      let (q, m, stops) =
        load_lines-again reader.is_blank (parser reader kind) (csv.dump kind) 1 [] records back
          (all_new-nil (keys records) ∙ u) in
      (q, m, load_kind_lem reader kind (canonical_of kind records) _ split ∙ rw stops refl)

  -- The summary of a canonical content.
  abbrev pub summary_of : InputKind → List (String × List String) → InputValidationSummary
  summary_of kind records = record {
    record_count = length records;
    unique_query_count = length records;
    content_sha256 = tools.sha256 (canonical_of kind records);
  }

  -- If a CSV file is read as records, and the canonical text that is written of them splits into
  -- the lines that were dumped, each of which is read back as its record, and is neither blank nor
  -- not UTF-8, then `normalize_retrieval_csv_bytes` returns that text with its summary if no query
  -- has two records, and raises DUPLICATE_QUERY_ID otherwise; and the loader reads exactly the
  -- records from that text if and only if no query has two.
  pub normalize_retrieval_csv_bytes_lem :
      (content : String) (kind : InputKind) (mapping : CsvMapping)
      (records : List (String × List String))
      → csv_records csv content kind mapping ≡ ok records
      → reader.lines (canonical_of kind records) ≡ some (map (csv.dump kind) records)
      → All (ReadsBack reader.is_blank (parser reader kind) (csv.dump kind)) records
      → tools.is_blank (canonical_of kind records) ≡ false
      → tools.is_utf8 (canonical_of kind records) ≡ true
      → (normalize_retrieval_csv_bytes csv tools reader content kind mapping ≡ (
          if unique (keys records)
          then ok (canonical_of kind records, summary_of kind records)
          else raise (code "DUPLICATE_QUERY_ID")))
        × ((load_kind reader kind (canonical_of kind records) ≡ ok records)
            ↔ (unique (keys records) ≡ true))
  unfolding normalize_retrieval_csv_bytes validate_retrieval_jsonl
  normalize_retrieval_csv_bytes_lem content kind mapping records made split back blank text =
      let some_rows = csv_records-nonempty content kind mapping records made in
      elim (Bool-cases (unique (keys records))) [
        | inl u ↦
            let loads = load-canonical kind records split back u in
            (rw (made, blank, text, loads, some_rows, u) refl, (λ _. u, λ _. loads))
        | inr u ↦
            let (q, m, stops) = load-canonical_again kind records split back u in
            (
              rw (made, blank, text, stops, u) refl,
              (λ loads. cc (sym stops ∙ loads), λ v. cc (sym u ∙ v)),
            )
      ]
