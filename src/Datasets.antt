-- ===== src/Datasets.antt =====
-- src/evalops/datasets/io.py: the readers of the retrieval JSONL files. Iterating over a text file,
-- the JSON parser and the validation of one line are the fields of `Reader`.
use evalops_lab.Common.{
  ℕ, ◌+◌, String, Bool, Option, none, some, List, [], ◌∷◌, Result, ok, raise, ◌>>=◌, Dict, insert,
  member, string_eq, if◌then◌else◌,
}

-- `lines content` is none where the bytes are not UTF-8. `is_blank line` is `not line.strip()`. A
-- record is its query identifier and its documents, none where the line does not validate.
pub record Reader : Type 0 where
  pub lines : String → Option (List String)
  pub is_blank : String → Bool
  pub ground_truth : String → Option (String × List String)
  pub prediction : String → Option (String × List String)

-- The ValueErrors, with the number of the line.
pub data LoadError : Type 0 where
  not_text : LoadError
  unparsed : ℕ → LoadError
  duplicate_query : String → ℕ → LoadError

module _ (is_blank : String → Bool) (parse : String → Option (String × List String)) where
  -- The loop of `_load_unique_query_records`, from a line number and the identifiers seen.
  unfoldable pub load_lines :
      ℕ → List String → List String → Result LoadError (List (String × List String))
  load_lines n seen [] = ok []
  load_lines n seen (line ∷ lines) =
      let skipped = load_lines (n + 1) seen lines in
      if is_blank line then skipped else elim (parse line) [
        | none ↦ raise (unparsed n)
        | some (query, documents) ↦
            let rest = load_lines (n + 1) (query ∷ seen) lines in
            if member query seen
            then raise (duplicate_query query n)
            else (rest >>= λ records. ok ((query, documents) ∷ records))
      ]

-- `_load_unique_query_records`
unfoldable pub load_unique_query_records :
    Reader
    → (String → Option (String × List String))
    → String
    → Result LoadError (List (String × List String))
unfolding load_lines
load_unique_query_records reader parse content = elim (reader.lines content) [
  | none ↦ raise not_text
  | some lines ↦ load_lines reader.is_blank parse 1 [] lines
]

-- `{record.query_id: ... for record in records}`, into a dict.
abbrev pub dict_of :
    Dict String (List String) → List (String × List String) → Dict String (List String)
dict_of d [] = d
dict_of d ((query, documents) ∷ records) = dict_of (insert query documents d) records

unfoldable pub load_retrieval_ground_truth :
    Reader → String → Result LoadError (Dict String (List String))
unfolding load_unique_query_records
load_retrieval_ground_truth reader content =
    load_unique_query_records reader reader.ground_truth content >>= λ records.
    ok (dict_of [] records)

unfoldable pub load_retrieval_predictions :
    Reader → String → Result LoadError (Dict String (List String))
unfolding load_unique_query_records
load_retrieval_predictions reader content =
    load_unique_query_records reader reader.prediction content >>= λ records.
    ok (dict_of [] records)
