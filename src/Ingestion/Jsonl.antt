-- ===== src/Ingestion/Jsonl.antt =====
-- src/evalops/workspace/ingestion/jsonl.py and models.py: the validation of a JSONL input. `TextTools` is what the
-- code calls of `bytes` and `hashlib`.
use evalops_lab.Common.{
  ℕ, String, Bool, true, false, not, List, Result, ok, raise, ◌>>=◌, ◌>>◌, raise_if, Dict, length,
  ◌==◌, nat_eq, if◌then◌else◌,
}
use evalops_lab.Datasets.{
  Reader, LoadError, duplicate_query, not_text, unparsed, load_retrieval_ground_truth,
  load_retrieval_predictions,
}
use evalops_lab.Models.Inputs.{InputKind, retrieval_ground_truth, retrieval_predictions}

-- `is_blank` is `not data.strip()`, `is_utf8` says whether the bytes decode, and `mentions n` whether
-- the message of the parser on line n contains the words `duplicate query_id`.
pub record TextTools : Type 0 where
  pub is_blank : String → Bool
  pub is_utf8 : String → Bool
  pub mentions : ℕ → Bool
  pub sha256 : String → String

pub record InputValidationSummary : Type 0 where
  pub record_count : ℕ
  pub unique_query_count : ℕ
  pub content_sha256 : String

-- InputValidationError, by its code.
pub data ValidationError : Type 0 where
  code : String → ValidationError

-- `"duplicate query_id" in str(error)`
abbrev pub says_duplicate : TextTools → LoadError → Bool
says_duplicate tools (duplicate_query _ _) = true
says_duplicate tools (unparsed n) = tools.mentions n
says_duplicate tools not_text = false

abbrev pub load_kind : Reader → InputKind → String → Result LoadError (Dict String (List String))
load_kind reader retrieval_ground_truth content = load_retrieval_ground_truth reader content
load_kind reader retrieval_predictions content = load_retrieval_predictions reader content

-- `except ValueError`
abbrev pub or_code : {A : Type 0} → TextTools → Result LoadError A → Result ValidationError A
or_code tools (ok a) = ok a
or_code tools (raise e) =
    raise (code (if says_duplicate tools e then "DUPLICATE_QUERY_ID" else "INVALID_JSONL"))

unfoldable pub validate_retrieval_jsonl :
    TextTools → Reader → String → InputKind → Result ValidationError InputValidationSummary
validate_retrieval_jsonl tools reader content kind = do
  raise_if (tools.is_blank content) (code "EMPTY_INPUT")
  raise_if (not (tools.is_utf8 content)) (code "INVALID_UTF8")
  records ← or_code tools (load_kind reader kind content)
  raise_if (length records == 0) (code "EMPTY_INPUT")
  ok (record {
    record_count = length records;
    unique_query_count = length records;
    content_sha256 = tools.sha256 content;
  })
