-- ===== src/Storage/Codec.antt =====
-- The JSON of results and the digest of bytes, as src/evalops/workspace/storage.py calls them:
-- `encode` is `json.dumps` of the dumped model, `decode` is `EvaluationResult.model_validate_json`,
-- and `sha256` is the digest in hexadecimal.
use evalops_lab.Common.{String, Option}
use evalops_lab.Comparison.Evidence.{EvaluationResult}

pub record Codec (N : Type 0) : Type 0 where
  pub encode : EvaluationResult N → String
  pub decode : String → Option (EvaluationResult N)
  pub sha256 : String → String
