-- ===== src/Comparison/Evidence.antt =====
-- src/evalops/models/runs.py, EvaluationResult, with the two entries of `details` that
-- src/evalops/workspace/comparison reads.
use evalops_lab.Common.{ℕ, String, Option, Dict}
use evalops_lab.Regression.{Value}
use evalops_lab.Models.Runs.{RunConfig}
use evalops_lab.Retrieval.Evaluation.{PerQueryRetrievalResult}

-- A payload of `per_query`, as its validation finds it.
pub data Payload (N : Type 0) : Type 0 where
  valid : PerQueryRetrievalResult N → Payload N
  malformed : Payload N

-- `details.get("per_query")`
pub data PerQueryEvidence (N : Type 0) : Type 0 where
  not_a_dict : PerQueryEvidence N
  entries : Dict String (Payload N) → PerQueryEvidence N

pub record EvaluationResult (N : Type 0) : Type 0 where
  pub evaluation_type : String
  pub run : RunConfig
  pub metrics : Dict String (Value N)
  pub per_query : PerQueryEvidence N
  pub prediction_query_count : Option ℕ
