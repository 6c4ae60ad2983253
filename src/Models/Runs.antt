-- ===== src/Models/Runs.antt =====
-- src/evalops/models/runs.py (RunConfig), and RunSnapshot and RunProvenance of
-- src/evalops/workspace/application/runs.py. Values of arbitrary JSON type, which the program only
-- compares, are their canonical texts; times are numbers.
use evalops_lab.Common.{
  ℕ, String, Bool, Option, List, [], ◌∷◌, true, false, ◌&&◌, ◌==◌, Dict, keys, lookup, same_set,
  all, option_eq, string_eq, nat_eq,
}

pub record RunConfig : Type 0 where
  pub run_id : String
  pub dataset_name : String
  pub dataset_version : String
  pub system_name : String
  pub model : Option String
  pub model_provider : Option String
  pub prompt_version : Option String
  pub retriever : Option String
  pub embedding_model : Option String
  pub top_k : ℕ
  pub evaluator_versions : Dict String String
  pub random_seed : Option ℕ
  pub timestamp : ℕ
  pub git_commit : Option String
  pub benchmark : Option String
  pub language : Option String
  pub split : Option String
  pub dataset_revision : Option String
  pub corpus_revision : Option String
  pub tokenization_strategy : Option String
  pub retriever_version : Option String
  pub retriever_config : Dict String String
  pub annotation_policy : Option String
  pub quality_filter : List String
  pub evaluator_config : Dict String String

pub record RunSnapshot : Type 0 where
  pub run_id : String
  pub workspace_id : String
  pub run_name : String
  pub ground_truth_input_id : String
  pub ground_truth_content_sha256 : String
  pub predictions_input_id : String
  pub predictions_content_sha256 : String
  pub config : RunConfig
  pub created_at : ℕ

pub record RunProvenance : Type 0 where
  pub run_id : String
  pub ground_truth_input_id : String
  pub ground_truth_content_sha256 : String
  pub predictions_input_id : String
  pub predictions_content_sha256 : String
  pub evaluator_versions : Dict String String
  pub evalops_version : String
  pub git_commit : Option String
  pub completed_at : ℕ
  pub result_sha256 : String

-- Python's `==` on two dicts: the same keys with equal values, in any order.
abbrev pub dict_beq : Dict String String → Dict String String → Bool
dict_beq a b = same_set (keys a) (keys b) && all (λ k. lookup k a == lookup k b) (keys a)

-- Equality of two lists of texts.
abbrev pub texts_beq : List String → List String → Bool
texts_beq [] [] = true
texts_beq (x ∷ xs) (y ∷ ys) = x == y && texts_beq xs ys
texts_beq _ _ = false

-- Equality of two models, field by field.
unfoldable pub config_beq : RunConfig → RunConfig → Bool
config_beq a b =
    a.run_id == b.run_id
    && a.dataset_name == b.dataset_name
    && a.dataset_version == b.dataset_version
    && a.system_name == b.system_name
    && a.model == b.model
    && a.model_provider == b.model_provider
    && a.prompt_version == b.prompt_version
    && a.retriever == b.retriever
    && a.embedding_model == b.embedding_model
    && a.top_k == b.top_k
    && dict_beq a.evaluator_versions b.evaluator_versions
    && a.random_seed == b.random_seed
    && a.timestamp == b.timestamp
    && a.git_commit == b.git_commit
    && a.benchmark == b.benchmark
    && a.language == b.language
    && a.split == b.split
    && a.dataset_revision == b.dataset_revision
    && a.corpus_revision == b.corpus_revision
    && a.tokenization_strategy == b.tokenization_strategy
    && a.retriever_version == b.retriever_version
    && dict_beq a.retriever_config b.retriever_config
    && a.annotation_policy == b.annotation_policy
    && texts_beq a.quality_filter b.quality_filter
    && dict_beq a.evaluator_config b.evaluator_config
