-- ===== src/Runs/Created.antt =====
-- What `create_retrieval_run` of src/evalops/workspace/application/runs.py has done when it returns.
use evalops_lab.Common.{String, ◌≡◌, [], ok}
use evalops_lab.Datasets.{Reader}
use evalops_lab.Models.Runs.{RunSnapshot}
use evalops_lab.Storage.Disk.{Disk}
use evalops_lab.Storage.Inputs.{read_input_bytes}
use evalops_lab.Storage.Snapshots.{IsSaved}
use evalops_lab.Runs.Pairing.{RetrievalPairValidation, validate_retrieval_pair}
use evalops_lab.Runs.Creation.{CreateRetrievalRun}

module _ (reader : Reader) (sha256 : String → String) where
  -- A run that was created.
  pub record IsCreated (ws : String) (request : CreateRetrievalRun) (run : String) (s : RunSnapshot)
      (d d' : Disk) : Type 0 where
    pub validation : RetrievalPairValidation
    pub validated :
        validate_retrieval_pair reader sha256 ws request.ground_truth_input_id
          request.predictions_input_id d
        ≡ ok validation
    pub free : validation.blocking_issues ≡ []
    pub named : s.run_id ≡ run
    pub top_k : s.config.top_k ≡ request.top_k
    pub saved : IsSaved ws s d d'
    pub truth_content : String
    pub truth_read : read_input_bytes sha256 ws s.ground_truth_input_id d ≡ ok truth_content
    pub predictions_content : String
    pub predictions_read :
        read_input_bytes sha256 ws s.predictions_input_id d ≡ ok predictions_content
