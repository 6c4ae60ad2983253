-- ===== src/Comparison/Creation.antt =====
-- src/evalops/workspace/application/comparisons.py: `create_comparison` with the step that saves what was built.
use evalops_lab.Common.{ℕ, String, Option, none, some, List, Float}
use evalops_lab.Datasets.{Reader}
use evalops_lab.Storage.Codec.{Codec}
use evalops_lab.Storage.Actions.{Proc, ◌>>=◌, ◌>>◌, return}
use evalops_lab.Comparison.Failures.{QueryFailureTransition}
use evalops_lab.Comparison.Service.{
  ComparisonMode, ComparisonRecord, ServiceError, Digestible, stored, draft_comparison,
}
use evalops_lab.Comparison.Archive.{ArchiveCodec, ComparisonFailureArtifact}
use evalops_lab.Comparison.Archive.Saving.{save_comparison_record}

-- `ComparisonFailureArtifact(...)`, where there are transitions.
abbrev pub artifact_of :
    {N : Type 0}
    → String
    → Option (List (QueryFailureTransition N))
    → Option (ComparisonFailureArtifact N)
artifact_of id none = none
artifact_of id (some rows) = some (record { comparison_id = id; transitions = rows })

module _ (fl : Float) (show : ℕ → String) (reader : Reader) (codec : Codec fl.Number)
    (archive : ArchiveCodec fl.Number) (digest : Digestible → String) where
  open fl use {Number}

  unfoldable pub create_comparison :
      String → String → ComparisonMode → String → ℕ → Proc ServiceError (ComparisonRecord Number)
  create_comparison ws candidate mode id now = do
    (r, rows) ← draft_comparison fl show reader codec digest ws candidate mode id now
    stored (save_comparison_record archive ws r (artifact_of r.comparison_id rows))
    return r
