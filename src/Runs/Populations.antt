-- ===== src/Runs/Populations.antt =====
-- What `validate_retrieval_pair` of src/evalops/workspace/application/runs.py says of two loaded inputs.
use evalops_lab.Common.{
  subst, ◌>>=◌, ◌+◌, String, ◌≡◌, refl, sym, ◌∙◌, not, ◌&&◌, List, [], Result, ok, raise, Dict,
  keys, length, keep, length-keep, count-member_comm, length-split, length-sort_by, member,
  member-keep, member-to_set, member-sort_by, unique-to_set, to_set, sort_by, str_lt, string_eq,
  >>=-eq-ok, arith,
}
use evalops_lab.Datasets.{Reader}
use evalops_lab.Models.Inputs.{InputManifest, retrieval_ground_truth, retrieval_predictions}
use evalops_lab.Storage.Disk.{Disk}
use evalops_lab.Storage.Workspaces.{get_workspace}
use evalops_lab.Runs.Pairing.{
  RetrievalPairValidation, PairError, invalid_input, unreadable_input, pair_result, read_registered,
  load_side, compare_populations, validate_retrieval_pair,
}

-- What the numbers and the lists of a validation are of two dicts.
pub record IsPartition (truth predictions : Dict String (List String)) (v : RetrievalPairValidation)
    : Type 0 where
  pub truth_count :
      v.ground_truth_records ≡ v.matching_query_count + length v.missing_prediction_query_ids
  pub prediction_count :
      v.prediction_records ≡ v.matching_query_count + length v.extra_prediction_query_ids
  pub missing :
      (q : String)
      → member q v.missing_prediction_query_ids
        ≡ (not (member q (keys predictions)) && member q (keys truth))
  pub extra :
      (q : String)
      → member q v.extra_prediction_query_ids
        ≡ (not (member q (keys truth)) && member q (keys predictions))

-- One side of the difference of two sets.
difference :
    (xs ys : List String) (q : String)
    → member q (sort_by str_lt (keep (λ x. not (member x (to_set ys))) (to_set xs)))
      ≡ (not (member q ys) && member q xs)
difference xs ys q =
    member-sort_by str_lt q (keep (λ x. not (member x (to_set ys))) (to_set xs))
    ∙ member-keep (λ x. not (member x (to_set ys))) q (to_set xs)
    ∙ ground (arith, member-to_set q ys, member-to_set q xs)

compare_populations-IsPartition :
    (truth predictions : Dict String (List String))
    → IsPartition truth predictions (compare_populations truth predictions)
unfolding compare_populations
compare_populations-IsPartition truth predictions =
    let xs = to_set (keys truth) in
    let ys = to_set (keys predictions) in
    let missing = keep (λ q. not (member q ys)) xs in
    let extra = keep (λ q. not (member q xs)) ys in
    let same : length (keep (λ q. member q ys) xs) ≡ length (keep (λ q. member q xs) ys) =
      length-keep (λ q. member q ys) xs
      ∙ count-member_comm xs ys (unique-to_set (keys truth)) (unique-to_set (keys predictions))
      ∙ sym (length-keep (λ q. member q xs) ys) in
    record {
      truth_count =
          ground (arith, length-split (λ q. member q ys) xs, length-sort_by str_lt missing);
      prediction_count =
          ground (arith, length-split (λ q. member q xs) ys, length-sort_by str_lt extra, same);
      missing = difference (keys truth) (keys predictions);
      extra = difference (keys predictions) (keys truth);
    }

abbrev Side : Type 0
Side = InputManifest × Dict String (List String)

-- No issues means that both sides were read.
pair_result-IsPartition :
    (o p : Result PairError Side) (v : RetrievalPairValidation)
    → (load_side o >>= λ truth. load_side p >>= λ predictions. ok (pair_result truth predictions))
      ≡ ok v
    → v.blocking_issues ≡ []
    → (truth : Side) × (predictions : Side) × (o ≡ ok truth)
      × (p ≡ ok predictions)
      × IsPartition truth.1 predictions.1 v
unfolding load_side pair_result
pair_result-IsPartition (ok truth) (ok predictions) v h free = (
  truth,
  predictions,
  refl,
  refl,
  subst (IsPartition truth.1 predictions.1) (cc h)
      (compare_populations-IsPartition truth.1 predictions.1),
)
pair_result-IsPartition (ok truth) (raise (invalid_input code)) v h free = ground (arith, h, free)
pair_result-IsPartition (ok truth) (raise (unreadable_input e)) v h free = ground (arith, h, free)
pair_result-IsPartition (raise (invalid_input code)) p v h free = ground (arith, h, free)
pair_result-IsPartition (raise (unreadable_input e)) p v h free = ground (arith, h, free)

module _ (reader : Reader) (sha256 : String → String) where
  -- If `validate_retrieval_pair` returns without an issue, then both inputs were read, the records
  -- on either side are the matching queries and those listed as missing or as extra, and exactly
  -- the queries without predictions are missing and exactly those without ground truth are extra.
  pub validate_retrieval_pair-IsPartition :
      (ws truth_id predictions_id : String) (d : Disk) (v : RetrievalPairValidation)
      → validate_retrieval_pair reader sha256 ws truth_id predictions_id d ≡ ok v
      → v.blocking_issues ≡ []
      → (truth : InputManifest × Dict String (List String)) × (predictions : InputManifest
          × Dict String (List String))
        × (read_registered reader sha256 ws truth_id retrieval_ground_truth d ≡ ok truth)
        × (read_registered reader sha256 ws predictions_id retrieval_predictions d ≡ ok predictions)
        × IsPartition truth.1 predictions.1 v
  unfolding validate_retrieval_pair
  validate_retrieval_pair-IsPartition ws truth_id predictions_id d v h free =
      let (_, _, h1) = >>=-eq-ok (get_workspace ws d) _ h in
      pair_result-IsPartition (read_registered reader sha256 ws truth_id retrieval_ground_truth d)
        (read_registered reader sha256 ws predictions_id retrieval_predictions d) v h1 free
