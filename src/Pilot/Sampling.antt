-- ===== src/Pilot/Sampling.antt =====
-- src/evalops/pilot/sampling.py: the stratified sample of a pilot. Of models/hallucination.py, an example is what the
-- sampling reads of it. `Rng` is `random.Random`: a state, and `sample`.
use Prim.Native.String.{◌++◌ as append}
use evalops_lab.Common.{
  ℕ, String, Bool, not, ◌&&◌, ◌||◌, Option, none, some, List, [], ◌∷◌, ◌++◌, Result, ok, raise,
  ◌>>◌, raise_if, Dict, keys, lookup, insert, keep, length, map, member, unique, to_set, sort_by,
  str_lt, min, ltb, ◌==◌, string_eq, nat_eq, if◌then◌else◌,
}
use evalops_lab.Hallucination.Labels.{HallucinationLabel, grounded, hallucinated, label_eq}

-- `has_spans` is `bool(self.spans)`.
pub record HallucinationExample : Type 0 where
  pub example_id : String
  pub source_id : String
  pub task_type : String
  pub split : String
  pub quality : String
  pub has_spans : Bool

pub record PilotExampleMetadata : Type 0 where
  pub example_id : String
  pub source_id : String
  pub task_type : String
  pub human_label : HallucinationLabel
  pub stratum : String

pub record PilotManifest : Type 0 where
  pub pilot_id : String
  pub dataset_revision : String
  pub split : String
  pub quality_filter : List String
  pub sampling_seed : ℕ
  pub records : List PilotExampleMetadata

-- The ValueErrors, and the ValidationError of the manifest.
pub data SamplingError : Type 0 where
  bad_target empty_filter invalid_manifest : SamplingError

-- The pseudo-random numbers of the standard library.
pub record Rng : Type 1 where
  pub State : Type 0
  pub seeded : ℕ → State
  pub sample : State → List PilotExampleMetadata → ℕ → List PilotExampleMetadata × State

abbrev pub label_value : HallucinationLabel → String
label_value grounded = "GROUNDED"
label_value hallucinated = "HALLUCINATED"

-- `_stratum`
abbrev pub stratum_of : String → HallucinationLabel → String
stratum_of task label = append task (append ":" (label_value label))

-- `human_label(AnnotationPolicy.STRICT_GROUNDEDNESS)`
abbrev pub strict_label : HallucinationExample → HallucinationLabel
strict_label e = if e.has_spans then hallucinated else grounded

abbrev pub no_groups : Dict String (List PilotExampleMetadata)
no_groups =
    (stratum_of "QA" grounded, [])
    ∷ (stratum_of "QA" hallucinated, [])
    ∷ (stratum_of "Summary" grounded, [])
    ∷ (stratum_of "Summary" hallucinated, [])
    ∷ (stratum_of "Data2txt" grounded, [])
    ∷ (stratum_of "Data2txt" hallucinated, [])
    ∷ []

abbrev pub metadata_of : HallucinationExample → PilotExampleMetadata
metadata_of e = record {
  example_id = e.example_id;
  source_id = e.source_id;
  task_type = e.task_type;
  human_label = strict_label e;
  stratum = stratum_of e.task_type (strict_label e);
}

abbrev pub is_eligible : List String → HallucinationExample → Bool
is_eligible qualities e = e.split == "test" && member e.quality qualities

-- `if key in groups: groups[key].append(...)`
abbrev pub append_to :
    PilotExampleMetadata
    → Dict String (List PilotExampleMetadata)
    → Dict String (List PilotExampleMetadata)
append_to r groups = elim (lookup r.stratum groups) [
  | none ↦ groups
  | some old ↦ insert r.stratum (old ++ r ∷ []) groups
]

-- The loop over the eligible examples.
unfoldable pub fill_groups :
    Dict String (List PilotExampleMetadata)
    → List PilotExampleMetadata
    → Dict String (List PilotExampleMetadata)
fill_groups groups [] = groups
fill_groups groups (r ∷ rs) = fill_groups (append_to r groups) rs

abbrev pub group_at : String → Dict String (List PilotExampleMetadata) → List PilotExampleMetadata
group_at key groups = elim (lookup key groups) [ none ↦ [] | some rs ↦ rs ]

abbrev pub id_lt : PilotExampleMetadata → PilotExampleMetadata → Bool
id_lt a b = str_lt a.example_id b.example_id

-- By stratum, then identifier.
abbrev pub stratum_lt : PilotExampleMetadata → PilotExampleMetadata → Bool
stratum_lt a b = str_lt a.stratum b.stratum || a.stratum == b.stratum && id_lt a b

-- The loop over the sorted keys.
unfoldable pub sample_groups :
    (rng : Rng)
    → rng.State
    → ℕ
    → Dict String (List PilotExampleMetadata)
    → List String
    → List PilotExampleMetadata
sample_groups rng state target groups [] = []
sample_groups rng state target groups (key ∷ rest) =
    let candidates = sort_by id_lt (group_at key groups) in
    let drawn = rng.sample state candidates (min target (length candidates)) in
    drawn.0 ++ sample_groups rng drawn.1 target groups rest

abbrev pub selected :
    (rng : Rng) → ℕ → ℕ → Dict String (List PilotExampleMetadata) → List PilotExampleMetadata
selected rng seed target groups =
    sort_by stratum_lt
      (sample_groups rng (rng.seeded seed) target groups (sort_by str_lt (keys groups)))

abbrev pub ids_of : List PilotExampleMetadata → List String
ids_of rs = map (λ r. r.example_id) rs

-- The validation of PilotManifest.
abbrev pub is_invalid : PilotManifest → Bool
is_invalid m =
    m.pilot_id == ""
    || m.dataset_revision == ""
    || m.split == ""
    || length m.quality_filter == 0
    || length m.records == 0
    || not (unique (ids_of m.records))

unfoldable pub validate_manifest : PilotManifest → Result SamplingError PilotManifest
validate_manifest m = if is_invalid m then raise invalid_manifest else ok m

abbrev pub or_else : Option String → String → String
or_else none other = other
or_else (some s) other = if s == "" then other else s

-- The metadata of the eligible examples.
abbrev pub eligible : List HallucinationExample → List String → List PilotExampleMetadata
eligible examples qualities = map metadata_of (keep (is_eligible qualities) examples)

abbrev pub qualities_of : List String → List String
qualities_of quality_filter = sort_by str_lt (to_set quality_filter)

-- The manifest before its validation.
abbrev pub drafted :
    Rng
    → List HallucinationExample
    → String
    → ℕ
    → ℕ
    → Option String
    → String
    → List String
    → PilotManifest
drafted rng examples source_revision seed target revision pilot_id qualities = record {
  pilot_id = pilot_id;
  dataset_revision = or_else revision source_revision;
  split = "test";
  quality_filter = qualities;
  sampling_seed = seed;
  records = selected rng seed target (fill_groups no_groups (eligible examples qualities));
}

unfoldable pub build_pilot_manifest :
    Rng
    → List HallucinationExample
    → String
    → ℕ
    → ℕ
    → Option String
    → String
    → List String
    → Result SamplingError PilotManifest
unfolding fill_groups sample_groups validate_manifest
build_pilot_manifest rng examples source_revision seed target revision pilot_id quality_filter = do
  raise_if (ltb target 1) bad_target
  raise_if (length (qualities_of quality_filter) == 0) empty_filter
  validate_manifest (
      drafted rng examples source_revision seed target revision pilot_id
        (qualities_of quality_filter))

-- `manifest.strata`
abbrev pub strata : PilotManifest → List String
strata m = sort_by str_lt (to_set (map (λ r. r.stratum) m.records))

abbrev pub empty_groups : List String → Dict String (List PilotExampleMetadata)
empty_groups names = map (λ key. (key, [])) names

abbrev pub resampled : Rng → PilotManifest → ℕ → ℕ → PilotManifest
resampled rng m seed per_stratum = record m {
  pilot_id = append m.pilot_id "-consistency-v1";
  sampling_seed = seed;
  records = selected rng seed per_stratum (fill_groups (empty_groups (strata m)) m.records);
}

unfoldable pub build_consistency_manifest :
    Rng → PilotManifest → ℕ → ℕ → Result SamplingError PilotManifest
unfolding fill_groups sample_groups validate_manifest
build_consistency_manifest rng m seed per_stratum = do
  raise_if (ltb per_stratum 1) bad_target
  validate_manifest (resampled rng m seed per_stratum)
