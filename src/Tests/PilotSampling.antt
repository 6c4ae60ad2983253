-- ===== src/Tests/PilotSampling.antt =====
-- The theorems of Pilot/Balanced and Pilot/Provenance at small inputs.
use evalops_lab.Common.{
  ℕ, zero, suc, ◌≤◌, String, ◌≡◌, refl, Bool, true, false, none, some, List, [], ◌∷◌, length, count,
  take, keys, unique, string_eq, arith,
}
use evalops_lab.Pilot.Sampling.{
  HallucinationExample, PilotExampleMetadata, PilotManifest, Rng, drafted, eligible, qualities_of,
  no_groups, ids_of, fill_groups, sample_groups, validate_manifest, build_pilot_manifest,
}
use evalops_lab.Pilot.Groups.{RngLaws}
use evalops_lab.Pilot.Balanced.{IsSample, build_pilot_manifest-IsSample}
use evalops_lab.Pilot.Provenance.{
  IsContinuous, fail, observe_model_version, observe_version, observe_versions, resuming,
  continuity_status, observe_versions-IsContinuous,
}

-- Numbers that always draw the first elements.
abbrev first_ones : Rng
first_ones = record { State = ℕ; seeded = λ seed. seed; sample = λ s xs k. (take k xs, s) }

length-take : (k : ℕ) (xs : List PilotExampleMetadata) → k ≤ length xs → length (take k xs) ≡ k
length-take zero xs h = refl
length-take (suc k) [] h = absurd (omega arith)
length-take (suc k) (x ∷ xs) h = omega (arith, length-take k xs)

count-take :
    (p : PilotExampleMetadata → Bool) (k : ℕ) (xs : List PilotExampleMetadata)
    → count p (take k xs) ≤ count p xs
count-take p zero xs = omega arith
count-take p (suc k) [] = omega arith
count-take p (suc k) (x ∷ xs) = ground (arith, count-take p k xs)

first_ones_laws : RngLaws first_ones
first_ones_laws = record {
  drawn_length = λ s xs k h. length-take k xs h;
  drawn_within = λ s xs k p. count-take p k xs;
}

abbrev example : String → Bool → HallucinationExample
example id spans = record {
  example_id = id;
  source_id = "s";
  task_type = "QA";
  split = "test";
  quality = "good";
  has_spans = spans;
}

abbrev examples : List HallucinationExample
examples = example "b" true ∷ example "a" true ∷ example "c" false ∷ []

abbrev manifest : PilotManifest
manifest = drafted first_ones examples "r1" 7 1 none "pilot" (qualities_of ("good" ∷ []))

build_pilot_manifest-IsSample_example :
    (1 ≤ 1)
    × (unique (ids_of manifest.records) ≡ true)
    × IsSample first_ones first_ones_laws 1
        (eligible examples (qualities_of ("good" ∷ [])))
        (keys no_groups)
        manifest.records
unfolding build_pilot_manifest fill_groups sample_groups validate_manifest
build_pilot_manifest-IsSample_example =
    build_pilot_manifest-IsSample first_ones first_ones_laws examples "r1" 7 1 none "pilot"
      ("good" ∷ []) manifest refl

observe_versions-IsContinuous_example :
    IsContinuous
      ("v1" ∷ [])
      (observe_versions (some "v1" ∷ some "v2" ∷ none ∷ []) (resuming ("v1" ∷ [])))
    × (continuity_status
          (observe_versions (some "v1" ∷ some "v2" ∷ none ∷ []) (resuming ("v1" ∷ [])))
        ≡ fail)
unfolding observe_versions observe_model_version observe_version
observe_versions-IsContinuous_example =
    observe_versions-IsContinuous ("v1" ∷ []) (some "v1" ∷ []) (some "v2") (none ∷ []) refl
