-- ===== src/Pilot/Balanced.antt =====
-- The samples of src/evalops/pilot/sampling.py are balanced over the strata.

use evalops_lab.Common.{
  ℕ, ◌≤◌, String, ◌≡◌, refl, ap, ◌∙◌, subst, Bool, true, ◌&&◌, Option, some, Bool-cases, inl, inr,
  List, [], ◌∷◌, ok, Dict, keys, lookup, keep, count, length, map, All, All-map, All-sort_by,
  member, unique, to_set, sort_by, str_lt, min, ltb, count-sort_by, unique-sort_by, unique-to_set,
  member-sort_by, All-member_self, ◌==◌, string_eq, nat_eq, arith, >>=-eq-ok, raise_if,
  if◌then◌else◌,
}
use evalops_lab.Pilot.Sampling.{
  HallucinationExample, PilotExampleMetadata, PilotManifest, SamplingError, bad_target, Rng,
  fill_groups, group_at, stratum_lt, sample_groups, selected, no_groups, eligible, qualities_of,
  drafted, empty_groups, resampled, ids_of, validate_manifest, strata, is_invalid,
  build_pilot_manifest, build_consistency_manifest,
}
use evalops_lab.Pilot.Groups.{RngLaws, is_in, lookup-fill_groups, keys-fill_groups}
use evalops_lab.Pilot.Drawn.{Grouped, count-sample_groups, sample_groups-within}

count_among :
    (p : PilotExampleMetadata → Bool) (ks : List String) (rs : List PilotExampleMetadata)
    → count (λ r. p r && member r.stratum ks) rs ≤ count p rs
count_among p ks [] = omega arith
count_among p ks (r ∷ rs) = ground (arith, count_among p ks rs)

module _ (rng : Rng) (laws : RngLaws rng) (target : ℕ) (rs : List PilotExampleMetadata) where
  -- The groups of a dict whose groups were empty.
  filled-Grouped :
      (groups : Dict String (List PilotExampleMetadata)) (ks : List String)
      → All (λ k. lookup k groups ≡ some []) ks
      → Grouped rng laws target rs (fill_groups groups rs) ks
  filled-Grouped groups ks h =
      All-map {Q = λ k. group_at k (fill_groups groups rs) ≡ keep (is_in k) rs}
        (λ k found. rw (lookup-fill_groups k groups rs [] found, group_at) refl) ks h

  -- A sample of the records from the groups of a dict.
  pub record IsSample (ks : List String) (sample : List PilotExampleMetadata) : Type 0 where
    pub balanced :
        (k : String)
        → count (is_in k) sample ≡ (if member k ks then min target (count (is_in k) rs) else 0)
    pub within : (p : PilotExampleMetadata → Bool) → count p sample ≤ count p rs

  pub selected-IsSample :
      (seed : ℕ) (groups : Dict String (List PilotExampleMetadata))
      → unique (keys groups) ≡ true
      → All (λ k. lookup k groups ≡ some []) (keys groups)
      → IsSample (keys groups) (selected rng seed target (fill_groups groups rs))
  selected-IsSample seed groups u empty =
      let filled = fill_groups groups rs in
      let ks = sort_by str_lt (keys groups) in
      let same : sort_by str_lt (keys filled) ≡ ks =
        ap (sort_by str_lt) (keys-fill_groups groups rs) in
      let grouped =
        filled-Grouped groups ks
          (All-sort_by (λ k. lookup k groups ≡ some []) str_lt (keys groups) empty) in
      let distinct = unique-sort_by str_lt (keys groups) u in
      let drawn_from = sample_groups rng (rng.seeded seed) target filled ks in
      let e : selected rng seed target filled ≡ sort_by stratum_lt drawn_from =
        ap
          (λ (xs : List String).
            sort_by stratum_lt (sample_groups rng (rng.seeded seed) target filled xs))
          same in
      record {
        balanced = λ k.
            ap (count (is_in k)) e
            ∙ count-sort_by stratum_lt (is_in k) drawn_from
            ∙ count-sample_groups rng laws target rs filled (rng.seeded seed) k ks distinct grouped
            ∙ rw (member-sort_by str_lt k (keys groups)) refl;
        within = λ p. omega (
          arith,
          ap (count p) e,
          count-sort_by stratum_lt p drawn_from,
          sample_groups-within rng laws target rs filled (rng.seeded seed) p ks distinct grouped,
          count_among p ks rs,
        );
      }

validate_manifest-eq-ok :
    (m n : PilotManifest)
    → validate_manifest m ≡ ok n
    → (m ≡ n) × (unique (ids_of m.records) ≡ true)
unfolding validate_manifest
validate_manifest-eq-ok m n h = elim (Bool-cases (is_invalid m)) [
  | inl bad ↦ cc (rw bad at h)
  | inr valid ↦ (cc (rw valid at h), ground (arith, valid))
]

ltb_positive : (n : ℕ) → raise_if {E = SamplingError} (ltb n 1) bad_target ≡ ok tt → 1 ≤ n
ltb_positive n h = ground (arith, h)

keys-empty_groups : (ks : List String) → keys (empty_groups ks) ≡ ks
keys-empty_groups [] = refl
keys-empty_groups (k ∷ ks) = ap (λ (x : List String). k ∷ x) (keys-empty_groups ks)

lookup-empty_groups :
    (k : String) (ks : List String) → member k ks ≡ true → lookup k (empty_groups ks) ≡ some []
lookup-empty_groups k [] h = cc h
lookup-empty_groups k (j ∷ ks) h = ground (arith, h, lookup-empty_groups k ks)

All-empty_groups :
    (ks : List String) → All (λ k. lookup k (empty_groups ks) ≡ some []) (keys (empty_groups ks))
All-empty_groups ks = rw (keys-empty_groups ks) (
    All-map {Q = λ k. lookup k (empty_groups ks) ≡ some []} (λ k h. lookup-empty_groups k ks h) ks
      (All-member_self ks))

no_groups-empty : All (λ k. lookup k no_groups ≡ some []) (keys no_groups)
no_groups-empty = (refl, (refl, (refl, (refl, (refl, (refl, tt))))))

module _ (rng : Rng) (laws : RngLaws rng) where
  -- If `random.sample` draws as many elements as it is asked for and none more often than it
  -- occurs, and `build_pilot_manifest` returns a manifest, then the target is positive, no
  -- identifier stands there twice, each of the six strata has as many records as the target, or
  -- all its eligible examples if there are fewer, no other stratum has any, and every record is of
  -- an eligible example.
  pub build_pilot_manifest-IsSample :
      (examples : List HallucinationExample) (source : String) (seed target : ℕ)
      (revision : Option String) (id : String) (quality_filter : List String) (m : PilotManifest)
      → build_pilot_manifest rng examples source seed target revision id quality_filter ≡ ok m
      → (1 ≤ target)
        × (unique (ids_of m.records) ≡ true)
        × IsSample rng laws target
            (eligible examples (qualities_of quality_filter))
            (keys no_groups)
            m.records
  unfolding build_pilot_manifest
  build_pilot_manifest-IsSample examples source seed target revision id quality_filter m h =
      let qualities = qualities_of quality_filter in
      let draft = drafted rng examples source seed target revision id qualities in
      let (_, positive, h1) = >>=-eq-ok (raise_if (ltb target 1) _) _ h in
      let (_, _, h2) = >>=-eq-ok (raise_if (length qualities == 0) _) _ h1 in
      let (same, distinct) = validate_manifest-eq-ok draft m h2 in
      (
        ltb_positive target positive,
        subst (λ (x : PilotManifest). unique (ids_of x.records) ≡ true) same distinct,
        subst
            (λ (x : PilotManifest).
              IsSample rng laws target (eligible examples qualities) (keys no_groups) x.records)
            same
            (selected-IsSample rng laws target (eligible examples qualities) seed no_groups refl
              no_groups-empty),
      )

  -- The same for the sample of a manifest: each of its strata has as many records as asked for, or
  -- all that the manifest has of it.
  pub build_consistency_manifest-IsSample :
      (m : PilotManifest) (seed per_stratum : ℕ) (n : PilotManifest)
      → build_consistency_manifest rng m seed per_stratum ≡ ok n
      → (1 ≤ per_stratum)
        × (unique (ids_of n.records) ≡ true)
        × IsSample rng laws per_stratum m.records (strata m) n.records
  unfolding build_consistency_manifest
  build_consistency_manifest-IsSample m seed per_stratum n h =
      let (_, positive, h1) = >>=-eq-ok (raise_if (ltb per_stratum 1) _) _ h in
      let (same, distinct) = validate_manifest-eq-ok (resampled rng m seed per_stratum) n h1 in
      let named = keys-empty_groups (strata m) in
      (
        ltb_positive per_stratum positive,
        subst (λ (x : PilotManifest). unique (ids_of x.records) ≡ true) same distinct,
        subst (λ (x : PilotManifest). IsSample rng laws per_stratum m.records (strata m) x.records)
            same
            (subst
              (λ (ks : List String).
                IsSample rng laws per_stratum m.records ks
                  (selected rng seed per_stratum (fill_groups (empty_groups (strata m)) m.records)))
              named
              (selected-IsSample rng laws per_stratum m.records seed (empty_groups (strata m))
                (rw named (
                  unique-sort_by str_lt (to_set (map (λ r. r.stratum) m.records))
                    (unique-to_set (map (λ r. r.stratum) m.records))))
                (All-empty_groups (strata m)))),
      )
