-- ===== src/Pilot/Drawn.antt =====
-- What `random.sample` draws from the strata of src/evalops/pilot/sampling.py.

use evalops_lab.Common.{
  ℕ, ◌+◌, ◌≤◌, String, ◌≡◌, refl, sym, ap, ◌∙◌, subst, Bool, true, false, not, ◌&&◌, Bool-cases,
  inl, inr, List, [], ◌∷◌, ◌++◌, Dict, keep, count, length, All, member, unique, sort_by, min,
  count-not, count-sort_by, length-sort_by, length-keep, ◌==◌, ==_iff, string_eq, nat_eq, arith,
  if◌then◌else◌,
}
use evalops_lab.Pilot.Sampling.{PilotExampleMetadata, Rng, group_at, id_lt, sample_groups}
use evalops_lab.Pilot.Groups.{RngLaws, is_in, count-append}

count_other :
    (j k : String) (rs : List PilotExampleMetadata)
    → (j == k) ≡ false
    → count (is_in j) (keep (is_in k) rs) ≡ 0
count_other j k [] h = refl
count_other j k (r ∷ rs) h =
    ground (arith, h, ==_iff r.stratum j, ==_iff r.stratum k, ==_iff j k, count_other j k rs)

count_outside :
    (k : String) (rs : List PilotExampleMetadata)
    → count (λ r. not (is_in k r)) (keep (is_in k) rs) ≡ 0
count_outside k [] = refl
count_outside k (r ∷ rs) = ground (arith, count_outside k rs)

-- What the records of one stratum and of others are together.
count_split :
    (p : PilotExampleMetadata → Bool) (k : String) (ks : List String)
    (rs : List PilotExampleMetadata)
    → member k ks ≡ false
    → count p (keep (is_in k) rs) + count (λ r. p r && member r.stratum ks) rs
      ≡ count (λ r. p r && member r.stratum (k ∷ ks)) rs
count_split p k ks [] h = refl
count_split p k ks (r ∷ rs) h = ground (arith, h, ==_iff r.stratum k, count_split p k ks rs)

module _ (rng : Rng) (laws : RngLaws rng) (target : ℕ) (rs : List PilotExampleMetadata) where
  -- What is drawn from one stratum.
  drawn : rng.State → String → List PilotExampleMetadata
  drawn s k =
      let candidates = sort_by id_lt (keep (is_in k) rs) in
      (rng.sample s candidates (min target (length candidates))).0

  length-drawn : (s : rng.State) (k : String) → length (drawn s k) ≡ min target (count (is_in k) rs)
  unfolding drawn
  length-drawn s k =
      let candidates = sort_by id_lt (keep (is_in k) rs) in
      omega (
        arith,
        laws.drawn_length s candidates (min target (length candidates)) (omega arith),
        length-sort_by id_lt (keep (is_in k) rs),
        length-keep (is_in k) rs,
      )

  drawn-within :
      (s : rng.State) (k : String) (p : PilotExampleMetadata → Bool)
      → count p (drawn s k) ≤ count p (keep (is_in k) rs)
  unfolding drawn
  drawn-within s k p =
      let candidates = sort_by id_lt (keep (is_in k) rs) in
      omega (
        arith,
        laws.drawn_within s candidates (min target (length candidates)) p,
        count-sort_by id_lt p (keep (is_in k) rs),
      )

  drawn_own :
      (s : rng.State) (k : String) → count (is_in k) (drawn s k) ≡ min target (count (is_in k) rs)
  drawn_own s k = omega (
    arith,
    length-drawn s k,
    count-not (is_in k) (drawn s k),
    drawn-within s k (λ r. not (is_in k r)),
    count_outside k rs,
  )

  drawn_other : (s : rng.State) (j k : String) → (j == k) ≡ false → count (is_in j) (drawn s k) ≡ 0
  drawn_other s j k h = omega (arith, drawn-within s k (is_in j), count_other j k rs h)

  module _ (groups : Dict String (List PilotExampleMetadata)) where
    abbrev pub Grouped : List String → Type 0
    Grouped ks = All (λ k. group_at k groups ≡ keep (is_in k) rs) ks

    sample_groups-cons :
        (s : rng.State) (k : String) (ks : List String)
        → group_at k groups ≡ keep (is_in k) rs
        → (s' : rng.State) × (sample_groups rng s target groups (k ∷ ks)
            ≡ drawn s k ++ sample_groups rng s' target groups ks)
    unfolding sample_groups drawn
    sample_groups-cons s k ks h =
        let candidates = sort_by id_lt (keep (is_in k) rs) in
        ((rng.sample s candidates (min target (length candidates))).1, rw h refl)

    -- Of every stratum as many as are asked for, or all there are.
    pub count-sample_groups :
        (s : rng.State) (j : String) (ks : List String)
        → unique ks ≡ true
        → Grouped ks
        → count (is_in j) (sample_groups rng s target groups ks)
          ≡ (if member j ks then min target (count (is_in j) rs) else 0)
    unfolding sample_groups
    count-sample_groups s j [] u g = refl
    count-sample_groups s j (k ∷ ks) u g =
        let (s', e) = sample_groups-cons s k ks g.0 in
        let rest = count-sample_groups s' j ks (ground (arith, u)) g.1 in
        let parts =
          ap (count (is_in j)) e
          ∙ count-append (is_in j) (drawn s k) (sample_groups rng s' target groups ks) in
        elim (Bool-cases (j == k)) [
          | inl same ↦
              let here : j ≡ k = (==_iff j k).0 same in
              let gone : member j ks ≡ false = rw here (ground (arith, u)) in
              let own : count (is_in j) (drawn s k) ≡ min target (count (is_in j) rs) =
                subst
                  (λ (x : String). count (is_in x) (drawn s k) ≡ min target (count (is_in x) rs))
                  (sym here) (drawn_own s k) in
              rw same (omega (arith, parts, own, rw gone at rest))
          | inr other ↦ rw other (ground (arith, parts, rest, drawn_other s j k other))
        ]

    pub sample_groups-within :
        (s : rng.State) (p : PilotExampleMetadata → Bool) (ks : List String)
        → unique ks ≡ true
        → Grouped ks
        → count p (sample_groups rng s target groups ks)
          ≤ count (λ r. p r && member r.stratum ks) rs
    unfolding sample_groups
    sample_groups-within s p [] u g = omega arith
    sample_groups-within s p (k ∷ ks) u g =
        let (s', e) = sample_groups-cons s k ks g.0 in
        let rest = sample_groups-within s' p ks (ground (arith, u)) g.1 in
        let parts =
          ap (count p) e ∙ count-append p (drawn s k) (sample_groups rng s' target groups ks) in
        let first : member k ks ≡ false = ground (arith, u) in
        omega (arith, parts, rest, drawn-within s k p, count_split p k ks rs first)
