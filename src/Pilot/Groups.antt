-- ===== src/Pilot/Groups.antt =====
-- The groups of src/evalops/pilot/sampling.py, and what is drawn from them.
use evalops_lab.Common.{
  ℕ, ◌+◌, ◌≤◌, String, ◌≡◌, refl, sym, ap, ◌∙◌, Bool, false, Option, none, some, Bool-cases, inl,
  inr, List, [], ◌∷◌, ◌++◌, Dict, keys, lookup, insert, lookup-insert, keep, count, length, ◌==◌,
  ==_iff, string_eq, arith, if◌then◌else◌,
}
use mathlib.Core.List.{append_assoc, append-nil}
use evalops_lab.Pilot.Sampling.{PilotExampleMetadata, Rng, append_to, fill_groups}

-- What `random.sample` promises: it draws as many as it is asked for, if there are so many, and no
-- element more often than it occurs.
pub record RngLaws (rng : Rng) : Type 1 where
  pub drawn_length :
      (s : rng.State) (xs : List PilotExampleMetadata) (k : ℕ)
      → k ≤ length xs
      → length (rng.sample s xs k).0 ≡ k
  pub drawn_within :
      (s : rng.State) (xs : List PilotExampleMetadata) (k : ℕ) (p : PilotExampleMetadata → Bool)
      → count p (rng.sample s xs k).0 ≤ count p xs

abbrev pub is_in : String → PilotExampleMetadata → Bool
is_in key r = r.stratum == key

pub count-append :
    {A : Type 0} (p : A → Bool) (xs ys : List A) → count p (xs ++ ys) ≡ count p xs + count p ys
count-append p [] ys = omega arith
count-append p (x ∷ xs) ys = ground (arith, count-append p xs ys)

grown : String → PilotExampleMetadata → List PilotExampleMetadata → List PilotExampleMetadata
grown key r old = if is_in key r then old ++ r ∷ [] else old

lookup-append_to :
    (key : String) (r : PilotExampleMetadata) (groups : Dict String (List PilotExampleMetadata))
    (old : List PilotExampleMetadata)
    → lookup key groups ≡ some old
    → lookup key (append_to r groups) ≡ some (grown key r old)
unfolding grown
lookup-append_to key r groups old found = go (lookup r.stratum groups) refl
  where
    go :
        (o : Option (List PilotExampleMetadata))
        → lookup r.stratum groups ≡ o
        → lookup key (elim o [ none ↦ groups | some xs ↦ insert r.stratum (xs ++ r ∷ []) groups ])
          ≡ some (grown key r old)
    go none gone = elim (Bool-cases (r.stratum == key)) [
      | inl same ↦
          cc (
            sym gone ∙ ap (λ (k : String). lookup k groups) ((==_iff r.stratum key).0 same) ∙ found)
      | inr other ↦ rw other found
    ]
    go (some xs) here = elim (Bool-cases (r.stratum == key)) [
      | inl same ↦
          let e : r.stratum ≡ key = (==_iff r.stratum key).0 same in
          let full : xs ≡ old = cc (sym here ∙ ap (λ (k : String). lookup k groups) e ∙ found) in
          lookup-insert r.stratum key (xs ++ r ∷ []) groups
          ∙ rw (same, (==_iff key r.stratum).1 (sym e), full) refl
      | inr other ↦
          let apart : (key == r.stratum) ≡ false =
            ground (arith, other, ==_iff key r.stratum, ==_iff r.stratum key) in
          lookup-insert r.stratum key (xs ++ r ∷ []) groups ∙ rw (apart, other) found
    ]

-- A group that is there is filled with the records of its stratum, in order.
pub lookup-fill_groups :
    (key : String) (groups : Dict String (List PilotExampleMetadata))
    (rs old : List PilotExampleMetadata)
    → lookup key groups ≡ some old
    → lookup key (fill_groups groups rs) ≡ some (old ++ keep (is_in key) rs)
unfolding fill_groups grown
lookup-fill_groups key groups [] old found = rw (append-nil old) found
lookup-fill_groups key groups (r ∷ rs) old found =
    let next =
      lookup-fill_groups key (append_to r groups) rs (grown key r old)
        (lookup-append_to key r groups old found) in
    elim (Bool-cases (r.stratum == key)) [
      | inl same ↦ rw same (
          rw same at next
          ∙ ap (λ (x : List PilotExampleMetadata). some x)
              (append_assoc old (r ∷ []) (keep (is_in key) rs)))
      | inr other ↦ rw other (rw other at next)
    ]

-- Filling adds no group.
keys-insert_known :
    (k : String) (v : List PilotExampleMetadata) (d : Dict String (List PilotExampleMetadata))
    (old : List PilotExampleMetadata)
    → lookup k d ≡ some old
    → keys (insert k v d) ≡ keys d
keys-insert_known k v [] old h = cc h
keys-insert_known k v ((j, w) ∷ d) old h = ground (arith, h, keys-insert_known k v d old)

keys-append_to :
    (r : PilotExampleMetadata) (groups : Dict String (List PilotExampleMetadata))
    → keys (append_to r groups) ≡ keys groups
keys-append_to r groups = go (lookup r.stratum groups) refl
  where
    go :
        (o : Option (List PilotExampleMetadata))
        → lookup r.stratum groups ≡ o
        → keys (elim o [ none ↦ groups | some xs ↦ insert r.stratum (xs ++ r ∷ []) groups ])
          ≡ keys groups
    go none gone = refl
    go (some xs) here = keys-insert_known r.stratum (xs ++ r ∷ []) groups xs here

pub keys-fill_groups :
    (groups : Dict String (List PilotExampleMetadata)) (rs : List PilotExampleMetadata)
    → keys (fill_groups groups rs) ≡ keys groups
unfolding fill_groups
keys-fill_groups groups [] = refl
keys-fill_groups groups (r ∷ rs) =
    keys-fill_groups (append_to r groups) rs ∙ keys-append_to r groups
