-- ===== src/Comparison/Archive/Undo.antt =====
-- The `except` of `save_comparison_record` of src/evalops/workspace/storage.py, on a device that works.
use evalops_lab.Common.{
  ℕ, ◌+◌, ◌≤◌, ◌≡◌, refl, sym, ap, ◌∙◌, subst, false, Option, none, some, List, [], ◌∷◌, Result, ok,
  Dict, lookup, erase, lookup-insert, lookup-insert_self, lookup-erase, ==_refl, arith,
}
use evalops_lab.Comparison.Archive.{files_of, files_at, or_no_files, no_files}
use evalops_lab.Comparison.Archive.Saving.{
  put_folder, NewFile, without_file, undo, unlink_created, without_created, remove_directory,
  ignored,
}
use evalops_lab.Comparison.Archive.Kept.{KeepsRest, KeepsRest-self, KeepsRest-trans}
use evalops_lab.Storage.Disk.{
  StoreError, Key, key_eq, ComparisonFiles, ComparisonChild, folder, Disk, atomic_write,
}
use evalops_lab.Storage.Actions.{return, >>=-ok, atomic_write-ok}

-- No write is refused from here on.
abbrev pub WorksOn : Disk → Type 0
WorksOn d = (n : ℕ) → d.written ≤ n → d.faults n ≡ false

-- The files after those created are taken away.
abbrev pub undone : List NewFile → ComparisonFiles → ComparisonFiles
undone [] f = f
undone (n ∷ created) f = undone created (without_file n f)

-- The outcome of a step that keeps the rest: the files that are there then, and the device works on.
record Leaves (k : Key) (f : ComparisonFiles) (d d' : Disk) : Type 0 where
  found : lookup k d'.comparisons ≡ some (folder f)
  kept : KeepsRest k d d'
  works : WorksOn d'

unlink-Leaves :
    (k : Key) (n : NewFile) (f : ComparisonFiles) (d : Disk)
    → lookup k d.comparisons ≡ some (folder f)
    → WorksOn d
    → (d' : Disk) × (atomic_write (without_created k n) d ≡ (ok tt, d'))
      × Leaves k (without_file n f) d d'
unlink-Leaves k n f d found works =
    let counted : Disk = record d { written = d.written + 1 } in
    let g = without_file n (files_at k d) in
    let same : g ≡ without_file n f =
      ap (λ (o : Option ComparisonChild). without_file n (or_no_files (files_of o))) found in
    (
      put_folder k g counted,
      atomic_write-ok (without_created k n) d (works d.written (omega arith)),
      record {
        found =
            lookup-insert_self {K = Key} k (folder g) d.comparisons
            ∙ ap (λ x. some (folder x)) same;
        kept = record {
          others = λ j h. ground (arith, h, lookup-insert {K = Key} k j (folder g) d.comparisons);
          rest = refl;
        };
        works = λ m h. works m (omega arith);
      },
    )

unlink_created-Leaves :
    (k : Key) (created : List NewFile) (f : ComparisonFiles) (d : Disk)
    → lookup k d.comparisons ≡ some (folder f)
    → WorksOn d
    → (d' : Disk) × (unlink_created k created d ≡ (ok tt, d')) × Leaves k (undone created f) d d'
unfolding unlink_created return
unlink_created-Leaves k [] f d found works =
    (d, refl, record { found = found; kept = KeepsRest-self k d; works = works })
unlink_created-Leaves k (n ∷ created) f d found works =
    let (d1, one, l1) = unlink-Leaves k n f d found works in
    let (d2, more, l2) = unlink_created-Leaves k created (without_file n f) d1 l1.found l1.works in
    (
      d2,
      >>=-ok (atomic_write (without_created k n)) (λ _. unlink_created k created) d one ∙ more,
      record {
        found = l2.found;
        kept = KeepsRest-trans k d d1 d2 l1.kept l2.kept;
        works = l2.works;
      },
    )

-- The comparison is not there, and the rest is as before.
pub record IsUndone (k : Key) (d d' : Disk) : Type 0 where
  pub gone : files_at k d' ≡ no_files
  pub kept : KeepsRest k d d'

erased : (k : Key) (c : Dict Key ComparisonChild) → lookup k (erase k c) ≡ none
erased k c = ground (arith, lookup-erase {K = Key} k k c, ==_refl k)

remove_directory-IsUndone :
    (k : Key) (f : ComparisonFiles) (d : Disk)
    → lookup k d.comparisons ≡ some (folder f)
    → f ≡ no_files
    → WorksOn d
    → (d' : Disk) × (remove_directory k d ≡ (ok tt, d')) × IsUndone k d d'
unfolding remove_directory
remove_directory-IsUndone k f d found empty works =
    let removed : Disk = record d {
      written = d.written + 1;
      comparisons = erase k d.comparisons;
    } in
    (
      removed,
      rw (found, remove_directory)
          (rw empty (
            ap ignored (
              atomic_write-ok (λ e. record e { comparisons = erase k e.comparisons }) d
                (works d.written (omega arith))))),
      record {
        gone =
            ap (λ (o : Option ComparisonChild). or_no_files (files_of o)) (erased k d.comparisons);
        kept = record {
          others = λ j h. ground (arith, h, lookup-erase {K = Key} k j d.comparisons);
          rest = refl;
        };
      },
    )

pub undo-IsUndone :
    (k : Key) (created : List NewFile) (f : ComparisonFiles) (e : StoreError) (d d' : Disk)
    (o : Result StoreError (Unit {0}))
    → lookup k d.comparisons ≡ some (folder f)
    → undone created f ≡ no_files
    → WorksOn d
    → undo k created e d ≡ (o, d')
    → IsUndone k d d'
unfolding undo
undo-IsUndone k created f e d d' o found empty works h =
    let (d1, unlinks, l) = unlink_created-Leaves k created f d found works in
    let (d2, removes, r) =
      remove_directory-IsUndone k (undone created f) d1 l.found empty l.works in
    let ends =
      >>=-ok (unlink_created k created) _ d unlinks ∙ >>=-ok (remove_directory k) _ d1 removes in
    let same : d2 ≡ d' = ap (λ (x : Result StoreError (Unit {0}) × Disk). x.1) (sym ends ∙ h) in
    subst (IsUndone k d) same
      (record { gone = r.gone; kept = KeepsRest-trans k d d1 d2 l.kept r.kept })
