-- ===== src/Comparison/Archive/Kept.antt =====
-- What the creation of a comparison's files in src/evalops/workspace/storage.py leaves, and leaves alone.
use evalops_lab.Common.{
  ◌+◌, String, ◌≡◌, ◌≢◌, refl, sym, ap, ◌∙◌, subst, false, not, some, List, [], ◌∷◌, Result, ok,
  raise, lookup, lookup-insert, lookup-insert_self, ◌==◌, arith,
}
use evalops_lab.Comparison.Archive.{comparison_path, comparisons_directory, files_of, no_files}
use evalops_lab.Comparison.Archive.Saving.{
  put_folder, NewFile, is_there, with_file, create_file, create_files, created_or, undo, is_empty,
}
use evalops_lab.Storage.Disk.{StoreError, Key, key_eq, ComparisonFiles, folder, Disk}
use evalops_lab.Storage.Actions.{>>=-eq-ok, atomic_create-eq-ok}
use evalops_lab.Storage.Workspaces.{get_workspace}

-- Nothing but the comparison at a key, and the count of writes, differs.
pub record KeepsRest (k : Key) (d d' : Disk) : Type 0 where
  pub others : (j : Key) → (j == k) ≡ false → lookup j d'.comparisons ≡ lookup j d.comparisons
  pub rest : ◌≡◌ {A = Disk} (record d' { comparisons = d.comparisons; written = d.written }) d

pub KeepsRest-self : (k : Key) (d : Disk) → KeepsRest k d d
KeepsRest-self k d = record { others = λ j h. refl; rest = refl }

pub KeepsRest-trans :
    (k : Key) (d d1 d2 : Disk) → KeepsRest k d d1 → KeepsRest k d1 d2 → KeepsRest k d d2
KeepsRest-trans k d d1 d2 a b = record {
  others = λ j h. b.others j h ∙ a.others j h;
  rest =
      ap (λ (x : Disk). record x { comparisons = d.comparisons; written = d.written }) b.rest
      ∙ a.rest;
}

-- A folder put at the key.
pub put_folder-KeepsRest :
    (k : Key) (f g : ComparisonFiles) (d : Disk)
    → KeepsRest k d (put_folder k g (record (put_folder k f d) { written = d.written + 1 }))
put_folder-KeepsRest k f g d = record {
  others = λ j h. ground (
    arith,
    h,
    lookup-insert {K = Key} k j (folder f) d.comparisons,
    lookup-insert {K = Key} k j (folder g) (put_folder k f d).comparisons,
  );
  rest = refl;
}

-- The guards of the path read nothing that differs.
pub comparison_path-KeepsRest :
    (k : Key) (ws id : String) (d d' : Disk)
    → KeepsRest k d d'
    → comparison_path ws id d' ≡ comparison_path ws id d
unfolding comparison_path comparisons_directory get_workspace
comparison_path-KeepsRest k ws id d d' same = ap (comparison_path ws id) same.rest

-- The files after all of a list are there.
abbrev pub with_files : List NewFile → ComparisonFiles → ComparisonFiles
with_files [] f = f
with_files (n ∷ rest) f = with_files rest (with_file n f)

created_or-eq-ok :
    (next : Unit {0} → Disk → Result StoreError (Unit {0}) × Disk)
    (handler : StoreError → Disk → Result StoreError (Unit {0}) × Disk)
    (o : Result StoreError (Unit {0}) × Disk) {d' : Disk}
    → ((e : StoreError) (d : Disk) → handler e d ≢ (ok tt, d'))
    → created_or next handler o ≡ (ok tt, d')
    → (d : Disk) × (o ≡ (ok tt, d)) × (next tt d ≡ (ok tt, d'))
created_or-eq-ok next handler (ok u, d) raises h = (d, refl, h)
created_or-eq-ok next handler (raise e, d) raises h = absurd (raises e d h)

raised :
    (e : StoreError) (d d' : Disk)
    → ◌≢◌ {A = Result StoreError (Unit {0}) × Disk} (raise e, d) (ok tt, d')
raised e d d' h = cc (ap (λ (x : Result StoreError (Unit {0}) × Disk). x.0) h)

-- The handler never returns.
pub undo-raises :
    (k : Key) (created : List NewFile) (e : StoreError) (d d' : Disk)
    → undo k created e d ≢ (ok tt, d')
unfolding undo
undo-raises k created e d d' h =
    let (_, d1, _, h1) = >>=-eq-ok _ _ d h in
    let (_, d2, _, h2) = >>=-eq-ok _ _ d1 h1 in raised e d2 d' h2

-- A file that was created.
pub create_file-eq-ok :
    (k : Key) (n : NewFile) (f : ComparisonFiles) (d d' : Disk)
    → files_of (lookup k d.comparisons) ≡ some f
    → create_file k n d ≡ (ok tt, d')
    → (is_there n f ≡ false)
      × (files_of (lookup k d'.comparisons) ≡ some (with_file n f))
      × KeepsRest k d d'
unfolding create_file
create_file-eq-ok k n f d d' found h =
    let (free, left) = atomic_create-eq-ok _ _ (put_folder k f d) (rw (found, create_file) at h) in
    (
      free,
      rw left (
          ap files_of (
            lookup-insert_self {K = Key} k (folder (with_file n f))
              (put_folder k f d).comparisons)),
      subst (KeepsRest k d) (sym left) (put_folder-KeepsRest k f (with_file n f) d),
    )

-- If the creation returns, all files are there.
pub create_files-eq-ok :
    (k : Key) (created rest : List NewFile) (f : ComparisonFiles) (d d' : Disk)
    → files_of (lookup k d.comparisons) ≡ some f
    → create_files k created rest d ≡ (ok tt, d')
    → (files_of (lookup k d'.comparisons) ≡ some (with_files rest f)) × KeepsRest k d d'
unfolding create_files
create_files-eq-ok k created [] f d d' found h =
    let same : d ≡ d' = ap (λ (x : Result StoreError (Unit {0}) × Disk). x.1) h in
    (
      subst (λ (x : Disk). files_of (lookup k x.comparisons) ≡ some f) same found,
      subst (KeepsRest k d) same (KeepsRest-self k d),
    )
create_files-eq-ok k created (n ∷ rest) f d d' found h =
    let (d1, made, h1) =
      created_or-eq-ok _ (undo k created) (create_file k n d) (λ e x. undo-raises k created e x d')
        h in
    let (_, found1, kept1) = create_file-eq-ok k n f d d1 found made in
    let (all, kept) = create_files-eq-ok k (n ∷ created) rest (with_file n f) d1 d' found1 h1 in
    (all, KeepsRest-trans k d d1 d' kept1 kept)

pub is_empty-eq : (f : ComparisonFiles) → not (is_empty f) ≡ false → f ≡ no_files
is_empty-eq f h = ground (arith, h)
