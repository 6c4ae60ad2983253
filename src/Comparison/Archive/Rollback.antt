-- ===== src/Comparison/Archive/Rollback.antt =====
-- `save_comparison_record` of src/evalops/workspace/storage.py on a device that refuses a write.
use evalops_lab.Common.{
  ℕ, ◌+◌, ◌≤◌, String, ◌≡◌, ◌≢◌, refl, sym, ap, ◌∙◌, subst, Bool, Bool-cases, inl, inr, true, false,
  Option, none, some, List, [], ◌∷◌, Result, ok, raise, lookup, lookup-insert, lookup-insert_self,
  ◌==◌, ==_iff, arith,
}
use evalops_lab.Comparison.Service.{ComparisonRecord}
use evalops_lab.Comparison.Archive.{
  ComparisonFailureArtifact, ArchiveCodec, comparison_path, files_of, files_at, or_no_files,
  no_files,
}
use evalops_lab.Comparison.Archive.Saving.{
  put_folder, NewFile, new_result, new_failures, new_config, is_there, with_file, without_file,
  create_file, create_files, created_or, undo, unlink_created, remove_directory, new_files,
  save_comparison_record,
}
use evalops_lab.Comparison.Archive.Kept.{is_empty-eq, create_file-eq-ok, KeepsRest-trans}
use evalops_lab.Storage.Disk.{
  StoreError, os_error, Key, key_eq, ComparisonFiles, ComparisonChild, not_folder, folder, Disk,
  Action,
}
use evalops_lab.Storage.Actions.{
  return, >>=-ok, atomic_create-ok, atomic_create-fault, query-Reads, check-Reads, check_done,
  read_first-eq-raise,
}
use evalops_lab.Storage.Evidence.Refused.{RefusesOnce, others-work}
use evalops_lab.Comparison.Archive.Undo.{WorksOn, undone, IsUndone, undo-IsUndone}

-- None of the files is there before it is created.
abbrev Fresh : List NewFile → ComparisonFiles → Type 0
Fresh [] f = Unit {0}
Fresh (n ∷ rest) f = (is_there n f ≡ false) × Fresh rest (with_file n f)

without-with :
    (n : NewFile) (f : ComparisonFiles) → is_there n f ≡ false → without_file n (with_file n f) ≡ f
without-with (new_result c) f h = ground (arith, h)
without-with (new_failures c) f h = ground (arith, h)
without-with (new_config c) f h = ground (arith, h)

works_after :
    (d d1 : Disk)
    → RefusesOnce d
    → d.faults d.written ≡ true
    → d1.faults ≡ d.faults
    → d1.written ≡ d.written + 1
    → WorksOn d1
works_after d d1 once refused same next n h =
    ap (λ (g : ℕ → Bool). g n) same ∙ others-work d d.written n once refused (after next h)
  where
    after : d1.written ≡ d.written + 1 → d1.written ≤ n → d.written ≢ n
    after e le eq = absurd (omega arith)

refused-IsUndone :
    (k : Key) (created : List NewFile) (n : NewFile) (f : ComparisonFiles) (d d' : Disk)
    (o : Result StoreError (Unit {0})) (next : Unit {0} → Action (Unit {0}))
    → files_of (lookup k d.comparisons) ≡ some f
    → undone created f ≡ no_files
    → is_there n f ≡ false
    → RefusesOnce d
    → d.faults d.written ≡ true
    → created_or next (undo k created) (create_file k n d) ≡ (o, d')
    → IsUndone k d d'
unfolding create_file
refused-IsUndone k created n f d d' o next found empty fresh once refused h =
    let d1 : Disk = record (put_folder k f d) { written = d.written + 1 } in
    let stops : create_file k n d ≡ (raise os_error, d1) =
      rw (found, create_file)
        (atomic_create-fault (λ _. is_there n f) (put_folder k (with_file n f)) (put_folder k f d)
          fresh refused) in
    let m =
      undo-IsUndone k created f os_error d1 d' o
        (lookup-insert_self {K = Key} k (folder f) d.comparisons) empty
        (works_after d d1 once refused refl refl) (rw stops at h) in
    record {
      gone = m.gone;
      kept =
          KeepsRest-trans k d d1 d'
            (record {
              others =
                  λ j e. ground (arith, e, lookup-insert {K = Key} k j (folder f) d.comparisons);
              rest = refl;
            })
            m.kept;
    }

-- If the creation of the files raises, none of them is there.
create_files-IsUndone :
    (k : Key) (created rest : List NewFile) (f : ComparisonFiles) (d d' : Disk) (e : StoreError)
    → files_of (lookup k d.comparisons) ≡ some f
    → undone created f ≡ no_files
    → Fresh rest f
    → RefusesOnce d
    → create_files k created rest d ≡ (raise e, d')
    → IsUndone k d d'
unfolding create_files create_file RefusesOnce
create_files-IsUndone k created [] f d d' e found empty fresh once h =
    cc (ap (λ (x : Result StoreError (Unit {0}) × Disk). x.0) h)
create_files-IsUndone k created (n ∷ rest) f d d' e found empty fresh once h =
    elim (Bool-cases (d.faults d.written)) [
      | inl refused ↦
          refused-IsUndone k created n f d d' (raise e) (λ _. create_files k (n ∷ created) rest)
            found empty fresh.0 once refused h
      | inr works ↦
          let d1 : Disk =
            put_folder k (with_file n f) (record (put_folder k f d) { written = d.written + 1 }) in
          let made : create_file k n d ≡ (ok tt, d1) =
            rw (found, create_file)
              (atomic_create-ok (λ _. is_there n f) (put_folder k (with_file n f))
                (put_folder k f d) fresh.0 works) in
          let (_, found1, kept1) = create_file-eq-ok k n f d d1 found made in
          let m =
            create_files-IsUndone k (n ∷ created) rest (with_file n f) d1 d' e found1
              (ap (undone created) (without-with n f fresh.0) ∙ empty) fresh.1 once
              (rw made at h) in
          record { gone = m.gone; kept = KeepsRest-trans k d d1 d' kept1 m.kept }
    ]

-- Below every key of a comparison stands what stood there, and the rest is as before.
pub record IsRestored (d d' : Disk) : Type 0 where
  pub same_files : (j : Key) → files_at j d' ≡ files_at j d
  pub rest : ◌≡◌ {A = Disk} (record d' { comparisons = d.comparisons; written = d.written }) d

restored : (k : Key) (d d' : Disk) → files_at k d ≡ no_files → IsUndone k d d' → IsRestored d d'
restored k d d' free m = record { same_files = same; rest = m.kept.rest }
  where
    same : (j : Key) → files_at j d' ≡ files_at j d
    same j = elim (Bool-cases (j == k)) [
      | inl here ↦
          let e = (==_iff j k).0 here in
          subst (λ (i : Key). files_at i d' ≡ files_at i d) (sym e) (m.gone ∙ sym free)
      | inr there ↦
          ap (λ (o : Option ComparisonChild). or_no_files (files_of o)) (m.kept.others j there)
    ]

unchanged : (d d' : Disk) → d' ≡ d → IsRestored d d'
unchanged d d' same =
    subst (IsRestored d) (sym same) (record { same_files = λ j. refl; rest = refl })

stray : (o : Option ComparisonChild) → files_of o ≡ none → o ≡ some not_folder
stray none h = cc h
stray (some not_folder) h = refl
stray (some (folder f)) h = cc h

undo_stray :
    (k : Key) (e : StoreError) (d : Disk)
    → lookup k d.comparisons ≡ some not_folder
    → undo k [] e d ≡ (raise e, d)
unfolding undo unlink_created remove_directory return
undo_stray k e d found =
    >>=-ok (unlink_created k []) _ d refl
    ∙ >>=-ok (remove_directory k) _ d (rw (found, remove_directory) refl)

module _ {N : Type 0} (codec : ArchiveCodec N) where
  new_files-Fresh :
      (r : ComparisonRecord N) (artifact : Option (ComparisonFailureArtifact N))
      → Fresh (new_files codec r artifact) no_files
  unfolding new_files
  new_files-Fresh r none = (refl, (refl, tt))
  new_files-Fresh r (some a) = (refl, (refl, (refl, tt)))

  stray-unchanged :
      (k : Key) (r : ComparisonRecord N) (artifact : Option (ComparisonFailureArtifact N))
      (e : StoreError) (d d' : Disk)
      → lookup k d.comparisons ≡ some not_folder
      → create_files k [] (new_files codec r artifact) d ≡ (raise e, d')
      → d' ≡ d
  unfolding new_files create_files create_file
  stray-unchanged k r artifact e d d' found h =
      let stops : create_file k (new_result (codec.encode_record r)) d ≡ (raise os_error, d) =
        rw (found, create_file) refl in
      sym (
        ap (λ (x : Result StoreError (Unit {0}) × Disk). x.1)
          (sym (undo_stray k os_error d found) ∙ (rw stops at h)))

  stopped-IsRestored :
      (k : Key) (r : ComparisonRecord N) (artifact : Option (ComparisonFailureArtifact N))
      (e : StoreError) (o : Option ComparisonFiles) (d d' : Disk)
      → files_of (lookup k d.comparisons) ≡ o
      → files_at k d ≡ no_files
      → RefusesOnce d
      → create_files k [] (new_files codec r artifact) d ≡ (raise e, d')
      → IsRestored d d'
  stopped-IsRestored k r artifact e none d d' found free once h =
      unchanged d d' (stray-unchanged k r artifact e d d' (stray _ found) h)
  stopped-IsRestored k r artifact e (some f) d d' found free once h =
      let start : f ≡ no_files = sym (ap or_no_files found) ∙ free in
      restored k d d' free (
        create_files-IsUndone k [] (new_files codec r artifact) f d d' e found start
          (rw start (new_files-Fresh r artifact)) once h)

  -- If the device refuses at most one write, and `save_comparison_record` raises, then below every
  -- path of a comparison stands what stood there before, and the rest of the disk is as before but
  -- for the count of writes.
  pub save_comparison_record_rolls_back :
      (ws : String) (r : ComparisonRecord N) (artifact : Option (ComparisonFailureArtifact N))
      (d d' : Disk) (e : StoreError)
      → RefusesOnce d
      → save_comparison_record codec ws r artifact d ≡ (raise e, d')
      → IsRestored d d'
  unfolding save_comparison_record
  save_comparison_record_rolls_back ws r artifact d d' e once h =
      elim (read_first-eq-raise _ _ d (check-Reads _ _) h) [
        | inl same ↦ unchanged d d' same
        | inr (_, _, h1) ↦ elim (read_first-eq-raise _ _ d (check-Reads _ _) h1) [
          | inl same ↦ unchanged d d' same
          | inr (_, _, h2) ↦
              elim (read_first-eq-raise _ _ d (query-Reads (comparison_path ws r.comparison_id))
                h2) [
                  | inl same ↦ unchanged d d' same
                  | inr (_, _, h3) ↦ elim (read_first-eq-raise _ _ d (check-Reads _ _) h3) [
                    | inl same ↦ unchanged d d' same
                    | inr (_, passed, h4) ↦
                        let k : Key = (ws, r.comparison_id) in
                        let (free, _) = check_done _ _ d passed in
                        stopped-IsRestored k r artifact e _ d d' refl
                          (is_empty-eq (files_at k d) free) once h4
                  ]
                ]
        ]
      ]
