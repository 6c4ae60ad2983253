-- ===== src/Comparison/Created.antt =====
-- What `create_comparison` of src/evalops/workspace/application/comparisons.py has done when it returns.
use evalops_lab.Common.{ℕ, String, ◌≡◌, sym, ◌∙◌, subst, Option, some, List, ok, Float}
use evalops_lab.Datasets.{Reader}
use evalops_lab.Storage.Codec.{Codec}
use evalops_lab.Storage.Disk.{Disk}
use evalops_lab.Storage.Actions.{
  Reads, query-Reads, check-Reads, return-Reads, >>=-Reads, call_as-Reads, read_first-eq-ok,
  >>=-eq-ok, call_as-eq-ok, return-eq-ok,
}
use evalops_lab.Comparison.Failures.{QueryFailureTransition}
use evalops_lab.Comparison.Service.{
  ComparisonMode, ComparisonRecord, ServiceError, of_store, Digestible, draft_comparison,
}
use evalops_lab.Comparison.Drafted.{
  IsDrafted, draft_comparison-IsDrafted, get_run_artifacts-Reads, load_verified_population-Reads,
  report_comparison-Reads,
}
use evalops_lab.Comparison.Archive.{ArchiveCodec, files_at, no_files, get_comparison_record}
use evalops_lab.Comparison.Archive.Saving.{save_comparison_record}
use evalops_lab.Comparison.Archive.Kept.{KeepsRest, comparison_path-KeepsRest}
use evalops_lab.Comparison.Archive.RoundTrip.{save_comparison_record-IsSaved, read-saved}
use evalops_lab.Comparison.Creation.{artifact_of, create_comparison}

module _ (fl : Float) (show : ℕ → String) (reader : Reader) (codec : Codec fl.Number)
    (digest : Digestible → String) where
  open fl use {Number}

  draft_comparison-Reads :
      (ws candidate id : String) (mode : ComparisonMode) (now : ℕ)
      → Reads (draft_comparison fl show reader codec digest ws candidate mode id now)
  unfolding draft_comparison
  draft_comparison-Reads ws candidate id mode now =
      >>=-Reads _ _ (call_as-Reads _ _ (query-Reads _)) λ baseline.
        >>=-Reads _ _ (query-Reads _) λ pointer. >>=-Reads _ _ (check-Reads _ _) λ _.
          >>=-Reads _ _ (call_as-Reads _ _ (get_run_artifacts-Reads codec ws pointer.run_id)) λ old.
            >>=-Reads _ _ (call_as-Reads _ _ (get_run_artifacts-Reads codec ws candidate)) λ new.
              >>=-Reads _ _ (check-Reads _ _) λ _.
                >>=-Reads _ _ (call_as-Reads _ _ (query-Reads _)) λ old_snapshot.
                  >>=-Reads _ _ (call_as-Reads _ _ (query-Reads _)) λ new_snapshot.
                    >>=-Reads _ _
                      (load_verified_population-Reads reader codec.sha256 digest old_snapshot)
                      λ old_population.
                        >>=-Reads _ _
                          (load_verified_population-Reads reader codec.sha256 digest new_snapshot)
                          λ new_population.
                            >>=-Reads _ _
                              (report_comparison-Reads fl show reader codec digest ws candidate id
                                mode now pointer new.1.result_sha256 old.0 new.0 new_snapshot _)
                              λ c. >>=-Reads _ _ (query-Reads _) λ rows. return-Reads ServiceError _

  module _ (archive : ArchiveCodec Number) where
    -- A comparison that was created.
    pub record IsCreated (ws candidate id : String) (mode : ComparisonMode) (now : ℕ)
        (r : ComparisonRecord Number) (d d' : Disk) : Type 0 where
      pub drafted : IsDrafted fl show reader codec digest ws candidate id mode now d r
      pub was_free : files_at (ws, r.comparison_id) d ≡ no_files
      pub read : get_comparison_record archive ws r.comparison_id d' ≡ ok r
      pub kept : KeepsRest (ws, r.comparison_id) d d'

    created :
        (ws candidate id : String) (mode : ComparisonMode) (now : ℕ) (d d1 d' : Disk)
        (c r : ComparisonRecord Number) (rows : Option (List (QueryFailureTransition Number)))
        → archive.decode_record (archive.encode_record c) ≡ some c
        → draft_comparison fl show reader codec digest ws candidate mode id now d
          ≡ (ok (c, rows), d)
        → save_comparison_record archive ws c (artifact_of c.comparison_id rows) d ≡ (ok tt, d1)
        → c ≡ r
        → d' ≡ d1
        → IsCreated ws candidate id mode now r d d'
    created ws candidate id mode now d d1 d' c r rows back drafting saving same left =
        let artifact = artifact_of c.comparison_id rows in
        let m = save_comparison_record-IsSaved archive ws c artifact d d1 saving in
        let path =
          comparison_path-KeepsRest (ws, c.comparison_id) ws c.comparison_id d d1 m.kept ∙ m.path in
        let done : IsCreated ws candidate id mode now c d d1 = record {
          drafted =
              draft_comparison-IsDrafted fl show reader codec digest ws candidate id mode now d d c
                rows drafting;
          was_free = m.was_free;
          read = read-saved archive ws c artifact d1 back path m.files m.owned;
          kept = m.kept;
        } in
        subst (λ (x : Disk). IsCreated ws candidate id mode now r d x) (sym left)
          (subst (λ (x : ComparisonRecord Number). IsCreated ws candidate id mode now x d d1) same
            done)

    -- If the validation reads back the record of `create_comparison` from its JSON, and
    -- `create_comparison` returns it, then a baseline was pinned and is not the candidate, the
    -- evidence of both runs was verified by the store, the digest of the baseline is still the
    -- pinned one, the record has the compatibility that `assess_local_retrieval_compatibility`
    -- finds from the snapshots, the results and the verified populations of both runs, and the
    -- report that `compare_metrics` makes of both results by the rules for the number of documents
    -- that the candidate was evaluated with, and if it is canonical the runs are comparable;
    -- nothing stood below the path of the comparison, `get_comparison_record` returns the record
    -- from the disk that is left, and the rest of the disk is as before.
    pub create_comparison-IsCreated :
        (ws candidate id : String) (mode : ComparisonMode) (now : ℕ) (d d' : Disk)
        (r : ComparisonRecord Number)
        → archive.decode_record (archive.encode_record r) ≡ some r
        → create_comparison fl show reader codec archive digest ws candidate mode id now d
          ≡ (ok r, d')
        → IsCreated ws candidate id mode now r d d'
    unfolding create_comparison
    create_comparison-IsCreated ws candidate id mode now d d' r back h =
        let (drawn, drafting, h1) =
          read_first-eq-ok _ _ d (draft_comparison-Reads ws candidate id mode now) h in
        let (_, d1, saving, h2) = >>=-eq-ok _ _ d h1 in
        let (same, left) = return-eq-ok _ d1 h2 in
        created ws candidate id mode now d d1 d' drawn.0 r drawn.1
          (subst
            (λ (c : ComparisonRecord Number).
              archive.decode_record (archive.encode_record c) ≡ some c)
            (sym same) back)
          drafting (call_as-eq-ok of_store _ d saving) same left
