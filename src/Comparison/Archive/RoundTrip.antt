-- ===== src/Comparison/Archive/RoundTrip.antt =====
-- What the reads of src/evalops/workspace/storage.py return after `save_comparison_record`.
use evalops_lab.Common.{
  String, ◌≡◌, refl, sym, ap, ◌∙◌, true, false, not, Option, none, some, option_beq, [], ok, lookup,
  map, all, ◌==◌, ==_iff, ==_refl, string_eq, option_eq, arith,
}
use evalops_lab.Comparison.Service.{ComparisonRecord}
use evalops_lab.Comparison.Archive.{
  ComparisonFailureArtifact, ArchiveCodec, comparison_path, mode_value, files_of, or_no_files,
  files_at, no_files, comparison_config, has_value, require_schema, expected_config, failure_bytes,
  get_comparison_record, get_comparison_failures, bad_identifiers,
}
use evalops_lab.Comparison.Archive.Saving.{
  new_files, save_comparison_record, is_foreign, is_empty, create_files, create_file,
}
use evalops_lab.Comparison.Archive.Kept.{
  KeepsRest, is_empty-eq, with_files, create_files-eq-ok, comparison_path-KeepsRest, undo-raises,
}
use evalops_lab.Storage.Identifiers.{is_sha256}
use evalops_lab.Storage.Disk.{
  os_error, Entry, missing, file, Key, key_eq, ComparisonFiles, Disk, read_model,
}
use evalops_lab.Storage.Actions.{query-eq-ok, check-eq-ok}

abbrev entry_of : Option String → Entry String
entry_of none = missing
entry_of (some content) = file content

all_same :
    {N : Type 0} (r : ComparisonRecord N)
    → all (λ (kv : String × String). option_beq (some kv.1) (some kv.1)) (expected_config r) ≡ true
all_same r = ground (
  arith,
  ==_refl r.comparison_id,
  ==_refl r.workspace_id,
  ==_refl (mode_value r.mode),
  ==_refl r.baseline_run_id,
  ==_refl r.baseline_result_sha256,
  ==_refl r.candidate_run_id,
  ==_refl r.candidate_result_sha256,
  ==_refl r.policy_version,
)

module _ {N : Type 0} (codec : ArchiveCodec N) where
  -- The files of a comparison that was saved.
  abbrev pub saved_files :
      ComparisonRecord N → Option (ComparisonFailureArtifact N) → ComparisonFiles
  saved_files r artifact = record {
    config = file (comparison_config codec r (failure_bytes codec artifact));
    result = file (codec.encode_record r);
    failures = entry_of (failure_bytes codec artifact);
  }

  -- What `save_comparison_record` has done when it returns.
  pub record IsSaved (ws : String) (r : ComparisonRecord N)
      (artifact : Option (ComparisonFailureArtifact N)) (d d' : Disk) : Type 0 where
    pub owned : r.workspace_id ≡ ws
    pub own_artifact : is_foreign codec r artifact ≡ false
    pub path : comparison_path ws r.comparison_id d ≡ ok tt
    pub was_free : files_at (ws, r.comparison_id) d ≡ no_files
    pub files : files_at (ws, r.comparison_id) d' ≡ saved_files r artifact
    pub kept : KeepsRest (ws, r.comparison_id) d d'

  with_new_files :
      (r : ComparisonRecord N) (artifact : Option (ComparisonFailureArtifact N))
      → with_files (new_files codec r artifact) no_files ≡ saved_files r artifact
  unfolding new_files
  with_new_files r none = refl
  with_new_files r (some a) = refl

  start-found :
      (ws id : String) (r : ComparisonRecord N) (artifact : Option (ComparisonFailureArtifact N))
      (o : Option ComparisonFiles) (d d' : Disk)
      → files_of (lookup {K = Key} (ws, id) d.comparisons) ≡ o
      → create_files (ws, id) [] (new_files codec r artifact) d ≡ (ok tt, d')
      → (f : ComparisonFiles) × (o ≡ some f)
  unfolding create_files create_file new_files
  start-found ws id r artifact none d d' e h =
      absurd (undo-raises (ws, id) [] os_error d d' (rw (e, create_files, create_file) at h))
  start-found ws id r artifact (some f) d d' e h = (f, refl)

  saved :
      (ws : String) (r : ComparisonRecord N) (artifact : Option (ComparisonFailureArtifact N))
      (d d' : Disk)
      → not (r.workspace_id == ws) ≡ false
      → is_foreign codec r artifact ≡ false
      → comparison_path ws r.comparison_id d ≡ ok tt
      → not (is_empty (files_at (ws, r.comparison_id) d)) ≡ false
      → create_files (ws, r.comparison_id) [] (new_files codec r artifact) d ≡ (ok tt, d')
      → IsSaved ws r artifact d d'
  saved ws r artifact d d' owned own path free h =
      let k : Key = (ws, r.comparison_id) in
      let (f, found) = start-found ws r.comparison_id r artifact _ d d' refl h in
      let empty = is_empty-eq (files_at k d) free in
      let start : f ≡ no_files = sym (ap or_no_files found) ∙ empty in
      let (all, kept) = create_files-eq-ok k [] (new_files codec r artifact) f d d' found h in
      record {
        owned = ground (arith, owned, ==_iff r.workspace_id ws);
        own_artifact = own;
        path = path;
        was_free = empty;
        files =
            ap or_no_files all
            ∙ ap (with_files (new_files codec r artifact)) start
            ∙ with_new_files r artifact;
        kept = kept;
      }

  pub save_comparison_record-IsSaved :
      (ws : String) (r : ComparisonRecord N) (artifact : Option (ComparisonFailureArtifact N))
      (d d' : Disk)
      → save_comparison_record codec ws r artifact d ≡ (ok tt, d')
      → IsSaved ws r artifact d d'
  unfolding save_comparison_record
  save_comparison_record-IsSaved ws r artifact d d' h =
      let (owned, h1) = check-eq-ok _ _ _ d h in
      let (own, h2) = check-eq-ok _ _ _ d h1 in
      let (u, path, h3) = query-eq-ok (comparison_path ws r.comparison_id) _ d h2 in
      let (free, h4) = check-eq-ok _ _ _ d h3 in saved ws r artifact d d' owned own path free h4

  -- The config repeats the record and its digest.
  comparison_config-repeats :
      (r : ComparisonRecord N) (failures : Option String)
      → all (has_value (comparison_config codec r failures)) (expected_config r) ≡ true
  unfolding comparison_config
  comparison_config-repeats r none = all_same r
  comparison_config-repeats r (some failures) = all_same r

  comparison_config-digest :
      (r : ComparisonRecord N) (failures : Option String)
      → has_value
          (comparison_config codec r failures)
          ("result_sha256", codec.sha256 (codec.encode_record r))
        ≡ true
  unfolding comparison_config
  comparison_config-digest r none = ==_refl (codec.sha256 (codec.encode_record r))
  comparison_config-digest r (some failures) = ==_refl (codec.sha256 (codec.encode_record r))

  -- The config has the schema that the reader asks for.
  comparison_config-schema :
      (r : ComparisonRecord N) (failures : Option String)
      → require_schema (comparison_config codec r failures) ≡ ok tt
  unfolding comparison_config
  comparison_config-schema r failures = refl

  pub read-saved :
      (ws : String) (r : ComparisonRecord N) (artifact : Option (ComparisonFailureArtifact N))
      (d : Disk)
      → codec.decode_record (codec.encode_record r) ≡ some r
      → comparison_path ws r.comparison_id d ≡ ok tt
      → files_at (ws, r.comparison_id) d ≡ saved_files r artifact
      → r.workspace_id ≡ ws
      → get_comparison_record codec ws r.comparison_id d ≡ ok r
  unfolding get_comparison_record read_model
  read-saved ws r artifact d back path files owned =
      rw
        (
          path,
          files,
          comparison_config-schema r (failure_bytes codec artifact),
          comparison_config-digest r (failure_bytes codec artifact),
          back,
          comparison_config-repeats r (failure_bytes codec artifact),
          owned,
          ==_refl ws,
          ==_refl r.comparison_id,
        )
        refl

  failures_digest :
      (r : ComparisonRecord N) (failures : String)
      → lookup "failures_sha256" (comparison_config codec r (some failures))
        ≡ some (codec.sha256 failures)
  unfolding comparison_config
  failures_digest r failures = refl

  read-failures :
      (ws : String) (r : ComparisonRecord N) (a : ComparisonFailureArtifact N) (d : Disk)
      → get_comparison_record codec ws r.comparison_id d ≡ ok r
      → comparison_path ws r.comparison_id d ≡ ok tt
      → files_at (ws, r.comparison_id) d ≡ saved_files r (some a)
      → is_sha256 (codec.sha256 (codec.encode_failures a)) ≡ true
      → codec.decode_failures (codec.encode_failures a) ≡ some a
      → a.comparison_id ≡ r.comparison_id
      → bad_identifiers codec (map (λ t. t.query_id) a.transitions) ≡ false
      → get_comparison_failures codec ws r.comparison_id d ≡ ok a
  unfolding get_comparison_failures read_model
  read-failures ws r a d read path files digest back same sorted =
      rw
        (
          read,
          path,
          files,
          failures_digest r (codec.encode_failures a),
          digest,
          ==_refl (codec.sha256 (codec.encode_failures a)),
          back,
          same,
          ==_refl r.comparison_id,
          sorted,
        )
        refl

  -- If the validation reads back the record and its transitions from their JSON, the digest of the
  -- transitions has the form of SHA-256, their queries are sorted, distinct and not none, and
  -- `save_comparison_record` returns, then `get_comparison_record` returns the record and
  -- `get_comparison_failures` the transitions, from the disk that is left.
  pub comparison_round_trip :
      (ws : String) (r : ComparisonRecord N) (a : ComparisonFailureArtifact N) (d d' : Disk)
      → codec.decode_record (codec.encode_record r) ≡ some r
      → codec.decode_failures (codec.encode_failures a) ≡ some a
      → is_sha256 (codec.sha256 (codec.encode_failures a)) ≡ true
      → bad_identifiers codec (map (λ t. t.query_id) a.transitions) ≡ false
      → save_comparison_record codec ws r (some a) d ≡ (ok tt, d')
      → (get_comparison_record codec ws r.comparison_id d' ≡ ok r)
        × (get_comparison_failures codec ws r.comparison_id d' ≡ ok a)
  comparison_round_trip ws r a d d' reads_record reads_failures digest sorted h =
      let m = save_comparison_record-IsSaved ws r (some a) d d' h in
      let path =
        comparison_path-KeepsRest (ws, r.comparison_id) ws r.comparison_id d d' m.kept ∙ m.path in
      let read = read-saved ws r (some a) d' reads_record path m.files m.owned in
      let same : a.comparison_id ≡ r.comparison_id =
        ground (arith, m.own_artifact, ==_iff a.comparison_id r.comparison_id) in
      (read, read-failures ws r a d' read path m.files digest reads_failures same sorted)
