-- ===== src/Ingestion/Registered.antt =====
-- What the registrations of src/evalops/workspace/ingestion/service.py have done when they return.
use evalops_lab.Common.{
  ℕ, ◌+◌, String, ◌≡◌, refl, sym, ap, ◌∙◌, subst, false, Result, ok, raise, ltb, lookup-insert_self,
  ==_refl, string_eq, arith,
}
use evalops_lab.Datasets.{Reader}
use evalops_lab.Models.Inputs.{InputKind, InputManifest, InputSourceMode, imported, referenced}
use evalops_lab.Models.Workspaces.{WorkspaceRecord}
use evalops_lab.Storage.Disk.{StoreError, Key, key_eq, Disk, file, read_model}
use evalops_lab.Storage.Actions.{
  Reads, query-Reads, check-Reads, >>=-Reads, read_first-eq-ok, >>=-eq-ok, query-eq-ok, check-eq-ok,
  return-eq-ok, atomic_create-eq-ok, call_as-eq-ok,
}
use evalops_lab.Storage.Workspaces.{get_workspace}
use evalops_lab.Storage.Inputs.{
  max_input_bytes, size_of, input_manifest_path, imported_path, get_input, read_imported,
  read_input_bytes,
}
use evalops_lab.Storage.Registration.{
  relative_path, put_input, put_imported, save_input_manifest, save_imported_input,
  discard_imported_input, check_source,
}
use evalops_lab.Ingestion.Jsonl.{TextTools, InputValidationSummary}
use evalops_lab.Ingestion.Service.{
  PathTools, of_store, InputRegistrationResult, imported_manifest, discard_and_raise, or_discard,
  save_or_discard, persist_imported,
}

-- The content and the manifest, written one after the other.
abbrev pub with_input : String → String → InputManifest → Disk → Disk
with_input ws content m d =
    put_input ws m
      (record (put_imported (ws, m.input_id) content (record d { written = d.written + 1 })) {
        written = d.written + 1 + 1;
      })

get_workspace-with_input :
    (ws content : String) (m : InputManifest) (d : Disk)
    → get_workspace ws (with_input ws content m d) ≡ get_workspace ws d
unfolding get_workspace
get_workspace-with_input ws content m d = refl

input_manifest_path-with_input :
    (ws content : String) (m : InputManifest) (d : Disk)
    → input_manifest_path ws m.input_id (with_input ws content m d)
      ≡ input_manifest_path ws m.input_id d
unfolding input_manifest_path
input_manifest_path-with_input ws content m d = refl

imported_path-with_input :
    (ws content : String) (m : InputManifest) (d : Disk)
    → imported_path ws m.input_id (with_input ws content m d) ≡ imported_path ws m.input_id d
unfolding imported_path
imported_path-with_input ws content m d = refl

get_input-with_input :
    (ws content : String) (m : InputManifest) (d : Disk) (w : WorkspaceRecord)
    → get_workspace ws d ≡ ok w
    → input_manifest_path ws m.input_id d ≡ ok tt
    → get_input ws m.input_id (with_input ws content m d) ≡ ok m
unfolding get_input read_model
get_input-with_input ws content m d w hw hp = ground (
  arith,
  get_workspace-with_input ws content m d,
  input_manifest_path-with_input ws content m d,
  lookup-insert_self {K = Key} (ws, m.input_id) (file m) d.inputs,
  hw,
  hp,
  ==_refl m.input_id,
)

read_imported-with_input :
    (ws content : String) (m : InputManifest) (d : Disk)
    → imported_path ws m.input_id d ≡ ok tt
    → ltb max_input_bytes (size_of content) ≡ false
    → read_imported ws m.input_id (with_input ws content m d) ≡ ok content
unfolding read_imported
read_imported-with_input ws content m d hp small = ground (
  arith,
  imported_path-with_input ws content m d,
  hp,
  lookup-insert_self {K = Key} (ws, m.input_id) (file content) d.imported,
  small,
)

read_input_bytes-with_input :
    (sha256 : String → String) (ws content : String) (m : InputManifest) (d : Disk)
    → get_input ws m.input_id (with_input ws content m d) ≡ ok m
    → m.source_mode ≡ imported
    → read_imported ws m.input_id (with_input ws content m d) ≡ ok content
    → m.content_sha256 ≡ sha256 content
    → read_input_bytes sha256 ws m.input_id (with_input ws content m d) ≡ ok content
unfolding read_input_bytes
read_input_bytes-with_input sha256 ws content m d hm mode hr digest =
    rw (hm, mode, hr, digest, ==_refl (sha256 content)) refl

-- What `save_imported_input` has done.
save_imported_input-eq-ok :
    (ws id content path : String) (d d' : Disk)
    → save_imported_input ws id content d ≡ (ok path, d')
    → (imported_path ws id d ≡ ok tt)
      × (path ≡ relative_path id)
      × (d' ≡ put_imported (ws, id) content (record d { written = d.written + 1 }))
unfolding save_imported_input
save_imported_input-eq-ok ws id content path d d' h =
    let (w, _, h1) = query-eq-ok (get_workspace ws) _ d h in
    let (_, path_ok, h2) = query-eq-ok (imported_path ws id) _ d h1 in
    let (_, h3) = check-eq-ok _ _ _ d h2 in
    let (_, d1, made, h4) = >>=-eq-ok _ _ d h3 in
    let (_, left) = atomic_create-eq-ok _ _ d made in
    let (same, left') = return-eq-ok _ d1 h4 in (path_ok, sym same, left' ∙ left)

check_source-Reads :
    (ws : String) (m : InputManifest) (mode : InputSourceMode) → Reads (check_source ws m mode)
unfolding check_source
check_source-Reads ws m imported =
    >>=-Reads _ _ (check-Reads _ _) λ _. >>=-Reads _ _ (query-Reads _) λ _. check-Reads _ _
check_source-Reads ws m referenced = check-Reads _ _

-- What `save_input_manifest` has done.
pub save_input_manifest-eq-ok :
    (ws : String) (m : InputManifest) (d d' : Disk)
    → save_input_manifest ws m d ≡ (ok tt, d')
    → (w : WorkspaceRecord) × (get_workspace ws d ≡ ok w)
      × (input_manifest_path ws m.input_id d ≡ ok tt)
      × (d' ≡ put_input ws m (record d { written = d.written + 1 }))
unfolding save_input_manifest
save_input_manifest-eq-ok ws m d d' h =
    let (w, hw, h1) = query-eq-ok (get_workspace ws) _ d h in
    let (_, path, h2) = query-eq-ok (input_manifest_path ws m.input_id) _ d h1 in
    let (_, h3) = check-eq-ok _ _ _ d h2 in
    let (_, _, h4) =
      read_first-eq-ok (check_source ws m m.source_mode) _ d (check_source-Reads ws m m.source_mode)
        h3 in
    let (_, left) = atomic_create-eq-ok _ _ d h4 in (w, hw, path, left)

or_discard-eq-ok :
    (ws id : String) (o : Result StoreError (Unit {0}) × Disk) {d' : Disk}
    → or_discard ws id o ≡ (ok tt, d')
    → o ≡ (ok tt, d')
unfolding discard_and_raise
or_discard-eq-ok ws id (ok u, d) h = h
or_discard-eq-ok ws id (raise e, d) {d'} h =
    let (_, d1, _, h1) = >>=-eq-ok (discard_imported_input ws id) _ d h in
    cc (ap (λ (x : Result StoreError (Unit {0}) × Disk). x.0) h1)

-- A registered input whose content can be read.
pub record IsRegistered (sha256 : String → String) (ws id content : String) (d' : Disk)
    (r : InputRegistrationResult) : Type 0 where
  pub named : r.manifest.input_id ≡ id
  pub repeats : r.manifest.content_sha256 ≡ r.summary.content_sha256
  pub read : get_input ws id d' ≡ ok r.manifest
  pub bytes : read_input_bytes sha256 ws id d' ≡ ok content

module _ (tools : TextTools) (paths : PathTools) (reader : Reader) (id : String) (now : ℕ) where
  written-IsRegistered :
      (ws canonical path : String) (summary : InputValidationSummary) (m : InputManifest)
      (d d1 d2 d' : Disk) (r : InputRegistrationResult)
      → ltb max_input_bytes (size_of canonical) ≡ false
      → summary.content_sha256 ≡ tools.sha256 canonical
      → m.input_id ≡ id
      → m.source_mode ≡ imported
      → m.content_sha256 ≡ summary.content_sha256
      → save_imported_input ws m.input_id canonical d ≡ (ok path, d1)
      → save_or_discard ws m d1 ≡ (ok tt, d2)
      → ◌≡◌ {A = InputRegistrationResult} (record { manifest = m; summary = summary }) r
      → d' ≡ d2
      → IsRegistered tools.sha256 ws id canonical d' r
  unfolding save_or_discard get_workspace input_manifest_path
  written-IsRegistered ws canonical path summary m d d1 d2 d' r small digest named mode repeats
        saving registering same left =
      let (safe, _, left1) = save_imported_input-eq-ok ws m.input_id canonical path d d1 saving in
      let (w, hw, hp, left2) =
        save_input_manifest-eq-ok ws m d1 d2 (or_discard-eq-ok ws m.input_id _ registering) in
      let there : d' ≡ with_input ws canonical m d =
        left
        ∙ left2
        ∙ ap (λ (x : Disk). put_input ws m (record x { written = x.written + 1 })) left1 in
      let hm =
        get_input-with_input ws canonical m d w
          (subst (λ (x : Disk). get_workspace ws x ≡ ok w) left1 hw)
          (subst (λ (x : Disk). input_manifest_path ws m.input_id x ≡ ok tt) left1 hp) in
      let hb =
        read_input_bytes-with_input tools.sha256 ws canonical m d hm mode
          (read_imported-with_input ws canonical m d safe small) (repeats ∙ digest) in
      subst (IsRegistered tools.sha256 ws id canonical d') same (record {
        named = named;
        repeats = repeats;
        read =
            subst (λ (i : String). get_input ws i d' ≡ ok m) named
              (ap (get_input ws m.input_id) there ∙ hm);
        bytes =
            subst (λ (i : String). read_input_bytes tools.sha256 ws i d' ≡ ok canonical) named
              (ap (read_input_bytes tools.sha256 ws m.input_id) there ∙ hb);
      })

  pub persist_imported-IsRegistered :
      (ws canonical source_sha name : String) (kind : InputKind) (summary : InputValidationSummary)
      (d d' : Disk) (r : InputRegistrationResult)
      → summary.content_sha256 ≡ tools.sha256 canonical
      → persist_imported tools paths reader id now ws kind canonical summary source_sha name d
        ≡ (ok r, d')
      → IsRegistered tools.sha256 ws id canonical d' r × (summary ≡ r.summary)
  unfolding persist_imported
  persist_imported-IsRegistered ws canonical source_sha name kind summary d d' r digest h =
      let (small, h1) = check-eq-ok _ _ _ d h in
      let (path, d1, saving, h2) = >>=-eq-ok _ _ d h1 in
      let (_, d2, registering, h3) = >>=-eq-ok _ _ d1 h2 in
      let (same, left) = return-eq-ok _ d2 h3 in
      (
        written-IsRegistered ws canonical path summary
            (imported_manifest id kind summary source_sha path (paths.base_name name) now) d d1 d2
            d' r small digest refl refl refl (call_as-eq-ok of_store _ d saving)
            (call_as-eq-ok of_store _ d1 registering) same left,
        ap (λ (x : InputRegistrationResult). x.summary) same,
      )
