-- ===== src/Storage/Listing.antt =====
-- The listing of the jobs of a workspace (src/evalops/workspace/storage.py, `list_job_records`) when
-- the record of one job is replaced.
use evalops_lab.Common.{
  String, ◌≡◌, refl, sym, ap, ◌∙◌, Bool, Bool-cases, inl, inr, true, false, Option, none, some,
  is_some, List, [], ◌∷◌, Result, ok, ◌>>=◌, >>=-eq-ok, each, Dict, keys, lookup, insert,
  lookup-insert, lookup-insert_self, raise_if, ◌>>◌, member-keys, unique, any, count, count-eq_zero,
  length, length-keep, keep, count-sort_by, count-unique, sort_by, str_lt, ◌==◌, Eq, ==_iff,
  string_eq, if◌then◌else◌, arith,
}
use evalops_lab.Jobs.Record.{JobRecord}
use evalops_lab.Storage.Disk.{
  Key, key_eq, Entry, missing, file, JobChild, stray, child, Disk, StoreError, storage, jobs_root,
}
use evalops_lab.Storage.Workspaces.{get_workspace}
use evalops_lab.Storage.Runs.{get_run_snapshot}
use evalops_lab.Storage.Jobs.{
  jobs_directory, get_job_record, job_path, filed_job, job_names, list_entry, list_job_records,
  record_lt, put_job, only,
}

keys-insert :
    {K V : Type 0} ⦃e : Eq K⦄ (k : K) (v : V) (d : Dict K V)
    → is_some (lookup k d) ≡ true
    → keys (insert k v d) ≡ keys d
keys-insert k v [] h = ground arith
keys-insert k v ((j, w) ∷ d) h = ground (arith, keys-insert k v d)

-- The names below `jobs` of a workspace, by the paths of all workspaces.
names_of : String → List Key → List String
names_of ws [] = []
names_of ws ((w, job) ∷ ks) = if w == ws then job ∷ names_of ws ks else names_of ws ks

job_names-keys :
    (ws : String) (jobs : Dict Key JobChild) → job_names ws jobs ≡ names_of ws (keys jobs)
unfolding names_of
job_names-keys ws [] = refl
job_names-keys ws (((w, job), _) ∷ jobs) = ground (arith, job_names-keys ws jobs)

count-names_of :
    (ws id : String) (ks : List Key)
    → count (λ n. n == id) (names_of ws ks) ≡ count (λ (k : Key). k == (ws, id)) ks
unfolding names_of
count-names_of ws id [] = refl
count-names_of ws id ((w, job) ∷ ks) = ground (arith, count-names_of ws id ks)

-- The names of a workspace hold each job once.
count-job_names :
    (ws id : String) (jobs : Dict Key JobChild)
    → unique (keys jobs) ≡ true
    → is_some (lookup (ws, id) jobs) ≡ true
    → count (λ n. n == id) (job_names ws jobs) ≡ 1
count-job_names ws id jobs u h =
    ap (count (λ n. n == id)) (job_names-keys ws jobs)
    ∙ count-names_of ws id (keys jobs)
    ∙ count-unique {K = Key} (ws, id) (keys jobs) u (member-keys {K = Key} (ws, id) jobs ∙ h)

-- A call on each of several names that is replaced at one of them.
each-replaced :
    {A : Type 0} (f g : String → Result StoreError A) (q : A → Bool) (id : String) (new : A)
    (xs : List String) (rs : List A)
    → ((n : String) → (n == id) ≡ true → g n ≡ ok new)
    → ((n : String) → (n == id) ≡ false → g n ≡ f n)
    → q new ≡ true
    → each f xs ≡ ok rs
    → count q rs ≡ 0
    → (rs' : List A) × (each g xs ≡ ok rs') × (count q rs' ≡ count (λ n. n == id) xs)
each-replaced f g q id new [] rs at_id other is_q h zeros = ([], refl, refl)
each-replaced f g q id new (x ∷ xs) rs at_id other is_q h zeros =
    let (y, hy, h1) = >>=-eq-ok (f x) _ h in
    let (ys, hys, h2) = >>=-eq-ok (each f xs) _ h1 in
    let none_y : q y ≡ false = ground (arith, h2, zeros) in
    let none_ys : count q ys ≡ 0 = ground (arith, h2, zeros) in
    let (rs', each_rs, counted) = each-replaced f g q id new xs ys at_id other is_q hys none_ys in
    elim (Bool-cases (x == id)) [
      | inl here ↦
          (new ∷ rs', ground (arith, at_id x here, each_rs), ground (arith, counted, here, is_q))
      | inr away ↦ (
        y ∷ rs',
        ground (arith, other x away, hy, each_rs),
        ground (arith, counted, away, none_y),
      )
    ]

only-single : {A : Type 0} (ys : List A) → length ys ≡ 1 → (x : A) × (only ys ≡ some x)
only-single [] e = absurd (omega (arith, e))
only-single (y ∷ []) e = (y, refl)
only-single (y ∷ z ∷ ys) e = absurd (omega (arith, e))

pub only-count :
    {A : Type 0} (q : A → Bool) (xs : List A)
    → count q xs ≡ 1
    → (x : A) × (only (keep q xs) ≡ some x)
only-count q xs h = only-single (keep q xs) (length-keep q xs ∙ h)

-- Where a record is filed, its listing is the record.
list_entry-at :
    (ws id : String) (new : JobRecord) (d : Disk) (n : String)
    → new.workspace_id ≡ ws
    → new.job_id ≡ id
    → get_job_record ws id (put_job new d) ≡ ok new
    → (n == id) ≡ true
    → list_entry ws (put_job new d) n ≡ ok new
unfolding list_entry
list_entry-at ws id new d n same_ws same_id read here =
    let there : n ≡ id = (==_iff n id).0 here in
    let found =
      lookup-insert_self {K = Key} ⦃e = key_eq⦄ (new.workspace_id, new.job_id) (child (file new))
        d.jobs in
    let found' = rw (same_ws, same_id, sym there) at found in
    let read' = rw (sym there) at read in ground (arith, found', read')

pub get_job_record-other :
    (ws n : String) (new : JobRecord) (d : Disk)
    → lookup {K = Key} (ws, n) (put_job new d).jobs ≡ lookup {K = Key} (ws, n) d.jobs
    → get_job_record ws n (put_job new d) ≡ get_job_record ws n d
unfolding get_job_record get_run_snapshot get_workspace
get_job_record-other ws n new d same =
    let found : Option JobChild → Entry JobRecord =
      λ o. elim o [ none ↦ missing | some stray ↦ missing | some (child x) ↦ x ] in
    ap
      (λ (o : Option JobChild).
        get_workspace ws d >>= λ w. job_path ws n d >> filed_job ws n (found o) d)
      same

list_entry-same :
    (ws n : String) (d e : Disk) (o : Option JobChild)
    → lookup {K = Key} (ws, n) d.jobs ≡ o
    → lookup {K = Key} (ws, n) e.jobs ≡ o
    → get_job_record ws n d ≡ get_job_record ws n e
    → list_entry ws d n ≡ list_entry ws e n
unfolding list_entry
list_entry-same ws n d e none h g same = ground (arith, h, g)
list_entry-same ws n d e (some stray) h g same = ground (arith, h, g)
list_entry-same ws n d e (some (child x)) h g same = ground (arith, h, g, same)

-- The listing of the others is as before.
list_entry-other :
    (ws id : String) (new : JobRecord) (d : Disk) (n : String)
    → new.workspace_id ≡ ws
    → new.job_id ≡ id
    → (n == id) ≡ false
    → list_entry ws (put_job new d) n ≡ list_entry ws d n
unfolding list_entry
list_entry-other ws id new d n same_ws same_id away =
    let same : lookup (ws, n) (put_job new d).jobs ≡ lookup (ws, n) d.jobs = ground (
      arith,
      lookup-insert {K = Key} (new.workspace_id, new.job_id) (ws, n) (child (file new)) d.jobs,
      ==_iff n id,
    ) in
    list_entry-same ws n (put_job new d) d _ same refl (get_job_record-other ws n new d same)

-- How a listing came to return, and back.
list-eq-ok :
    (ws : String) (d : Disk) (jobs : List JobRecord)
    → list_job_records ws d ≡ ok jobs
    → (rs : List JobRecord) × (jobs_directory ws d ≡ ok tt)
      × (raise_if (d.not_directory (jobs_root ws)) (storage "job storage is invalid") ≡ ok tt)
      × (each (list_entry ws d) (sort_by str_lt (job_names ws d.jobs)) ≡ ok rs)
      × (sort_by record_lt rs ≡ jobs)
unfolding list_job_records
list-eq-ok ws d jobs h =
    let (_, hdir, h1) = >>=-eq-ok (jobs_directory ws d) _ h in
    let (_, hnot, h2) =
      >>=-eq-ok (raise_if (d.not_directory (jobs_root ws)) (storage "job storage is invalid")) _
        h1 in
    let (records, heach, h3) =
      >>=-eq-ok (each (list_entry ws d) (sort_by str_lt (job_names ws d.jobs))) _ h2 in
    (records, hdir, hnot, heach, cc h3)

list-ok :
    (ws : String) (d : Disk) (names : List String) (rs : List JobRecord)
    → jobs_directory ws d ≡ ok tt
    → raise_if (d.not_directory (jobs_root ws)) (storage "job storage is invalid") ≡ ok tt
    → job_names ws d.jobs ≡ names
    → each (list_entry ws d) (sort_by str_lt names) ≡ ok rs
    → list_job_records ws d ≡ ok (sort_by record_lt rs)
unfolding list_job_records
list-ok ws d names rs hdir hnot hnames heach = rw (hdir, hnot, hnames, heach) refl

jobs_directory-put_job :
    (ws : String) (new : JobRecord) (d : Disk)
    → jobs_directory ws (put_job new d) ≡ jobs_directory ws d
unfolding jobs_directory get_workspace
jobs_directory-put_job ws new d = refl

pub list-replaced :
    (ws id : String) (q : JobRecord → Bool) (d : Disk) (new : JobRecord) (jobs : List JobRecord)
    → new.workspace_id ≡ ws
    → new.job_id ≡ id
    → unique (keys d.jobs) ≡ true
    → is_some (lookup {K = Key} (ws, id) d.jobs) ≡ true
    → get_job_record ws id (put_job new d) ≡ ok new
    → q new ≡ true
    → list_job_records ws d ≡ ok jobs
    → any q jobs ≡ false
    → (jobs' : List JobRecord) × (list_job_records ws (put_job new d) ≡ ok jobs')
      × (count q jobs' ≡ 1)
list-replaced ws id q d new jobs same_ws same_id u there read is_q h none_q =
    let (rs, hdir, hnot, heach, sorted) = list-eq-ok ws d jobs h in
    let names = sort_by str_lt (job_names ws d.jobs) in
    let zeros : count q rs ≡ 0 =
      sym (count-sort_by record_lt q rs) ∙ ap (count q) sorted ∙ count-eq_zero q jobs none_q in
    let (rs', heach', counted) =
      each-replaced (list_entry ws d) (list_entry ws (put_job new d)) q id new names rs
        (λ n. list_entry-at ws id new d n same_ws same_id read)
        (λ n. list_entry-other ws id new d n same_ws same_id) is_q heach zeros in
    let there' = rw (sym same_ws, sym same_id) at there in
    let same_names =
      job_names-keys ws (put_job new d).jobs
      ∙ ap (names_of ws)
          (keys-insert {K = Key} (new.workspace_id, new.job_id) (child (file new)) d.jobs there')
      ∙ sym (job_names-keys ws d.jobs) in
    let one =
      count-sort_by str_lt (λ n. n == id) (job_names ws d.jobs)
      ∙ count-job_names ws id d.jobs u there in
    (
      sort_by record_lt rs',
      list-ok ws (put_job new d) (job_names ws d.jobs) rs' (jobs_directory-put_job ws new d ∙ hdir)
          hnot same_names heach',
      count-sort_by record_lt q rs' ∙ counted ∙ one,
    )
