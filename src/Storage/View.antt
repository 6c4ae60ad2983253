-- ===== src/Storage/View.antt =====
-- The records of the jobs as a map that is changed by compare-and-set: what
-- `update_job_record` of src/evalops/workspace/storage.py promises.
use evalops_lab.Common.{
  ℕ, ◌+◌, String, ◌≡◌, refl, sym, ap, ◌∙◌, Bool-cases, inl, inr, false, Option, none, some, Result,
  Result-cases, ok, raise, ◌>>=◌, lookup, lookup-insert, ==_iff, ◌==◌, if◌then◌else◌, arith,
}
use evalops_lab.Jobs.Record.{JobRecord}
use evalops_lab.Storage.Disk.{StoreError, Key, key_eq, Disk, child, file}
use evalops_lab.Storage.Jobs.{
  Update, get_job_record, next_record, put_job, update_job_record, write_job, read_then,
}
use evalops_lab.Storage.CompareAndSet.{suits, changed, taken, next_record_lem}
use evalops_lab.Storage.Listing.{get_job_record-other}
use evalops_lab.Storage.Updates.{
  get_job_record_ids, get_job_record-written, update_is_durable, read_then-ok, write_job-ok,
}

-- The jobs that can be read.
abbrev pub View : Type 0
View = Key → Option JobRecord

-- What a disk says of every job.
abbrev pub view : Disk → View
view d (ws, job) = taken (get_job_record ws job d)

abbrev pub set_at : Key → JobRecord → View → View
set_at k r v j = if j == k then some r else v j

-- Compare-and-set at one key: an update that suits the record is taken, any other is not.
unfoldable pub compare_and_set : Update → ℕ → Key → View → Option JobRecord × View
compare_and_set u now k v = elim (v k) [
  | none ↦ (none, v)
  | some old ↦
      if suits u old then (some (changed u now old), set_at k (changed u now old) v) else (none, v)
]

-- The same outcome, but for the reason of a refusal, and the same at every key.
pub record Refines (o : Result StoreError JobRecord × Disk) (s : Option JobRecord × View)
    : Type 0 where
  pub result : taken o.0 ≡ s.0
  pub left : (j : Key) → view o.1 j ≡ s.1 j

-- A key whose record was put, and any other.
view-put_job :
    (ws job : String) (new : JobRecord) (d : Disk)
    → get_job_record ws job (put_job new d) ≡ ok new
    → new.workspace_id ≡ ws
    → new.job_id ≡ job
    → (j : Key) → view (put_job new d) j ≡ set_at (ws, job) new (view d) j
view-put_job ws job new d read same_ws same_id (w, n) =
    elim (Bool-cases (◌==◌ {A = Key} (w, n) (ws, job))) [
      | inl here ↦
          let at : (w, n) ≡ (ws, job) = (==_iff {A = Key} (w, n) (ws, job)).0 here in
          rw here (ap (view (put_job new d)) at ∙ ap taken read)
      | inr away ↦
          let kept : lookup {K = Key} (w, n) (put_job new d).jobs ≡ lookup {K = Key} (w, n) d.jobs =
            ground (
              arith,
              same_ws,
              same_id,
              away,
              lookup-insert {K = Key} (new.workspace_id, new.job_id) (w, n) (child (file new))
                  d.jobs,
            ) in
          rw away (ap taken (get_job_record-other w n new d kept))
    ]

same_ends :
    (o : Result StoreError JobRecord × Disk) (s : Option JobRecord × View)
    (result : Result StoreError JobRecord) (d : Disk) {v : View}
    → o ≡ (result, d)
    → s ≡ (taken result, v)
    → ((j : Key) → view d j ≡ v j)
    → Refines o s
same_ends o s result d h g after = record {
  result =
      ap (λ (x : Result StoreError JobRecord × Disk). taken x.0) h
      ∙ sym (ap (λ (x : Option JobRecord × View). x.0) g);
  left = λ j.
      ap (λ (x : Result StoreError JobRecord × Disk). view x.1 j) h
      ∙ after j
      ∙ sym (ap (λ (x : Option JobRecord × View). x.1 j) g);
}

-- What compare-and-set does, by what the guards say of the record that is read.
compare_and_set_lem :
    (u : Update) (now : ℕ) (k : Key) (v : View) (o : Result StoreError JobRecord)
    (found : Result StoreError JobRecord)
    → v k ≡ taken found
    → (found >>= next_record u now) ≡ o
    → compare_and_set u now k v ≡ (elim o as (λ _. Option JobRecord × View) [
      | ok r ↦ (some r, set_at k r v)
      | raise e ↦ (none, v)
    ])
unfolding compare_and_set
compare_and_set_lem u now k v (ok r) (raise e) found next = cc next
compare_and_set_lem u now k v (raise x) (raise e) found next = rw (found, compare_and_set) refl
compare_and_set_lem u now k v (ok r) (ok old) found next =
    let e = next_record_lem u now old in
    elim (Bool-cases (suits u old)) [
      | inl fits ↦
          let same : changed u now old ≡ r = cc (rw (fits, next) at e) in
          rw (found, compare_and_set) (rw (fits, same) refl)
      | inr unfit ↦ cc (rw (unfit, next) at e)
    ]
compare_and_set_lem u now k v (raise x) (ok old) found next =
    let e = next_record_lem u now old in
    elim (Bool-cases (suits u old)) [
      | inl fits ↦ cc (rw (fits, next) at e)
      | inr unfit ↦ rw (found, compare_and_set) (rw unfit refl)
    ]

-- If the device takes the write, then on the map of the jobs that can be read `update_job_record`
-- is compare-and-set by a rule of its own: it returns the changed record exactly when there is a
-- job with the expected revision that is not over, the update moves it to the phase after its own
-- while nobody wants it cancelled, or to an end, or is the first request to cancel it, and the
-- error of the update fits the end; else it raises and the map is as before. Every job, of any
-- workspace, is then read as in the map in which only that job has changed.
pub update_job_record-Refines :
    (ws job : String) (u : Update) (now : ℕ) (d : Disk)
    → d.faults d.written ≡ false
    → Refines (update_job_record ws job u now d) (compare_and_set u now (ws, job) (view d))
unfolding update_job_record
update_job_record-Refines ws job u now d works =
    elim (Result-cases (get_job_record ws job d >>= next_record u now)) [
      | inl (r, next) ↦ accepted r next
      | inr (e, refused) ↦ rejected e refused
    ]
  where
    accepted :
        (r : JobRecord)
        → (get_job_record ws job d >>= next_record u now) ≡ ok r
        → Refines (update_job_record ws job u now d) (compare_and_set u now (ws, job) (view d))
    accepted r next =
        let counted : Disk = record d { written = d.written + 1 } in
        let done : update_job_record ws job u now d ≡ (ok r, put_job r counted) =
          read_then-ok (λ x. get_job_record ws job x >>= next_record u now) write_job d next
          ∙ write_job-ok r d works in
        let (read, _) = update_is_durable ws job u now d (put_job r counted) r done in
        let (same_id, same_ws) = get_job_record_ids ws job (put_job r counted) r read in
        let spec : compare_and_set u now (ws, job) (view d)
            ≡ (some r, set_at (ws, job) r (view d)) =
          compare_and_set_lem u now (ws, job) (view d) (ok r) (get_job_record ws job d) refl next in
        let after : (j : Key) → view (put_job r counted) j ≡ set_at (ws, job) r (view d) j = λ j.
          view-put_job ws job r counted read same_ws same_id j
          ∙ ap (λ (x : Result StoreError JobRecord). if j == (ws, job) then some r else taken x)
              (get_job_record-written j.0 j.1 (d.written + 1) d) in
        same_ends _ _ _ _ done spec after

    rejected :
        (e : StoreError)
        → (get_job_record ws job d >>= next_record u now) ≡ raise e
        → Refines (update_job_record ws job u now d) (compare_and_set u now (ws, job) (view d))
    rejected e refused =
        let stays : update_job_record ws job u now d ≡ (raise e, d) =
          rw (refused, read_then) refl in
        let spec : compare_and_set u now (ws, job) (view d) ≡ (none, view d) =
          compare_and_set_lem u now (ws, job) (view d) (raise e) (get_job_record ws job d) refl
            refused in
        same_ends _ _ _ _ stays spec (λ j. refl)
