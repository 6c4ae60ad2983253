-- ===== src/Storage/Actions.antt =====
-- Calls on the disk of src/evalops/workspace/storage.py, one after another: an exception ends the
-- sequence and leaves the disk as it is then.
use evalops_lab.Common.{
  ◌+◌, ◌⊎◌, ◌≡◌, refl, sym, subst, ap, ◌∙◌, Bool, true, false, arith, Bool-cases, inl, inr, Result,
  ok, raise, raise_if,
}
use evalops_lab.Storage.Disk.{StoreError, storage, os_error, Disk, atomic_write}

abbrev pub Proc : Type 0 → Type 0 → Type 0
Proc E A = Disk → Result E A × Disk

abbrev pub carry : {E A B : Type 0} → Result E A × Disk → (A → Proc E B) → Result E B × Disk
carry (ok a, d) f = f a d
carry (raise e, d) f = (raise e, d)

infixl 5 ◌>>=◌ ◌>>◌
unfoldable pub ◌>>=◌ : {E A B : Type 0} → Proc E A → (A → Proc E B) → Proc E B
◌>>=◌ m f d = carry (m d) f

abbrev pub ◌>>◌ : {E B : Type 0} → Proc E (Unit {0}) → Proc E B → Proc E B
m >> next = m >>= λ _. next

unfoldable pub return : {E A : Type 0} → A → Proc E A
return a d = (ok a, d)

unfoldable pub fail : {E A : Type 0} → E → Proc E A
fail e d = (raise e, d)

-- A call that only reads.
unfoldable pub query : {E A : Type 0} → (Disk → Result E A) → Proc E A
query q d = (q d, d)

-- `if bad: raise e`, where the test may read.
unfoldable pub check : {E : Type 0} → (Disk → Bool) → E → Proc E (Unit {0})
check bad e d = (raise_if (bad d) e, d)

-- A call whose exceptions are among those of a larger type.
abbrev pub reraise : {E F A : Type 0} → (E → F) → Result E A × Disk → Result F A × Disk
reraise f (ok a, d) = (ok a, d)
reraise f (raise e, d) = (raise (f e), d)

unfoldable pub call_as : {E F A : Type 0} → (E → F) → Proc E A → Proc F A
call_as f m d = reraise f (m d)

-- `_atomic_create_bytes`, at a path where `taken` says whether there is something.
unfoldable pub atomic_create : (Disk → Bool) → (Disk → Disk) → Proc StoreError (Unit {0})
atomic_create taken change = do
  check taken (storage "immutable workspace record already exists")
  atomic_write change

carry-eq-ok :
    {E A B : Type 0} (o : Result E A × Disk) (f : A → Proc E B) {b : B} {d' : Disk}
    → carry o f ≡ (ok b, d')
    → (a : A) × (d : Disk) × (o ≡ (ok a, d)) × (f a d ≡ (ok b, d'))
carry-eq-ok (ok a, d) f h = (a, d, refl, h)
carry-eq-ok {E} {A} {B} (raise e, d) f h = cc (ap (λ (p : Result E B × Disk). p.0) h)

-- How a sequence came to return.
pub >>=-eq-ok :
    {E A B : Type 0} (m : Proc E A) (f : A → Proc E B) (d : Disk) {b : B} {d' : Disk}
    → (m >>= f) d ≡ (ok b, d')
    → (a : A) × (d1 : Disk) × (m d ≡ (ok a, d1)) × (f a d1 ≡ (ok b, d'))
unfolding ◌>>=◌
>>=-eq-ok m f d h = carry-eq-ok (m d) f h

pub query-eq-ok :
    {E A B : Type 0} (q : Disk → Result E A) (f : A → Proc E B) (d : Disk) {b : B} {d' : Disk}
    → (query q >>= f) d ≡ (ok b, d')
    → (a : A) × (q d ≡ ok a) × (f a d ≡ (ok b, d'))
unfolding ◌>>=◌ query
query-eq-ok {E} {A} q f d h =
    let (a, d1, e, g) = carry-eq-ok (q d, d) f h in
    let same : d1 ≡ d = sym (ap (λ (p : Result E A × Disk). p.1) e) in
    (a, ap (λ (p : Result E A × Disk). p.0) e, rw same at g)

pub return-eq-ok :
    {E A : Type 0} (a : A) {b : A} (d : Disk) {d' : Disk}
    → return {E = E} a d ≡ (ok b, d')
    → (a ≡ b) × (d' ≡ d)
unfolding return
return-eq-ok {E} {A} a d h =
    (cc (ap (λ (p : Result E A × Disk). p.0) h), sym (ap (λ (p : Result E A × Disk). p.1) h))

pub check-eq-ok :
    {E B : Type 0} (bad : Disk → Bool) (e : E) (f : Unit {0} → Proc E B) (d : Disk) {b : B}
    {d' : Disk}
    → (check bad e >>= f) d ≡ (ok b, d')
    → (bad d ≡ false) × (f tt d ≡ (ok b, d'))
unfolding ◌>>=◌ check
check-eq-ok {E} {B} bad e f d h = elim (Bool-cases (bad d)) [
  | inl fails ↦ let g = rw fails at h in absurd (cc (ap (λ (p : Result E B × Disk). p.0) g))
  | inr passes ↦ let g = rw passes at h in (passes, g)
]

-- What holds of both ways to go on holds of the sequence.
pub >>=_elim :
    {E A B : Type 0} (P : Result E B × Disk → Type 0) (m : Proc E A) (f : A → Proc E B) (d : Disk)
    → ((a : A) (d1 : Disk) → m d ≡ (ok a, d1) → P (f a d1))
    → ((e : E) (d1 : Disk) → m d ≡ (raise e, d1) → P (raise e, d1))
    → P ((m >>= f) d)
unfolding ◌>>=◌
>>=_elim {E} {A} P m f d good bad = go (m d) refl
  where
    go : (o : Result E A × Disk) → m d ≡ o → P (carry o f)
    go (ok a, d1) h = good a d1 h
    go (raise e, d1) h = bad e d1 h

-- An atomic change that returns has been made.
pub atomic_write-eq-ok :
    (change : Disk → Disk) (d : Disk) {d' : Disk}
    → atomic_write change d ≡ (ok tt, d')
    → d' ≡ change (record d { written = d.written + 1 })
unfolding atomic_write
atomic_write-eq-ok change d h = elim (Bool-cases (d.faults d.written)) [
  | inl refused ↦
      let g = rw refused at h in
      absurd (cc (ap (λ (p : Result StoreError (Unit {0}) × Disk). p.0) g))
  | inr taken ↦
      let g = rw taken at h in sym (ap (λ (p : Result StoreError (Unit {0}) × Disk). p.1) g)
]

pub atomic_create-eq-ok :
    (taken : Disk → Bool) (change : Disk → Disk) (d : Disk) {d' : Disk}
    → atomic_create taken change d ≡ (ok tt, d')
    → (taken d ≡ false) × (d' ≡ change (record d { written = d.written + 1 }))
unfolding atomic_create
atomic_create-eq-ok taken change d h =
    let (free, written) = check-eq-ok taken _ _ d h in (free, atomic_write-eq-ok change d written)

-- A read that returns, and a test that passes, lead on.
pub query-ok :
    {E A B : Type 0} (q : Disk → Result E A) (f : A → Proc E B) (d : Disk) {a : A}
    → q d ≡ ok a
    → (query q >>= f) d ≡ f a d
unfolding ◌>>=◌ query
query-ok {E} {A} q f d h = ap (λ (r : Result E A). carry (r, d) f) h

pub check-ok :
    {E B : Type 0} (bad : Disk → Bool) (e : E) (f : Unit {0} → Proc E B) (d : Disk)
    → bad d ≡ false
    → (check bad e >>= f) d ≡ f tt d
unfolding ◌>>=◌ check
check-ok bad e f d h = ap (λ b. carry (raise_if b e, d) f) h

pub >>=-ok :
    {E A B : Type 0} (m : Proc E A) (f : A → Proc E B) (d : Disk) {a : A} {d1 : Disk}
    → m d ≡ (ok a, d1)
    → (m >>= f) d ≡ f a d1
unfolding ◌>>=◌
>>=-ok {E} {A} m f d h = ap (λ (o : Result E A × Disk). carry o f) h

pub >>=-raise :
    {E A B : Type 0} (m : Proc E A) (f : A → Proc E B) (d : Disk) {e : E} {d1 : Disk}
    → m d ≡ (raise e, d1)
    → (m >>= f) d ≡ (raise e, d1)
unfolding ◌>>=◌
>>=-raise {E} {A} m f d h = ap (λ (o : Result E A × Disk). carry o f) h

pub atomic_write-ok :
    (change : Disk → Disk) (d : Disk)
    → d.faults d.written ≡ false
    → atomic_write change d ≡ (ok tt, change (record d { written = d.written + 1 }))
unfolding atomic_write
atomic_write-ok change d h = rw h refl

pub atomic_write-fault :
    (change : Disk → Disk) (d : Disk)
    → d.faults d.written ≡ true
    → atomic_write change d ≡ (raise os_error, record d { written = d.written + 1 })
unfolding atomic_write
atomic_write-fault change d h = rw h refl

pub atomic_create-ok :
    (taken : Disk → Bool) (change : Disk → Disk) (d : Disk)
    → taken d ≡ false
    → d.faults d.written ≡ false
    → atomic_create taken change d ≡ (ok tt, change (record d { written = d.written + 1 }))
unfolding atomic_create
atomic_create-ok taken change d h g = check-ok taken _ _ d h ∙ atomic_write-ok change d g

pub atomic_create-fault :
    (taken : Disk → Bool) (change : Disk → Disk) (d : Disk)
    → taken d ≡ false
    → d.faults d.written ≡ true
    → atomic_create taken change d ≡ (raise os_error, record d { written = d.written + 1 })
unfolding atomic_create
atomic_create-fault taken change d h g = check-ok taken _ _ d h ∙ atomic_write-fault change d g

-- Sequences that leave the disk as it is.
unfoldable pub Reads : {E A : Type 0} → Proc E A → Type 0
Reads m = (d : Disk) → (m d).1 ≡ d

pub query-Reads : {E A : Type 0} (q : Disk → Result E A) → Reads (query q)
unfolding query Reads
query-Reads q d = refl

pub check-Reads : {E : Type 0} (bad : Disk → Bool) (e : E) → Reads (check bad e)
unfolding check Reads
check-Reads bad e d = refl

pub return-Reads : (E : Type 0) {A : Type 0} (a : A) → Reads (return {E = E} a)
unfolding return Reads
return-Reads E a d = refl

pub >>=-Reads :
    {E A B : Type 0} (m : Proc E A) (f : A → Proc E B)
    → Reads m
    → ((a : A) → Reads (f a))
    → Reads (m >>= f)
unfolding ◌>>=◌ Reads
>>=-Reads {E} {A} {B} m f hm hf d = go (m d) (hm d)
  where
    go : (o : Result E A × Disk) → o.1 ≡ d → (carry o f).1 ≡ d
    go (ok a, d1) h = hf a d1 ∙ h
    go (raise e, d1) h = h

pub check_done :
    {E : Type 0} (bad : Disk → Bool) (e : E) (d : Disk) {d' : Disk}
    → check bad e d ≡ (ok tt, d')
    → (bad d ≡ false) × (d' ≡ d)
unfolding check
check_done {E} bad e d h = (
  ground (arith, ap (λ (o : Result E (Unit {0}) × Disk). o.0) h),
  sym (ap (λ (o : Result E (Unit {0}) × Disk). o.1) h),
)

reraise-eq-ok :
    {E F A : Type 0} (f : E → F) (o : Result E A × Disk) {a : A} {d : Disk}
    → reraise f o ≡ (ok a, d)
    → o ≡ (ok a, d)
reraise-eq-ok {E} {F} {A} f (ok b, e) h = ap back h
  where
    back : Result F A × Disk → Result E A × Disk
    back (ok c, d) = (ok c, d)
    back (raise _, d) = (ok b, d)
reraise-eq-ok {E} {F} {A} f (raise x, e) h = cc (ap (λ (o : Result F A × Disk). o.0) h)

pub call_as-eq-ok :
    {E F A : Type 0} (f : E → F) (m : Proc E A) (d : Disk) {a : A} {d' : Disk}
    → call_as f m d ≡ (ok a, d')
    → m d ≡ (ok a, d')
unfolding call_as
call_as-eq-ok f m d h = reraise-eq-ok f (m d) h

pub call_query-eq-ok :
    {E F A B : Type 0} (f : E → F) (q : Disk → Result E A) (g : A → Proc F B) (d : Disk) {b : B}
    {d' : Disk}
    → (call_as f (query q) >>= g) d ≡ (ok b, d')
    → (a : A) × (q d ≡ ok a) × (g a d ≡ (ok b, d'))
unfolding query
call_query-eq-ok {E} {F} {A} {B} f q g d {b} {d'} h =
    let (a, d1, e, k) = >>=-eq-ok (call_as f (query q)) g d h in
    let read = call_as-eq-ok f (query q) d e in
    let same : d1 ≡ d = sym (ap (λ (p : Result E A × Disk). p.1) read) in
    (a, ap (λ (p : Result E A × Disk). p.0) read, subst (λ (x : Disk). g a x ≡ (ok b, d')) same k)

pub call_as-Reads : {E F A : Type 0} (f : E → F) (m : Proc E A) → Reads m → Reads (call_as f m)
unfolding call_as Reads
call_as-Reads {E} {F} {A} f m h d = same (m d) (h d)
  where
    same : (o : Result E A × Disk) → o.1 ≡ d → (reraise f o).1 ≡ d
    same (ok a, d1) e = e
    same (raise x, d1) e = e

-- How a sequence that begins with a read came to return.
pub read_first-eq-ok :
    {E A B : Type 0} (m : Proc E A) (f : A → Proc E B) (d : Disk) {b : B} {d' : Disk}
    → Reads m
    → (m >>= f) d ≡ (ok b, d')
    → (a : A) × (m d ≡ (ok a, d)) × (f a d ≡ (ok b, d'))
unfolding Reads
read_first-eq-ok {E} {A} {B} m f d {b} {d'} reads h =
    let (a, d1, e, g) = >>=-eq-ok m f d h in
    let same : d1 ≡ d = sym (ap (λ (o : Result E A × Disk). o.1) e) ∙ reads d in
    (
      a,
      subst (λ (x : Disk). m d ≡ (ok a, x)) same e,
      subst (λ (x : Disk). f a x ≡ (ok b, d')) same g,
    )

-- How a sequence that begins with a read came to raise.
pub read_first-eq-raise :
    {E A B : Type 0} (m : Proc E A) (f : A → Proc E B) (d : Disk) {e : E} {d' : Disk}
    → Reads m
    → (m >>= f) d ≡ (raise e, d')
    → (d' ≡ d) ⊎ ((a : A) × (m d ≡ (ok a, d)) × (f a d ≡ (raise e, d')))
unfolding Reads ◌>>=◌
read_first-eq-raise {E} {A} {B} m f d {e} {d'} reads h = go (m d) refl h (reads d)
  where
    go :
        (o : Result E A × Disk)
        → m d ≡ o
        → carry o f ≡ (raise e, d')
        → o.1 ≡ d
        → (d' ≡ d) ⊎ ((a : A) × (m d ≡ (ok a, d)) × (f a d ≡ (raise e, d')))
    go (ok a, d1) came g same = inr (
      a,
      subst (λ (x : Disk). m d ≡ (ok a, x)) same came,
      subst (λ (x : Disk). f a x ≡ (raise e, d')) same g,
    )
    go (raise x, d1) came g same = inl (sym (ap (λ (o : Result E B × Disk). o.1) g) ∙ same)
