-- ===== src/Common/Lists.antt =====
-- Lists measured by native numbers, membership tests, and Python's `set` and `all` over lists.
use Prim.Native.Nat.{ℕ, zero, suc, ◌+◌, ◌≤◌}
use mathlib.Core.Path.{◌≡◌, refl, sym}
use mathlib.Core.Logic.{◌↔◌}
use mathlib.Core.Bool.{Bool, true, false, not, ◌&&◌, ◌||◌}
use mathlib.Core.List.{List, [], ◌∷◌, ◌++◌}
use native.Mathlib.Omega.{arith}
use evalops_lab.Common.Tests.{Eq, ◌==◌, ==_iff, ==_refl, if◌then◌else◌}

module _ {ℓ} {A : Type ℓ} where
  abbrev pub length : List A → ℕ
  length [] = 0
  length (x ∷ xs) = suc (length xs)

  abbrev pub take : ℕ → List A → List A
  take zero xs = []
  take (suc n) [] = []
  take (suc n) (x ∷ xs) = x ∷ take n xs

  abbrev pub All {κ} : (A → Type κ) → List A → Type κ
  All P [] = Unit
  All P (x ∷ xs) = P x × All P xs

  -- `all(p(x) for x in xs)` and `any(p(x) for x in xs)`
  abbrev pub all : (A → Bool) → List A → Bool
  all p [] = true
  all p (x ∷ xs) = p x && all p xs

  abbrev pub any : (A → Bool) → List A → Bool
  any p [] = false
  any p (x ∷ xs) = p x || any p xs

  -- `[x for x in xs if p(x)]`
  abbrev pub keep : (A → Bool) → List A → List A
  keep p [] = []
  keep p (x ∷ xs) = if p x then x ∷ keep p xs else keep p xs

  abbrev pub count : (A → Bool) → List A → ℕ
  count p [] = 0
  count p (x ∷ xs) = if p x then suc (count p xs) else count p xs

  pub length-append : (xs ys : List A) → length (xs ++ ys) ≡ length xs + length ys
  length-append [] ys = omega arith
  length-append (x ∷ xs) ys = omega (arith, length-append xs ys)

  pub count-le-length : (p : A → Bool) (xs : List A) → count p xs ≤ length xs
  count-le-length p [] = omega arith
  count-le-length p (x ∷ xs) = ground (arith, count-le-length p xs)

  pub length-keep : (p : A → Bool) (xs : List A) → length (keep p xs) ≡ count p xs
  length-keep p [] = refl
  length-keep p (x ∷ xs) = ground (arith, length-keep p xs)

  pub length-take-le : (n : ℕ) (xs : List A) → length (take n xs) ≤ n
  length-take-le zero xs = omega arith
  length-take-le (suc n) [] = omega arith
  length-take-le (suc n) (x ∷ xs) = omega (arith, length-take-le n xs)

module _ {ℓ} {A : Type ℓ} ⦃e : Eq A⦄ where
  -- `xs == ys`
  abbrev pub list_beq : List A → List A → Bool
  list_beq [] [] = true
  list_beq (x ∷ xs) (y ∷ ys) = x == y && list_beq xs ys
  list_beq _ _ = false

  pub list_beq_iff : (xs ys : List A) → (list_beq xs ys ≡ true) ↔ (xs ≡ ys)
  list_beq_iff [] [] = ground arith
  list_beq_iff (x ∷ xs) (y ∷ ys) = ground (arith, ==_iff x y, list_beq_iff xs ys)
  list_beq_iff [] (y ∷ ys) = ground arith
  list_beq_iff (x ∷ xs) [] = ground arith

  -- `a in xs`
  abbrev pub member : A → List A → Bool
  member a [] = false
  member a (x ∷ xs) = a == x || member a xs

  -- `set(xs)`, each element at its last occurrence.
  abbrev pub to_set : List A → List A
  to_set [] = []
  to_set (x ∷ xs) = if member x xs then to_set xs else x ∷ to_set xs

  -- No element occurs twice.
  abbrev pub unique : List A → Bool
  unique [] = true
  unique (x ∷ xs) = not (member x xs) && unique xs

  abbrev pub subset : List A → List A → Bool
  subset xs ys = all (λ x. member x ys) xs

  -- `set(xs) == set(ys)`
  abbrev pub same_set : List A → List A → Bool
  same_set xs ys = subset xs ys && subset ys xs

  pub member-to_set : (a : A) (xs : List A) → member a (to_set xs) ≡ member a xs
  member-to_set a [] = refl
  member-to_set a (x ∷ xs) = ground (arith, member-to_set a xs, ==_iff a x)

  pub unique-to_set : (xs : List A) → unique (to_set xs) ≡ true
  unique-to_set [] = refl
  unique-to_set (x ∷ xs) = ground (arith, unique-to_set xs, member-to_set x xs)

  pub length-to_set-le : (xs : List A) → length (to_set xs) ≤ length xs
  length-to_set-le [] = omega arith
  length-to_set-le (x ∷ xs) = ground (arith, length-to_set-le xs)

  pub subset-member :
      (a : A) (xs ys : List A) → subset xs ys ≡ true → member a xs ≡ true → member a ys ≡ true
  subset-member a [] ys h m = ground arith
  subset-member a (x ∷ xs) ys h m = ground (arith, ==_iff a x, subset-member a xs ys)

  pub member-keep :
      (p : A → Bool) (a : A) (xs : List A) → member a (keep p xs) ≡ (p a && member a xs)
  member-keep p a [] = ground arith
  member-keep p a (x ∷ xs) = ground (arith, ==_iff a x, member-keep p a xs)

  pub unique-keep : (p : A → Bool) (xs : List A) → unique xs ≡ true → unique (keep p xs) ≡ true
  unique-keep p [] h = refl
  unique-keep p (x ∷ xs) h = ground (arith, member-keep p x xs, unique-keep p xs)

  pub member-append : (a : A) (xs ys : List A) → member a (xs ++ ys) ≡ (member a xs || member a ys)
  member-append a [] ys = refl
  member-append a (x ∷ xs) ys = ground (arith, member-append a xs ys)

  -- `ids.discard(a)`, where `ids` is the set of a list that begins with `a`.
  pub member-discard_head :
      (a j : A) (ids xs : List A)
      → unique (a ∷ xs) ≡ true
      → member j ids ≡ member j (a ∷ xs)
      → member j (keep (λ k. not (k == a)) ids) ≡ member j xs
  member-discard_head a j ids xs u h =
      ground (arith, member-keep (λ k. not (k == a)) j ids, ==_iff j a)

  pub unique-tail : (a : A) (xs : List A) → unique (a ∷ xs) ≡ true → unique xs ≡ true
  unique-tail a xs h = ground arith

module _ {ℓ} {A : Type ℓ} where
  pub count-pos : (p : A → Bool) (xs : List A) → any p xs ≡ true → 1 ≤ count p xs
  count-pos p [] h = ground arith
  count-pos p (x ∷ xs) h = ground (arith, count-pos p xs)

  pub count-eq_zero : (p : A → Bool) (xs : List A) → any p xs ≡ false → count p xs ≡ 0
  count-eq_zero p [] h = refl
  count-eq_zero p (x ∷ xs) h = ground (arith, count-eq_zero p xs)

module _ {ℓ} {A : Type ℓ} ⦃e : Eq A⦄ where
  any-member_cons :
      (x : A) (xs ys : List A)
      → any (λ y. member y (x ∷ xs)) ys ≡ (member x ys || any (λ y. member y xs) ys)
  any-member_cons x xs [] = refl
  any-member_cons x xs (y ∷ ys) = ground (arith, any-member_cons x xs ys, ==_iff x y, ==_iff y x)

  any-member_nil : (ys : List A) → any (λ y. member y []) ys ≡ false
  any-member_nil [] = refl
  any-member_nil (y ∷ ys) = any-member_nil ys

  -- Two lists share an element, seen from either.
  pub any-member_comm : (xs ys : List A) → any (λ x. member x ys) xs ≡ any (λ y. member y xs) ys
  any-member_comm [] ys = sym (any-member_nil ys)
  any-member_comm (x ∷ xs) ys = ground (arith, any-member_cons x xs ys, any-member_comm xs ys)

  All-member_weaken :
      (y : A) (ys xs : List A)
      → All (λ x. member x ys ≡ true) xs
      → All (λ x. member x (y ∷ ys) ≡ true) xs
  All-member_weaken y ys [] h = tt
  All-member_weaken y ys (x ∷ xs) h = (ground (arith, h.0), All-member_weaken y ys xs h.1)

  pub All-member_self : (xs : List A) → All (λ x. member x xs ≡ true) xs
  All-member_self [] = tt
  All-member_self (x ∷ xs) =
      (ground (arith, ==_refl x), All-member_weaken x xs xs (All-member_self xs))

module _ {ℓ} {A : Type ℓ} where
  pub All-map {κ μ} :
      {P : A → Type κ} {Q : A → Type μ} (f : (a : A) → P a → Q a) (xs : List A)
      → All P xs
      → All Q xs
  All-map f [] h = tt
  All-map f (x ∷ xs) h = (f x h.0, All-map f xs h.1)
