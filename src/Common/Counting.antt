-- ===== src/Common/Counting.antt =====
-- How often what holds in lists, and the sizes of the parts of two sets.
use Prim.Native.Nat.{◌+◌}
use mathlib.Core.Path.{◌≡◌, refl, sym}
use mathlib.Core.Bool.{Bool, true, false, not}
use mathlib.Core.List.{List, [], ◌∷◌}
use native.Mathlib.Omega.{arith}
use evalops_lab.Common.Tests.{Eq, ◌==◌, ==_iff, if◌then◌else◌}
use evalops_lab.Common.Lists.{member, unique, count, keep, length, length-keep}

module _ {ℓ} {K : Type ℓ} ⦃e : Eq K⦄ where
  count-none : (k : K) (xs : List K) → member k xs ≡ false → count (λ x. x == k) xs ≡ 0
  count-none k [] h = refl
  count-none k (x ∷ xs) h = ground (arith, ==_iff k x, ==_iff x k, count-none k xs)

  -- An element of a list without repetitions occurs once.
  pub count-unique :
      (k : K) (xs : List K) → unique xs ≡ true → member k xs ≡ true → count (λ x. x == k) xs ≡ 1
  count-unique k [] u m = ground arith
  count-unique k (x ∷ xs) u m =
      ground (arith, ==_iff k x, ==_iff x k, count-none k xs, count-unique k xs)

  count-occurs :
      (k : K) (xs : List K)
      → unique xs ≡ true
      → count (λ x. x == k) xs ≡ (if member k xs then 1 else 0)
  count-occurs k xs u = ground (arith, count-unique k xs, count-none k xs)

  count-member_cons :
      (a : K) (xs ys : List K)
      → member a xs ≡ false
      → count (λ b. member b (a ∷ xs)) ys ≡ count (λ b. b == a) ys + count (λ b. member b xs) ys
  count-member_cons a xs [] h = refl
  count-member_cons a xs (b ∷ ys) h = ground (arith, ==_iff b a, count-member_cons a xs ys)

  count-member_nil : (ys : List K) → count (λ b. member b []) ys ≡ 0
  count-member_nil [] = refl
  count-member_nil (b ∷ ys) = count-member_nil ys

  -- The common part of two sets has one size, seen from either.
  pub count-member_comm :
      (xs ys : List K)
      → unique xs ≡ true
      → unique ys ≡ true
      → count (λ a. member a ys) xs ≡ count (λ b. member b xs) ys
  count-member_comm [] ys u v = sym (count-member_nil ys)
  count-member_comm (a ∷ xs) ys u v =
      ground (arith, count-member_cons a xs ys, count-occurs a ys, count-member_comm xs ys)

module _ {ℓ} {A : Type ℓ} where
  pub count-not : (p : A → Bool) (xs : List A) → length xs ≡ count p xs + count (λ x. not (p x)) xs
  count-not p [] = refl
  count-not p (x ∷ xs) = ground (arith, count-not p xs)

  -- A test splits a list.
  pub length-split :
      (p : A → Bool) (xs : List A)
      → length xs ≡ length (keep p xs) + length (keep (λ x. not (p x)) xs)
  length-split p xs =
      ground (arith, count-not p xs, length-keep p xs, length-keep (λ x. not (p x)) xs)
