-- ===== src/Common/Sort.antt =====
-- `sorted` as a stable insertion sort under a Boolean order, and the order of texts.
use Prim.Native.String.{String, compare}
use mathlib.Core.Path.{◌≡◌, refl}
use mathlib.Core.Bool.{Bool, true, ◌||◌}
use mathlib.Core.List.{List, [], ◌∷◌}
use native.Mathlib.Omega.{arith}
use text.Mathlib.Text.{is_lt}
use evalops_lab.Common.Tests.{Eq, ◌==◌, ==_iff, if◌then◌else◌}
use evalops_lab.Common.Lists.{member, unique, length, All, count}

-- `s < t` on texts, by code points.
abbrev pub str_lt : String → String → Bool
str_lt s t = is_lt (compare s t)

module _ {ℓ} {A : Type ℓ} where
  abbrev pub place : (A → A → Bool) → A → List A → List A
  place lt x [] = x ∷ []
  place lt x (y ∷ ys) = if lt y x then y ∷ place lt x ys else x ∷ y ∷ ys

  -- Elements that compare equal keep their order.
  abbrev pub sort_by : (A → A → Bool) → List A → List A
  sort_by lt [] = []
  sort_by lt (x ∷ xs) = place lt x (sort_by lt xs)

  All-place {κ} :
      (P : A → Type κ) (lt : A → A → Bool) (x : A) (ys : List A)
      → P x
      → All P ys
      → All P (place lt x ys)
  All-place P lt x [] px h = (px, h)
  All-place P lt x (y ∷ ys) px h = ground (arith, All-place P lt x ys px)

  pub All-sort_by {κ} :
      (P : A → Type κ) (lt : A → A → Bool) (xs : List A) → All P xs → All P (sort_by lt xs)
  All-sort_by P lt [] h = h
  All-sort_by P lt (x ∷ xs) h = All-place P lt x (sort_by lt xs) h.0 (All-sort_by P lt xs h.1)

  length-place :
      (lt : A → A → Bool) (x : A) (ys : List A) → length (place lt x ys) ≡ length (x ∷ ys)
  length-place lt x [] = refl
  length-place lt x (y ∷ ys) = ground (arith, length-place lt x ys)

  count-place :
      (lt : A → A → Bool) (p : A → Bool) (x : A) (ys : List A)
      → count p (place lt x ys) ≡ count p (x ∷ ys)
  count-place lt p x [] = refl
  count-place lt p x (y ∷ ys) = ground (arith, count-place lt p x ys)

  pub count-sort_by :
      (lt : A → A → Bool) (p : A → Bool) (xs : List A) → count p (sort_by lt xs) ≡ count p xs
  count-sort_by lt p [] = refl
  count-sort_by lt p (x ∷ xs) =
      ground (arith, count-place lt p x (sort_by lt xs), count-sort_by lt p xs)

  pub length-sort_by : (lt : A → A → Bool) (xs : List A) → length (sort_by lt xs) ≡ length xs
  length-sort_by lt [] = refl
  length-sort_by lt (x ∷ xs) =
      ground (arith, length-place lt x (sort_by lt xs), length-sort_by lt xs)

module _ {ℓ} {A : Type ℓ} ⦃e : Eq A⦄ where
  member-place :
      (lt : A → A → Bool) (a x : A) (ys : List A)
      → member a (place lt x ys) ≡ (a == x || member a ys)
  member-place lt a x [] = refl
  member-place lt a x (y ∷ ys) = ground (arith, member-place lt a x ys)

  pub member-sort_by :
      (lt : A → A → Bool) (a : A) (xs : List A) → member a (sort_by lt xs) ≡ member a xs
  member-sort_by lt a [] = refl
  member-sort_by lt a (x ∷ xs) =
      ground (arith, member-place lt a x (sort_by lt xs), member-sort_by lt a xs)

  unique-place :
      (lt : A → A → Bool) (x : A) (ys : List A) → unique (place lt x ys) ≡ unique (x ∷ ys)
  unique-place lt x [] = refl
  unique-place lt x (y ∷ ys) =
      ground (arith, unique-place lt x ys, member-place lt y x ys, ==_iff x y, ==_iff y x)

  pub unique-sort_by :
      (lt : A → A → Bool) (xs : List A) → unique xs ≡ true → unique (sort_by lt xs) ≡ true
  unique-sort_by lt [] h = h
  unique-sort_by lt (x ∷ xs) h =
      ground
        (arith, unique-place lt x (sort_by lt xs), member-sort_by lt x xs, unique-sort_by lt xs)
