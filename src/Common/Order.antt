-- ===== src/Common/Order.antt =====
-- The order of Python's finite floats, and `min` and `max` of a list.
use Prim.Native.Nat.{ℕ, suc, ◌*◌, ◌≤◌}
use mathlib.Core.Path.{◌≡◌, refl}
use mathlib.Core.Bool.{Bool, true, false, ◌||◌}
use mathlib.Core.Logic.{◌⊎◌, inl, inr}
use mathlib.Core.List.{List, [], ◌∷◌}
use native.Mathlib.Omega.{arith}
use native.Mathlib.Nat.{mul-le-mul_right, le_of_mul-le-mul_right}
use evalops_lab.Common.Tests.{ltb, nat_beq, if◌then◌else◌, Bool-cases}
use evalops_lab.Common.Lists.{All}
use evalops_lab.Common.Number.{Float, FloatLaws, fractions}

-- What holds of `<` and `==` on finite IEEE numbers: `not b < a` is a total preorder, and `a == b`
-- says that neither is less.
pub record OrderLaws (fl : Float) : Type 1 where
  pub lt_asymm : (a b : fl.Number) → fl.lt a b ≡ true → fl.lt b a ≡ false
  pub le_trans : (a b c : fl.Number) → fl.lt b a ≡ false → fl.lt c b ≡ false → fl.lt c a ≡ false
  pub eq_le : (a b : fl.Number) → fl.eq a b ≡ true → fl.lt a b ≡ false

scaled_le :
    (a p b q c r : ℕ)
    → a * suc q ≤ b * suc p
    → b * suc r ≤ c * suc q
    → a * suc r * suc q ≤ c * suc p * suc q
scaled_le a p b q c r h k = grind (arith, mul-le-mul_right (suc r) h, mul-le-mul_right (suc p) k)

fraction_le_trans :
    (a b c : ℕ × ℕ)
    → ltb (b.0 * suc a.1) (a.0 * suc b.1) ≡ false
    → ltb (c.0 * suc b.1) (b.0 * suc c.1) ≡ false
    → ltb (c.0 * suc a.1) (a.0 * suc c.1) ≡ false
fraction_le_trans (a, p) (b, q) (c, r) h k =
    let x : a * suc q ≤ b * suc p = ground (arith, h) in
    let y : b * suc r ≤ c * suc q = ground (arith, k) in
    let z : a * suc r ≤ c * suc p =
      le_of_mul-le-mul_right (scaled_le a p b q c r x y) (omega arith) in
    ground (arith, z)

fraction_lt_asymm :
    (a b : ℕ × ℕ)
    → ltb (a.0 * suc b.1) (b.0 * suc a.1) ≡ true
    → ltb (b.0 * suc a.1) (a.0 * suc b.1) ≡ false
fraction_lt_asymm a b h = ground (arith, h)

fraction_eq_le :
    (a b : ℕ × ℕ)
    → nat_beq (a.0 * suc b.1) (b.0 * suc a.1) ≡ true
    → ltb (a.0 * suc b.1) (b.0 * suc a.1) ≡ false
fraction_eq_le a b h = ground (arith, h)

pub fractions_order : OrderLaws fractions
fractions_order = record {
  lt_asymm = fraction_lt_asymm;
  le_trans = fraction_le_trans;
  eq_le = fraction_eq_le;
}

module _ (fl : Float) where
  open fl use {Number, lt, eq}

  -- `max(xs)` and `min(xs)` of a list that is not empty, the first of several.
  unfoldable pub max_of : Number → List Number → Number
  max_of best [] = best
  max_of best (x ∷ xs) = max_of (if lt best x then x else best) xs

  unfoldable pub min_of : Number → List Number → Number
  min_of best [] = best
  min_of best (x ∷ xs) = min_of (if lt x best then x else best) xs

  -- `sorted(set(xs))`, where the set keeps the last of equal numbers.
  abbrev pub occurs : Number → List Number → Bool
  occurs a [] = false
  occurs a (x ∷ xs) = eq a x || occurs a xs

  abbrev pub distinct : List Number → List Number
  distinct [] = []
  distinct (x ∷ xs) = if occurs x xs then distinct xs else x ∷ distinct xs

-- An element of a list.
abbrev pub In : {A : Type 0} → A → List A → Type 0
In a [] = ⊥
In a (x ∷ xs) = (a ≡ x) ⊎ In a xs

In-choice :
    {A : Type 0} (b : Bool) {m : A} (x best : A) (xs : List A)
    → In m ((if b then x else best) ∷ xs)
    → In m (best ∷ x ∷ xs)
In-choice true x best xs m = inr m
In-choice false x best xs (inl e) = inl e
In-choice false x best xs (inr m) = inr (inr m)

module _ (fl : Float) where
  open fl use {Number, lt}

  pub max_of-In : (best : Number) (xs : List Number) → In (max_of fl best xs) (best ∷ xs)
  unfolding max_of
  max_of-In best [] = inl refl
  max_of-In best (x ∷ xs) =
      In-choice (lt best x) x best xs (max_of-In (if lt best x then x else best) xs)

  pub min_of-In : (best : Number) (xs : List Number) → In (min_of fl best xs) (best ∷ xs)
  unfolding min_of
  min_of-In best [] = inl refl
  min_of-In best (x ∷ xs) =
      In-choice (lt x best) x best xs (min_of-In (if lt x best then x else best) xs)

module _ (fl : Float) (laws : FloatLaws fl) (order : OrderLaws fl) where
  open fl use {Number, lt}

  better :
      (best x : Number)
      → (lt (if lt best x then x else best) best ≡ false)
        × (lt (if lt best x then x else best) x ≡ false)
  better best x = elim (Bool-cases (lt best x)) [
    | inl more ↦ rw more (order.lt_asymm best x more, laws.lt_irrefl x)
    | inr less ↦ rw less (laws.lt_irrefl best, less)
  ]

  -- The maximum is below none.
  pub max_of-ge :
      (best : Number) (xs : List Number)
      → (lt (max_of fl best xs) best ≡ false) × All (λ x. lt (max_of fl best xs) x ≡ false) xs
  unfolding max_of
  max_of-ge best [] = (laws.lt_irrefl best, tt)
  max_of-ge best (x ∷ xs) =
      let next = if lt best x then x else best in
      let (first, rest) = max_of-ge next xs in
      let (b, y) = better best x in
      (order.le_trans best next _ b first, (order.le_trans x next _ y first, rest))

  lesser :
      (best x : Number)
      → (lt best (if lt x best then x else best) ≡ false)
        × (lt x (if lt x best then x else best) ≡ false)
  lesser best x = elim (Bool-cases (lt x best)) [
    | inl less ↦ rw less (order.lt_asymm x best less, laws.lt_irrefl x)
    | inr more ↦ rw more (laws.lt_irrefl best, more)
  ]

  pub min_of-le :
      (best : Number) (xs : List Number)
      → (lt best (min_of fl best xs) ≡ false) × All (λ x. lt x (min_of fl best xs) ≡ false) xs
  unfolding min_of
  min_of-le best [] = (laws.lt_irrefl best, tt)
  min_of-le best (x ∷ xs) =
      let next = if lt x best then x else best in
      let (first, rest) = min_of-le next xs in
      let (b, y) = lesser best x in
      (order.le_trans _ next best first b, (order.le_trans _ next x first y, rest))
