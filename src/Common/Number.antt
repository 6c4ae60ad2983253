-- ===== src/Common/Number.antt =====
-- Python's finite floats, as a parameter: the operations that the program calls, with the documented
-- behaviour that it relies on, and fractions of naturals as an instance of it.
use Prim.Native.Nat.{ℕ, suc, ◌+◌, ◌-◌, ◌*◌, ◌≤◌}
use mathlib.Core.Path.{◌≡◌, refl}
use mathlib.Core.Bool.{Bool, true, false}
use native.Mathlib.Omega.{arith}
use native.Mathlib.Nat.{mul-le-mul_right}
use evalops_lab.Common.Tests.{ltb, nat_beq}

-- `lt a b` is `a < b`, `eq a b` is `a == b`, `ratio m n` is the quotient `m / n` of two ints.
pub record Float : Type 1 where
  pub Number : Type 0
  pub of_int : ℕ → Number
  pub ratio : ℕ → ℕ → Number
  pub lt : Number → Number → Bool
  pub eq : Number → Number → Bool
  pub add : Number → Number → Number
  pub sub : Number → Number → Number
  pub mul : Number → Number → Number
  pub div : Number → Number → Number

-- What holds of finite IEEE numbers: `<` is irreflexive, `x - 0.0` is `x`, and the rounded quotient
-- of two ints is monotone, positive for positive ints, and within the bounds of the exact one.
pub record FloatLaws (fl : Float) : Type 1 where
  pub lt_irrefl : (a : fl.Number) → fl.lt a a ≡ false
  pub zero_le_one : fl.lt (fl.of_int 1) (fl.of_int 0) ≡ false
  pub eq_refl : (a : fl.Number) → fl.eq a a ≡ true
  pub one_ne_zero : fl.eq (fl.of_int 1) (fl.of_int 0) ≡ false
  pub sub_zero : (a : fl.Number) → fl.sub a (fl.of_int 0) ≡ a
  pub ratio_nonneg : (a n : ℕ) → fl.lt (fl.ratio a n) (fl.of_int 0) ≡ false
  pub ratio_le_one : (a n : ℕ) → a ≤ n → 1 ≤ n → fl.lt (fl.of_int 1) (fl.ratio a n) ≡ false
  pub ratio_pos : (a n : ℕ) → 1 ≤ a → 1 ≤ n → fl.lt (fl.of_int 0) (fl.ratio a n) ≡ true
  pub ratio_zero : (n : ℕ) → fl.lt (fl.of_int 0) (fl.ratio 0 n) ≡ false
  pub ratio_mono : (a b n : ℕ) → a ≤ b → fl.lt (fl.ratio b n) (fl.ratio a n) ≡ false

-- Fractions: a numerator, and a denominator less one.
abbrev pub fractions : Float
fractions = record {
  Number = ℕ × ℕ;
  of_int = λ n. (n, 0);
  ratio = λ m n. (m, n - 1);
  lt = λ x y. ltb (x.0 * suc y.1) (y.0 * suc x.1);
  eq = λ x y. nat_beq (x.0 * suc y.1) (y.0 * suc x.1);
  add = λ x y. (x.0 * suc y.1 + y.0 * suc x.1, suc x.1 * suc y.1 - 1);
  sub = λ x y. (x.0 * suc y.1 - y.0 * suc x.1, suc x.1 * suc y.1 - 1);
  mul = λ x y. (x.0 * y.0, suc x.1 * suc y.1 - 1);
  div = λ x y. (x.0 * suc y.1, suc x.1 * y.0 - 1);
}

pub fractions_laws : FloatLaws fractions
fractions_laws = record {
  lt_irrefl = irrefl;
  zero_le_one = refl;
  eq_refl = refl_eq;
  one_ne_zero = refl;
  sub_zero = zero_lem;
  ratio_nonneg = nonneg;
  ratio_le_one = le_one;
  ratio_pos = positive;
  ratio_zero = none_pos;
  ratio_mono = mono;
}
  where
    irrefl : (a : ℕ × ℕ) → ltb (a.0 * suc a.1) (a.0 * suc a.1) ≡ false
    irrefl a = ground arith

    refl_eq : (a : ℕ × ℕ) → nat_beq (a.0 * suc a.1) (a.0 * suc a.1) ≡ true
    refl_eq a = ground arith

    zero_lem : (a : ℕ × ℕ) → ◌≡◌ {A = ℕ × ℕ} (a.0 * 1 - 0 * suc a.1, suc a.1 * 1 - 1) a
    zero_lem a = ground arith

    nonneg : (a n : ℕ) → ltb (a * 1) (0 * suc (n - 1)) ≡ false
    nonneg a n = ground arith

    le_one : (a n : ℕ) → a ≤ n → 1 ≤ n → ltb (1 * suc (n - 1)) (a * 1) ≡ false
    le_one a n h k = ground arith

    positive : (a n : ℕ) → 1 ≤ a → 1 ≤ n → ltb (0 * suc (n - 1)) (a * 1) ≡ true
    positive a n h k = ground arith

    none_pos : (n : ℕ) → ltb (0 * suc (n - 1)) (0 * 1) ≡ false
    none_pos n = ground arith

    mono : (a b n : ℕ) → a ≤ b → ltb (b * suc (n - 1)) (a * suc (n - 1)) ≡ false
    mono a b n h = ground (arith, mul-le-mul_right (suc (n - 1)) h)
