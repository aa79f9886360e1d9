-- ===== src/Base/Double.antt =====
-- Python's `float`: the operations that the code applies to scores, taken as a parameter since the
-- values are IEEE doubles, and the laws of order that rounding keeps.
pub mod Thousandths
use Prim.Native.Nat.{ℕ}
use Prim.Native.String.{String}
use mathlib.Core.Bool.{Bool, true, false, not}
use mathlib.Core.Path.{◌≡◌}
use mathlib.Core.Logic.{◌⊎◌}
use berlue.Base.Tests.{Eq, ◌==◌, if◌then◌else◌}
use berlue.Base.Results.{Result, ok, err, zero_division}

pub record Double (F : Type 0) : Type 0 where
  pub add : F → F → F
  pub sub : F → F → F
  pub mul : F → F → F
  -- The quotient where the divisor is not zero.
  pub quot : F → F → F
  pub abs : F → F
  pub lt : F → F → Bool
  pub le : F → F → Bool
  -- `lit m d` is the literal with the digits `m`, of which `d` stand behind the point.
  pub lit : ℕ → ℕ → F
  pub of_nat : ℕ → F
  -- `f"{x:.2f}"`
  pub show2 : F → String

module _ {F : Type 0} ⦃d : Double F⦄ where
  abbrev pub nought : F
  nought = d.lit 0 1

  abbrev pub one : F
  one = d.lit 10 1

  abbrev pub half : F
  half = d.lit 5 1

  -- `max(a, b)` keeps `a` unless `b > a`, and `min(a, b)` keeps `a` unless `b < a`.
  abbrev pub py_max : F → F → F
  py_max a b = if d.lt a b then b else a

  abbrev pub py_min : F → F → F
  py_min a b = if d.lt b a then b else a

  -- `a / b` raises `ZeroDivisionError` where `b == 0`: neither below zero nor above it.
  abbrev pub is_zero : F → Bool
  is_zero a = if d.le a nought then d.le nought a else false

  unfoldable pub divide : F → F → Result F
  divide a b = if is_zero b then err zero_division else ok (d.quot a b)

-- The laws that rounding keeps, for floats whose sums and differences are no NaN: `<=` is a total
-- order with `<` as its strict part, the operations are monotone, and zero is where it should be.
-- Only the lemmas on the monotony of the beliefs rest on them.
pub record IsOrdered (F : Type 0) ⦃d : Double F⦄ : Type 0 where
  pub le_refl : (a : F) → d.le a a ≡ true
  pub le_trans : (a b c : F) → d.le a b ≡ true → d.le b c ≡ true → d.le a c ≡ true
  pub lt-eq-not-le : (a b : F) → d.lt a b ≡ not (d.le b a)
  pub le_total : (a b : F) → d.le a b ≡ false → d.le b a ≡ true
  pub add_mono :
      (a b c e : F) → d.le a b ≡ true → d.le c e ≡ true → d.le (d.add a c) (d.add b e) ≡ true
  pub sub_mono :
      (a b c e : F) → d.le a b ≡ true → d.le c e ≡ true → d.le (d.sub a e) (d.sub b c) ≡ true
  pub mul_mono :
      (a b c : F) → d.le nought a ≡ true → d.le b c ≡ true → d.le (d.mul a b) (d.mul a c) ≡ true
  pub quot_mono :
      (a b c : F) → d.le nought c ≡ true → d.le a b ≡ true → d.le (d.quot a c) (d.quot b c) ≡ true
  -- `a <= b` leaves `b - a` at or above zero, and so do a product and a quotient of such values.
  pub sub_nonneg : (a b : F) → d.le a b ≡ true → d.le nought (d.sub b a) ≡ true
  pub mul_nonneg :
      (a b : F) → d.le nought a ≡ true → d.le nought b ≡ true → d.le nought (d.mul a b) ≡ true
  pub quot_nonneg :
      (a b : F) → d.le nought a ≡ true → d.le nought b ≡ true → d.le nought (d.quot a b) ≡ true
  -- Adding what is not below zero does not lower a value, taking it away does not raise one.
  pub le-add : (a b : F) → d.le nought b ≡ true → d.le a (d.add a b) ≡ true
  pub sub-le : (a b : F) → d.le nought b ≡ true → d.le (d.sub a b) a ≡ true
  pub nought-le-half : d.le nought half ≡ true
  pub half-le-one : d.le half one ≡ true
