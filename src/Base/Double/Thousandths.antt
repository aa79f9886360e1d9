-- ===== src/Base/Double/Thousandths.antt =====
-- A concrete type of floats that meets the laws: thousandths, rounded down.
use berlue.Base.Tests.{ltb, leb}
use berlue.Base.Double.{Double, IsOrdered}
use mathlib.Core.Path.{◌≡◌}
use mathlib.Core.Bool.{true}
use native.Mathlib.Nat.{
  le_trans, div-mul-le_self, le-div_iff_mul-le, mul-le-mul_left, mul-le-mul_right,
}
use Prim.Native.Nat.{ℕ, zero, suc, ◌≤◌, ◌<◌, ◌+◌, ◌-◌, ◌*◌, ◌/◌, ◌^◌}
use native.Mathlib.Omega.{arith}

instance abbrev pub thousandths : Double ℕ
thousandths = record {
  add = λ a b. a + b;
  sub = λ a b. a - b;
  mul = λ a b. a * b / 1000;
  quot = λ a b. a * 1000 / b;
  abs = λ a. a;
  lt = ltb;
  le = leb;
  lit = λ m k. m * 1000 / 10 ^ k;
  of_nat = λ n. n * 1000;
  show2 = λ a. "";
}

leb_of : (a b : ℕ) → a ≤ b → leb a b ≡ true
leb_of a b h = ground arith

le_of : (a b : ℕ) → leb a b ≡ true → a ≤ b
le_of a b h = ground arith

div_mono : (a b c : ℕ) → 0 < c → a ≤ b → a / c ≤ b / c
div_mono a b c pos h = (le-div_iff_mul-le pos).1 (le_trans (div-mul-le_self a c) h)

mul_mono_le :
    (a b c : ℕ) → leb 0 a ≡ true → leb b c ≡ true → leb (a * b / 1000) (a * c / 1000) ≡ true
mul_mono_le a b c h k =
    leb_of _ _ (div_mono (a * b) (a * c) 1000 (omega arith) (mul-le-mul_left a (le_of b c k)))

quot_mono_le :
    (a b c : ℕ) → leb 0 c ≡ true → leb a b ≡ true → leb (a * 1000 / c) (b * 1000 / c) ≡ true
quot_mono_le a b zero h k = ground arith
quot_mono_le a b (suc c) h k =
    leb_of _ _
      (div_mono (a * 1000) (b * 1000) (suc c) (omega arith) (mul-le-mul_right 1000 (le_of a b k)))

pub thousandths-IsOrdered : IsOrdered ℕ
thousandths-IsOrdered = record {
  le_refl = λ a. ground arith;
  le_trans = λ a b c h k. ground arith;
  lt-eq-not-le = λ a b. ground arith;
  le_total = λ a b h. ground arith;
  add_mono = λ a b c e h k. ground arith;
  sub_mono = λ a b c e h k. ground arith;
  mul_mono = mul_mono_le;
  quot_mono = quot_mono_le;
  sub_nonneg = λ a b h. ground arith;
  mul_nonneg = λ a b h k. ground arith;
  quot_nonneg = λ a b h k. ground arith;
  le-add = λ a b h. ground arith;
  sub-le = λ a b h. ground arith;
  nought-le-half = ground arith;
  half-le-one = ground arith;
}
