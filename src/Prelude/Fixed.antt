-- ===== src/Prelude/Fixed.antt =====
-- Fixed-point numbers in thousandths, for tests: numbers that follow the laws of `Floats`.
use Prim.Native.Nat.{ℕ, ◌*◌, ◌+◌, ◌-◌, ◌/◌, ◌≤◌, ◌<◌}
use native.Mathlib.Omega.{arith}
use native.Mathlib.Nat.{
  le-div_iff_mul-le, div-mul-le_self, div-le_of_le-mul, le_of_mul-le-mul_right, mul-le-mul_right,
  mul-le-mul_left,
}
use petrosa_cio.Prelude.Tests.{leb, ltb, le→leb}
use petrosa_cio.Prelude.Floats.{Floats, IsOrdered}

unfoldable pub fixed : Floats ℕ
fixed = record {
  leb = leb;
  ltb = ltb;
  add = λ a b. a + b;
  sub = λ a b. a - b;
  mul = λ a b. a * b / 1000;
  div = λ a b. a * 1000 / b;
  lit = λ n d. n * 1000 / d;
}

div_mono : (n d m e : ℕ) → 0 < d → 0 < e → n * e ≤ m * d → n / d ≤ m / e
div_mono n d m e hd he h =
    let q = n / d in
    let scaled : q * d * e ≤ n * e = mul-le-mul_right e (div-mul-le_self n d) in
    (le-div_iff_mul-le he).1 (le_of_mul-le-mul_right {k = d} (omega arith) hd)

pub fixed-IsOrdered : IsOrdered fixed
unfolding fixed
fixed-IsOrdered = record {
  trans = λ a b c h k. ground (arith);
  le_of_lt = λ a b h. ground arith;
  le_of_not_lt = λ a b h. ground arith;
  lit_le = λ n d m e hd he h. le→leb _ _ (div_mono (n * 1000) d (m * 1000) e hd he (omega arith));
  mul_nonneg = λ a b h k. ground arith;
  mul_shrinks = λ a n d hd h k.
      let part : n * 1000 / d ≤ 1000 = div-le_of_le-mul d (omega arith) in
      le→leb _ _ (div-le_of_le-mul 1000 (omega (arith, mul-le-mul_left a part)));
}
