-- ===== src/Common/Samples.antt =====
-- A float64 whose numbers are integers (a quotient by 0 is 0), for tests on concrete inputs.
use go_zendure2mqtt.Common.Int.{ℤ, pos_part, neg_part, sub_ℕ, ltb_ℤ, eqb_ℤ}
use go_zendure2mqtt.Common.Decimal.{atoi}
use go_zendure2mqtt.Common.Values.{FloatOps}
use Prim.Native.Nat.{◌+◌, ◌*◌, ◌/◌}
use mathlib.Core.Path.{◌≡◌}
use mathlib.Core.Bool.{true, false}
use native.Mathlib.Omega.{arith}

abbrev add_ints : ℤ → ℤ → ℤ
add_ints a b = sub_ℕ (pos_part a + pos_part b) (neg_part a + neg_part b)

abbrev sub_ints : ℤ → ℤ → ℤ
sub_ints a b = sub_ℕ (pos_part a + neg_part b) (neg_part a + pos_part b)

abbrev mul_ints : ℤ → ℤ → ℤ
mul_ints a b =
    sub_ℕ (pos_part a * pos_part b + neg_part a * neg_part b)
      (pos_part a * neg_part b + neg_part a * pos_part b)

abbrev div_ints : ℤ → ℤ → ℤ
div_ints a b =
    sub_ℕ (pos_part a / pos_part b + neg_part a / neg_part b)
      (pos_part a / neg_part b + neg_part a / pos_part b)

pub eqb_ℤ-refl : (n : ℤ) → eqb_ℤ n n ≡ true
eqb_ℤ-refl n = ground arith

instance abbrev pub int_floats : FloatOps ℤ
int_floats = record {
  of_int = λ n. n;
  to_int = λ n. n;
  round = λ n. n;
  add = add_ints;
  sub = sub_ints;
  mul = mul_ints;
  div = div_ints;
  feq = eqb_ℤ;
  flt = ltb_ℤ;
  is_nan = λ n. false;
  is_inf = λ n. false;
  trunc = λ n. n;
  parse_float = atoi;
  feq-of_int = eqb_ℤ-refl;
}
