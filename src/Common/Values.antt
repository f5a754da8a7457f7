-- ===== src/Common/Values.antt =====
-- Go's `any` as the program uses it, over an abstract float64.
use mathlib.Core.Path.{◌≡◌}
use mathlib.Core.Bool.{Bool, true}
use mathlib.Core.Option.{Option}
use go_zendure2mqtt.Common.Int.{ℤ}
use go_zendure2mqtt.Common.Text.{Bytes}

-- float64 and the functions of package math and strconv on it. The one law is what IEEE 754 says of
-- a number that came from an integer: it is no NaN, so it equals itself.
pub record FloatOps (F : Type 0) : Type 0 where
  -- float64(n)
  pub of_int : ℤ → F
  -- int(f)
  pub to_int : F → ℤ
  -- int(math.Round(f))
  pub round : F → ℤ
  pub add : F → F → F
  pub sub : F → F → F
  pub mul : F → F → F
  pub div : F → F → F
  pub feq : F → F → Bool
  pub flt : F → F → Bool
  pub is_nan : F → Bool
  pub is_inf : F → Bool
  -- math.Trunc
  pub trunc : F → F
  -- strconv.ParseFloat(s, 64), `none` for an error
  pub parse_float : Bytes → Option F
  pub feq-of_int : (n : ℤ) → feq (of_int n) (of_int n) ≡ true

-- A dynamic value: what encoding/json decodes, and the ints the program writes. `other` is an array
-- or an object, by its text.
pub data Value (F : Type 0) : Type 0 where
  nil : Value F
  bool : Bool → Value F
  float : F → Value F
  int : ℤ → Value F
  text : Bytes → Value F
  other : Bytes → Value F
