-- ===== src/Common/Decimal.antt =====
-- strconv.Atoi and strconv.Itoa.
use Prim.Native.Nat.{ℕ, zero, suc, ◌+◌, ◌-◌, ◌*◌, ◌/◌, ◌%◌, ◌^◌, ◌≤◌}
use mathlib.Core.Path.{◌≡◌}
use mathlib.Core.Bool.{◌&&◌}
use mathlib.Core.Logic.{inl, inr}
use mathlib.Core.Option.{Option, none, some}
use mathlib.Core.List.{[], ◌∷◌}
use native.Mathlib.Omega.{arith}
use go_zendure2mqtt.Common.Tests.{leb, ◌==◌, if◌then◌else◌, Bool-cases}
use go_zendure2mqtt.Common.Int.{ℤ, pos, negsuc, sub_ℕ}
use go_zendure2mqtt.Common.Text.{Bytes}

scan : Bytes → ℕ → Option ℕ
scan [] n = some n
scan (c ∷ s) n = if leb b'0' c && leb c b'9' then scan s (n * 10 + (c - b'0')) else none

-- Some digits, of a number that is at most the bound.
digits_within : ℕ → Bytes → Option ℕ
unfolding scan
digits_within bound [] = none
digits_within bound (c ∷ s) = elim (scan (c ∷ s) 0) [
  | none ↦ none
  | some n ↦ if leb n bound then some n else none
]

positive : Bytes → Option ℤ
unfolding digits_within
positive s = elim (digits_within (2 ^ 63 - 1) s) [ none ↦ none | some n ↦ some (pos n) ]

negative : Bytes → Option ℤ
unfolding digits_within
negative s = elim (digits_within (2 ^ 63) s) [ none ↦ none | some n ↦ some (sub_ℕ 0 n) ]

-- `none` for an error: what is no decimal integer, or does not fit 64 bits.
unfoldable pub atoi : Bytes → Option ℤ
unfolding positive negative
atoi [] = none
atoi (c ∷ s) = if c == b'-' then negative s else if c == b'+' then positive s else positive (c ∷ s)

-- A number has no more digits than its value, so the value is fuel enough.
emit : ℕ → ℕ → Bytes → Bytes
emit zero n out = out
emit (suc f) n out =
    let more = emit f (n / 10) ((b'0' + n % 10) ∷ out) in if n == 0 then out else more

format : ℕ → Bytes
unfolding emit
format n = if n == 0 then b'0' ∷ [] else emit n n []

unfoldable pub itoa : ℤ → Bytes
unfolding format
itoa (pos n) = format n
itoa (negsuc n) = b'-' ∷ format (suc n)

scan-emit : (f n : ℕ) (out : Bytes) → n ≤ f → scan (emit f n out) 0 ≡ scan out n
unfolding emit scan
scan-emit zero n out h = ground arith
scan-emit (suc f) n out h = elim (Bool-cases (n == 0)) [
  | inl e ↦ ground (arith, e)
  | inr e ↦ rw e (ground (arith, e, scan-emit f (n / 10) ((b'0' + n % 10) ∷ out)))
]

scan-format : (n : ℕ) → scan (format n) 0 ≡ some n
unfolding format scan
scan-format n = elim (Bool-cases (n == 0)) [
  | inl e ↦ ground (arith, e)
  | inr e ↦ rw e (ground (arith, scan-emit n n []))
]
