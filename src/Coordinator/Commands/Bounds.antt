-- ===== src/Coordinator/Commands/Bounds.antt =====
-- What a plain payload is decoded to: decodeCommand of internal/coordinator/coordinator.go.
use go_zendure2mqtt.Common.{
  Bytes, ◌-◌, ◌^◌, Value, FloatOps, int, text, none, some, true, false, pos, negsuc, Bool-cases,
  ◌≡◌, sym, arith, trim_space, Option-cases, inl, inr,
}
use mathlib.Core.Path.{subst}
use go_zendure2mqtt.Catalog.Entry.{Entry}
use go_zendure2mqtt.Coordinator.Commands.{
  raise_to_min, lower_to_max, clamp, unscale, out_of_int64, decode_number, decode_command,
}

module _ {F : Type 0} ⦃fl : FloatOps F⦄ where
  -- No bound of the entry lies beyond the number.
  pub record IsWithin (e : Entry F) (f : F) : Type 0 where
    pub above : (lo : F) → e.min ≡ some lo → fl.flt f lo ≡ false
    pub below : (hi : F) → e.max ≡ some hi → fl.flt hi f ≡ false

  IsWithin-clamp :
      (e : Entry F) (f : F)
      → ((x : F) → fl.flt x x ≡ false)
      → ((lo hi : F) → e.min ≡ some lo → e.max ≡ some hi → fl.flt hi lo ≡ false)
      → IsWithin e (clamp e f)
  unfolding clamp raise_to_min lower_to_max
  IsWithin-clamp e f irrefl ordered = record {
    above = λ lo h. elim (Option-cases e.max) [
      | inl n ↦ ground (arith, irrefl lo, h, n)
      | inr (hi, m) ↦ ground (arith, irrefl lo, ordered lo hi h m, h, m)
    ];
    below = λ hi h. ground (arith, irrefl hi, h);
  }

  -- How a number is put within the bounds: kept where it is within them, else the bound it is beyond.
  pub data Clamped (e : Entry F) (f : F) : F → Type 0 where
    kept : IsWithin e f → Clamped e f f
    raised : (lo : F) → e.min ≡ some lo → fl.flt f lo ≡ true → Clamped e f lo
    lowered : (hi : F) → e.max ≡ some hi → fl.flt hi f ≡ true → Clamped e f hi

  Clamped-lower_to_max :
      (e : Entry F) (f : F)
      → ((lo : F) → e.min ≡ some lo → fl.flt f lo ≡ false)
      → Clamped e f (lower_to_max e f)
  unfolding lower_to_max
  Clamped-lower_to_max e f above = elim (Option-cases e.max) [
    | inl n ↦
        let same : lower_to_max e f ≡ f = ground (arith, n) in
        subst (Clamped e f) (sym same)
          (Clamped.kept (record { above = above; below = λ hi h. ground (arith, h, n) }))
    | inr (hi, m) ↦ elim (Bool-cases (fl.flt hi f)) [
      | inl y ↦
          let same : lower_to_max e f ≡ hi = ground (arith, m, y) in
          subst (Clamped e f) (sym same) (Clamped.lowered hi m y)
      | inr n ↦
          let same : lower_to_max e f ≡ f = ground (arith, m, n) in
          subst (Clamped e f) (sym same)
            (Clamped.kept (record { above = above; below = λ k h. ground (arith, h, m, n) }))
    ]
  ]

  Clamped-clamp :
      (e : Entry F) (f : F)
      → ((lo hi : F) → e.min ≡ some lo → e.max ≡ some hi → fl.flt hi lo ≡ false)
      → Clamped e f (clamp e f)
  unfolding clamp raise_to_min lower_to_max
  Clamped-clamp e f ordered = elim (Option-cases e.min) [
    | inl n ↦
        let same : clamp e f ≡ lower_to_max e f = ground (arith, n) in
        subst (Clamped e f) (sym same) (Clamped-lower_to_max e f (λ lo h. ground (arith, h, n)))
    | inr (lo, m) ↦ elim (Bool-cases (fl.flt f lo)) [
      | inl y ↦
          let raised : raise_to_min e f ≡ lo = ground (arith, m, y) in
          let same : clamp e f ≡ lo = elim (Option-cases e.max) [
            | inl n ↦ ground (arith, raised, n)
            | inr (hi, k) ↦ ground (arith, raised, k, ordered lo hi m k)
          ] in
          subst (Clamped e f) (sym same) (Clamped.raised lo m y)
      | inr n ↦
          let same : clamp e f ≡ lower_to_max e f = ground (arith, m, n) in
          subst (Clamped e f) (sym same) (Clamped-lower_to_max e f (λ k h. ground (arith, h, m, n)))
    ]
  ]

  -- The ways in which a plain payload is accepted.
  pub data Decoded (e : Entry F) (payload : Bytes) : Value F → Type 0 where
    number :
        (f g : F)
        → fl.parse_float (trim_space payload) ≡ some f
        → fl.is_nan f ≡ false
        → fl.is_inf f ≡ false
        → Clamped e f g
        → IsWithin e g
        → fl.flt (unscale e g) (fl.of_int (negsuc (2 ^ 63 - 1))) ≡ false
        → fl.flt (fl.of_int (pos (2 ^ 63 - 1))) (unscale e g) ≡ false
        → Decoded e payload (int (fl.round (unscale e g)))
    string :
        fl.parse_float (trim_space payload) ≡ none → Decoded e payload (text (trim_space payload))

  decoded_number :
      (e : Entry F) (payload : Bytes) (f : F) (v : Value F)
      → Clamped e f (clamp e f)
      → IsWithin e (clamp e f)
      → fl.parse_float (trim_space payload) ≡ some f
      → decode_number e f ≡ some v
      → Decoded e payload v
  unfolding decode_number out_of_int64
  decoded_number e payload f v c w p h =
      let g = clamp e f in
      let same : v ≡ int (fl.round (unscale e g)) = ground arith in
      rw same (Decoded.number f g p (ground arith) (ground arith) c w (ground arith) (ground arith))

  -- Let no float be less than itself, and an entry's maximum not be less than its minimum. Whatever a
  -- plain payload is decoded to, it is the trimmed text of a payload that is no number; or it comes
  -- from a number that is neither NaN nor infinite, kept where it is within the entry's bounds and
  -- replaced by the bound it is beyond, put into the device's units, found no less than the float of
  -- MinInt64 and no more than the float of MaxInt64 (which rounds to 2^63), as the nearest integer.
  pub decode_command_bounds :
      (e : Entry F) (payload : Bytes) (v : Value F)
      → ((x : F) → fl.flt x x ≡ false)
      → ((lo hi : F) → e.min ≡ some lo → e.max ≡ some hi → fl.flt hi lo ≡ false)
      → decode_command e payload ≡ some v
      → Decoded e payload v
  unfolding decode_command
  decode_command_bounds e payload v irrefl ordered h =
      elim (Option-cases (fl.parse_float (trim_space payload))) [
        | inl n ↦
            let same : v ≡ text (trim_space payload) = ground (arith, n) in
            rw same (Decoded.string n)
        | inr (f, p) ↦
            decoded_number e payload f v (Clamped-clamp e f ordered)
              (IsWithin-clamp e f irrefl ordered) p (ground (arith, p))
      ]
