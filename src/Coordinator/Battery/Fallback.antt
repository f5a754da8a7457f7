-- ===== src/Coordinator/Battery/Fallback.antt =====
-- The timeout: evccFallback of internal/coordinator/evcc.go.
use go_zendure2mqtt.Common.{
  ℕ, Bytes, beq_iff, lookup, Map, Value, FloatOps, Option, none, Bool, true, false, List, [], ◌∷◌,
  ◌≡◌, refl, arith, ℤ, is_some, Bool-cases, Option-cases, inl, inr, ◌⊎◌, has_key, keys, sort_keys,
  contains-sort_keys, contains-keys, ◌&&◌, ◌∙◌,
}
use go_zendure2mqtt.Evcc.Mode.{normal, diff}
use go_zendure2mqtt.Evcc.Diff.{diff-nil}
use go_zendure2mqtt.Coordinator.Battery.{
  EvccUnit, Plane, unit, unit_of, change_mode, apply_battery_mode, is_stale, stale_in, normal_each,
  evcc_fallback,
}
use go_zendure2mqtt.Coordinator.Battery.Units.{unit-apply_battery_mode}

-- A Go map holds a key once.
abbrev pub HasDistinct {ℓ} : {V : Type ℓ} → Map V → Type 0
HasDistinct [] = Unit
HasDistinct ((k, v) ∷ m) = (has_key k (keys m) ≡ false) × HasDistinct m

module _ {F : Type 0} ⦃fl : FloatOps F⦄ (charge_w : ℤ) (running : Bool)
    (answer : Map (Value F) → Option Bytes) (now : ℕ) (known : Bytes → Bool) where
  -- A `normal` that the backend accepts, and one for a unit already in `normal`, ends in `normal`.
  mode-change_mode :
      (u : EvccUnit F)
      → ((w : Map (Value F)) → answer w ≡ none)
      → (unit_of (change_mode charge_w answer now normal u)).mode ≡ normal
  unfolding change_mode
  mode-change_mode u ok = elim (Option-cases u.saved) [
    | inl e ↦ ground (arith, e, diff-nil u.props)
    | inr (s, e) ↦ elim (Option-cases (diff s u.props)) [
      | inl d ↦ ground (arith, e, d)
      | inr (w, d) ↦ ground (arith, e, d, ok w)
    ]
  ]

  -- Units outside the list, and units the coordinator does not know, stay.
  unit-normal_each :
      (sns : List Bytes) (units : Plane F) (j : Bytes)
      → (has_key j sns && known j) ≡ false
      → unit (normal_each charge_w running answer now known sns units).0 j ≡ unit units j
  unfolding normal_each has_key
  unit-normal_each [] units j h = refl
  unit-normal_each (sn ∷ sns) units j h =
      let after = (apply_battery_mode charge_w running answer now normal sn units).0 in
      elim (Bool-cases (known sn)) [
        | inl k ↦ rw k (
            unit-normal_each sns after j (ground (arith, h))
            ∙ ground (
              arith,
              k,
              beq_iff sn j,
              unit-apply_battery_mode charge_w running answer now normal sn j units,
            ))
        | inr k ↦ rw k (unit-normal_each sns units j (ground (arith, h)))
      ]

  mode-normal_each :
      (sns : List Bytes) (units : Plane F) (j : Bytes)
      → ((w : Map (Value F)) → answer w ≡ none)
      → known j ≡ true
      → ((unit units j).mode ≡ normal) ⊎ (has_key j sns ≡ true)
      → (unit (normal_each charge_w running answer now known sns units).0 j).mode ≡ normal
  unfolding normal_each has_key
  mode-normal_each [] units j ok k (inl e) = e
  mode-normal_each [] units j ok k (inr e) = cc
  mode-normal_each (sn ∷ sns) units j ok k h =
      let after = (apply_battery_mode charge_w running answer now normal sn units).0 in
      elim (Bool-cases (known sn)) [
        | inl ks ↦ rw ks (
            mode-normal_each sns after j ok k (
              ground (
                arith,
                h,
                beq_iff sn j,
                unit-apply_battery_mode charge_w running answer now normal sn j units,
                mode-change_mode (unit units sn) ok,
              )))
        | inr ks ↦ rw ks (mode-normal_each sns units j ok k (ground (arith, h, k, beq_iff sn j)))
      ]

-- Where no key stands twice, the stale units are those whose state is stale.
has_key-stale_in :
    {F : Type 0} (now timeout : ℕ) (units : Plane F) (j : Bytes)
    → HasDistinct units
    → has_key j (stale_in now timeout units)
      ≡ (is_some (lookup j units) && is_stale now timeout (unit units j))
unfolding stale_in has_key unit lookup
has_key-stale_in now timeout [] j d = refl
has_key-stale_in now timeout ((sn, u) ∷ units) j (fresh, d) =
    ground
      (arith, beq_iff sn j, fresh, has_key-stale_in now timeout units j d, contains-keys j units)

-- A unit without a state is in `normal`.
pub unit-stale :
    {F : Type 0} (now timeout : ℕ) (units : Plane F) (j : Bytes)
    → is_stale now timeout (unit units j) ≡ true
    → is_some (lookup j units) ≡ true
unfolding is_stale unit
unit-stale now timeout units j h = ground arith

module _ {F : Type 0} ⦃fl : FloatOps F⦄ where
  -- When the backend accepts every write, the fallback leaves no unit that the coordinator knows in
  -- `hold` or `charge` for longer than the timeout: each such unit is in `normal` behind it. Every
  -- unit that is not stale, and every unit that is not known, stays as it was, whatever the backend
  -- answers.
  pub evcc_fallback_releases :
      (charge_w : ℤ) (running : Bool) (answer : Map (Value F) → Option Bytes) (now timeout : ℕ)
      (known : Bytes → Bool) (units : Plane F) (j : Bytes)
      → HasDistinct units
      → (((w : Map (Value F)) → answer w ≡ none)
          → known j ≡ true
          → is_stale now timeout (unit units j) ≡ true
          → (unit (evcc_fallback charge_w running answer now timeout known units).0 j).mode
            ≡ normal)
        × ((is_stale now timeout (unit units j) && known j) ≡ false
            → unit (evcc_fallback charge_w running answer now timeout known units).0 j
              ≡ unit units j)
  unfolding evcc_fallback
  evcc_fallback_releases charge_w running answer now timeout known units j d =
      let sns = sort_keys (stale_in now timeout units) in
      let listed = contains-sort_keys j (stale_in now timeout units) in
      let stale = has_key-stale_in now timeout units j d in
      (
        λ ok k s.
            mode-normal_each charge_w running answer now known sns units j ok k
              (inr (ground (arith, listed, stale, s, unit-stale now timeout units j))),
        λ s.
            unit-normal_each charge_w running answer now known sns units j
              (ground (arith, listed, stale, s)),
      )
