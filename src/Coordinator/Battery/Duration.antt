-- ===== src/Coordinator/Battery/Duration.antt =====
-- How long evccFallback of internal/coordinator/evcc.go takes: it makes its writes one behind the
-- other, and each of them ends within setTimeout of internal/coordinator/coordinator.go.
use go_zendure2mqtt.Common.{
  ℕ, ◌+◌, ◌*◌, ◌^◌, ◌≤◌, Bytes, Map, Value, FloatOps, Option, none, some, Bool, true, false, List,
  [], ◌∷◌, ◌++◌, ◌≡◌, arith, ℤ, length, sort_keys, Bool-cases, inl, inr,
}
use go_zendure2mqtt.Common.Sorting.{length-sort_keys}
use go_zendure2mqtt.Evcc.Mode.{Mode, normal}
use go_zendure2mqtt.Coordinator.Battery.{
  Plane, Effect, Outcome, no_report, failed, applied, write, unit, change_mode, outcome_effects,
  stale_in, apply_battery_mode, normal_each, evcc_fallback,
}

-- setTimeout, in nanoseconds
abbrev pub set_timeout : ℕ
set_timeout = 15 * 10 ^ 9

-- the time that the writes take
abbrev pub spent : {F : Type 0} → (Map (Value F) → ℕ) → List (Effect F) → ℕ
spent took [] = 0
spent took (write sn w ∷ es) = took w + spent took es
spent took (e ∷ es) = spent took es

spent-append :
    {F : Type 0} (took : Map (Value F) → ℕ) (es fs : List (Effect F))
    → spent took (es ++ fs) ≡ spent took es + spent took fs
spent-append took [] fs = omega arith
spent-append took (write sn w ∷ es) fs = omega (arith, spent-append took es fs)
spent-append took (e ∷ es) fs = spent-append took es fs

length-stale_in :
    {F : Type 0} (now timeout : ℕ) (units : Plane F)
    → length (stale_in now timeout units) ≤ length units
unfolding stale_in
length-stale_in now timeout [] = omega arith
length-stale_in now timeout ((sn, u) ∷ units) = ground (arith, length-stale_in now timeout units)

module _ {F : Type 0} ⦃fl : FloatOps F⦄ (took : Map (Value F) → ℕ) where
  spent-outcome_effects :
      (running : Bool) (sn : Bytes) (m : Mode) (o : Outcome F)
      → ((w : Map (Value F)) → took w ≤ set_timeout)
      → spent took (outcome_effects running sn m o) ≤ set_timeout
  unfolding outcome_effects
  spent-outcome_effects running sn m (no_report u) h = omega arith
  spent-outcome_effects running sn m (failed u w e) h = omega (arith, h w)
  spent-outcome_effects running sn m (applied u none) h = omega arith
  spent-outcome_effects true sn m (applied u (some w)) h = omega (arith, h w)
  spent-outcome_effects false sn m (applied u (some w)) h = omega (arith, h w)

  spent-normal_each :
      (charge_w : ℤ) (running : Bool) (answer : Map (Value F) → Option Bytes) (now : ℕ)
      (known : Bytes → Bool) (sns : List Bytes) (units : Plane F)
      → ((w : Map (Value F)) → took w ≤ set_timeout)
      → spent took (normal_each charge_w running answer now known sns units).1
        ≤ length sns * set_timeout
  unfolding normal_each apply_battery_mode
  spent-normal_each charge_w running answer now known [] units h = omega arith
  spent-normal_each charge_w running answer now known (sn ∷ sns) units h =
      let ended = apply_battery_mode charge_w running answer now normal sn units in
      elim (Bool-cases (known sn)) [
        | inl k ↦ rw k (
            omega (
              arith,
              spent-append took ended.1
                  (normal_each charge_w running answer now known sns ended.0).1,
              spent-outcome_effects running sn normal
                  (change_mode charge_w answer now normal (unit units sn)) h,
              spent-normal_each charge_w running answer now known sns ended.0 h,
            ))
        | inr k ↦
            rw k (omega (arith, spent-normal_each charge_w running answer now known sns units h))
      ]

  -- The fallback takes the time of one write for each unit at most.
  pub spent-evcc_fallback :
      (charge_w : ℤ) (running : Bool) (answer : Map (Value F) → Option Bytes) (now timeout : ℕ)
      (known : Bytes → Bool) (units : Plane F)
      → ((w : Map (Value F)) → took w ≤ set_timeout)
      → spent took (evcc_fallback charge_w running answer now timeout known units).1
        ≤ length units * set_timeout
  unfolding evcc_fallback
  spent-evcc_fallback charge_w running answer now timeout known units h =
      let stale = stale_in now timeout units in
      omega (
        arith,
        spent-normal_each charge_w running answer now known (sort_keys stale) units h,
        length-sort_keys stale,
        length-stale_in now timeout units,
      )
