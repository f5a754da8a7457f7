-- ===== src/Coordinator/Commands/Evcc.antt =====
-- An evcc command: applyEVCCSet of internal/coordinator/evcc.go.
use go_zendure2mqtt.Common.{
  ℕ, Bytes, beq, beq_iff, beq_refl, Map, Value, FloatOps, Option, none, some, Bool, true, false,
  ◌≡◌, arith, ℤ, Option-cases, inl, inr,
}
use go_zendure2mqtt.Evcc.Profile.{role_battery, key_battery_mode}
use go_zendure2mqtt.Evcc.Mode.{Mode, normal, hold, charge, parse_mode}
use go_zendure2mqtt.Coordinator.Battery.{
  EvccUnit, Plane, unit, unit_of, change_mode, apply_battery_mode,
}
use go_zendure2mqtt.Coordinator.Battery.Units.{unit-apply_battery_mode}
use go_zendure2mqtt.Coordinator.Commands.{SetValue, outcome_error, apply_evcc_set}

module _ {F : Type 0} ⦃fl : FloatOps F⦄ where
  -- A mode change that ends without an error leaves the unit in the mode.
  mode-change_mode :
      (charge_w : ℤ) (answer : Map (Value F) → Option Bytes) (now : ℕ) (m : Mode) (u : EvccUnit F)
      → outcome_error (change_mode charge_w answer now m u) ≡ none
      → (unit_of (change_mode charge_w answer now m u)).mode ≡ m
  unfolding change_mode outcome_error
  mode-change_mode charge_w answer now normal u h = ground arith
  mode-change_mode charge_w answer now hold u h = ground arith
  mode-change_mode charge_w answer now charge u h = ground arith

  mode-apply_battery_mode :
      (charge_w : ℤ) (running : Bool) (answer : Map (Value F) → Option Bytes) (now : ℕ) (m : Mode)
      (sn : Bytes) (units : Plane F)
      → outcome_error (apply_battery_mode charge_w running answer now m sn units).2 ≡ none
      → (unit (apply_battery_mode charge_w running answer now m sn units).0 sn).mode ≡ m
  mode-apply_battery_mode charge_w running answer now m sn units h =
      rw (unit-apply_battery_mode, beq_refl)
        (mode-change_mode charge_w answer now m (unit units sn) (unfold apply_battery_mode in h))

  -- Whatever an evcc command says, it leaves every other unit as it was. If it ends without an error,
  -- it was the battery mode of a known unit, its text names a mode, and the unit is in that mode.
  pub apply_evcc_set_lem :
      (known : Bytes → Bool) (charge_w : ℤ) (running : Bool) (answer : Map (Value F) → Option Bytes)
      (now : ℕ) (sn role key : Bytes) (v : SetValue) (units : Plane F)
      → ((j : Bytes)
          → beq sn j ≡ false
          → unit (apply_evcc_set known charge_w running answer now sn role key v units).0 j
            ≡ unit units j)
        × ((apply_evcc_set known charge_w running answer now sn role key v units).2 ≡ none
            → (m : Mode) × (role ≡ role_battery)
              × (key ≡ key_battery_mode)
              × (known sn ≡ true)
              × (parse_mode v.text ≡ some m)
              × ((unit
                    (apply_evcc_set known charge_w running answer now sn role key v units).0
                    sn).mode
                  ≡ m))
  unfolding apply_evcc_set
  apply_evcc_set_lem known charge_w running answer now sn role key v units =
      elim (Option-cases (parse_mode v.text)) [
        | inl n ↦ (λ j h. ground (arith, n), λ h. absurd (ground (arith, n)))
        | inr (m, p) ↦ (
          λ j h.
              ground
                (arith, p, h, unit-apply_battery_mode charge_w running answer now m sn j units),
          λ h. (
            m,
            ground (arith, beq_iff role role_battery),
            ground (arith, beq_iff key key_battery_mode),
            ground arith,
            p,
            ground (arith, p, mode-apply_battery_mode charge_w running answer now m sn units),
          ),
        )
      ]
