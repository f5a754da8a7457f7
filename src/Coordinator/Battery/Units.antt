-- ===== src/Coordinator/Battery/Units.antt =====
-- The plane as a whole, over the steps of internal/coordinator/evcc.go.
use go_zendure2mqtt.Common.{
  ℕ, Bytes, beq, insert, lookup-insert, lookup, Map, Value, FloatOps, Option, none, some, Bool,
  true, false, [], ◌≡◌, ◌≢◌, refl, arith, ℤ, is_some, if◌then◌else◌,
}
use go_zendure2mqtt.Evcc.Mode.{Mode, normal, hold, charge}
use go_zendure2mqtt.Coordinator.Battery.{
  EvccUnit, Plane, unit, unit_of, change_mode, apply_battery_mode, merge_report, publish_evcc,
}

pub unit-insert :
    {F : Type 0} (sn j : Bytes) (u : EvccUnit F) (units : Plane F)
    → unit (insert sn u units) j ≡ (if beq sn j then u else unit units j)
unfolding unit
unit-insert sn j u units = ground (arith, lookup-insert sn j u units)

-- In `hold` and `charge` a snapshot is saved.
abbrev pub HasSaved : {F : Type 0} → EvccUnit F → Type 0
HasSaved u = u.mode ≢ normal → is_some u.saved ≡ true

module _ {F : Type 0} ⦃fl : FloatOps F⦄ where
  -- What may happen to the plane: a report, or a battery mode for a unit, however its write ends.
  pub data Step (units : Plane F) : Plane F → Type 0 where
    reports :
        (report : Option (Map (Value F))) (sn : Bytes) → Step units (publish_evcc report sn units).0
    changes :
        (charge_w : ℤ) (running : Bool) (answer : Map (Value F) → Option Bytes) (now : ℕ) (m : Mode)
        (sn : Bytes)
        → Step units (apply_battery_mode charge_w running answer now m sn units).0

  pub data Reach : Plane F → Type 0 where
    start : Reach []
    next : {units units' : Plane F} → Reach units → Step units units' → Reach units'

  change_mode-HasSaved :
      (charge_w : ℤ) (answer : Map (Value F) → Option Bytes) (now : ℕ) (m : Mode) (u : EvccUnit F)
      → HasSaved u
      → HasSaved (unit_of (change_mode charge_w answer now m u))
  unfolding change_mode
  change_mode-HasSaved charge_w answer now normal u h n = ground arith
  change_mode-HasSaved charge_w answer now hold u h n = ground arith
  change_mode-HasSaved charge_w answer now charge u h n = ground arith

  -- A battery mode for one unit changes that unit as the mode change does, however it ends, and leaves
  -- every other unit as it was.
  pub unit-apply_battery_mode :
      (charge_w : ℤ) (running : Bool) (answer : Map (Value F) → Option Bytes) (now : ℕ) (m : Mode)
      (sn j : Bytes) (units : Plane F)
      → unit (apply_battery_mode charge_w running answer now m sn units).0 j ≡ (
          if beq sn j
          then unit_of (change_mode charge_w answer now m (unit units sn))
          else unit units j)
  unfolding apply_battery_mode
  unit-apply_battery_mode charge_w running answer now m sn j units = unit-insert sn j _ units

  pub unit-publish_evcc :
      (report : Option (Map (Value F))) (sn j : Bytes) (units : Plane F)
      → unit (publish_evcc report sn units).0 j
        ≡ (if beq sn j then merge_report report (unit units sn) else unit units j)
  unfolding publish_evcc
  unit-publish_evcc report sn j units = unit-insert sn j _ units

  merge_report-HasSaved :
      (report : Option (Map (Value F))) (u : EvccUnit F)
      → HasSaved u
      → HasSaved (merge_report report u)
  unfolding merge_report
  merge_report-HasSaved none u h = h
  merge_report-HasSaved (some r) u h = h

  if-HasSaved :
      (b : Bool) (u v : EvccUnit F) → HasSaved u → HasSaved v → HasSaved (if b then u else v)
  if-HasSaved true u v hu hv = hu
  if-HasSaved false u v hu hv = hv

  -- In every plane that reports and mode changes can lead to, failed and refused ones included, each
  -- unit in `hold` or `charge` has a snapshot saved, which may be empty.
  pub Reach-HasSaved : {units : Plane F} (j : Bytes) → Reach units → HasSaved (unit units j)
  unfolding unit lookup
  Reach-HasSaved j start = λ n. absurd (n refl)
  Reach-HasSaved j (next r (reports report sn)) = rw unit-publish_evcc (
      if-HasSaved _ _ _ (merge_report-HasSaved report _ (Reach-HasSaved sn r)) (Reach-HasSaved j r))
  Reach-HasSaved j (next r (changes charge_w running answer now m sn)) =
      rw unit-apply_battery_mode (
        if-HasSaved _ _ _ (change_mode-HasSaved charge_w answer now m _ (Reach-HasSaved sn r))
          (Reach-HasSaved j r))
