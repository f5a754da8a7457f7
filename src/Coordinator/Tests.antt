-- ===== src/Coordinator/Tests.antt =====
-- The battery-mode theorems on a concrete unit.
use go_zendure2mqtt.Common.{
  Bytes, str, beq, lookup, insert, copy, keys, sort_keys, has_key, Map, Value, float, int, Option,
  none, some, true, List, [], ◌∷◌, ◌≡◌, ◌≢◌, refl, ℤ, pos, less, eqb_ℤ,
}
use go_zendure2mqtt.Common.Samples.{int_floats}
use go_zendure2mqtt.Evcc.Profile.{number, to_float}
use go_zendure2mqtt.Evcc.Mode.{
  normal, hold, charge, snapshot, snapshot_loop, reported, wanted, same_number, diff_loop, target,
  diff, entries,
}
use go_zendure2mqtt.Coordinator.Battery.{
  EvccUnit, Plane, failed, applied, unit_of, plan, commit, change_mode, apply_battery_mode,
  merge_report, publish_evcc,
}
use go_zendure2mqtt.Coordinator.Battery.Restore.{
  happen, Event, report, command, after_lock, normal_restores,
}
use go_zendure2mqtt.Coordinator.Battery.Resend.{resend_writes_nothing}
use go_zendure2mqtt.Coordinator.Battery.Failed.{failed_lock_is_restored}

abbrev reported_now : Map (Value ℤ)
reported_now =
    (str "acMode", float (pos 2))
    ∷ (str "outputLimit", float (pos 300))
    ∷ (str "electricLevel", float (pos 55))
    ∷ []

abbrev idle : EvccUnit ℤ
idle = record { props = reported_now; mode = normal; saved = none; last_cmd = 0 }

abbrev accepts : Map (Value ℤ) → Option Bytes
accepts w = none

abbrev refuses : Map (Value ℤ) → Option Bytes
refuses w = some (str "timeout")

-- a report that shows the output stopped, and a charge that fails
abbrev later : List (Event ℤ)
later = report ((str "outputLimit", float (pos 0)) ∷ []) ∷ command charge refuses 20 ∷ []

reported_something : idle.props ≢ []
reported_something h = cc

hold_locks : hold ≢ normal
hold_locks h = cc

charge_locks : charge ≢ normal
charge_locks h = cc

normal_restores_example :
    (y : ℤ) × (number
        (happen
          (pos 1000)
          (command normal accepts 30)
          (after_lock (pos 1000) idle hold accepts 10 later)).props
        (str "outputLimit")
      ≡ some y)
    × (eqb_ℤ (pos 300) y ≡ true)
unfolding has_key number lookup to_float beq
normal_restores_example =
    (normal_restores (pos 1000) idle hold accepts 10 later accepts 30 refl reported_something
        hold_locks (tt, (charge_locks, tt)) (λ w. refl)).2
      (str "outputLimit") (pos 300) refl refl

resend_writes_nothing_example :
    change_mode
      (pos 1000)
      refuses
      20
      charge
      (unit_of (change_mode (pos 1000) accepts 10 charge idle))
    ≡ applied
        (record (unit_of (change_mode (pos 1000) accepts 10 charge idle)) { last_cmd = 20 })
        none
resend_writes_nothing_example =
    resend_writes_nothing (pos 1000) accepts refuses 10 20 charge idle charge_locks
      reported_something λ w. refl

-- What a refused `hold` leaves: the time, and the snapshot.
abbrev after_refusal : EvccUnit ℤ
after_refusal = record {
  props = reported_now;
  mode = normal;
  saved = some ((str "acMode", int (pos 2)) ∷ (str "outputLimit", int (pos 300)) ∷ []);
  last_cmd = 10;
}

abbrev hold_write : Map (Value ℤ)
hold_write = (str "outputLimit", int (pos 0)) ∷ (str "smartMode", int (pos 1)) ∷ []

refused_hold :
    change_mode (pos 1000) refuses 10 hold idle ≡ failed after_refusal hold_write (str "timeout")
unfolding change_mode plan commit snapshot snapshot_loop target diff diff_loop reported number
    to_float wanted same_number lookup insert beq keys sort_keys less
refused_hold = refl

abbrev reported_plane : Plane ℤ
reported_plane = (str "A1", idle) ∷ []

failed_lock_is_restored_example :
    (after_refusal.mode ≡ normal)
    × (after_refusal.saved ≡ some (snapshot reported_now))
    × (change_mode
          (pos 1000)
          accepts
          30
          normal
          (merge_report (some ((str "outputLimit", float (pos 800)) ∷ [])) after_refusal)
        ≡ applied
            (record {
              props = copy (copy reported_now ((str "outputLimit", float (pos 800)) ∷ [])) (
                  entries (
                    diff
                      (snapshot reported_now)
                      (copy reported_now ((str "outputLimit", float (pos 800)) ∷ []))));
              mode = normal;
              saved = none;
              last_cmd = 30;
            })
            (diff
              (snapshot reported_now)
              (copy reported_now ((str "outputLimit", float (pos 800)) ∷ []))))
failed_lock_is_restored_example =
    failed_lock_is_restored (pos 1000) refuses accepts 10 30 hold idle after_refusal hold_write
      ((str "outputLimit", float (pos 800)) ∷ []) (str "timeout") hold_locks refl refl refused_hold
      λ w. refl

abbrev one_unit : Plane ℤ
one_unit = (str "A1", record idle { mode = hold; last_cmd = 10 }) ∷ []

abbrev later_plane : Plane ℤ
later_plane = (apply_battery_mode (pos 1000) true accepts 10 hold (str "A1") []).0

-- a plane in which the unit has reported and is held
abbrev held_plane : Plane ℤ
held_plane =
    (apply_battery_mode (pos 1000) true accepts 10 hold (str "A1")
      (publish_evcc (some reported_now) (str "A1") []).0).0
