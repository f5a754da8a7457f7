-- ===== src/Coordinator/System/Tests.antt =====
-- The running coordinator over a short run.
use go_zendure2mqtt.Common.{
  str, beq, to_lower, trim_space, keys, less, lookup, insert, copy, contains_byte, has_key,
  sort_keys, true, false, [], ◌≡◌, refl, ℤ,
}
use go_zendure2mqtt.Common.Samples.{int_floats}
use go_zendure2mqtt.Catalog.Load.{new_catalog}
use go_zendure2mqtt.Coordinator.System.{Daemon, Env, tick, reading, run, start}
use go_zendure2mqtt.Coordinator.System.Known.{IsSound}
use go_zendure2mqtt.Coordinator.System.Sound.{run-IsSound}
use go_zendure2mqtt.Coordinator.System.Gated.{Gated, AllNew, run-Gated}
use go_zendure2mqtt.Coordinator.System.Sweeps.{sweeps_of}
use go_zendure2mqtt.Catalog.Load.{by_property}
use go_zendure2mqtt.Process.Points.{resolve, property_point}
use go_zendure2mqtt.Evcc.Profile.{derive}
use go_zendure2mqtt.Coordinator.Battery.{publish_evcc}
use go_zendure2mqtt.Coordinator.Publish.{publish_points, switch_points}
use go_zendure2mqtt.Coordinator.Migrate.{may_sweep}
use go_zendure2mqtt.Coordinator.Battery.{unit, is_stale, apply_battery_mode, change_mode}
use go_zendure2mqtt.Coordinator.System.{step, ui_write, or_new}
use go_zendure2mqtt.State.Store.{problems_of}
use go_zendure2mqtt.Coordinator.System.Logged.{problems_in, logged, writes_item, ui_write-logged}
use go_zendure2mqtt.Coordinator.Battery.{plan, commit}
use go_zendure2mqtt.Coordinator.Commands.{apply_evcc_set}
use go_zendure2mqtt.Evcc.Mode.{parse_mode, diff, snapshot, target, mode_string, reported}
use go_zendure2mqtt.Evcc.Profile.{to_float}
use go_zendure2mqtt.Coordinator.System.Kept.{units_in}
use go_zendure2mqtt.Coordinator.System.Released.{tick_releases}
use go_zendure2mqtt.Coordinator.System.Begin.{second, fallback_tick}
use go_zendure2mqtt.Coordinator.System.InTime.{spent_in, released_in_time}
use go_zendure2mqtt.Coordinator.Battery.Duration.{set_timeout}
use go_zendure2mqtt.Evcc.Mode.{same_mode}
use go_zendure2mqtt.Common.{ℕ, ◌^◌, ◌+◌, ◌*◌, ◌<◌, Map, Value, length, arith}
use go_zendure2mqtt.Evcc.Mode.{normal}
use go_zendure2mqtt.Coordinator.System.Samples.{
  fixed, publishing, device, reported_limit, env, events, after, held, units,
}

run-IsSound_example : IsSound after
run-IsSound_example = run-IsSound fixed [] true false true events

-- a sweep is in flight, and the unit is read again
abbrev sweeping : Daemon ℤ
sweeping = run publishing events (start publishing [] true true true)

run-Gated_example :
    Gated sweeping
    × AllNew sweeping.sweeps
        (sweeps_of (step publishing env (reading device reported_limit) sweeping).1)
run-Gated_example =
    run-Gated publishing [] true true true events env (reading device reported_limit)

abbrev held_unit : Daemon ℤ
held_unit = run fixed held (start fixed [] true false true)

abbrev late : Env ℤ
late = record env { now = 10 ^ 9 }

tick_releases_example :
    (unit (units_in (step fixed late (tick 60) held_unit).0.world.evcc) (str "A")).mode ≡ normal
unfolding run start publish_points resolve property_point by_property insert lookup beq
    switch_points publish_evcc derive copy may_sweep contains_byte has_key sort_keys apply_evcc_set
    parse_mode apply_battery_mode change_mode plan commit diff snapshot target is_stale unit
    new_catalog to_lower trim_space mode_string keys less reported to_float
tick_releases_example =
    (tick_releases fixed [] true false true held late 60 units (str "A") refl (λ w. refl)).0

-- a backend that takes a second for each write
abbrev a_second : Map (Value ℤ) → ℕ
a_second w = second

released_in_time_example :
    ((unit (units_in (step fixed late (tick 60) held_unit).0.world.evcc) (str "A")).mode ≡ normal)
    × (late.now < (unit units (str "A")).last_cmd + 60 + 5 * second)
    × (late.now + spent_in a_second (step fixed late (tick 60) held_unit).1
        < (unit units (str "A")).last_cmd + 60 + 5 * second + length units * set_timeout)
unfolding run start publish_points resolve property_point by_property insert lookup beq
    switch_points publish_evcc derive copy may_sweep contains_byte has_key sort_keys apply_evcc_set
    parse_mode apply_battery_mode change_mode plan commit diff snapshot target is_stale unit
    new_catalog to_lower trim_space mode_string keys less reported to_float same_mode fallback_tick
released_in_time_example =
    released_in_time fixed [] true false true held late 60 0 units (str "A") a_second refl refl
      (omega arith) refl (λ w. refl) (λ w. omega arith)

-- a write of the web UI to a unit that nobody knows
ui_write-logged_example :
    problems_in
      (step fixed env (ui_write (str "B") (str "output_limit") (str "1")) after).0.world.store
    ≡ logged fixed env.now
        (str "B")
        (str "output_limit")
        (str "1")
        (writes_item fixed env (str "B") (str "output_limit") (str "1") after).2
        (problems_of (or_new after.world.store))
unfolding run start publish_points resolve property_point by_property insert lookup beq
    switch_points publish_evcc derive copy may_sweep contains_byte has_key sort_keys new_catalog
    to_lower trim_space keys less to_float
ui_write-logged_example =
    ui_write-logged fixed env (str "B") (str "output_limit") (str "1") after
      (or_new after.world.store) refl
