-- ===== src/Web/Tests.antt =====
-- A running coordinator with one unit that has reported its limit, and the page over it.
use go_zendure2mqtt.Common.{
  str, beq, cut_prefix, lookup, insert, copy, has_prefix, contains_byte, has_key, sort_keys, itoa,
  true, false, [], ◌∷◌, ◌≡◌, refl, pos,
}
use go_zendure2mqtt.Common.Samples.{int_floats}
use go_zendure2mqtt.Catalog.Entry.{topic_leaf}
use go_zendure2mqtt.Catalog.Load.{load, valid_platform, check_entry, check_entries}
use go_zendure2mqtt.Coordinator.System.{or_new, run, start}
use go_zendure2mqtt.Catalog.Load.{by_property}
use go_zendure2mqtt.Process.Points.{resolve, property_point}
use go_zendure2mqtt.Evcc.Profile.{derive}
use go_zendure2mqtt.Coordinator.Battery.{publish_evcc}
use go_zendure2mqtt.Coordinator.Publish.{publish_points, switch_points}
use go_zendure2mqtt.Coordinator.Migrate.{may_sweep}
use go_zendure2mqtt.Web.Tiles.{replace_all, translate}
use go_zendure2mqtt.Web.Running.{AllAccepted, run-AllAccepted}
use go_zendure2mqtt.Coordinator.System.Samples.{limit, fixed, env, events, after}

run-AllAccepted_example : AllAccepted fixed env after (or_new after.world.store)
unfolding run start load check_entries check_entry valid_platform lookup insert beq topic_leaf
    cut_prefix publish_points resolve property_point by_property switch_points publish_evcc derive
    copy may_sweep contains_byte has_key sort_keys
run-AllAccepted_example =
    run-AllAccepted fixed env [] true false true events (limit ∷ []) (or_new after.world.store) refl
      (refl, tt) tt refl

three_units : replace_all (str "{n} units") (str "{n}") (itoa (pos 3)) ≡ str "3 units"
unfolding replace_all itoa has_prefix
three_units = refl

no_label : translate [] (str "de") (str "cfg.debug") ≡ str "cfg.debug"
unfolding translate lookup
no_label = refl
