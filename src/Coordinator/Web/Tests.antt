-- ===== src/Coordinator/Web/Tests.antt =====
-- The web UI's view of a catalog with one limit.
use go_zendure2mqtt.Common.{str, none, some, true, false, [], ◌≡◌, refl, ℤ, pos}
use go_zendure2mqtt.Common.Samples.{int_floats}
use go_zendure2mqtt.Catalog.Entry.{Entry}
use go_zendure2mqtt.State.Store.{new_store}
use go_zendure2mqtt.Coordinator.Commands.Routes.{World}
use go_zendure2mqtt.Coordinator.Web.{health_status, starting}

abbrev limit : Entry ℤ
limit = record {
  property = str "outputLimit";
  topic = [];
  group = str "config";
  platform = str "number";
  device_class = [];
  unit = str "W";
  scale = pos 0;
  offset = pos 0;
  writable = true;
  confirm = false;
  min = none;
  max = none;
  step = none;
  value_map = [];
  value_map_de = [];
  name = str "Limit";
  name_de = [];
}

abbrev world : World ℤ
world = record { evcc = some []; store = new_store }

health_without_store : health_status {F = ℤ} true none ≡ starting
unfolding health_status
health_without_store = refl
