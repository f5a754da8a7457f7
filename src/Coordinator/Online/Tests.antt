-- ===== src/Coordinator/Online/Tests.antt =====
-- A world with one device that has reported.
use go_zendure2mqtt.Common.{
  str, beq, lookup, keys, sort_keys, less, has_key, none, some, true, false, [], ◌∷◌, map, ◌≡◌,
  refl, ℤ,
}
use go_zendure2mqtt.Common.Samples.{int_floats}
use go_zendure2mqtt.Catalog.Load.{new_catalog}
use go_zendure2mqtt.Process.Points.{owners, resolve}
use go_zendure2mqtt.State.Store.{SourceDevice}
use go_zendure2mqtt.Hass.Publish.{Bundle, rendered, new_discovery, mark, component_ids, is_fresh}
use go_zendure2mqtt.Hass.Reopened.{bundles}
use go_zendure2mqtt.Coordinator.Publish.{switch_points}
use go_zendure2mqtt.Coordinator.Online.{
  World, Setup, document, rendered_for, points_of, republish_discovery,
}
use go_zendure2mqtt.Coordinator.Online.Republished.{rendered_all, republish_discovery-documents}

abbrev unit : Bundle
unit = record { node_id = str "z_A"; components = (str "bat", str "z_A_bat") ∷ [] }

abbrev setup : Setup ℤ
setup = record {
  catalog = new_catalog [];
  switches =
      record {
        topic = str "c";
        name = str "C";
        name_de = [];
        on_props = [];
        off_props = [];
        active = λ r. true;
      }
      ∷ [];
  language = str "en";
  print = λ v. [];
  status = λ ls. str "s";
  plane = record { evict_fails = λ t. false; publish_status = λ t v. some true };
  render = λ dev report ps pack. rendered unit;
  topic_of = λ b. b.node_id;
  answer = λ b. some (str "down");
}

abbrev device : SourceDevice
device = record { sn = str "A"; model = str "Hub" }

abbrev world : World ℤ
world = record {
  by_sn = (str "A", device) ∷ [];
  last =
      (
        str "A",
        record {
          dev = device;
          report = record { sn = str "A"; product = []; properties = []; pack_data = [] };
        },
      )
      ∷ [];
  reach = [];
  store = none;
  hass = some (mark (str "z_A") (component_ids unit) new_discovery);
  gate = record { last = []; busy = [] };
  unmapped = [];
  evcc = none;
}

republish_discovery-documents_example :
    (republish_discovery setup world).1
    ≡ map document (bundles (rendered_all setup world.last (sort_keys (keys world.last))))
unfolding sort_keys keys lookup beq rendered_for points_of owners resolve switch_points
    component_ids is_fresh has_key less
republish_discovery-documents_example =
    republish_discovery-documents setup world (mark (str "z_A") (component_ids unit) new_discovery)
      refl (refl, tt)
