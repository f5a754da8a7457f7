-- ===== src/Harender/Tests.antt =====
-- The document of a unit with one sensor.
use go_zendure2mqtt.Common.{
  Bytes, str, beq, has_key, Value, text, none, some, false, [], ◌∷◌, ◌≡◌, refl, ℤ, pos, is_some,
}
use go_zendure2mqtt.Catalog.Entry.{Entry}
use go_zendure2mqtt.Process.Points.{Point, owners}
use go_zendure2mqtt.Harender.Layout.{Layout, state_of, state_topic, online_of}
use go_zendure2mqtt.Harender.Entity.{
  Source, Renderer, entity, entity_for, bundle, availability, sensor_state_class,
}
use go_zendure2mqtt.Harender.Owned.{any_of, entities_of, uids, minted, bundle-owners, entity-topics}
use go_zendure2mqtt.Hass.Ownership.{unique_id}

abbrev layout : Layout
layout = record {
  name = str "zendure";
  status = λ ls. str "status";
  set = λ ls. str "set";
  connected = str "zendure/connected";
}

abbrev renderer : Renderer
renderer = record { topics = layout; identity_root = str "z"; lang = str "en" }

abbrev unit : Source
unit = record { sn = str "A"; device_name = []; model = str "Hub"; address = [] }

abbrev level : Entry ℤ
level = record {
  property = str "electricLevel";
  topic = str "level";
  group = str "battery";
  platform = str "sensor";
  device_class = str "battery";
  unit = str "%";
  scale = pos 0;
  offset = pos 0;
  writable = false;
  confirm = false;
  min = none;
  max = none;
  step = none;
  value_map = [];
  value_map_de = [];
  name = str "Level";
  name_de = [];
}

abbrev point : Point ℤ
point = record {
  group = str "battery";
  topic = str "level";
  pack_sn = [];
  value = text (str "9");
  entry = some level;
  unmapped = false;
}

abbrev print : Value ℤ → Bytes
print v = str "1"

abbrev quote : Bytes → Bytes
quote s = s

bundle-owners_example :
    (is_some (bundle quote renderer print unit none [] (point ∷ []))
      ≡ has_key [] (owners (point ∷ [])))
    × (any_of quote renderer
          (entities_of quote renderer (bundle quote renderer print unit none [] (point ∷ [])))
        ≡ is_some (bundle quote renderer print unit none [] (point ∷ [])))
    × (uids quote renderer
          (entities_of quote renderer (bundle quote renderer print unit none [] (point ∷ [])))
        ≡ minted quote renderer unit [] (point ∷ []))
bundle-owners_example = bundle-owners quote renderer print unit none [] (point ∷ [])

entity-topics_example :
    (state_of ℤ layout (entity_for quote renderer unit point level).slot
      ≡ state_topic layout (str "A") point)
    × (availability quote renderer (entity_for quote renderer unit point level)
        ≡ str "zendure/connected" ∷ online_of layout (str "A") ∷ [])
    × ((entity_for quote renderer unit point level).uid
        ≡ unique_id (str "z") (str "A") [] (str "level"))
unfolding entity beq
entity-topics_example =
    entity-topics quote renderer unit point (entity_for quote renderer unit point level) refl

state_class_of_energy : sensor_state_class (str "energy") (str "kWh") ≡ str "total_increasing"
unfolding sensor_state_class beq
state_class_of_energy = refl
