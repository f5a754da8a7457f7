-- ===== src/Catalog/Tests.antt =====
-- A catalog of two entries.
use go_zendure2mqtt.Common.{
  str, beq, lookup, insert, none, some, true, false, [], ◌∷◌, ◌≡◌, ◌≢◌, refl, ℤ, pos,
}
use go_zendure2mqtt.Catalog.Entry.{Entry, topic_leaf}
use go_zendure2mqtt.Catalog.Load.{
  load, new_catalog, by_property, find_topic, valid_platform, check_entry, check_entries,
}
use go_zendure2mqtt.Catalog.Index.{load_finds}

abbrev level : Entry ℤ
level = record {
  property = str "electricLevel";
  topic = str "electric_level";
  group = str "battery";
  platform = str "sensor";
  device_class = str "battery";
  unit = str "%";
  scale = pos 0;
  offset = pos 0;
  writable = false;
  confirm = false;
  min = none;
  max = none;
  step = none;
  value_map = [];
  value_map_de = [];
  name = str "Level";
  name_de = [];
}

abbrev limit : Entry ℤ
limit = record level {
  property = str "outputLimit";
  topic = [];
  platform = str "number";
  writable = true;
}

load_finds_example :
    (by_property (new_catalog (level ∷ limit ∷ [])) (str "outputLimit") ≡ some limit)
    × (find_topic (new_catalog (level ∷ limit ∷ [])) (topic_leaf limit) ≡ some limit)
    × (str "outputLimit" ≢ [])
    × (valid_platform (str "number") ≡ true)
unfolding load check_entries check_entry valid_platform lookup insert beq topic_leaf
load_finds_example =
    load_finds (level ∷ limit ∷ []) (new_catalog (level ∷ limit ∷ [])) 1 limit refl refl
