-- ===== src/Coordinator/Publish.antt =====
-- The publish path of internal/coordinator/coordinator.go: switchPoints, publishState, warnUnmapped,
-- publish and onReading. Outside are the answers of the state plane, of the broker to a document, the
-- rendering of a document, `print`, fmt's text of a value, and `status`, Status of go-hamqtt's topic.SmartHome.
pub mod Warned
mod Tests
use go_zendure2mqtt.Common.{
  ℕ, zero, suc, ◌+◌, Bytes, str, beq, lookup, insert, has_key, Map, Value, FloatOps, nil, bool,
  text, Option, none, some, Bool, true, false, not, List, [], ◌∷◌, ◌++◌, ◌&&◌, ◌||◌, if◌then◌else◌,
  length, ltb, pos, is_some,
}
use go_zendure2mqtt.Catalog.Entry.{Entry}
use go_zendure2mqtt.Catalog.Load.{Catalog}
use go_zendure2mqtt.Process.Points.{Report, Point, no_value, resolve, owners, item_path}
use go_zendure2mqtt.Virtual.{Switch}
use go_zendure2mqtt.State.Store.{Store, SourceDevice, update}
use go_zendure2mqtt.Hass.Publish.{Bundle, Rendered, Discovery, Published, publish_all}

-- what is written through the state plane: the item cleared, or observed with a value
pub data Item (F : Type 0) : Type 0 where
  evicted : Bytes → Item F
  observed : Bytes → Value F → Item F

-- The state plane's answers: whether Evict fails, and whether PublishStatus wrote, `none` where it
-- fails.
pub record StatePlane (F : Type 0) : Type 0 where
  pub evict_fails : Bytes → Bool
  pub publish_status : Bytes → Value F → Option Bool

module _ {F : Type 0} ⦃fl : FloatOps F⦄ where
  -- publishState: the item, and whether it reached the broker
  unfoldable pub publish_state : StatePlane F → Bytes → Value F → Item F × Bool
  publish_state plane topic v =
      if no_value v
      then (evicted topic, not (plane.evict_fails topic))
      else (observed topic v, elim (plane.publish_status topic v) [ none ↦ false | some w ↦ w ])

  abbrev pub zero_float : F
  zero_float = fl.of_int (pos 0)

  unfoldable pub switch_entry : Switch F → Entry F
  switch_entry sw = record {
    property = sw.topic;
    topic = sw.topic;
    group = str "config";
    platform = str "switch";
    device_class = [];
    unit = [];
    scale = zero_float;
    offset = zero_float;
    writable = true;
    confirm = false;
    min = none;
    max = none;
    step = none;
    value_map = [];
    value_map_de = [];
    name = sw.name;
    name_de = sw.name_de;
  }

  -- switchPoints
  unfoldable pub switch_points : List (Switch F) → Report F → List (Point F)
  unfolding switch_entry
  switch_points [] report = []
  switch_points (sw ∷ sws) report =
      record {
        group = str "config";
        topic = sw.topic;
        pack_sn = [];
        value = bool (sw.active (some report));
        entry = some (switch_entry sw);
        unmapped = false;
      }
      ∷ switch_points sws report

abbrev pub max_unmapped_warnings : ℕ
max_unmapped_warnings = 256

-- the property of a point; an unmapped one has an entry
abbrev pub property_of : {F : Type 0} → Point F → Bytes
property_of p = elim p.entry [ none ↦ [] | some e ↦ e.property ]

unfoldable pub warning_key : {F : Type 0} → (Value F → Bytes) → Bytes → Point F → Bytes
warning_key print sn p = sn ++ 0 ∷ (p.pack_sn ++ 0 ∷ (property_of p ++ 0 ∷ print p.value))

-- warnUnmapped: the keys remembered, and whether the line is logged
unfoldable pub warn_key : Bytes → List Bytes → List Bytes × Bool
warn_key key seen =
    if has_key key seen
    then (seen, false)
    else if ltb (length seen) max_unmapped_warnings
    then (key ∷ seen, true)
    else (seen, true)

module _ {F : Type 0} ⦃fl : FloatOps F⦄ (print : Value F → Bytes) (status : List Bytes → Bytes)
    (plane : StatePlane F) (sn : Bytes) where
  unfoldable pub warn_unmapped : Point F → List Bytes → List Bytes × List Bytes
  unfolding warn_key warning_key
  warn_unmapped p seen =
      let (seen', logged) = warn_key (warning_key print sn p) seen in
      if p.unmapped then (seen', if logged then warning_key print sn p ∷ [] else []) else (seen, [])

  -- the loop of publish: the keys remembered, the warnings, the items, and how many were written
  unfoldable pub publish_points :
      List (Point F) → List Bytes → List Bytes × List Bytes × List (Item F) × ℕ
  unfolding warn_unmapped publish_state
  publish_points [] seen = (seen, [], [], 0)
  publish_points (p ∷ ps) seen =
      let (seen', logged) = warn_unmapped p seen in
      let (item, written) = publish_state plane (status (item_path sn p)) p.value in
      let (last, lines, items, n) = publish_points ps seen' in
      (last, logged ++ lines, item ∷ items, (if written then suc n else n))
