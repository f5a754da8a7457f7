-- ===== src/Harender/Entity.antt =====
-- Device, Entity, Entities, sensorStateClass, EnumValueTemplate, Availability and Bundle of
-- internal/harender/harender.go, and PackSoftVersion of internal/hass/discovery.go. The types of
-- go-hamqtt are records of what is set here; `quote` is its JinjaQuote, and `print` the text of a value.
use go_zendure2mqtt.Common.{
  Bytes, str, beq, lookup, Map, Value, text, Option, none, some, Bool, not, List, [], ◌∷◌, ◌++◌,
  if◌then◌else◌,
}
use go_zendure2mqtt.Catalog.Entry.{Entry, friendly_name}
use go_zendure2mqtt.Process.Points.{Report, Point}
use go_zendure2mqtt.Harender.{Localized, HaEnum, ha_enum}
use go_zendure2mqtt.Harender.Layout.{Layout, Slot, slot_of, availability_of}
use go_zendure2mqtt.Hass.Names.{device_name, entity_object_id}
use go_zendure2mqtt.Hass.Ownership.{unique_id}

-- of source.Device, what the rendering reads
pub record Source : Type 0 where
  pub sn : Bytes
  pub device_name : Bytes
  pub model : Bytes
  pub address : Bytes

pub record Renderer : Type 0 where
  pub topics : Layout
  pub identity_root : Bytes
  pub lang : Bytes

-- hamodel.Device
pub record HaDevice : Type 0 where
  pub id : Bytes
  pub via : Option Bytes
  pub name : Bytes
  pub serial_number : Bytes
  pub model : Bytes
  pub model_id : Bytes
  pub config_url : Bytes
  pub sw_version : Bytes

module _ {F : Type 0} where
  -- pd["sn"].(string), the empty text where it is none
  abbrev pub text_or_empty : Option (Value F) → Bytes
  text_or_empty (some (text s)) = s
  text_or_empty _ = []

  unfoldable pub soft_version_in : (Value F → Bytes) → List (Map (Value F)) → Bytes → Bytes
  soft_version_in print [] pack_sn = []
  soft_version_in print (pd ∷ pds) pack_sn =
      let rest = soft_version_in print pds pack_sn in
      if beq (text_or_empty (lookup (str "sn") pd)) pack_sn
      then (elim (lookup (str "softVersion") pd) [ none ↦ [] | some v ↦ print v ])
      else rest

  -- PackSoftVersion
  unfoldable pub pack_soft_version : (Value F → Bytes) → Option (Report F) → Bytes → Bytes
  unfolding soft_version_in
  pack_soft_version print none pack_sn = []
  pack_soft_version print (some r) pack_sn = soft_version_in print r.pack_data pack_sn

  abbrev pub product_of : Option (Report F) → Bytes
  product_of none = []
  product_of (some r) = r.product

  -- Device
  unfoldable pub ha_device :
      (Value F → Bytes) → Renderer → Source → Option (Report F) → Bytes → HaDevice
  unfolding pack_soft_version
  ha_device print r dev report pack_sn =
      let unit_id : Bytes = r.identity_root ++ b'_' ∷ dev.sn in
      elim pack_sn [
        | [] ↦ record {
          id = unit_id;
          via = none;
          name = device_name dev.sn dev.device_name [];
          serial_number = dev.sn;
          model = dev.model;
          model_id = product_of report;
          config_url = if beq dev.address [] then [] else str "http://" ++ dev.address;
          sw_version = [];
        }
        | c ∷ s ↦ record {
          id = unit_id ++ (str "_pack_" ++ c ∷ s);
          via = some unit_id;
          name = device_name dev.sn dev.device_name (c ∷ s);
          serial_number = c ∷ s;
          model = str "Battery Pack";
          model_id = [];
          config_url = [];
          sw_version = pack_soft_version print report (c ∷ s);
        }
      ]

-- sensorStateClass
unfoldable pub sensor_state_class : Bytes → Bytes → Bytes
sensor_state_class device_class unit =
    if beq device_class (str "energy")
    then str "total_increasing"
    else if not (beq unit [])
    then str "measurement"
    else []

-- Enum.Label of go-hamqtt: the text in a language, the default where there is none
abbrev pub label_in : Bytes → Option Localized → Bytes
label_in lang none = []
label_in lang (some l) =
    if beq lang (str "de") then (elim l.german [ none ↦ l.text | some de ↦ de ]) else l.text

module _ (quote : Bytes → Bytes) where
  unfoldable pub template_pairs : HaEnum → Bytes → List Bytes → Bytes
  template_pairs e lang [] = []
  template_pairs e lang (c ∷ cs) =
      str ", "
      ++ (quote c
          ++ (str ": " ++ (quote (label_in lang (lookup c e.labels)) ++ template_pairs e lang cs)))

  -- EnumValueTemplate
  unfoldable pub enum_value_template : Option HaEnum → Bytes → Bytes
  unfolding template_pairs
  enum_value_template none lang = []
  enum_value_template (some e) lang = elim e.codes [
    | [] ↦ []
    | c ∷ cs ↦
        str "{% set m = {"
        ++ (quote c
            ++ (str ": "
                ++ (quote (label_in lang (lookup c e.labels))
                    ++ (template_pairs e lang cs
                        ++ str
                            "} %}{% if value_json is defined and value_json.val is string %}{{ m.get(value_json.val, 'None') }}{% else %}None{% endif %}"))))
  ]

abbrev pub value_template : Bytes
value_template =
    str
      "{% if value_json is defined and value_json.val is defined and value_json.val is not none and value_json.val != '' %}{{ value_json.val }}{% else %}None{% endif %}"

-- Entity, with what its hamodel.Description says
pub record HaEntity (F : Type 0) : Type 0 where
  pub key : Bytes
  pub platform : Bytes
  pub uid : Bytes
  pub object_seed : Bytes
  pub slot : Slot
  pub commands : Bool
  pub name : Bytes
  pub device_class : Bytes
  pub unit : Bytes
  pub state_class : Bytes
  pub min : Option F
  pub max : Option F
  pub step : Option F
  pub options : Option HaEnum
  pub template : Bytes

module _ {F : Type 0} (quote : Bytes → Bytes) (r : Renderer) where
  -- what the platform adds to an entity
  unfoldable pub shape_entity : Entry F → HaEntity F → HaEntity F
  unfolding sensor_state_class enum_value_template
  shape_entity e h =
      if beq e.platform (str "sensor")
      then (elim (ha_enum e) [
        | some enum ↦ record h {
          device_class = str "enum";
          options = some enum;
          template = enum_value_template quote (some enum) r.lang;
        }
        | none ↦ record h {
          state_class = sensor_state_class e.device_class e.unit;
          template = value_template;
        }
      ])
      else if beq e.platform (str "number")
      then record h { min = e.min; max = e.max; step = e.step; template = value_template }
      else if beq e.platform (str "select")
      then record h { options = ha_enum e; template = enum_value_template quote (ha_enum e) r.lang }
      else h

  -- what every entity says
  unfoldable pub plain_entity : Source → Point F → Entry F → HaEntity F
  plain_entity dev p e = record {
    key = p.topic;
    platform = e.platform;
    uid = unique_id r.identity_root dev.sn p.pack_sn p.topic;
    object_seed = entity_object_id (device_name dev.sn dev.device_name p.pack_sn) p.topic;
    slot = slot_of dev.sn p;
    commands = e.writable;
    name = friendly_name e r.lang;
    device_class = e.device_class;
    unit = e.unit;
    state_class = [];
    min = none;
    max = none;
    step = none;
    options = none;
    template = [];
  }

  -- Entity, for a point that has an entry with a platform
  unfoldable pub entity_for : Source → Point F → Entry F → HaEntity F
  unfolding shape_entity plain_entity
  entity_for dev p e = shape_entity e (plain_entity dev p e)

  -- Entity
  unfoldable pub entity : Source → Point F → Option (HaEntity F)
  unfolding entity_for
  entity dev p = elim p.entry [
    | none ↦ none
    | some e ↦ if beq e.platform [] then none else some (entity_for dev p e)
  ]

  -- Entities
  unfoldable pub entities : Source → List (Point F) → List (HaEntity F)
  unfolding entity
  entities dev [] = []
  entities dev (p ∷ ps) =
      let rest = entities dev ps in elim (entity dev p) [ none ↦ rest | some h ↦ h ∷ rest ]

  -- the loop of Bundle
  unfoldable pub bundle_entities : Source → Bytes → List (Point F) → List (HaEntity F)
  unfolding entity
  bundle_entities dev pack_sn [] = []
  bundle_entities dev pack_sn (p ∷ ps) =
      let rest = bundle_entities dev pack_sn ps in
      if not (beq p.pack_sn pack_sn)
      then rest
      else elim (entity dev p) [ none ↦ rest | some h ↦ h ∷ rest ]

  -- Bundle: what is handed to discovery.Render, `none` where there is no entity
  unfoldable pub bundle :
      (Value F → Bytes)
      → Source
      → Option (Report F)
      → Bytes
      → List (Point F)
      → Option (HaDevice × List (HaEntity F))
  unfolding bundle_entities ha_device
  bundle print dev report pack_sn points = elim (bundle_entities dev pack_sn points) [
    | [] ↦ none
    | h ∷ hs ↦ some (ha_device print r dev report pack_sn, h ∷ hs)
  ]

  -- the topics of Context.Availability
  unfoldable pub availability : HaEntity F → List Bytes
  availability h = r.topics.connected ∷ availability_of r.topics h.slot ∷ []
