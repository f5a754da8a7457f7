-- ===== src/Evcc/Profile.antt =====
-- The profile's items and the values derived from a unit's raw properties.
use go_zendure2mqtt.Common.{
  Bytes, str, beq, lookup, Map, Value, FloatOps, float, int, text, Option, none, some, Bool, List,
  [], ◌∷◌, ◌++◌, ◌&&◌, if◌then◌else◌,
}

abbrev pub group : Bytes
group = str "evcc"

abbrev pub role_battery : Bytes
role_battery = str "battery"

abbrev pub role_pv : Bytes
role_pv = str "pv"

abbrev pub key_power : Bytes
key_power = str "power"

abbrev pub key_soc : Bytes
key_soc = str "soc"

abbrev pub key_battery_mode : Bytes
key_battery_mode = str "batterymode"

pub record Item : Type 0 where
  pub role : Bytes
  pub key : Bytes

-- `<role>/<key>`
unfoldable pub item_string : Item → Bytes
item_string i = i.role ++ b'/' ∷ i.key

abbrev pub battery_power : Item
battery_power = record { role = role_battery; key = key_power }

abbrev pub battery_soc : Item
battery_soc = record { role = role_battery; key = key_soc }

abbrev pub battery_mode : Item
battery_mode = record { role = role_battery; key = key_battery_mode }

abbrev pub pv_power : Item
pv_power = record { role = role_pv; key = key_power }

unfoldable pub status_items : List Item
status_items = battery_power ∷ battery_soc ∷ battery_mode ∷ pv_power ∷ []

unfoldable pub commands : List Item
commands = battery_mode ∷ []

-- Item is compared field by field, as Go compares the keys of `labels`.
unfoldable pub same_item : Item → Item → Bool
unfolding beq
same_item a b = beq a.role b.role && beq a.key b.key

pub record Label : Type 0 where
  pub english : Bytes
  pub german : Bytes
  pub unit : Bytes

unfoldable pub label_of : Item → Option Label
unfolding same_item
label_of i =
    if same_item i battery_power
    then some
        (record { english = str "Battery power"; german = str "Batterieleistung"; unit = str "W" })
    else if same_item i battery_soc
    then some (record {
      english = str "Battery state of charge";
      german = str "Batterie-Ladestand";
      unit = str "%";
    })
    else if same_item i battery_mode
    then some (record { english = str "Battery mode"; german = str "Batteriemodus"; unit = [] })
    else if same_item i pv_power
    then some (record { english = str "PV power"; german = str "PV-Leistung"; unit = str "W" })
    else none

unfoldable pub item_name : Item → Bytes → Bytes
unfolding label_of item_string
item_name i lang = elim (label_of i) [
  | none ↦ item_string i
  | some l ↦ if beq lang (str "de") then l.german else l.english
]

unfoldable pub item_unit : Item → Bytes
unfolding label_of
item_unit i = elim (label_of i) [ none ↦ [] | some l ↦ l.unit ]

-- The raw property names.
abbrev pub prop_pack_input : Bytes
prop_pack_input = str "packInputPower"

abbrev pub prop_output_pack : Bytes
prop_output_pack = str "outputPackPower"

abbrev pub prop_level : Bytes
prop_level = str "electricLevel"

abbrev pub prop_solar_input : Bytes
prop_solar_input = str "solarInputPower"

abbrev pub prop_charge_limit : Bytes
prop_charge_limit = str "chargeMaxLimit"

abbrev pub prop_ac_mode : Bytes
prop_ac_mode = str "acMode"

abbrev pub prop_input_limit : Bytes
prop_input_limit = str "inputLimit"

abbrev pub prop_output_limit : Bytes
prop_output_limit = str "outputLimit"

abbrev pub prop_smart_mode : Bytes
prop_smart_mode = str "smartMode"

-- One derived profile value.
pub record Derived (F : Type 0) : Type 0 where
  pub item : Item
  pub value : Value F

module _ {F : Type 0} ⦃fl : FloatOps F⦄ where
  unfoldable pub to_float : Value F → Option F
  to_float (float x) = some x
  to_float (int n) = some (fl.of_int n)
  to_float (text s) = fl.parse_float s
  to_float _ = none

  unfoldable pub number : Map (Value F) → Bytes → Option F
  number props key = elim (lookup key props) [ none ↦ none | some v ↦ to_float v ]

  -- battery power needs both readings
  unfoldable pub power_values : Option F → Option F → List (Derived F)
  power_values (some in_) (some charge) =
      record { item = battery_power; value = float (fl.sub in_ charge) } ∷ []
  power_values _ _ = []

  unfoldable pub single_value : Item → Option F → List (Derived F)
  single_value i none = []
  single_value i (some v) = record { item = i; value = float v } ∷ []

  unfoldable pub derive : Map (Value F) → List (Derived F)
  unfolding power_values single_value number
  derive props =
      power_values (number props prop_pack_input) (number props prop_output_pack)
      ++ (single_value battery_soc (number props prop_level)
          ++ single_value pv_power (number props prop_solar_input))
