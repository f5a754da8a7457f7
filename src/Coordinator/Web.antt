-- ===== src/Coordinator/Web.antt =====
-- internal/coordinator/web.go, what the web UI reads: Health, Config, Items and batteryModeOptions.
-- Version, start and up time are left out of Health, and so are the lists of the snapshot and of the
-- problems, which State models.
pub mod Shown
pub mod Secret
pub mod Health
mod Tests
use go_zendure2mqtt.Common.{
  ℕ, Bytes, str, beq, Option, none, some, Bool, true, false, not, List, [], ◌∷◌, ◌++◌, ◌&&◌, ◌||◌,
  ◌==◌, ◌*◌, ℤ, map, length, if◌then◌else◌,
}
use go_zendure2mqtt.Catalog.Entry.{Entry, topic_leaf, friendly_name, codes, token, label}
use go_zendure2mqtt.Catalog.Load.{Catalog}
use go_zendure2mqtt.Virtual.{Switch, switch_name}
use go_zendure2mqtt.Evcc.Profile.{group, battery_mode, item_string, item_name}
use go_zendure2mqtt.Evcc.Mode.{Mode, normal, hold, charge, mode_string}
use go_zendure2mqtt.Config.Settings.{
  Config, LocalDevice, cloud_configured, charge_active_w, discharge_active_w,
}
use go_zendure2mqtt.State.Store.{Store, Device, snapshot_of}

pub data Status : Type 0 where
  starting ok degraded : Status

-- a device of the snapshot has reported; a zero time is one that has not
unfoldable pub any_reported : {F : Type 0} → List (Device F) → Bool
any_reported [] = false
any_reported (d ∷ ds) = not (d.updated_at == 0) || any_reported ds

abbrev pub is_true : Option Bool → Bool
is_true none = true
is_true (some b) = b

unfoldable pub all_online : {F : Type 0} → List (Device F) → Bool
all_online [] = true
all_online (d ∷ ds) = is_true d.online && all_online ds

-- the status of Health, with and without a store
unfoldable pub health_status : {F : Type 0} → Bool → Option (Store F) → Status
unfolding any_reported all_online
health_status mqtt_connected none = starting
health_status mqtt_connected (some s) =
    let devices = snapshot_of s in
    if not (any_reported devices)
    then starting
    else if mqtt_connected && (is_true s.upstream && all_online devices)
    then ok
    else degraded

pub record DeviceView : Type 0 where
  pub sn : Bytes
  pub host : Bytes

pub record ConfigView : Type 0 where
  pub connection : Bytes
  pub refresh : ℤ
  pub local_devices : List DeviceView
  pub cloud_token_set : Bool
  pub cloud_tls_verify : Bool
  pub mqtt_server : Bytes
  pub mqtt_port : ℤ
  pub mqtt_topic : Bytes
  pub hass_enable : Bool
  pub hass_base_topic : Bytes
  pub charge_active : ℤ
  pub discharge_active : ℤ
  pub evcc_enable : Bool
  pub evcc_battery_mode_timeout : ℤ
  pub web_auth : Bool
  pub language : Bytes
  pub debug : Bool

abbrev pub device_view : LocalDevice → DeviceView
device_view d = record { sn = d.sn; host = d.host }

-- Config
unfoldable pub config_view : Config → ConfigView
config_view c = record {
  connection = c.connection;
  refresh = c.refresh;
  local_devices = map device_view c.local_devices;
  cloud_token_set = cloud_configured c;
  cloud_tls_verify = c.cloud_tls_verify;
  mqtt_server = c.mqtt_server;
  mqtt_port = c.mqtt_port;
  mqtt_topic = c.mqtt_topic;
  hass_enable = c.hass_enable;
  hass_base_topic = c.hass_base_topic;
  charge_active = charge_active_w c;
  discharge_active = discharge_active_w c;
  evcc_enable = c.evcc_enable;
  evcc_battery_mode_timeout = c.evcc_battery_mode_timeout;
  web_auth = not (beq c.web_user []) || not (beq c.web_password []);
  language = c.language;
  debug = c.debug;
}

pub record Choice : Type 0 where
  pub value : Bytes
  pub label : Bytes

pub record ItemInfo (F : Type 0) : Type 0 where
  pub key : Bytes
  pub group : Bytes
  pub name : Bytes
  pub unit : Bytes
  pub component : Bytes
  pub min : Option F
  pub max : Option F
  pub step : Option F
  pub options : List Choice
  pub confirm : Bool

abbrev pub or_empty : Option Bytes → Bytes
or_empty none = []
or_empty (some s) = s

abbrev pub in_language : Bytes → Bytes → Bytes → Bytes
in_language lang english german = if beq lang (str "de") then german else english

unfoldable pub mode_label : Bytes → Mode → Bytes
mode_label lang normal = str "Normal"
mode_label lang hold = in_language lang (str "Hold (no discharge)") (str "Halten (nicht entladen)")
mode_label lang charge = in_language lang (str "Charge from grid") (str "Aus dem Netz laden")

unfoldable pub mode_choice : Bytes → Mode → Choice
unfolding mode_label
mode_choice lang m = record { value = mode_string m; label = mode_label lang m }

-- batteryModeOptions
unfoldable pub battery_mode_options : Bytes → List Choice
unfolding mode_choice
battery_mode_options lang = map (mode_choice lang) (normal ∷ hold ∷ charge ∷ [])

module _ {F : Type 0} where
  unfoldable pub entry_options : Bytes → Entry F → List Bytes → List Choice
  entry_options lang e [] = []
  entry_options lang e (c ∷ cs) =
      record { value = or_empty (token e c); label = or_empty (label e c lang) }
      ∷ entry_options lang e cs

  unfoldable pub entry_item : Bytes → Entry F → ItemInfo F
  unfolding entry_options
  entry_item lang e = record {
    key = topic_leaf e;
    group = e.group;
    name = friendly_name e lang;
    unit = e.unit;
    component = e.platform;
    min = e.min;
    max = e.max;
    step = e.step;
    options = entry_options lang e (codes e);
    confirm = e.confirm;
  }

  unfoldable pub entry_items : Bytes → List (Entry F) → List (ItemInfo F)
  unfolding entry_item
  entry_items lang [] = []
  entry_items lang (e ∷ es) =
      let rest = entry_items lang es in if e.writable then entry_item lang e ∷ rest else rest

  unfoldable pub switch_items : Bytes → List (Switch F) → List (ItemInfo F)
  switch_items lang [] = []
  switch_items lang (s ∷ ss) =
      record {
        key = s.topic;
        group = str "config";
        name = switch_name s lang;
        unit = [];
        component = str "switch";
        min = none;
        max = none;
        step = none;
        options = [];
        confirm = true;
      }
      ∷ switch_items lang ss

  unfoldable pub mode_item : Bytes → ItemInfo F
  mode_item lang = record {
    key = group ++ b'/' ∷ item_string battery_mode;
    group = group;
    name = item_name battery_mode lang;
    unit = [];
    component = str "select";
    min = none;
    max = none;
    step = none;
    options = battery_mode_options lang;
    confirm = false;
  }

  -- Items
  unfoldable pub items : Bytes → Catalog F → List (Switch F) → Bool → List (ItemInfo F)
  unfolding entry_items switch_items mode_item
  items lang cat switches evcc =
      entry_items lang cat.entries
      ++ (switch_items lang switches ++ (if evcc then mode_item lang ∷ [] else []))
