-- ===== src/Config/Settings.antt =====
-- internal/config/config.go and defaults.go. A pointer is an option; `identity_root` is empty before
-- the defaults.
use go_zendure2mqtt.Common.{
  Bytes, str, beq, Option, none, some, Bool, true, not, List, [], ◌∷◌, ◌++◌, ℤ, pos, eqb_ℤ,
  if◌then◌else◌,
}
use go_zendure2mqtt.Catalog.Entry.{nonempty_or}

pub record LocalDevice : Type 0 where
  pub sn : Bytes
  pub host : Bytes
  pub device_name : Bytes
  pub model : Bytes

pub record Config : Type 0 where
  pub connection : Bytes
  pub refresh : ℤ
  pub local_devices : List LocalDevice
  pub cloud_app_token : Bytes
  pub cloud_tls_verify : Bool
  pub mqtt_server : Bytes
  pub mqtt_port : ℤ
  pub mqtt_login : Bytes
  pub mqtt_password : Bytes
  pub mqtt_tls : Bool
  pub mqtt_tls_insecure : Bool
  pub mqtt_tls_ca : Bytes
  pub mqtt_topic : Bytes
  pub mqtt_maintenance : Option Bool
  pub mqtt_stats_interval : Option ℤ
  pub identity_root : Bytes
  pub hass_enable : Bool
  pub hass_base_topic : Bytes
  pub charge_active_value : Option ℤ
  pub discharge_active_value : Option ℤ
  pub evcc_enable : Bool
  pub evcc_battery_mode_timeout : ℤ
  pub web_enable : Bool
  pub web_bind : Bytes
  pub web_user : Bytes
  pub web_password : Bytes
  pub language : Bytes
  pub debug : Bool

abbrev pub topic_root : Bytes
topic_root = str "zendure"

abbrev pub legacy_topic_root : Bytes
legacy_topic_root = str "zendure2mqtt"

abbrev pub connection_local : Bytes
connection_local = str "local"

abbrev pub connection_cloud : Bytes
connection_cloud = str "cloud"

-- n, or m where n is 0
abbrev pub nonzero_or : ℤ → ℤ → ℤ
nonzero_or n m = if eqb_ℤ n (pos 0) then m else n

-- the value of a pointer, or a default for nil
abbrev pub value_or {ℓ} : {A : Type ℓ} → Option A → A → A
value_or none a = a
value_or (some b) a = b

unfoldable pub apply_defaults : Config → Config
apply_defaults c = record c {
  connection = nonempty_or c.connection connection_local;
  refresh = nonzero_or c.refresh (pos 15);
  mqtt_port = nonzero_or c.mqtt_port (if c.mqtt_tls then pos 8883 else pos 1883);
  identity_root = nonempty_or c.mqtt_topic legacy_topic_root;
  mqtt_topic = nonempty_or c.mqtt_topic topic_root;
  mqtt_maintenance = some (value_or c.mqtt_maintenance true);
  mqtt_stats_interval = some (value_or c.mqtt_stats_interval (pos 60));
  hass_base_topic = nonempty_or c.hass_base_topic (str "homeassistant");
  charge_active_value = some (value_or c.charge_active_value (pos 1200));
  discharge_active_value = some (value_or c.discharge_active_value (pos 1200));
  web_bind = nonempty_or c.web_bind (str "127.0.0.1:8080");
  language = nonempty_or c.language (str "en");
}

-- IdentityRoot
unfoldable pub identity_root_of : Config → Bytes
identity_root_of c = nonempty_or c.identity_root c.mqtt_topic

-- Warnings, by what they are about
pub data Warning : Type 0 where
  insecure_unused ca_unused unverified : Warning

unfoldable pub warnings : Config → List Warning
warnings c =
    if not c.mqtt_tls
    then (if c.mqtt_tls_insecure then Warning.insecure_unused ∷ [] else [])
      ++ (if not (beq c.mqtt_tls_ca []) then Warning.ca_unused ∷ [] else [])
    else if c.mqtt_tls_insecure
    then Warning.unverified ∷ []
    else []

-- MaintenanceEnabled
unfoldable pub maintenance_enabled : Config → Bool
maintenance_enabled c = value_or c.mqtt_maintenance true

-- StatsIntervalSeconds
unfoldable pub stats_interval_seconds : Config → ℤ
stats_interval_seconds c = value_or c.mqtt_stats_interval (pos 60)

-- IsCloud
unfoldable pub is_cloud : Config → Bool
is_cloud c = beq c.connection connection_cloud

-- CloudConfigured
unfoldable pub cloud_configured : Config → Bool
cloud_configured c = not (beq c.cloud_app_token [])

-- ChargeActiveW
unfoldable pub charge_active_w : Config → ℤ
charge_active_w c = value_or c.charge_active_value (pos 1200)

-- DischargeActiveW
unfoldable pub discharge_active_w : Config → ℤ
discharge_active_w c = value_or c.discharge_active_value (pos 1200)
