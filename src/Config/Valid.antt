-- ===== src/Config/Valid.antt =====
-- What a configuration without issues is: internal/config/validate.go and defaults.go.
use go_zendure2mqtt.Common.{
  ℕ, ◌+◌, Bytes, str, beq, beq_iff, contains_byte, atoi, Option, none, some, Bool, true, false, not,
  List, [], ◌∷◌, ◌||◌, ◌&&◌, ◌≡◌, ◌≢◌, ◌↔◌, ◌⊎◌, refl, arith, All, ℤ, pos, ◌≤ℤ◌,
}
use go_zendure2mqtt.Config.Settings.{
  Config, LocalDevice, connection_local, connection_cloud, apply_defaults,
}
use go_zendure2mqtt.Config.Validate.{
  Issue, outside, issue_if, device_issues, set_outside, set_negative, one_empty, later_issues,
  valid_host_port, validate,
}

abbrev pub IsComplete : LocalDevice → Type 0
IsComplete d = (d.sn ≢ []) × (d.host ≢ [])

abbrev pub IsBetween : ℤ → ℤ → ℤ → Type 0
IsBetween lo hi v = (lo ≤ℤ v) × (v ≤ℤ hi)

-- The values with which the daemon starts.
pub record IsValid (topic_ok : Bytes → Bool) (c : Config) : Type 0 where
  pub connection : (c.connection ≡ connection_local) ⊎ (c.connection ≡ connection_cloud)
  pub refresh : IsBetween (pos 5) (pos 86400) c.refresh
  pub devices : All IsComplete c.local_devices
  pub charge : (v : ℤ) → c.charge_active_value ≡ some v → IsBetween (pos 1) (pos 2400) v
  pub discharge : (v : ℤ) → c.discharge_active_value ≡ some v → IsBetween (pos 1) (pos 2400) v
  pub timeout : IsBetween (pos 0) (pos 86400) c.evcc_battery_mode_timeout
  pub server : c.mqtt_server ≢ []
  pub port : IsBetween (pos 1) (pos 65535) c.mqtt_port
  pub ca : (c.mqtt_tls_ca ≡ []) ⊎ (c.mqtt_tls_insecure ≡ false)
  pub topic : (c.mqtt_topic ≢ []) × (topic_ok c.mqtt_topic ≡ true)
  pub stats : (v : ℤ) → c.mqtt_stats_interval ≡ some v → pos 0 ≤ℤ v
  pub web : c.web_enable ≡ true → valid_host_port c.web_bind ≡ true
  pub user : c.web_enable ≡ true → (c.web_user ≡ []) ↔ (c.web_password ≡ [])
  pub language : (c.language ≡ str "en") ⊎ (c.language ≡ str "de")

device_issues_nil :
    (i : ℕ) (ds : List LocalDevice) (is : List Issue)
    → device_issues i ds is ≡ []
    → All IsComplete ds × (is ≡ [])
unfolding device_issues
device_issues_nil i [] is h = (tt, h)
device_issues_nil i (d ∷ ds) is h =
    let ih = device_issues_nil (i + 1) ds is (ground arith) in
    (((ground (arith, beq_iff d.sn []), ground (arith, beq_iff d.host [])), ih.0), ih.1)

issue_if_nil :
    (b : Bool) (i : Issue) (is : List Issue) → issue_if b i is ≡ [] → (b ≡ false) × (is ≡ [])
issue_if_nil true i is h = cc
issue_if_nil false i is h = (refl, h)

IsBetween-outside : (v lo hi : ℤ) → outside v lo hi ≡ false → IsBetween lo hi v
IsBetween-outside v lo hi h = (ground arith, ground arith)

-- the numbers and names checked behind the devices
module _ (topic_ok : Bytes → Bool) (c : Config) where
  abbrev LaterValid : Type 0
  LaterValid =
      (set_outside c.charge_active_value (pos 1) (pos 2400) ≡ false)
      × (set_outside c.discharge_active_value (pos 1) (pos 2400) ≡ false)
      × (outside c.evcc_battery_mode_timeout (pos 0) (pos 86400) ≡ false)
      × (beq c.mqtt_server [] ≡ false)
      × (outside c.mqtt_port (pos 1) (pos 65535) ≡ false)
      × ((not (beq c.mqtt_tls_ca []) && c.mqtt_tls_insecure) ≡ false)
      × ((beq c.mqtt_topic [] || not (topic_ok c.mqtt_topic)) ≡ false)
      × (set_negative c.mqtt_stats_interval ≡ false)
      × ((c.web_enable && not (valid_host_port c.web_bind)) ≡ false)
      × ((c.web_enable && one_empty c.web_user c.web_password) ≡ false)
      × (not (beq c.language (str "en") || beq c.language (str "de")) ≡ false)

  later_issues_nil : later_issues topic_ok c ≡ [] → LaterValid
  unfolding later_issues
  later_issues_nil h =
      let (a1, h1) = issue_if_nil _ _ _ h in
      let (a2, h2) = issue_if_nil _ _ _ h1 in
      let (a3, h3) = issue_if_nil _ _ _ h2 in
      let (a4, h4) = issue_if_nil _ _ _ h3 in
      let (a5, h5) = issue_if_nil _ _ _ h4 in
      let (a6, h6) = issue_if_nil _ _ _ h5 in
      let (a7, h7) = issue_if_nil _ _ _ h6 in
      let (a8, h8) = issue_if_nil _ _ _ h7 in
      let (a9, h9) = issue_if_nil _ _ _ h8 in
      let (a10, h10) = issue_if_nil _ _ _ h9 in
      let (a11, h11) = issue_if_nil _ _ _ h10 in (a1, a2, a3, a4, a5, a6, a7, a8, a9, a10, a11)

set_outside-some :
    (o : Option ℤ) (lo hi v : ℤ) → set_outside o lo hi ≡ false → o ≡ some v → IsBetween lo hi v
set_outside-some none lo hi v h e = cc
set_outside-some (some w) lo hi v h e = IsBetween-outside v lo hi (ground arith)

set_negative-some : (o : Option ℤ) (v : ℤ) → set_negative o ≡ false → o ≡ some v → pos 0 ≤ℤ v
set_negative-some none v h e = cc
set_negative-some (some w) v h e = ground arith

-- A configuration with no issue has a known transport and language, complete devices, every number
-- within its bounds, a server and a topic that MQTT takes, a web address and both or neither of the
-- web credentials where the web is on, and no CA that is never consulted.
pub validate-IsValid :
    (topic_ok : Bytes → Bool) (c : Config) → validate topic_ok c ≡ [] → IsValid topic_ok c
unfolding validate
validate-IsValid topic_ok c h =
    let (known, h1) = issue_if_nil _ _ _ h in
    let (polled, h2) = issue_if_nil _ _ _ h1 in
    let (devices, h3) = device_issues_nil 0 c.local_devices (later_issues topic_ok c) h2 in
    let (ch, dis, time, srv, prt, ca, top, st, web, user, lang) = later_issues_nil topic_ok c h3 in
    record {
      connection =
          ground
            (arith, beq_iff c.connection connection_local, beq_iff c.connection connection_cloud);
      refresh = IsBetween-outside c.refresh (pos 5) (pos 86400) polled;
      devices = devices;
      charge = λ v e. set_outside-some c.charge_active_value (pos 1) (pos 2400) v ch e;
      discharge = λ v e. set_outside-some c.discharge_active_value (pos 1) (pos 2400) v dis e;
      timeout = IsBetween-outside c.evcc_battery_mode_timeout (pos 0) (pos 86400) time;
      server = ground (arith, beq_iff c.mqtt_server []);
      port = IsBetween-outside c.mqtt_port (pos 1) (pos 65535) prt;
      ca = ground (arith, beq_iff c.mqtt_tls_ca []);
      topic = (ground (arith, beq_iff c.mqtt_topic []), ground arith);
      stats = λ v e. set_negative-some c.mqtt_stats_interval v st e;
      web = λ e. ground arith;
      user = λ e. ground (arith, beq_iff c.web_user [], beq_iff c.web_password []);
      language = ground (arith, beq_iff c.language (str "en"), beq_iff c.language (str "de"));
    }

-- A configuration in which nothing is set.
abbrev pub unset : Config
unset = record {
  connection = [];
  refresh = pos 0;
  local_devices = [];
  cloud_app_token = [];
  cloud_tls_verify = false;
  mqtt_server = [];
  mqtt_port = pos 0;
  mqtt_login = [];
  mqtt_password = [];
  mqtt_tls = false;
  mqtt_tls_insecure = false;
  mqtt_tls_ca = [];
  mqtt_topic = [];
  mqtt_maintenance = none;
  mqtt_stats_interval = none;
  identity_root = [];
  hass_enable = false;
  hass_base_topic = [];
  charge_active_value = none;
  discharge_active_value = none;
  evcc_enable = false;
  evcc_battery_mode_timeout = pos 0;
  web_enable = false;
  web_bind = [];
  web_user = [];
  web_password = [];
  language = [];
  debug = false;
}

default_bind : valid_host_port (str "127.0.0.1:8080") ≡ true
unfolding valid_host_port contains_byte atoi
default_bind = refl

-- With the defaults, a configuration that names a server and may switch on TLS, Home Assistant, evcc
-- or the web has no issue, if MQTT takes the default topic.
pub validate-apply_defaults :
    (topic_ok : Bytes → Bool) (server : Bytes) (tls hass evcc web : Bool)
    → server ≢ []
    → topic_ok (str "zendure") ≡ true
    → validate topic_ok (
        apply_defaults (record unset {
          mqtt_server = server;
          mqtt_tls = tls;
          hass_enable = hass;
          evcc_enable = evcc;
          web_enable = web;
        }))
      ≡ []
unfolding validate apply_defaults beq device_issues later_issues
validate-apply_defaults topic_ok server tls hass evcc web h t =
    ground (arith, t, beq_iff server [], default_bind)
