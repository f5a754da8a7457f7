-- ===== src/Startup.antt =====
-- cmd/zendure2mqtt/main.go: which configuration is read, which backend is built, the output broker's
-- settings and the transport that is wired later. The durations and the broker's address are methods of
-- internal/config/config.go.
pub mod Lifecycle
mod Tests
use go_zendure2mqtt.Common.{
  ℕ, Bytes, str, beq, itoa, contains_byte, Option, none, some, Bool, true, false, not, List, [],
  ◌∷◌, ◌++◌, ℤ, pos, pos_part, if◌then◌else◌,
}
use go_zendure2mqtt.Config.Settings.{Config, is_cloud, cloud_configured}
use go_zendure2mqtt.Local.Poll.{LocalUnit, new_units, poll_interval}

-- net.JoinHostPort
unfoldable pub join_host_port : Bytes → Bytes → Bytes
join_host_port host port =
    if contains_byte b':' host then b'[' ∷ (host ++ (str "]:" ++ port)) else host ++ b':' ∷ port

-- MQTTBrokerURL
unfoldable pub mqtt_broker_url : Config → Bytes
unfolding join_host_port
mqtt_broker_url c =
    (if c.mqtt_tls then str "tls" else str "tcp")
    ++ (str "://" ++ join_host_port c.mqtt_server (itoa c.mqtt_port))

-- RefreshDuration, in seconds
abbrev pub refresh_seconds : Config → ℤ
refresh_seconds c = c.refresh

-- what buildBackend gives: the cloud with its token and whether it is missing, or the local devices
pub data Built : Type 0 where
  built_cloud : Bytes → Bool → Bool → Built
  built_local : List LocalUnit → ℕ → Built

unfoldable pub build_backend : Config → Built
build_backend c =
    if is_cloud c
    then built_cloud c.cloud_app_token c.cloud_tls_verify (not (cloud_configured c))
    else built_local (new_units c.local_devices) (poll_interval (pos_part (refresh_seconds c)))

-- outputBrokerConfig: `tls_answer` is what go-mqtt makes of the TLS settings, `none` for its error
pub record BrokerConfig (T : Type 0) : Type 0 where
  pub broker_url : Bytes
  pub client_id : Bytes
  pub username : Bytes
  pub password : Bytes
  pub tls : Option T

unfoldable pub output_broker_config :
    {T : Type 0} → (Bytes → Bytes → Bool → Option T) → Config → Option (BrokerConfig T)
unfolding mqtt_broker_url
output_broker_config {T = T} tls_answer c =
    let plain : BrokerConfig T = record {
      broker_url = mqtt_broker_url c;
      client_id = str "zendure2mqtt";
      username = c.mqtt_login;
      password = c.mqtt_password;
      tls = none;
    } in
    if not c.mqtt_tls
    then some plain
    else elim (tls_answer c.mqtt_server c.mqtt_tls_ca c.mqtt_tls_insecure) [
      | none ↦ none
      | some t ↦ some (record plain { tls = some t })
    ]

-- loadConfig: the file to read, `none` for the environment alone
unfoldable pub config_path : Bytes → Option Bytes → Option Bytes
config_path given located =
    let chosen = if beq given [] then (elim located [ none ↦ [] | some p ↦ p ]) else given in
    if beq chosen [] then none else some chosen

-- deferredTransport: what a call answers, `none` for errTransportNotWired
unfoldable pub deferred_call : {T A : Type 0} → (T → A) → Option T → Option A
deferred_call call none = none
deferred_call call (some t) = some (call t)
