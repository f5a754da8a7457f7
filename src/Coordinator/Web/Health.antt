-- ===== src/Coordinator/Web/Health.antt =====
-- Health of internal/coordinator/web.go, without the up time. `version` is the build's, and
-- `mqtt_connected` what the output broker's client answers.
use go_zendure2mqtt.Common.{ℕ, Bytes, str, Option, none, some, Bool, true, false, List, [], length}
use go_zendure2mqtt.Config.Settings.{Config}
use go_zendure2mqtt.State.Store.{Store, Problem, problems_of, snapshot_of, upstream_of}
use go_zendure2mqtt.Coordinator.Web.{Status, starting, ok, degraded, health_status}

pub record Health : Type 0 where
  pub status : Status
  pub version : Bytes
  pub connection : Bytes
  pub upstream : Option Bool
  pub mqtt_server : Bytes
  pub mqtt_topic : Bytes
  pub mqtt_connected : Bool
  pub hass_enabled : Bool
  pub evcc_enabled : Bool
  pub language : Bytes
  pub started_at : ℕ
  pub devices : ℕ
  pub problems : List Problem

abbrev pub status_text : Status → Bytes
status_text starting = str "starting"
status_text ok = str "ok"
status_text degraded = str "degraded"

-- the upstream where it is known
abbrev pub known_upstream : Bool × Bool → Option Bool
known_upstream (usable, true) = some usable
known_upstream (usable, false) = none

-- Health; the store has its start, 0 where there is none
unfoldable pub health : {F : Type 0} → Bytes → Config → Bool → Option (ℕ × Store F) → Health
unfolding health_status upstream_of problems_of snapshot_of
health version c mqtt_connected stored =
    let bare : Health = record {
      status = starting;
      version = version;
      connection = c.connection;
      upstream = none;
      mqtt_server = c.mqtt_server;
      mqtt_topic = c.mqtt_topic;
      mqtt_connected = mqtt_connected;
      hass_enabled = c.hass_enable;
      evcc_enabled = c.evcc_enable;
      language = c.language;
      started_at = 0;
      devices = 0;
      problems = [];
    } in
    elim stored [
      | none ↦ bare
      | some (started, s) ↦ record bare {
        status = health_status mqtt_connected (some s);
        started_at = started;
        problems = problems_of s;
        upstream = known_upstream (upstream_of s);
        devices = length (snapshot_of s);
      }
    ]
