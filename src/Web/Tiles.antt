-- ===== src/Web/Tiles.antt =====
-- The tiles of internal/web/web.go: Health, Config and what they are made of. The translations are an
-- argument, a map from the language to its labels.
use go_zendure2mqtt.Common.{
  ℕ, zero, suc, ◌-◌, Bytes, str, beq, has_prefix, lookup, itoa, Map, none, some, Bool, true, false,
  List, [], ◌∷◌, ◌++◌, ◌&&◌, ◌==◌, map, if◌then◌else◌, length, pos, ltb_ℤ,
}
use go_zendure2mqtt.State.Store.{Problem}
use go_zendure2mqtt.Coordinator.Web.{ConfigView}
use go_zendure2mqtt.Coordinator.Web.Health.{Health, status_text}

-- what a tile shows
pub data Shown : Type 0 where
  nothing : Shown
  number : ℕ → Shown
  words : Bytes → Shown

pub record Tile : Type 0 where
  pub label : Bytes
  pub text : Bytes
  pub value : Shown
  pub sub : Bytes
  pub tone : Bytes

abbrev pub plain : Bytes → Tile
plain l = record { label = l; text = []; value = nothing; sub = []; tone = [] }

-- adapter.t
unfoldable pub translate : Map (Map Bytes) → Bytes → Bytes → Bytes
translate tr lang key =
    let used : Bytes = if beq lang (str "de") then str "de" else str "en" in
    elim (lookup used tr) [
      | none ↦ key
      | some labels ↦ elim (lookup key labels) [ none ↦ key | some s ↦ s ]
    ]

-- connected: text and tone
unfoldable pub connected : Bool → Bytes × Bytes
connected up = if up then (str "val.connected", str "ok") else (str "val.disconnected", str "err")

unfoldable pub active : Bytes → Bool → Tile
active l on =
    if on
    then record (plain l) { text = str "val.active"; tone = str "ok" }
    else record (plain l) { text = str "val.off" }

unfoldable pub on_off : Bytes → Bool → Tile
on_off l on = record (plain l) { text = if on then str "val.on" else str "val.off" }

unfoldable pub first_non_empty : List Bytes → Bytes
first_non_empty [] = []
first_non_empty (s ∷ ss) = if beq s [] then first_non_empty ss else s

-- strings.ReplaceAll of a text that is not empty; `skip` bytes belong to the last match
unfoldable pub replace_from : Bytes → Bytes → ℕ → Bytes → Bytes
replace_from old new skip [] = []
replace_from old new (suc skip) (c ∷ s) = replace_from old new skip s
replace_from old new zero (c ∷ s) =
    let matched = replace_from old new (length old - 1) s in
    let kept = replace_from old new 0 s in
    if has_prefix (c ∷ s) old then new ++ matched else c ∷ kept

unfoldable pub replace_all : Bytes → Bytes → Bytes → Bytes
unfolding replace_from
replace_all s old new = replace_from old new 0 s

-- " · ", and the marks behind TLS
abbrev pub dot : Bytes
dot = 32 ∷ 0xc2 ∷ 0xb7 ∷ 32 ∷ []

abbrev pub tls_mark : Bool → Bytes
tls_mark true = str "TLS " ++ 0xe2 ∷ 0x9c ∷ 0x93 ∷ []
tls_mark false = str "TLS " ++ 0xe2 ∷ 0x9c ∷ 0x97 ∷ []

pub record UiProblem : Type 0 where
  pub at : ℕ
  pub device : Bytes
  pub event : Bytes
  pub detail : Bytes

unfoldable pub ui_problem : Problem → UiProblem
ui_problem p = record { at = p.at; device = p.sn; event = p.event; detail = p.detail }

pub record UiHealth : Type 0 where
  pub status : Bytes
  pub version : Bytes
  pub started_at : ℕ
  pub tiles : List Tile
  pub problems : List UiProblem

unfoldable pub upstream_tile : Health → Tile
unfolding connected
upstream_tile h =
    let tile = record (plain (str "health.upstream")) {
      text = str "val.unknown";
      sub = h.connection;
    } in
    elim h.upstream [
      | none ↦ tile
      | some up ↦ record tile { text = (connected up).0; tone = (connected up).1 }
    ]

-- adapter.Health
unfoldable pub ui_health : Health → UiHealth
unfolding upstream_tile connected active ui_problem
ui_health h = record {
  status = status_text h.status;
  version = h.version;
  started_at = h.started_at;
  tiles =
      upstream_tile h
      ∷ record (plain (str "health.mqtt")) {
        sub = h.mqtt_server;
        text = (connected h.mqtt_connected).0;
        tone = (connected h.mqtt_connected).1;
      }
      ∷ record (plain (str "health.topic")) { value = words h.mqtt_topic }
      ∷ active (str "health.hass") h.hass_enabled
      ∷ active (str "health.evcc") h.evcc_enabled
      ∷ record (plain (str "health.devices")) { value = number h.devices }
      ∷ [];
  problems = map ui_problem h.problems;
}

unfoldable pub connection_sub : (Bytes → Bytes) → ConfigView → Bytes
unfolding replace_all
connection_sub t c =
    if beq c.connection (str "cloud")
    then t (if c.cloud_token_set then str "cfg.tokenSet" else str "cfg.tokenMissing")
      ++ (dot ++ tls_mark c.cloud_tls_verify)
    else if length c.local_devices == 0
    then t (str "cfg.noDevices")
    else replace_all (t (str "cfg.devices")) (str "{n}") (itoa (pos (length c.local_devices)))

unfoldable pub evcc_tile : (Bytes → Bytes) → ConfigView → Tile
unfolding active replace_all
evcc_tile t c =
    let tile = record (active (str "cfg.evcc") c.evcc_enable) { tone = [] } in
    if c.evcc_enable && ltb_ℤ (pos 0) c.evcc_battery_mode_timeout
    then record tile {
      sub = replace_all (t (str "cfg.evccTimeout")) (str "{s}") (itoa c.evcc_battery_mode_timeout);
    }
    else tile

unfoldable pub auth_tile : Bool → Tile
auth_tile auth =
    if auth
    then record (plain (str "cfg.webAuth")) { text = str "val.on" }
    else record (plain (str "cfg.webAuth")) { text = str "val.off"; tone = str "warn" }

-- adapter.Config
unfoldable pub ui_config : (Bytes → Bytes) → ConfigView → List Tile
unfolding connection_sub evcc_tile auth_tile active on_off first_non_empty
ui_config t c =
    record (plain (str "cfg.connection")) { value = words c.connection; sub = connection_sub t c }
    ∷ record (plain (str "cfg.refresh")) { value = words (itoa c.refresh ++ str " s") }
    ∷ record (plain (str "cfg.mqtt")) {
      value = words (c.mqtt_server ++ b':' ∷ itoa c.mqtt_port);
      sub = c.mqtt_topic;
    }
    ∷ record (active (str "cfg.hass") c.hass_enable) { tone = []; sub = c.hass_base_topic }
    ∷ record (plain (str "cfg.chargeActive")) { value = words (itoa c.charge_active ++ str " W") }
    ∷ record (plain (str "cfg.dischargeActive")) {
      value = words (itoa c.discharge_active ++ str " W");
    }
    ∷ evcc_tile t c
    ∷ auth_tile c.web_auth
    ∷ record (plain (str "cfg.language")) {
      value = words (first_non_empty (c.language ∷ str "en" ∷ []));
    }
    ∷ on_off (str "cfg.debug") c.debug
    ∷ []
