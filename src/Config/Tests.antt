-- ===== src/Config/Tests.antt =====
-- A configuration that names a server only.
use go_zendure2mqtt.Common.{
  str, beq, lookup, trim_space, atoi, true, false, none, some, [], ◌∷◌, ◌≡◌, ◌≢◌, refl, ℤ, pos, Map,
  Value, text, int,
}
use go_zendure2mqtt.Common.Samples.{int_floats}
use go_zendure2mqtt.Config.Load.{
  coerce_env_value, field_kinds, empty_file, load_config, load_map, checked, locate,
}
use go_zendure2mqtt.Config.Overrides.{load_config-IsValid}
use go_zendure2mqtt.Config.Settings.{Config, apply_defaults}
use go_zendure2mqtt.Config.Valid.{IsValid, unset, validate-apply_defaults}

named : str "broker" ≢ []
named h = cc

abbrev file : Map (Value ℤ)
file = (str "MQTT_PASSWORD", text (str "old")) ∷ []

coerce_port :
    coerce_env_value {F = ℤ} (str " 1883 ") (lookup (str "MQTT_PORT") field_kinds) ≡ int (pos 1883)
unfolding coerce_env_value lookup beq trim_space atoi
coerce_port = refl

locate_second :
    locate (λ es. str "x") (λ p. true) false none (some (str "/root")) (λ v. none) ≡ some (str "x")
unfolding locate
locate_second = refl

abbrev server_only : Config
server_only = record unset {
  mqtt_server = str "broker";
  mqtt_tls = true;
  hass_enable = true;
  evcc_enable = false;
  web_enable = true;
}

load_config-IsValid_example : IsValid (λ t. true) (apply_defaults server_only)
unfolding load_config load_map checked
load_config-IsValid_example =
    load_config-IsValid (λ t. true) (λ (raw : Map (Value ℤ)). some server_only) [] empty_file
      (apply_defaults server_only)
      (rw (validate-apply_defaults (λ t. true) (str "broker") true true false true named refl) refl)
