-- ===== src/Config/Load.antt =====
-- internal/config/load.go: the environment's overrides, the loading of a configuration and the places
-- where its file is looked for. The YAML library is outside: `decoded` is what it reads, and `typed`
-- its way from the merged map to a Config, `none` for an error. The file system and the environment
-- are arguments; a path is joined by `join_path`, filepath.Join.
use go_zendure2mqtt.Common.{
  Bytes, str, beq, lookup, insert, cut_prefix, trim_space, atoi, Map, Value, FloatOps, bool, int,
  float, text, Option, none, some, Bool, true, false, List, [], ◌∷◌, ◌++◌, ◌||◌, if◌then◌else◌, cut,
}
use go_zendure2mqtt.Config.Settings.{Config, apply_defaults}
use go_zendure2mqtt.Config.Validate.{Issue, validate}

-- reflect.FieldKind, as far as the fields of Config have it; `kind_other` is that of the list of devices
pub data FieldKind : Type 0 where
  kind_string kind_bool kind_int kind_float kind_other : FieldKind

-- configFieldKinds, by the fields' tags in their order
abbrev pub field_kinds : Map FieldKind
field_kinds =
    (str "CONNECTION", kind_string)
    ∷ (str "REFRESH", kind_int)
    ∷ (str "LOCAL_DEVICES", kind_other)
    ∷ (str "CLOUD_APP_TOKEN", kind_string)
    ∷ (str "CLOUD_TLS_VERIFY", kind_bool)
    ∷ (str "MQTT_SERVER", kind_string)
    ∷ (str "MQTT_PORT", kind_int)
    ∷ (str "MQTT_LOGIN", kind_string)
    ∷ (str "MQTT_PASSWORD", kind_string)
    ∷ (str "MQTT_TLS", kind_bool)
    ∷ (str "MQTT_TLS_INSECURE", kind_bool)
    ∷ (str "MQTT_TLS_CA", kind_string)
    ∷ (str "MQTT_TOPIC", kind_string)
    ∷ (str "MQTT_MAINTENANCE", kind_bool)
    ∷ (str "MQTT_STATS_INTERVAL", kind_int)
    ∷ (str "HASS_ENABLE", kind_bool)
    ∷ (str "HASS_BASE_TOPIC", kind_string)
    ∷ (str "CHARGE_ACTIVE_VALUE", kind_int)
    ∷ (str "DISCHARGE_ACTIVE_VALUE", kind_int)
    ∷ (str "EVCC_ENABLE", kind_bool)
    ∷ (str "EVCC_BATTERYMODE_TIMEOUT", kind_int)
    ∷ (str "WEB_ENABLE", kind_bool)
    ∷ (str "WEB_BIND", kind_string)
    ∷ (str "WEB_USER", kind_string)
    ∷ (str "WEB_PASSWORD", kind_string)
    ∷ (str "LANGUAGE", kind_string)
    ∷ (str "DEBUG", kind_bool)
    ∷ []

unfoldable pub one_of : Bytes → List Bytes → Bool
one_of s [] = false
one_of s (t ∷ ts) = beq s t || one_of s ts

-- strconv.ParseBool
unfoldable pub parse_bool : Bytes → Option Bool
unfolding one_of
parse_bool s =
    if one_of s (str "1" ∷ str "t" ∷ str "T" ∷ str "TRUE" ∷ str "true" ∷ str "True" ∷ [])
    then some true
    else if one_of s (str "0" ∷ str "f" ∷ str "F" ∷ str "FALSE" ∷ str "false" ∷ str "False" ∷ [])
    then some false
    else none

abbrev pub env_prefix : Bytes
env_prefix = str "ZENDURE_"

module _ {F : Type 0} ⦃fl : FloatOps F⦄ where
  -- coerceEnvValue; a key that no field has, has no kind
  unfoldable pub coerce_env_value : Bytes → Option FieldKind → Value F
  unfolding parse_bool
  coerce_env_value s (some kind_bool) = elim (parse_bool (trim_space s)) [
    | none ↦ text s
    | some b ↦ bool b
  ]
  coerce_env_value s (some kind_int) = elim (atoi (trim_space s)) [ none ↦ text s | some i ↦ int i ]
  coerce_env_value s (some kind_float) = elim (fl.parse_float (trim_space s)) [
    | none ↦ text s
    | some f ↦ float f
  ]
  coerce_env_value s _ = text s

  -- one variable: the key and the value that it sets
  unfoldable pub env_override : Bytes → Option (Bytes × Value F)
  unfolding coerce_env_value
  env_override kv = elim (cut b'=' kv) [
    | none ↦ none
    | some (name, val) ↦ elim (cut_prefix name env_prefix) [
      | none ↦ none
      | some key ↦
          if beq key [] then none else some (key, coerce_env_value val (lookup key field_kinds))
    ]
  ]

  -- applyEnvOverrides
  unfoldable pub apply_env_overrides : List Bytes → Map (Value F) → Map (Value F)
  unfolding env_override
  apply_env_overrides [] raw = raw
  apply_env_overrides (kv ∷ env) raw = elim (env_override kv) [
    | none ↦ apply_env_overrides env raw
    | some (key, v) ↦ apply_env_overrides env (insert key v raw)
  ]

-- What the decoder of YAML gives: an empty file, an error, or a map.
pub data FileContent (F : Type 0) : Type 0 where
  empty_file bad_yaml : FileContent F
  decoded : Map (Value F) → FileContent F

pub data ConfigResult : Type 0 where
  loaded : Config → ConfigResult
  not_parsed not_typed : ConfigResult
  not_valid : List Issue → ConfigResult

-- a configuration behind its checks
unfoldable pub checked : Config → List Issue → ConfigResult
checked c [] = loaded c
checked c (i ∷ issues) = not_valid (i ∷ issues)

module _ {F : Type 0} ⦃fl : FloatOps F⦄ (topic_ok : Bytes → Bool)
    (typed : Map (Value F) → Option Config) where
  -- the second half of Load
  unfoldable pub load_map : Map (Value F) → ConfigResult
  unfolding checked
  load_map raw = elim (typed raw) [
    | none ↦ not_typed
    | some c ↦ checked (apply_defaults c) (validate topic_ok (apply_defaults c))
  ]

  -- Load, over the environment
  unfoldable pub load_config : List Bytes → FileContent F → ConfigResult
  unfolding load_map apply_env_overrides
  load_config env bad_yaml = not_parsed
  load_config env empty_file = load_map (apply_env_overrides env [])
  load_config env (decoded raw) = load_map (apply_env_overrides env raw)

abbrev pub app_dir_name : Bytes
app_dir_name = str "zendure2mqtt"

-- the directory that a variable names, if it is set and not empty
abbrev pub named_dir : Option Bytes → List Bytes → List (List Bytes)
named_dir none rest = []
named_dir (some []) rest = []
named_dir (some (c ∷ s)) rest = ((c ∷ s) ∷ rest) ∷ []

abbrev pub dir_if : Option Bytes → List Bytes → List (List Bytes)
dir_if none rest = []
dir_if (some d) rest = (d ∷ rest) ∷ []

-- configCandidates, each as the elements to join
unfoldable pub config_candidates :
    Bool → Option Bytes → Option Bytes → (Bytes → Option Bytes) → Bytes → List (List Bytes)
config_candidates windows cwd home env name =
    dir_if cwd (name ∷ [])
    ++ (named_dir (env (if windows then str "APPDATA" else str "XDG_CONFIG_HOME"))
          (app_dir_name ∷ name ∷ [])
        ++ dir_if home (str ".config" ∷ app_dir_name ∷ name ∷ []))

unfoldable pub first_file : (List Bytes → Bytes) → (Bytes → Bool) → List (List Bytes) → Option Bytes
first_file join_path is_file [] = none
first_file join_path is_file (p ∷ ps) =
    let rest = first_file join_path is_file ps in
    if is_file (join_path p) then some (join_path p) else rest

-- Locate
unfoldable pub locate :
    (List Bytes → Bytes)
    → (Bytes → Bool)
    → Bool
    → Option Bytes
    → Option Bytes
    → (Bytes → Option Bytes)
    → Option Bytes
unfolding config_candidates first_file
locate join_path is_file windows cwd home env =
    first_file join_path is_file (config_candidates windows cwd home env (str "config.yaml"))
