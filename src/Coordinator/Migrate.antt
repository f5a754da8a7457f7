-- ===== src/Coordinator/Migrate.antt =====
-- internal/coordinator/migrate.go: the retained topics of the old layout. The transport is outside:
-- `is_function` is topic.IsFunction of go-hamqtt, the deliveries are those of the window, and the
-- answers of the transport are options, `none` for success.
pub mod Layout
pub mod Swept
use go_zendure2mqtt.Common.{
  Bytes, str, beq, has_key, cut_prefix, split_levels, contains_byte, Option, none, some, Bool, true,
  false, not, List, [], ◌∷◌, ◌++◌, ◌||◌, ◌&&◌, if◌then◌else◌,
}

unfoldable pub is_old_suffix : Bytes → Bool
is_old_suffix s = beq s (str "state") || beq s (str "set")

-- the switch on the levels behind the serial
unfoldable pub old_levels : List Bytes → Bool
unfolding is_old_suffix
old_levels (a ∷ b ∷ c ∷ []) = is_old_suffix c
old_levels (a ∷ b ∷ c ∷ d ∷ []) = beq a (str "battery") && is_old_suffix d
old_levels _ = false

abbrev pub device_prefix : Bytes → Bytes → Bytes
device_prefix root sn = root ++ b'/' ∷ (sn ++ b'/' ∷ [])

unfoldable pub old_layout_topic : (Bytes → Bool) → Bytes → Bytes → Bytes → Bool
unfolding old_levels
old_layout_topic is_function root sn t =
    if is_function sn then false else elim (cut_prefix t (device_prefix root sn)) [
      | none ↦ false
      | some rest ↦
          let levels = split_levels b'/' rest in
          if has_key [] levels then false else old_levels levels
    ]

abbrev pub old_bridge_status : Bytes → Bytes
old_bridge_status root = root ++ str "/bridge/status"

pub record Delivery : Type 0 where
  pub topic : Bytes
  pub payload : Bytes
  pub retained : Bool

-- collect, for a delivery inside the window; `seen` holds the same topics as `found`
unfoldable pub collect : (Bytes → Bool) → Delivery → List Bytes → List Bytes
collect owned d found =
    if not d.retained || (beq d.payload [] || (not (owned d.topic) || has_key d.topic found))
    then found
    else found ++ d.topic ∷ []

unfoldable pub collect_all : (Bytes → Bool) → List Delivery → List Bytes → List Bytes
unfolding collect
collect_all owned [] found = found
collect_all owned (d ∷ ds) found = collect_all owned ds (collect owned d found)

-- clear each topic until a publish fails: the topics cleared and the error
unfoldable pub clear_each : (Bytes → Option Bytes) → List Bytes → List Bytes × Option Bytes
clear_each answer [] = ([], none)
clear_each answer (t ∷ ts) =
    let rest = clear_each answer ts in
    elim (answer t) [ some e ↦ ([], some e) | none ↦ (t ∷ rest.0, rest.1) ]

-- sweepRetained: `subscribed` is the answer to Subscribe, `cancelled` the context's error behind the
-- window. A failed Unsubscribe is only logged.
unfoldable pub sweep_retained :
    Option Bytes
    → Option Bytes
    → (Bytes → Option Bytes)
    → List Delivery
    → (Bytes → Bool)
    → List Bytes × Option Bytes
unfolding collect_all clear_each
sweep_retained subscribed cancelled answer deliveries owned = elim subscribed [
  | some e ↦ ([], some e)
  | none ↦ elim cancelled [
    | some e ↦ ([], some e)
    | none ↦ clear_each answer (collect_all owned deliveries [])
  ]
]

-- sweepDevice and migrateBridge
unfoldable pub sweep_device :
    (Bytes → Bool)
    → Bytes
    → Bytes
    → Option Bytes
    → Option Bytes
    → (Bytes → Option Bytes)
    → List Delivery
    → List Bytes × Option Bytes
unfolding sweep_retained old_layout_topic
sweep_device is_function root sn subscribed cancelled answer deliveries =
    sweep_retained subscribed cancelled answer deliveries (old_layout_topic is_function root sn)

unfoldable pub migrate_bridge :
    Bytes
    → Option Bytes
    → Option Bytes
    → (Bytes → Option Bytes)
    → List Delivery
    → List Bytes × Option Bytes
unfolding sweep_retained
migrate_bridge root subscribed cancelled answer deliveries =
    sweep_retained subscribed cancelled answer deliveries (λ t. beq t (old_bridge_status root))

-- the serials that migrateDevice sweeps
unfoldable pub may_sweep : (Bytes → Bool) → Bytes → Bool
may_sweep is_function sn = not (
    beq sn []
    || (is_function sn
        || (contains_byte b'/' sn || (contains_byte b'+' sn || contains_byte b'#' sn))))
