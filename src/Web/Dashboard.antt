-- ===== src/Web/Dashboard.antt =====
-- Snapshot, Items and Write of internal/web/web.go: the devices and the controls of the page, and what
-- a control writes.
use go_zendure2mqtt.Common.{
  ℕ, Bytes, str, beq, has_key, trim_space, Map, Value, FloatOps, Option, none, some, Bool, not,
  List, [], ◌∷◌, ◌++◌, ◌&&◌, map, if◌then◌else◌, ℤ,
}
use go_zendure2mqtt.Catalog.Load.{Catalog}
use go_zendure2mqtt.Virtual.{Switch}
use go_zendure2mqtt.Coordinator.Battery.{Effect}
use go_zendure2mqtt.Coordinator.Commands.{SetValue}
use go_zendure2mqtt.Coordinator.Commands.Routes.{World, Failure, write_item}
use go_zendure2mqtt.State.Store.{Device, StateEntry}
use go_zendure2mqtt.Coordinator.Web.{ItemInfo, Choice}
use go_zendure2mqtt.Web.Tiles.{first_non_empty, dot}

pub record UiEntry (F : Type 0) : Type 0 where
  pub group : Bytes
  pub sub : Bytes
  pub key : Bytes
  pub name : Bytes
  pub unit : Bytes
  pub value : Value F

pub record UiDevice (F : Type 0) : Type 0 where
  pub id : Bytes
  pub title : Bytes
  pub subtitle : Bytes
  pub online : Option Bool
  pub updated_at : ℕ
  pub entries : List (UiEntry F)

pub record UiItem (F : Type 0) : Type 0 where
  pub key : Bytes
  pub device : Bytes
  pub name : Bytes
  pub unit : Bytes
  pub component : Bytes
  pub min : Option F
  pub max : Option F
  pub step : Option F
  pub confirm : Bool
  pub options : List Choice

-- what Write of the page comes back with: ErrUnknownDevice, or the coordinator's failure
pub data WriteFailure : Type 0 where
  no_device : WriteFailure
  not_written : Failure → WriteFailure

module _ {F : Type 0} where
  unfoldable pub ui_entry : StateEntry F → UiEntry F
  ui_entry e = record {
    group = e.group;
    sub = e.pack_sn;
    key = e.topic;
    name = e.name;
    unit = e.unit;
    value = e.value;
  }

  unfoldable pub ui_device : Device F → UiDevice F
  unfolding ui_entry
  ui_device d = record {
    id = d.sn;
    title = trim_space (str "Zendure " ++ first_non_empty (d.product ∷ d.model ∷ []));
    subtitle =
        str "SN "
        ++ (d.sn
            ++ (if not (beq d.model []) && (not (beq d.product []) && not (beq d.model d.product))
                then dot ++ d.model
                else []));
    online = d.online;
    updated_at = d.updated_at;
    entries = map ui_entry d.entries;
  }

  -- adapter.Snapshot
  unfoldable pub ui_snapshot : List (Device F) → List (UiDevice F)
  unfolding ui_device
  ui_snapshot ds = map ui_device ds

  -- the topics that the unit itself reports, and none of its packs
  unfoldable pub unit_topics : List (StateEntry F) → List Bytes
  unit_topics [] = []
  unit_topics (e ∷ es) =
      let rest = unit_topics es in if beq e.pack_sn [] then e.topic ∷ rest else rest

  unfoldable pub ui_item : Bytes → ItemInfo F → UiItem F
  ui_item sn it = record {
    key = it.key;
    device = sn;
    name = it.name;
    unit = it.unit;
    component = it.component;
    min = it.min;
    max = it.max;
    step = it.step;
    confirm = it.confirm;
    options = it.options;
  }

  -- the controls of one device
  unfoldable pub controls : Bytes → List Bytes → List (ItemInfo F) → List (UiItem F)
  unfolding ui_item
  controls sn has [] = []
  controls sn has (it ∷ its) =
      let rest = controls sn has its in if has_key it.key has then ui_item sn it ∷ rest else rest

  -- adapter.Items
  unfoldable pub ui_items : List (ItemInfo F) → List (Device F) → List (UiItem F)
  unfolding controls unit_topics
  ui_items all [] = []
  ui_items all (d ∷ ds) = controls d.sn (unit_topics d.entries) all ++ ui_items all ds

abbrev pub write_failure_of : Option Failure → Option WriteFailure
write_failure_of none = none
write_failure_of (some e) = some (not_written e)

module _ {F : Type 0} ⦃fl : FloatOps F⦄ (known : Bytes → Bool) (cat : Catalog F)
    (switches : List (Switch F)) (charge_w : ℤ) (running : Bool)
    (answer : Map (Value F) → Option Bytes) (say : Failure → Bytes) (now : ℕ) where
  -- adapter.Write
  unfoldable pub ui_write :
      (Bytes → Option SetValue)
      → Bytes
      → Bytes
      → Bytes
      → World F
      → World F × List (Effect F) × Option WriteFailure
  ui_write parse device key value w =
      let (w', effects, error) =
        write_item known cat switches charge_w running answer say now parse device key value w in
      if beq device [] then (w, [], some no_device) else (w', effects, write_failure_of error)
