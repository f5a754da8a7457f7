-- ===== src/Coordinator/System/Samples.antt =====
-- A running coordinator with one unit that reports its limit.
use go_zendure2mqtt.Common.{str, float, none, some, true, false, List, [], ◌∷◌, ◌++◌, ℤ, pos}
use go_zendure2mqtt.Common.Samples.{int_floats}
use go_zendure2mqtt.Catalog.Entry.{Entry}
use go_zendure2mqtt.Catalog.Load.{new_catalog}
use go_zendure2mqtt.Hass.Publish.{no_bundle, rendered}
use go_zendure2mqtt.Process.Points.{Report}
use go_zendure2mqtt.State.Store.{SourceDevice}
use go_zendure2mqtt.Coordinator.System.{evcc_set, Daemon, Fixed, Env, Event, reading, run, start}
use go_zendure2mqtt.Coordinator.Battery.{Plane}
use go_zendure2mqtt.Coordinator.System.Kept.{units_in}

abbrev pub limit : Entry ℤ
limit = record {
  property = str "outputLimit";
  topic = [];
  group = str "config";
  platform = str "number";
  device_class = [];
  unit = str "W";
  scale = pos 0;
  offset = pos 0;
  writable = true;
  confirm = false;
  min = none;
  max = none;
  step = none;
  value_map = [];
  value_map_de = [];
  name = str "Limit";
  name_de = [];
}

abbrev pub fixed : Fixed ℤ
fixed = record {
  setup = record {
    catalog = new_catalog (limit ∷ []);
    switches = [];
    language = str "de";
    print = λ v. [];
    status = λ ls. str "s";
    plane = record { evict_fails = λ t. false; publish_status = λ t v. some true };
    render = λ dev report ps pack. no_bundle;
    topic_of = λ b. b.node_id;
    answer = λ b. none;
  };
  charge_w = pos 1000;
  name = str "zendure";
  identity = str "zendure";
  is_function = λ s. false;
  parse = λ s. some (record { text = s; structured = false; as_bool = none; as_enum = λ h. none });
  say = λ e. [];
}

-- with a document for the device
abbrev pub publishing : Fixed ℤ
publishing = record fixed {
  setup = record fixed.setup {
    render = λ dev report ps pack. rendered (record { node_id = str "A"; components = [] });
  };
}

abbrev pub env : Env ℤ
env = record { now = 5; plane = fixed.setup.plane; documents = λ b. none; writes = λ props. none }

abbrev pub device : SourceDevice
device = record { sn = str "A"; model = str "Hub" }

abbrev pub reported_limit : Report ℤ
reported_limit = record {
  sn = str "A";
  product = [];
  properties = (str "outputLimit", float (pos 300)) ∷ [];
  pack_data = [];
}

abbrev pub events : List (Env ℤ × Event ℤ)
events = (env, reading device reported_limit) ∷ []

abbrev pub after : Daemon ℤ
after = run fixed events (start fixed [] true false true)

-- evcc holds the unit
abbrev pub held : List (Env ℤ × Event ℤ)
held =
    events
    ++ (
      env,
      evcc_set (str "A" ∷ str "battery" ∷ str "batterymode" ∷ []) [] []
          (record { text = str "hold"; structured = false; as_bool = none; as_enum = λ h. none }),
    )
      ∷ []

abbrev pub units : Plane ℤ
units = units_in (run fixed held (start fixed [] true false true)).world.evcc
