-- ===== src/Coordinator/System.antt =====
-- The running coordinator as a whole, internal/coordinator/coordinator.go from Run on: its state with
-- the work in flight, and one step for each event that reaches it. A handler is one step, and the
-- goroutines that it starts (reReadSoon, reconcileOrphans, migrateDevice) are work in flight until the
-- event that ends them. What the world answers stands in an `Env` for each step.
pub mod Kept
pub mod Reports
pub mod Writes
pub mod Known
pub mod Sound
pub mod Released
pub mod Begin
pub mod InTime
pub mod Sweeps
pub mod Gated
pub mod Logged
pub mod Samples
mod Tests
use go_zendure2mqtt.Common.{
  ℕ, zero, suc, Bytes, beq, has_key, lookup, insert, delete, Map, Value, FloatOps, text, Option,
  none, some, Bool, true, false, List, [], ◌∷◌, ◌++◌, map, ℤ, is_some, if◌then◌else◌, get_elem?,
}
use go_zendure2mqtt.Process.Points.{Report}
use go_zendure2mqtt.State.Store.{Store, StateEntry, SourceDevice, set_evcc, new_store}
use go_zendure2mqtt.Evcc.Profile.{
  Item, Derived, group, item_string, item_name, item_unit, battery_mode,
}
use go_zendure2mqtt.Evcc.Mode.{Mode, mode_string}
use go_zendure2mqtt.Hass.Publish.{Bundle, new_discovery, remove_key}
use go_zendure2mqtt.Coordinator.Battery.{Plane, Effect, mirror, re_read, evcc_fallback}
use go_zendure2mqtt.Coordinator.Commands.{SetValue}
use go_zendure2mqtt.Coordinator.Commands.Routes.{Failure, handle_set, handle_evcc_set, write_item}
use go_zendure2mqtt.Coordinator.Commands.Routes
use go_zendure2mqtt.Coordinator.Migrate.{may_sweep}
use go_zendure2mqtt.Coordinator.Publish.{StatePlane}
use go_zendure2mqtt.Coordinator.Reconcile.{Gate, Retained, reconciled, sweep_orphans}
use go_zendure2mqtt.Coordinator.Online.{
  World, Act, sweep, evcc_effect, Setup, on_reading, publish, upstream_usable, device_reachable,
  publish_current,
}

pub record Daemon (F : Type 0) : Type 0 where
  pub world : World F
  -- migrated, and its serials whose sweep is in flight
  pub migrated : List Bytes
  pub migrating : List Bytes
  -- the sweeps in flight, with the topics that were published
  pub sweeps : Map (List Bytes)
  -- the devices that are read again soon, the newest first
  pub re_reads : List SourceDevice

-- What does not change while the daemon runs.
pub record Fixed (F : Type 0) : Type 0 where
  pub setup : Setup F
  pub charge_w : ℤ
  pub name : Bytes
  pub identity : Bytes
  -- topic.IsFunction and publisher.ParseSet of go-hamqtt, and the text of an error
  pub is_function : Bytes → Bool
  pub parse : Bytes → Option SetValue
  pub say : Failure → Bytes

-- The time of a step, and what the state plane, the broker and the backend answer in it.
pub record Env (F : Type 0) : Type 0 where
  pub now : ℕ
  pub plane : StatePlane F
  pub documents : Bundle → Option Bytes
  pub writes : Map (Value F) → Option Bytes

pub data Event (F : Type 0) : Type 0 where
  -- a backend's reading, and what it tells of its upstream and of a device
  reading : SourceDevice → Report F → Event F
  upstream : Bool → Event F
  reachable : Bytes → Bool → Event F
  -- a command of the set route and of the evcc route, which is registered where evcc is on, and a
  -- write of the web UI
  set : List Bytes → Bytes → Bytes → SetValue → Event F
  evcc_set : List Bytes → Bytes → Bytes → SetValue → Event F
  ui_write : Bytes → Bytes → Bytes → Event F
  -- the broker's link is up again
  connected : Event F
  -- the read of the device at this place is done, `none` for an error or no report
  read_again : ℕ → Option (Report F) → Event F
  -- a sweep is over: its error, what is declared by then, and the window
  swept : Bytes → Option Bytes → List Bytes → List Retained → Event F
  -- the sweep of the old layout is over: whether it failed while the daemon runs on
  old_swept : Bytes → Bool → Event F
  -- the ticker of runEVCCFallback, with the timeout
  tick : ℕ → Event F

abbrev pub or_new : {F : Type 0} → Option (Store F) → Store F
or_new none = new_store
or_new (some s) = s

module _ {ℓ} {A : Type ℓ} where
  abbrev pub remove_at : ℕ → List A → List A
  remove_at i [] = []
  remove_at zero (x ∷ xs) = xs
  remove_at (suc i) (x ∷ xs) = x ∷ remove_at i xs

-- bySN of New
unfoldable pub learn_all : List SourceDevice → Map SourceDevice → Map SourceDevice
learn_all [] m = m
learn_all (d ∷ ds) m = learn_all ds (insert d.sn d m)

module _ {F : Type 0} where
  abbrev pub known_in : World F → Bytes → Bool
  known_in w sn = is_some (lookup sn w.by_sn)

  -- the coordinator as the commands see it, and behind them
  abbrev pub commanded : World F → Routes.World F
  commanded w = record { evcc = w.evcc; store = or_new w.store }

  abbrev pub behind : World F → Routes.World F → World F
  behind w c = record w {
    evcc = c.evcc;
    store = elim w.store [ none ↦ none | some _ ↦ some c.store ];
  }

  -- the state that New makes, with the devices of the backend and what the configuration turns on
  unfoldable pub new_daemon : List SourceDevice → Bool → Bool → Bool → Daemon F
  unfolding learn_all
  new_daemon devices web hass evcc = record {
    world = record {
      by_sn = learn_all devices [];
      last = [];
      reach = [];
      store = if web then some new_store else none;
      hass = if hass then some new_discovery else none;
      gate = record { last = []; busy = [] };
      unmapped = [];
      evcc = if evcc then some [] else none;
    };
    migrated = [];
    migrating = [];
    sweeps = [];
    re_reads = [];
  }

module _ {F : Type 0} ⦃fl : FloatOps F⦄ (fx : Fixed F) where
  unfoldable pub mirror_entry : Derived F → StateEntry F
  mirror_entry v = record {
    group = group;
    topic = group ++ b'/' ∷ item_string v.item;
    pack_sn = [];
    name = item_name v.item fx.setup.language;
    unit = item_unit v.item;
    value = v.value;
  }

  -- mirrorEVCC
  unfoldable pub mirror_evcc : Bytes → List (Derived F) → Mode → Option (Store F) → Option (Store F)
  unfolding mirror_entry
  mirror_evcc sn values m none = none
  mirror_evcc sn values m (some s) = some (
      set_evcc sn
        (map mirror_entry
          (values ++ record { item = battery_mode; value = text (mode_string m) } ∷ []))
        s)

  -- reReadSoon, of a device of bySN
  unfoldable pub re_read_soon : Bytes → Daemon F → Daemon F
  re_read_soon sn s = elim (lookup sn s.world.by_sn) [
    | none ↦ s
    | some dev ↦ record s { re_reads = dev ∷ s.re_reads }
  ]

  -- what an act leaves behind in the coordinator
  unfoldable pub settle_one : Act F → Daemon F → Daemon F
  unfolding mirror_evcc re_read_soon
  settle_one (evcc_effect (mirror sn values m)) s = record s {
    world = record s.world { store = mirror_evcc sn values m s.world.store };
  }
  settle_one (evcc_effect (re_read sn)) s = re_read_soon sn s
  settle_one (sweep sn topics) s = record s { sweeps = insert sn topics s.sweeps }
  settle_one a s = s

  unfoldable pub settle : List (Act F) → Daemon F → Daemon F
  unfolding settle_one
  settle [] s = s
  settle (a ∷ acts) s = settle acts (settle_one a s)

  -- migrateDevice: LoadOrStore, and the sweep that it starts
  unfoldable pub migrate_device : Bytes → Daemon F → Daemon F
  migrate_device sn s =
      if may_sweep fx.is_function sn
      then (if has_key sn s.migrated
          then s
          else record s { migrated = sn ∷ s.migrated; migrating = sn ∷ s.migrating })
      else s

  -- the sweep is over; a failed one is forgotten
  unfoldable pub migration_over : Bytes → Bool → Daemon F → Daemon F
  migration_over sn failed s =
      if has_key sn s.migrating
      then record s {
        migrating = remove_key sn s.migrating;
        migrated = if failed then remove_key sn s.migrated else s.migrated;
      }
      else s

  unfoldable pub sweep_over :
      Bytes → Option Bytes → List Bytes → List Retained → Daemon F → Daemon F
  sweep_over sn failed declared window s = elim (lookup sn s.sweeps) [
    | none ↦ s
    | some published ↦ record s {
      sweeps = delete sn s.sweeps;
      world = record s.world {
        gate = reconciled sn s.world.gate;
        hass = elim s.world.hass [
          | none ↦ none
          | some d ↦
              some (sweep_orphans fx.name fx.identity sn published declared failed window d).1
        ];
      };
    }
  ]

  abbrev pub set_up : Env F → Setup F
  set_up env = record fx.setup { plane = env.plane; answer = env.documents }

  -- the world behind an event, with what is done
  unfoldable pub handle : Env F → Event F → Daemon F → World F × List (Act F)
  unfolding on_reading publish upstream_usable device_reachable handle_set handle_evcc_set
      write_item publish_current evcc_fallback
  handle env (reading dev report) s = on_reading (set_up env) env.now dev report s.world
  handle env (upstream usable) s = upstream_usable (set_up env) usable s.world
  handle env (reachable sn b) s = device_reachable (set_up env) sn b s.world
  handle env (set wildcards topic payload v) s =
      let (c, effects) =
        handle_set (known_in s.world) fx.setup.catalog fx.setup.switches fx.charge_w true env.writes
          fx.say env.now wildcards topic payload v (commanded s.world) in
      (behind s.world c, map evcc_effect effects)
  handle env (evcc_set wildcards topic payload v) s = elim s.world.evcc [
    | none ↦ (s.world, [])
    | some units ↦
        let (c, effects) =
          handle_evcc_set (known_in s.world) fx.setup.catalog fx.setup.switches fx.charge_w true
            env.writes fx.say env.now wildcards topic payload v (commanded s.world) in
        (behind s.world c, map evcc_effect effects)
  ]
  handle env (ui_write device key value) s =
      let (c, effects, error) =
        write_item (known_in s.world) fx.setup.catalog fx.setup.switches fx.charge_w true env.writes
          fx.say env.now fx.parse device key value (commanded s.world) in
      (behind s.world c, map evcc_effect effects)
  handle env connected s = publish_current (set_up env) s.world
  handle env (read_again i report) s = elim (get_elem? s.re_reads i) [
    | none ↦ (s.world, [])
    | some dev ↦ elim report [
      | none ↦ (s.world, [])
      | some r ↦ publish (set_up env) env.now dev r s.world
    ]
  ]
  handle env (tick timeout) s = elim s.world.evcc [
    | none ↦ (s.world, [])
    | some units ↦
        let (units', effects) =
          evcc_fallback fx.charge_w true env.writes env.now timeout (known_in s.world) units in
        (record s.world { evcc = some units' }, map evcc_effect effects)
  ]
  handle env _ s = (s.world, [])

  -- the work in flight that an event starts or ends by itself
  unfoldable pub in_flight : Event F → Daemon F → Daemon F
  unfolding migrate_device migration_over sweep_over
  in_flight (reading dev report) s = migrate_device dev.sn s
  in_flight (read_again i report) s = record s { re_reads = remove_at i s.re_reads }
  in_flight (swept sn failed declared window) s = sweep_over sn failed declared window s
  in_flight (old_swept sn failed) s = migration_over sn failed s
  in_flight e s = s

  unfoldable pub step : Env F → Event F → Daemon F → Daemon F × List (Act F)
  unfolding handle settle in_flight
  step env e s =
      let (w, acts) = handle env e s in
      let s' = in_flight e (record s { world = w }) in (settle acts s', acts)

  -- a sequence of events
  unfoldable pub run : List (Env F × Event F) → Daemon F → Daemon F
  unfolding step
  run [] s = s
  run ((env, e) ∷ es) s = run es (step env e s).0

  unfoldable pub migrate_all : List SourceDevice → Daemon F → Daemon F
  unfolding migrate_device
  migrate_all [] s = s
  migrate_all (d ∷ ds) s = migrate_all ds (migrate_device d.sn s)

  -- with the migrations that Run begins
  unfoldable pub start : List SourceDevice → Bool → Bool → Bool → Daemon F
  unfolding new_daemon migrate_all
  start devices web hass evcc = migrate_all devices (new_daemon devices web hass evcc)
