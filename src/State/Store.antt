-- ===== src/State/Store.antt =====
-- internal/state/state.go. Time is a number, 0 being the zero time. A subscriber is a channel with
-- room for one signal: its number, and whether a signal waits in it.
use go_zendure2mqtt.Common.{
  ℕ, ◌-◌, Bytes, less, lookup, insert, Map, Value, Option, none, some, Bool, true, false, not, List,
  [], ◌∷◌, ◌++◌, ◌==◌, map, if◌then◌else◌, length, drop, is_some,
}
use mathlib.Core.List.{reverse}
use go_zendure2mqtt.Catalog.Entry.{friendly_name}
use go_zendure2mqtt.Process.Points.{Report, Point}

pub record StateEntry (F : Type 0) : Type 0 where
  pub group : Bytes
  pub topic : Bytes
  pub pack_sn : Bytes
  pub name : Bytes
  pub unit : Bytes
  pub value : Value F

pub record Device (F : Type 0) : Type 0 where
  pub sn : Bytes
  pub model : Bytes
  pub product : Bytes
  pub updated_at : ℕ
  pub online : Option Bool
  pub entries : List (StateEntry F)

pub record Problem : Type 0 where
  pub at : ℕ
  pub sn : Bytes
  pub event : Bytes
  pub detail : Bytes

pub record Store (F : Type 0) : Type 0 where
  pub devices : Map (Device F)
  pub evcc : Map (List (StateEntry F))
  pub online : Map Bool
  pub upstream : Option Bool
  pub problems : List Problem
  pub subs : List (ℕ × Bool)

-- What the backend knows of a device: of source.Device, the fields that the store reads.
pub record SourceDevice : Type 0 where
  pub sn : Bytes
  pub model : Bytes

abbrev pub max_problems : ℕ
max_problems = 20

abbrev pub new_store : {F : Type 0} → Store F
new_store = record {
  devices = [];
  evcc = [];
  online = [];
  upstream = none;
  problems = [];
  subs = [];
}

unfoldable pub same_bool : Bool → Bool → Bool
same_bool true b = b
same_bool false b = not b

-- a send that is skipped where a signal waits already
unfoldable pub signal : List (ℕ × Bool) → List (ℕ × Bool)
signal [] = []
signal ((ch, waiting) ∷ subs) = (ch, true) ∷ signal subs

unfoldable pub stamp : ℕ → Problem → Problem
stamp now p = if p.at == 0 then record p { at = now } else p

-- delete(s.subs, ch)
unfoldable pub release_from : ℕ → List (ℕ × Bool) → List (ℕ × Bool)
release_from ch [] = []
release_from ch ((c, waiting) ∷ subs) =
    let rest = release_from ch subs in if c == ch then rest else (c, waiting) ∷ rest

module _ {F : Type 0} where
  unfoldable pub notify : Store F → Store F
  unfolding signal
  notify s = record s { subs = signal s.subs }

  unfoldable pub entry_of : Bytes → Point F → StateEntry F
  entry_of lang p = record {
    group = p.group;
    topic = p.topic;
    pack_sn = p.pack_sn;
    name = elim p.entry [ none ↦ [] | some e ↦ friendly_name e lang ];
    unit = elim p.entry [ none ↦ [] | some e ↦ e.unit ];
    value = p.value;
  }

  unfoldable pub device_of :
      ℕ → SourceDevice → Option (Report F) → List (Point F) → Bytes → Device F
  unfolding entry_of
  device_of now dev report points lang = record {
    sn = dev.sn;
    model = dev.model;
    product = elim report [ none ↦ [] | some r ↦ r.product ];
    updated_at = now;
    online = none;
    entries = map (entry_of lang) points;
  }

  unfoldable pub update :
      ℕ → SourceDevice → Option (Report F) → List (Point F) → Bytes → Store F → Store F
  unfolding device_of notify
  update now dev report points lang s =
      notify (record s { devices = insert dev.sn (device_of now dev report points lang) s.devices })

  unfoldable pub set_evcc : Bytes → List (StateEntry F) → Store F → Store F
  unfolding notify
  set_evcc sn entries s = notify (record s { evcc = insert sn entries s.evcc })

  unfoldable pub set_online : Bytes → Bool → Store F → Store F
  unfolding notify same_bool
  set_online sn b s =
      let t = record s { online = insert sn b s.online } in
      elim (lookup sn s.online) [
        | none ↦ notify t
        | some prev ↦ if same_bool prev b then t else notify t
      ]

  unfoldable pub set_upstream : Bool → Store F → Store F
  unfolding notify same_bool
  set_upstream usable s =
      let t = record s { upstream = some usable } in
      elim s.upstream [
        | none ↦ notify t
        | some prev ↦ if same_bool prev usable then t else notify t
      ]

  -- Upstream: usable and known
  unfoldable pub upstream_of : Store F → Bool × Bool
  upstream_of s = elim s.upstream [ none ↦ (false, false) | some usable ↦ (usable, true) ]

  unfoldable pub add_problem : ℕ → Problem → Store F → Store F
  unfolding stamp notify
  add_problem now p s =
      let all = s.problems ++ stamp now p ∷ [] in
      notify (record s { problems = drop (length all - max_problems) all })

  -- Problems
  unfoldable pub problems_of : Store F → List Problem
  problems_of s = reverse s.problems

  -- a device of the snapshot, with its evcc entries and its reachability
  unfoldable pub shown : Store F → Bytes → Device F → Device F
  shown s sn d = record d {
    entries = elim (lookup sn s.evcc) [ none ↦ d.entries | some extra ↦ d.entries ++ extra ];
    online = elim (lookup sn s.online) [ none ↦ d.online | some b ↦ some b ];
  }

  unfoldable pub shown_devices : Store F → Map (Device F) → List (Device F)
  unfolding shown
  shown_devices s [] = []
  shown_devices s ((sn, d) ∷ ds) = shown s sn d ∷ shown_devices s ds

  -- the devices that have not reported, but whose reachability is known
  unfoldable pub silent_devices : Store F → Map Bool → List (Device F)
  silent_devices s [] = []
  silent_devices s ((sn, b) ∷ os) =
      let rest = silent_devices s os in
      if is_some (lookup sn s.devices)
      then rest
      else record {
        sn = sn;
        model = [];
        product = [];
        updated_at = 0;
        online = some b;
        entries = [];
      }
        ∷ rest

  unfoldable pub insert_device : Device F → List (Device F) → List (Device F)
  insert_device d [] = d ∷ []
  insert_device d (e ∷ es) = if less d.sn e.sn then d ∷ e ∷ es else e ∷ insert_device d es

  unfoldable pub sort_devices : List (Device F) → List (Device F)
  unfolding insert_device
  sort_devices [] = []
  sort_devices (d ∷ ds) = insert_device d (sort_devices ds)

  -- Snapshot
  unfoldable pub snapshot_of : Store F → List (Device F)
  unfolding shown_devices silent_devices sort_devices
  snapshot_of s = sort_devices (shown_devices s s.devices ++ silent_devices s s.online)

  -- Changes, and the function that releases what it returned
  unfoldable pub subscribe : ℕ → Store F → Store F
  subscribe ch s = record s { subs = (ch, false) ∷ s.subs }

  unfoldable pub release : ℕ → Store F → Store F
  unfolding release_from
  release ch s = record s { subs = release_from ch s.subs }
