-- ===== src/Coordinator/Online.antt =====
-- The coordinator's own state and what runs over it: publish, onReading, UpstreamUsable,
-- DeviceReachable, publishReachability, republishDiscovery and PublishOnline of
-- internal/coordinator/coordinator.go, and onReading's observer of the backends. A component that the
-- configuration may leave out is an option. Calls of go-hamqtt that only write are effects, and what
-- renders a document, `render` (harender.Renderer.Bundle), is an argument.
pub mod Republished
mod Tests
use go_zendure2mqtt.Common.{
  ℕ, Bytes, str, beq, lookup, insert, has_key, keys, sort_keys, Map, Value, FloatOps, bool, Option,
  none, some, Bool, true, false, not, List, [], ◌∷◌, ◌++◌, map, if◌then◌else◌, is_some,
}
use go_zendure2mqtt.Catalog.Load.{Catalog}
use go_zendure2mqtt.Process.Points.{Report, Point, resolve, owners}
use go_zendure2mqtt.Virtual.{Switch}
use go_zendure2mqtt.State.Store.{Store, SourceDevice, update, set_online, set_upstream}
use go_zendure2mqtt.Hass.Publish.{Bundle, Rendered, Discovery, Published, publish_all, reopen}
use go_zendure2mqtt.Coordinator.Battery.{Plane, Effect, publish_evcc}
use go_zendure2mqtt.Coordinator.Publish.{
  Item, StatePlane, publish_state, switch_points, publish_points,
}
use go_zendure2mqtt.Coordinator.Reconcile.{Gate, reconcile_orphans}

-- lastReport
pub record LastReport (F : Type 0) : Type 0 where
  pub dev : SourceDevice
  pub report : Report F

pub record World (F : Type 0) : Type 0 where
  -- bySN, last and reach
  pub by_sn : Map SourceDevice
  pub last : Map (LastReport F)
  pub reach : Map Bool
  pub store : Option (Store F)
  pub hass : Option Discovery
  pub gate : Gate
  pub unmapped : List Bytes
  pub evcc : Option (Plane F)

-- what the coordinator does: a document handed on, a sweep begun, a status item, a warning, an evcc
-- effect, and the level of `<name>/connected`
pub data Act (F : Type 0) : Type 0 where
  document : Bundle → Act F
  sweep : Bytes → List Bytes → Act F
  item : Item F → Act F
  warning : Bytes → Act F
  evcc_effect : Effect F → Act F
  connected : ℕ → Act F

-- ConnectedBroker and ConnectedOperational of go-hamqtt
abbrev pub connected_broker : ℕ
connected_broker = 1

abbrev pub connected_operational : ℕ
connected_operational = 2

-- the keys of the map that Publish gives back
abbrev pub set_of : List Bytes → List Bytes
set_of [] = []
set_of (t ∷ ts) = let rest = set_of ts in if has_key t rest then rest else t ∷ rest

-- What the coordinator is made with.
pub record Setup (F : Type 0) : Type 0 where
  pub catalog : Catalog F
  pub switches : List (Switch F)
  pub language : Bytes
  pub print : Value F → Bytes
  -- Status of go-hamqtt's topic.SmartHome, over the levels of an item
  pub status : List Bytes → Bytes
  pub plane : StatePlane F
  pub render : SourceDevice → Report F → List (Point F) → Bytes → Rendered
  pub topic_of : Bundle → Bytes
  pub answer : Bundle → Option Bytes

module _ {F : Type 0} ⦃fl : FloatOps F⦄ (su : Setup F) where
  unfoldable pub points_of : Report F → List (Point F)
  points_of report = resolve report su.catalog ++ switch_points su.switches report

  -- what the owners of a report render to
  unfoldable pub rendered_for : SourceDevice → Report F → List Rendered
  unfolding points_of
  rendered_for dev report =
      map (su.render dev report (points_of report)) (owners (points_of report))

  -- hass.Discovery.Publish for one report
  unfoldable pub publish_documents : SourceDevice → Report F → Discovery → Published
  unfolding rendered_for
  publish_documents dev report d = publish_all su.topic_of su.answer (rendered_for dev report) d

  -- the first half of publish: the UI's store
  unfoldable pub store_report : ℕ → SourceDevice → Report F → World F → World F
  unfolding points_of
  store_report now dev report w = elim w.store [
    | none ↦ w
    | some s ↦ record w {
      store = some (update now dev (some report) (points_of report) su.language s);
    }
  ]

  -- the second: the documents, and the reconcile of their topics
  unfoldable pub discover : SourceDevice → Report F → World F → World F × List (Act F)
  unfolding publish_documents
  discover dev report w = elim w.hass [
    | none ↦ (w, [])
    | some d ↦
        let out = publish_documents dev report d in
        let (gate, began) = reconcile_orphans dev.sn (set_of out.topics) w.gate in
        (
          record w {
            hass = some out.state;
            gate = gate;
            last = insert dev.sn (record { dev = dev; report = report }) w.last;
          },
          map document out.attempts
              ++ (if began then sweep dev.sn (set_of out.topics) ∷ [] else []),
        )
  ]

  -- the third: the status items
  unfoldable pub publish_items : SourceDevice → Report F → World F → World F × List (Act F)
  unfolding points_of
  publish_items dev report w =
      let (seen, lines, items, written) =
        publish_points su.print su.status su.plane dev.sn (points_of report) w.unmapped in
      (record w { unmapped = seen }, map warning lines ++ map item items)

  -- the last: the evcc profile
  unfoldable pub publish_profile : SourceDevice → Report F → World F → World F × List (Act F)
  publish_profile dev report w = elim w.evcc [
    | none ↦ (w, [])
    | some units ↦
        let (units', effects) = publish_evcc (some report.properties) dev.sn units in
        (record w { evcc = some units' }, map evcc_effect effects)
  ]

  -- publish
  unfoldable pub publish : ℕ → SourceDevice → Report F → World F → World F × List (Act F)
  unfolding store_report discover publish_items publish_profile
  publish now dev report w =
      let (w', documents) = discover dev report (store_report now dev report w) in
      let (w'', items) = publish_items dev report w' in
      let (w''', profile) = publish_profile dev report w'' in
      (w''', documents ++ (items ++ profile))

  -- bySN learns a device at its first reading
  unfoldable pub learn_device : SourceDevice → World F → World F
  learn_device dev w =
      if is_some (lookup dev.sn w.by_sn) then w else record w { by_sn = insert dev.sn dev w.by_sn }

  -- onReading, without the sweep of the old layout
  unfoldable pub on_reading : ℕ → SourceDevice → Report F → World F → World F × List (Act F)
  unfolding publish learn_device
  on_reading now dev report w = publish now dev report (learn_device dev w)

  -- topics.Online
  unfoldable pub online_topic : Bytes → Bytes
  online_topic sn = if beq sn [] then [] else su.status (sn ∷ str "online" ∷ [])

  unfoldable pub publish_online : Bytes → Bool → Act F
  unfolding online_topic
  publish_online sn b = item (publish_state su.plane (online_topic sn) (bool b)).0

  -- UpstreamUsable
  unfoldable pub upstream_usable : Bool → World F → World F × List (Act F)
  upstream_usable usable w = (
    record w { store = elim w.store [ none ↦ none | some s ↦ some (set_upstream usable s) ] },
    connected (if usable then connected_operational else connected_broker) ∷ [],
  )

  -- DeviceReachable
  unfoldable pub device_reachable : Bytes → Bool → World F → World F × List (Act F)
  unfolding publish_online
  device_reachable sn b w = (
    record w {
      reach = insert sn b w.reach;
      store = elim w.store [ none ↦ none | some s ↦ some (set_online sn b s) ];
    },
    publish_online sn b ∷ [],
  )

  abbrev pub reach_of : Map Bool → Bytes → Bool
  reach_of m sn = elim (lookup sn m) [ none ↦ false | some b ↦ b ]

  unfoldable pub online_items : Map Bool → List Bytes → List (Act F)
  unfolding publish_online
  online_items reach [] = []
  online_items reach (sn ∷ sns) = publish_online sn (reach_of reach sn) ∷ online_items reach sns

  -- publishReachability
  unfoldable pub publish_reachability : World F → List (Act F)
  unfolding online_items
  publish_reachability w = online_items w.reach (sort_keys (keys w.reach))

  -- the loop of republishDiscovery
  unfoldable pub republish_each :
      Map (LastReport F) → List Bytes → Discovery → Discovery × List (Act F)
  unfolding publish_documents
  republish_each last [] d = (d, [])
  republish_each last (sn ∷ sns) d = elim (lookup sn last) [
    | none ↦ republish_each last sns d
    | some lr ↦
        let out = publish_documents lr.dev lr.report d in
        let (d', acts) = republish_each last sns out.state in
        (d', map document out.attempts ++ acts)
  ]

  -- republishDiscovery, over the devices in the order of their serials
  unfoldable pub republish_discovery : World F → World F × List (Act F)
  unfolding republish_each
  republish_discovery w = elim w.hass [
    | none ↦ (w, [])
    | some d ↦
        let (d', acts) = republish_each w.last (sort_keys (keys w.last)) (reopen d) in
        (record w { hass = some d' }, acts)
  ]

  -- PublishOnline between the announcement and the replay of the cache, which are go-hamqtt's
  unfoldable pub publish_current : World F → World F × List (Act F)
  unfolding republish_discovery publish_reachability
  publish_current w =
      let (w', acts) = republish_discovery w in (w', acts ++ publish_reachability w')
