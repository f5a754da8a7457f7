-- ===== src/Coordinator/Reconcile.antt =====
-- The retained discovery configs that nobody publishes any more: reconcileOrphans, sweepOrphans and
-- discoverySignature of internal/coordinator/coordinator.go. A sweep's window gives the configs that
-- were retained, each with its parsed topic, its decoded body and the topic that go-hamqtt's renderers
-- give it; a set is the list of its members, without repetition.
pub mod Signature
pub mod Ours
pub mod Orphans
mod Tests
use go_zendure2mqtt.Common.{
  ℕ, Bytes, beq, lookup, insert, has_key, sort_keys, join, Map, Option, none, some, Bool, true,
  false, not, List, [], ◌∷◌, ◌++◌, ◌&&◌, ◌||◌, if◌then◌else◌,
}
use go_zendure2mqtt.Hass.Publish.{Discovery, forget, remove_key}
use go_zendure2mqtt.Hass.Ownership.{Body, ConfigTopic, is_own_config, owns_device_config_topic}

abbrev pub newline : ℕ
newline = 10

-- discoverySignature
unfoldable pub discovery_signature : List Bytes → Bytes
discovery_signature published = join newline (sort_keys published)

pub record Gate : Type 0 where
  -- lastDiscSig
  pub last : Map Bytes
  -- reconciling: the serials with a sweep in flight
  pub busy : List Bytes

abbrev pub last_of : Map Bytes → Bytes → Bytes
last_of m sn = elim (lookup sn m) [ none ↦ [] | some s ↦ s ]

-- reconcileOrphans: the gate, and whether a sweep begins
unfoldable pub reconcile_orphans : Bytes → List Bytes → Gate → Gate × Bool
unfolding discovery_signature
reconcile_orphans sn published g =
    let sig = discovery_signature published in
    let recorded : Gate = record g { last = insert sn sig g.last } in
    if beq (last_of g.last sn) sig
    then (recorded, false)
    else if has_key sn g.busy
    then (recorded, false)
    else (record recorded { busy = sn ∷ g.busy }, true)

-- the sweep is over
unfoldable pub reconciled : Bytes → Gate → Gate
reconciled sn g = record g { busy = remove_key sn g.busy }

-- a retained config of the window
pub record Retained : Type 0 where
  pub parsed : ConfigTopic
  pub body : Option Body
  pub topic : Bytes

unfoldable pub is_ours : Bytes → Bytes → Bytes → Retained → Bool
is_ours name identity sn r =
    owns_device_config_topic identity sn r.parsed
    && (is_own_config name identity r.body && not (beq r.topic []))

-- Owns and Inspect over the window
unfoldable pub owned_topics : Bytes → Bytes → Bytes → List Retained → List Bytes
unfolding is_ours
owned_topics name identity sn [] = []
owned_topics name identity sn (r ∷ rs) =
    let rest = owned_topics name identity sn rs in
    if is_ours name identity sn r then r.topic ∷ rest else rest

-- the owned topics outside the two claim sets
unfoldable pub unclaimed : List Bytes → List Bytes → List Bytes → List Bytes
unclaimed published declared [] = []
unclaimed published declared (t ∷ ts) =
    let rest = unclaimed published declared ts in
    if has_key t published || has_key t declared then rest else t ∷ rest

-- sweepOrphans: what is handed to Retract, and the state of discovery. `failed` is Sweep's error; an
-- error of Retract is logged only.
unfoldable pub sweep_orphans :
    Bytes
    → Bytes
    → Bytes
    → List Bytes
    → List Bytes
    → Option Bytes
    → List Retained
    → Discovery
    → List Bytes × Discovery
unfolding owned_topics unclaimed
sweep_orphans name identity sn published declared failed window d = elim failed [
  | some e ↦ ([], d)
  | none ↦
      let orphans = unclaimed published declared (owned_topics name identity sn window) in
      elim orphans [ [] ↦ ([], d) | t ∷ ts ↦ (t ∷ ts, forget (t ∷ ts) d) ]
]
