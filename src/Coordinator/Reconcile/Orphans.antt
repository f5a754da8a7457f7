-- ===== src/Coordinator/Reconcile/Orphans.antt =====
-- What sweepOrphans of internal/coordinator/coordinator.go retracts, and what the next report does.
use go_zendure2mqtt.Common.{
  Bytes, beq, beq_iff, lookup, has_key, Option, none, some, Bool, true, false, not, List, [], ◌∷◌,
  ◌&&◌, ◌||◌, ◌≡◌, ◌↔◌, refl, arith, Bool-cases, inl, inr,
}
use go_zendure2mqtt.Hass.Publish.{Bundle, Discovery, component_ids, publish_bundle, forget}
use go_zendure2mqtt.Hass.Forgotten.{publish_bundle-forgotten}
use go_zendure2mqtt.Coordinator.Reconcile.Ours.{IsOurs, is_ours-IsOurs, IsOurs-is_ours}
use go_zendure2mqtt.Coordinator.Reconcile.{
  Retained, is_ours, owned_topics, unclaimed, sweep_orphans,
}

-- whether the window shows one of this device's configs of this bridge at the topic
abbrev pub shows : Bytes → Bytes → Bytes → Bytes → List Retained → Bool
shows name identity sn k [] = false
shows name identity sn k (r ∷ rs) =
    (is_ours name identity sn r && beq r.topic k) || shows name identity sn k rs

has_key-owned_topics :
    (name identity sn k : Bytes) (window : List Retained)
    → has_key k (owned_topics name identity sn window) ≡ shows name identity sn k window
unfolding owned_topics has_key
has_key-owned_topics name identity sn k [] = refl
has_key-owned_topics name identity sn k (r ∷ rs) =
    ground (arith, has_key-owned_topics name identity sn k rs)

has_key-unclaimed :
    (k : Bytes) (published declared ts : List Bytes)
    → has_key k (unclaimed published declared ts)
      ≡ (has_key k ts && not (has_key k published || has_key k declared))
unfolding unclaimed has_key
has_key-unclaimed k published declared [] = refl
has_key-unclaimed k published declared (t ∷ ts) =
    ground (arith, beq_iff t k, has_key-unclaimed k published declared ts)

has_key-sweep_orphans :
    (name identity sn k : Bytes) (published declared : List Bytes) (window : List Retained)
    (d : Discovery)
    → has_key k (sweep_orphans name identity sn published declared none window d).0
      ≡ (shows name identity sn k window && not (has_key k published || has_key k declared))
unfolding sweep_orphans
has_key-sweep_orphans name identity sn k published declared window d = ground (
  arith,
  has_key-unclaimed k published declared (owned_topics name identity sn window),
  has_key-owned_topics name identity sn k window,
)

-- The window holds a config of the device and the bridge at the topic.
pub data IsShown (name identity sn k : Bytes) : List Retained → Type 0 where
  here :
      (r : Retained) (rs : List Retained)
      → IsOurs name identity sn r
      → r.topic ≡ k
      → IsShown name identity sn k (r ∷ rs)
  there :
      (r : Retained) (rs : List Retained)
      → IsShown name identity sn k rs
      → IsShown name identity sn k (r ∷ rs)

shows-IsShown :
    (name identity sn k : Bytes) (window : List Retained)
    → shows name identity sn k window ≡ true
    → IsShown name identity sn k window
shows-IsShown name identity sn k [] h = cc
shows-IsShown name identity sn k (r ∷ rs) h =
    elim (Bool-cases (is_ours name identity sn r && beq r.topic k)) [
      | inl y ↦
          IsShown.here r rs (is_ours-IsOurs name identity sn r (ground (arith, y)))
            (ground (arith, y, beq_iff r.topic k))
      | inr n ↦ IsShown.there r rs (shows-IsShown name identity sn k rs (ground (arith, n, h)))
    ]

IsShown-shows :
    (name identity sn k : Bytes) (window : List Retained)
    → IsShown name identity sn k window
    → shows name identity sn k window ≡ true
IsShown-shows name identity sn k window (IsShown.here r rs o e) =
    ground (arith, IsOurs-is_ours name identity sn r o, beq_iff r.topic k)
IsShown-shows name identity sn k window (IsShown.there r rs h) =
    ground (arith, IsShown-shows name identity sn k rs h)

-- A sweep retracts a topic exactly when its window shows at it a config that is this device's by its
-- topic and this bridge's by its body, and neither the device's current set nor what the process has
-- declared has that topic. A sweep that fails retracts nothing and forgets nothing.
pub sweep_orphans-retracts :
    (name identity sn k : Bytes) (published declared : List Bytes) (window : List Retained)
    (d : Discovery)
    → ((has_key k (sweep_orphans name identity sn published declared none window d).0 ≡ true) ↔ (
        IsShown name identity sn k window
        × (has_key k published ≡ false)
        × (has_key k declared ≡ false)))
      × ((e : Bytes)
          → sweep_orphans name identity sn published declared (some e) window d ≡ ([], d))
unfolding sweep_orphans
sweep_orphans-retracts name identity sn k published declared window d =
    let e = has_key-sweep_orphans name identity sn k published declared window d in
    (
      (
        λ h. (
          shows-IsShown name identity sn k window (ground (arith, e, h)),
          ground (arith, e, h),
          ground (arith, e, h),
        ),
        λ h. ground (arith, e, IsShown-shows name identity sn k window h.0, h.1, h.2),
      ),
      λ err. refl,
    )

module _ (topic_of : Bundle → Bytes) (answer : Bundle → Option Bytes) where
  sent-sweep_orphans :
      (name identity sn : Bytes) (published declared : List Bytes) (window : List Retained)
      (d : Discovery)
      → (sweep_orphans name identity sn published declared none window d).1
        ≡ forget (sweep_orphans name identity sn published declared none window d).0 d
  unfolding sweep_orphans forget
  sent-sweep_orphans name identity sn published declared window d = ground arith

  -- A document that a sweep retracted comes back: when the window shows it as this device's, neither
  -- claim set has its topic, it is what was written there last and it has an entity, then behind the
  -- sweep a report that renders it hands it on.
  pub publish_bundle-sweep_orphans :
      (name identity sn k : Bytes) (published declared : List Bytes) (window : List Retained)
      (b : Bundle) (d : Discovery)
      → shows name identity sn (topic_of b) window ≡ true
      → has_key (topic_of b) published ≡ false
      → has_key (topic_of b) declared ≡ false
      → lookup (topic_of b) d.by_topic ≡ some (component_ids b)
      → has_key k (component_ids b) ≡ true
      → (publish_bundle topic_of answer b
          (sweep_orphans name identity sn published declared none window d).1).attempts
        ≡ b ∷ []
  publish_bundle-sweep_orphans name identity sn k published declared window b d s p q l i =
      rw (sent-sweep_orphans name identity sn published declared window d) (
        publish_bundle-forgotten topic_of answer b k
          (sweep_orphans name identity sn published declared none window d).0 d l i
          (ground (
            arith,
            has_key-sweep_orphans name identity sn (topic_of b) published declared window d,
            s,
            p,
            q,
          )))
