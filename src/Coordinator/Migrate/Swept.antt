-- ===== src/Coordinator/Migrate/Swept.antt =====
-- What a sweep clears: sweepRetained and oldLayoutTopic of internal/coordinator/migrate.go.
use go_zendure2mqtt.Common.{
  Bytes, beq, beq_iff, has_key, Option, none, some, Bool, true, false, not, List, [], ◌∷◌, ◌++◌,
  ◌||◌, ◌&&◌, ◌≡◌, refl, arith,
}
use go_zendure2mqtt.Coordinator.Migrate.Layout.{
  IsOldTopic, old_layout_topic-IsOldTopic, IsOldTopic-old_layout_topic,
}
use go_zendure2mqtt.Coordinator.Migrate.{
  Delivery, old_layout_topic, collect, collect_all, clear_each, sweep_retained, sweep_device,
}

-- A retained message with a payload on a topic that is owned is among the deliveries.
unfoldable pub delivered : (Bytes → Bool) → Bytes → List Delivery → Bool
delivered owned t [] = false
delivered owned t (d ∷ ds) =
    (beq d.topic t && (d.retained && (not (beq d.payload []) && owned d.topic)))
    || delivered owned t ds

has_key-snoc :
    (k j : Bytes) (ks : List Bytes) → has_key k (ks ++ j ∷ []) ≡ (has_key k ks || beq j k)
unfolding has_key
has_key-snoc k j [] = ground arith
has_key-snoc k j (i ∷ ks) = ground (arith, has_key-snoc k j ks)

has_key-collect_all :
    (owned : Bytes → Bool) (t : Bytes) (ds : List Delivery) (found : List Bytes)
    → has_key t (collect_all owned ds found) ≡ (has_key t found || delivered owned t ds)
unfolding collect_all collect delivered
has_key-collect_all owned t [] found = ground arith
has_key-collect_all owned t (d ∷ ds) found = ground (
  arith,
  beq_iff d.topic t,
  has_key-snoc t d.topic found,
  has_key-collect_all owned t ds (collect owned d found),
)

-- what is cleared is listed, and without an error all of it is
clear_each-listed :
    (answer : Bytes → Option Bytes) (t : Bytes) (ts : List Bytes)
    → (has_key t (clear_each answer ts).0 ≡ true → has_key t ts ≡ true)
      × ((clear_each answer ts).1 ≡ none → has_key t (clear_each answer ts).0 ≡ has_key t ts)
unfolding clear_each has_key
clear_each-listed answer t [] = (λ h. h, λ h. refl)
clear_each-listed answer t (j ∷ ts) =
    let ih = clear_each-listed answer t ts in
    (λ h. ground (arith, h, ih.0), λ h. ground (arith, h, ih.1))

-- A sweep clears only topics that the device owns and that came as a retained message with a payload;
-- a sweep that ends without an error clears all of them.
pub sweep_retained_lem :
    (subscribed cancelled : Option Bytes) (answer : Bytes → Option Bytes)
    (deliveries : List Delivery) (owned : Bytes → Bool) (t : Bytes)
    → (has_key t (sweep_retained subscribed cancelled answer deliveries owned).0 ≡ true
        → delivered owned t deliveries ≡ true)
      × ((sweep_retained subscribed cancelled answer deliveries owned).1 ≡ none
          → has_key t (sweep_retained subscribed cancelled answer deliveries owned).0
            ≡ delivered owned t deliveries)
unfolding sweep_retained has_key
sweep_retained_lem (some e) cancelled answer deliveries owned t = (λ h. cc, λ h. cc)
sweep_retained_lem none (some e) answer deliveries owned t = (λ h. cc, λ h. cc)
sweep_retained_lem none none answer deliveries owned t =
    let cleared = clear_each-listed answer t (collect_all owned deliveries []) in
    let found = has_key-collect_all owned t deliveries [] in
    (λ h. ground (arith, h, found, cleared.0), λ h. ground (arith, h, found, cleared.1))

delivered-owned :
    (owned : Bytes → Bool) (t : Bytes) (ds : List Delivery)
    → delivered owned t ds ≡ (owned t && delivered (λ x. true) t ds)
unfolding delivered
delivered-owned owned t [] = ground arith
delivered-owned owned t (d ∷ ds) = ground (arith, beq_iff d.topic t, delivered-owned owned t ds)

-- The sweep of one device clears a topic only if it is one of the old layout below the device's own
-- in the old root, a retained message with a payload came on it, and the serial is no function's name;
-- a sweep that ends without an error clears every such topic.
pub sweep_device_own :
    (is_function : Bytes → Bool) (root sn : Bytes) (subscribed cancelled : Option Bytes)
    (answer : Bytes → Option Bytes) (deliveries : List Delivery) (t : Bytes)
    → let ended = sweep_device is_function root sn subscribed cancelled answer deliveries in
      let is_old =
        (is_function sn ≡ false)
        × IsOldTopic root sn t
        × (delivered (λ x. true) t deliveries ≡ true) in
      (has_key t ended.0 ≡ true → is_old) × (ended.1 ≡ none → is_old → has_key t ended.0 ≡ true)
unfolding sweep_device
sweep_device_own is_function root sn subscribed cancelled answer deliveries t =
    let owned = old_layout_topic is_function root sn in
    let swept = sweep_retained_lem subscribed cancelled answer deliveries owned t in
    let both = delivered-owned owned t deliveries in
    (
      λ h.
          let d = swept.0 h in
          let o = old_layout_topic-IsOldTopic is_function root sn t (ground (arith, d, both)) in
          (o.0, o.1, ground (arith, d, both)),
      λ n h.
          ground (
            arith,
            swept.1 n,
            both,
            IsOldTopic-old_layout_topic is_function root sn t h.0 h.1,
            h.2,
          ),
    )
