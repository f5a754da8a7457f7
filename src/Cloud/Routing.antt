-- ===== src/Cloud/Routing.antt =====
-- Which device a message of the cloud reaches: deviceAndSub, login and handleMessage of
-- internal/zendure/cloud/source.go.
use go_zendure2mqtt.Common.{
  cut-append, Bytes, str, beq, beq_refl, lookup, insert, lookup-insert, cut_prefix, contains_byte,
  Map, Option, none, some, Bool, true, false, List, [], ◌∷◌, ◌++◌, ◌||◌, ◌≡◌, ◌≢◌, refl, arith,
}
use mathlib.Core.List.{append_assoc}
use go_zendure2mqtt.Process.Points.{Report}
use go_zendure2mqtt.Cloud.Login.{LoginDevice, LoginResult}
use go_zendure2mqtt.Cloud.Session.{
  CloudDevice, Backend, device_of, learn, logged_in, device_reachable, reading, trim_prefix, levels,
  device_and_sub, report_subtopic, iot_prefix, bare_prefix, with_sn, handle_message,
}

-- a product key that the code takes for no other level
abbrev pub IsPlain : Bytes → Type 0
IsPlain s = (contains_byte b'/' s ≡ false) × (s ≢ str "iot")

levels-cut :
    (p d sub : Bytes)
    → contains_byte b'/' p ≡ false
    → contains_byte b'/' d ≡ false
    → levels (p ++ b'/' ∷ (d ++ b'/' ∷ sub)) ≡ (d, sub)
unfolding levels
levels-cut p d sub hp hd =
    rw (levels, cut-append b'/' p (d ++ b'/' ∷ sub) hp, cut-append b'/' d sub hd) refl

-- the levels of a topic, which its prefix and its rest hold
levels-join : (p d sub : Bytes) → p ++ b'/' ∷ (d ++ str "/") ++ sub ≡ p ++ b'/' ∷ (d ++ b'/' ∷ sub)
levels-join p d sub =
    rw (append_assoc p (b'/' ∷ (d ++ b'/' ∷ [])) sub, append_assoc d (b'/' ∷ []) sub) refl

cut_prefix-iot : (p r : Bytes) → IsPlain p → cut_prefix (p ++ b'/' ∷ r) (str "iot/") ≡ none
unfolding cut_prefix contains_byte
cut_prefix-iot [] r h = refl
cut_prefix-iot (a ∷ []) r h = ground arith
cut_prefix-iot (a ∷ b ∷ []) r h = ground arith
cut_prefix-iot (a ∷ b ∷ c ∷ []) r h = ground (arith, h.1)
cut_prefix-iot (a ∷ b ∷ c ∷ d ∷ p) r h = ground (arith, h.0)

trim_prefix-iot :
    (p r : Bytes) → IsPlain p → trim_prefix (p ++ b'/' ∷ r) (str "iot/") ≡ p ++ b'/' ∷ r
unfolding trim_prefix
trim_prefix-iot p r h = rw (trim_prefix, cut_prefix-iot p r h) refl

-- A message below one of the two filters that a device is subscribed with comes back as that device's
-- id and the topic behind the filter, when its product key and its id hold no slash and its product
-- key is not "iot".
pub device_and_sub-filters :
    (d : CloudDevice) (sub : Bytes)
    → IsPlain d.product_key
    → contains_byte b'/' d.device_id ≡ false
    → (device_and_sub (iot_prefix d ++ sub) ≡ (d.device_id, sub))
      × (device_and_sub (bare_prefix d ++ sub) ≡ (d.device_id, sub))
unfolding device_and_sub trim_prefix cut_prefix
device_and_sub-filters d sub hp hd = (
  rw (levels-join d.product_key d.device_id sub) (levels-cut d.product_key d.device_id sub hp.0 hd),
  rw
      (
        levels-join d.product_key d.device_id sub,
        trim_prefix-iot d.product_key (d.device_id ++ b'/' ∷ sub) hp,
      )
      (levels-cut d.product_key d.device_id sub hp.0 hd),
)

-- the entries with the device key
abbrev pub has_device : Bytes → List LoginDevice → Bool
has_device k [] = false
has_device k (d ∷ ds) = beq d.device_key k || has_device k ds

lookup-learn :
    (k : Bytes) (ds : List LoginDevice) (devices : List CloudDevice) (m : Map CloudDevice)
    → has_device k ds ≡ false
    → lookup k (learn ds devices m).1 ≡ lookup k m
unfolding learn
lookup-learn k [] devices m h = refl
lookup-learn k (d ∷ ds) devices m h = ground (
  arith,
  lookup-insert d.device_key k (device_of d) m,
  lookup-learn k ds (devices ++ device_of d ∷ []) (insert d.device_key (device_of d) m),
)

learnt :
    (before : List LoginDevice) (d : LoginDevice) (after : List LoginDevice)
    (devices : List CloudDevice) (m : Map CloudDevice)
    → has_device d.device_key after ≡ false
    → lookup d.device_key (learn (before ++ d ∷ after) devices m).1 ≡ some (device_of d)
unfolding learn
learnt [] d after devices m h =
    rw
      (
        lookup-learn d.device_key after (devices ++ device_of d ∷ [])
            (insert d.device_key (device_of d) m) h,
        lookup-insert d.device_key d.device_key (device_of d) m,
        beq_refl d.device_key,
      )
      refl
learnt (e ∷ before) d after devices m h =
    learnt before d after (devices ++ device_of e ∷ []) (insert e.device_key (device_of e) m) h

module _ {F : Type 0} where
  handle_message-known :
      (parse : Bytes → Option (Report F)) (topic payload id : Bytes) (d : CloudDevice)
      (r : Report F) (b : Backend)
      → device_and_sub topic ≡ (id, report_subtopic)
      → lookup id b.by_id ≡ some d
      → b.has_handler ≡ true
      → parse payload ≡ some r
      → handle_message parse topic payload b
        ≡ device_reachable d true ∷ reading d (with_sn d r) ∷ []
  unfolding handle_message
  handle_message-known parse topic payload id d r b e l h p =
      rw (handle_message, e, beq_refl report_subtopic, l, h, p) refl

  -- Behind a login, a report that can be read, on the report topic below either of the two filters of a
  -- device that the login listed last under its key, makes that device reachable and comes out as its
  -- reading, with the device's serial where the report names none; when the backend has a handler, the
  -- product key and the device key hold no slash, and the product key is not "iot".
  pub handle_message-logged_in :
      (parse : Bytes → Option (Report F)) (res : LoginResult) (before after : List LoginDevice)
      (d : LoginDevice) (payload : Bytes) (r : Report F) (b : Backend)
      → res.device_list ≡ before ++ d ∷ after
      → has_device d.device_key after ≡ false
      → IsPlain d.product_key
      → contains_byte b'/' d.device_key ≡ false
      → b.has_handler ≡ true
      → parse payload ≡ some r
      → let told =
          device_reachable (device_of d) true
          ∷ reading (device_of d) (with_sn (device_of d) r)
          ∷ [] in
        (handle_message parse
            (iot_prefix (device_of d) ++ report_subtopic)
            payload
            (logged_in res b)
          ≡ told)
        × (handle_message parse
              (bare_prefix (device_of d) ++ report_subtopic)
              payload
              (logged_in res b)
            ≡ told)
  unfolding logged_in device_of
  handle_message-logged_in parse res before after d payload r b listed last plain free handler
        parsed =
      let found = learnt before d after [] [] last in
      let filters = device_and_sub-filters (device_of d) report_subtopic plain free in
      (
        handle_message-known parse (iot_prefix (device_of d) ++ report_subtopic) payload
            d.device_key (device_of d) r (logged_in res b) filters.0 (rw listed found) handler
            parsed,
        handle_message-known parse (bare_prefix (device_of d) ++ report_subtopic) payload
            d.device_key (device_of d) r (logged_in res b) filters.1 (rw listed found) handler
            parsed,
      )
