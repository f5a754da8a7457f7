-- ===== src/Hass/Forgotten.antt =====
-- What Publish of internal/hass/discovery.go hands on again behind Forget.
use go_zendure2mqtt.Common.{
  Bytes, beq, beq_iff, lookup, delete, lookup-delete, has_key, Option, some, true, false, not, List,
  [], ◌∷◌, ◌&&◌, ◌≡◌, refl, arith, Bool-cases, inl, inr,
}
use go_zendure2mqtt.Hass.Publish.{
  Bundle, Discovery, component_ids, is_fresh, publish_bundle, forget, remove_key, remove_keys,
  ids_at,
}
use go_zendure2mqtt.Hass.Gate.{Within, Within-is_fresh}

pub has_key-remove_key :
    (k j : Bytes) (ks : List Bytes) → has_key k (remove_key j ks) ≡ (has_key k ks && not (beq j k))
unfolding has_key remove_key
has_key-remove_key k j [] = refl
has_key-remove_key k j (i ∷ ks) =
    ground (arith, beq_iff i j, beq_iff i k, beq_iff j k, has_key-remove_key k j ks)

has_key-remove_keys :
    (k : Bytes) (ids ks : List Bytes)
    → has_key k (remove_keys ids ks) ≡ (has_key k ks && not (has_key k ids))
unfolding has_key remove_keys
has_key-remove_keys k [] ks = ground arith
has_key-remove_keys k (i ∷ ids) ks =
    ground (arith, has_key-remove_key k i ks, has_key-remove_keys k ids (remove_key i ks))

-- one topic forgotten
abbrev without : Bytes → Discovery → Discovery
without topic d = record {
  sent = remove_keys (ids_at d.by_topic topic) d.sent;
  by_topic = delete topic d.by_topic;
}

Within-forget : (ts : List Bytes) (d : Discovery) → Within (forget ts d).sent d.sent
unfolding forget
Within-forget [] d k i = i
Within-forget (t ∷ ts) d k i =
    ground (
      arith,
      Within-forget ts (without t d) k i,
      has_key-remove_keys k (ids_at d.by_topic t) d.sent,
    )

gone-here :
    (t k : Bytes) (ids : List Bytes) (d : Discovery)
    → lookup t d.by_topic ≡ some ids
    → has_key k ids ≡ true
    → has_key k (without t d).sent ≡ false
gone-here t k ids d l i =
    let e : ids_at d.by_topic t ≡ ids = rw (ids_at, l) refl in
    ground (arith, has_key-remove_keys k (ids_at d.by_topic t) d.sent, e, i)

-- A forgotten document's ids count as never sent.
gone :
    (ts : List Bytes) (topic k : Bytes) (ids : List Bytes) (d : Discovery)
    → lookup topic d.by_topic ≡ some ids
    → has_key k ids ≡ true
    → has_key topic ts ≡ true
    → has_key k (forget ts d).sent ≡ false
unfolding forget has_key
gone [] topic k ids d l i h = cc
gone (t ∷ ts) topic k ids d l i h = elim (Bool-cases (beq t topic)) [
  | inl e ↦
      let same : t ≡ topic = (beq_iff t topic).0 e in
      ground
        (arith, Within-forget ts (without t d) k, gone-here t k ids d (ground (arith, same, l)) i)
  | inr e ↦
      gone ts topic k ids (without t d) (ground (arith, e, lookup-delete t topic d.by_topic, l)) i
        (ground (arith, e, h))
]

fresh-member :
    (k : Bytes) (ids sent : List Bytes)
    → has_key k ids ≡ true
    → has_key k sent ≡ false
    → is_fresh ids sent ≡ true
fresh-member k ids sent i g = elim (Bool-cases (is_fresh ids sent)) [
  | inl e ↦ e
  | inr e ↦ ground (arith, g, Within-is_fresh ids sent e k i)
]

module _ (topic_of : Bundle → Bytes) (answer : Bundle → Option Bytes) where
  -- A document whose topic was forgotten is handed on with the next report, when it is the one that was
  -- written there last and it has an entity.
  pub publish_bundle-forgotten :
      (b : Bundle) (k : Bytes) (orphans : List Bytes) (d : Discovery)
      → lookup (topic_of b) d.by_topic ≡ some (component_ids b)
      → has_key k (component_ids b) ≡ true
      → has_key (topic_of b) orphans ≡ true
      → (publish_bundle topic_of answer b (forget orphans d)).attempts ≡ b ∷ []
  unfolding publish_bundle
  publish_bundle-forgotten b k orphans d l i h =
      rw
        (fresh-member k (component_ids b) (forget orphans d).sent i
          (gone orphans (topic_of b) k (component_ids b) d l i h))
        refl
