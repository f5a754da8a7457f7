-- ===== src/Hass/Missed.antt =====
-- Two documents that Publish of internal/hass/discovery.go does not hand on the same way: one behind
-- Reopen, and one that gets back an entity it had lost.
use go_zendure2mqtt.Common.{
  Bytes, beq_refl, lookup, lookup-insert, insert, Map, has_key-append, Option, none, some, true,
  List, [], ◌∷◌, ◌++◌, ◌≡◌, refl, arith,
}
use go_zendure2mqtt.Hass.Publish.{
  Bundle, Discovery, component_ids, is_fresh, mark, attempt, publish_bundle, ids_at,
}
use go_zendure2mqtt.Hass.Gate.{publish_bundle-sent}

ids_at-insert :
    (topic : Bytes) (ids : List Bytes) (m : Map (List Bytes))
    → ids_at (insert topic ids m) topic ≡ ids
ids_at-insert topic ids m =
    let e : lookup topic (insert topic ids m) ≡ some ids =
      rw (lookup-insert topic topic ids m, beq_refl topic) refl in
    rw (ids_at, e) refl

module _ (topic_of : Bundle → Bytes) (answer : Bundle → Option Bytes) where
  -- the state behind the documents of two reports
  abbrev pub after_both : Bundle → Bundle → Discovery → Discovery
  after_both full shrunken d =
      (publish_bundle topic_of answer shrunken (publish_bundle topic_of answer full d).state).state

  -- a document that is handed on and reaches the broker
  publish_bundle-fresh :
      (b : Bundle) (d : Discovery)
      → answer b ≡ none
      → is_fresh (component_ids b) d.sent ≡ true
      → (publish_bundle topic_of answer b d).state ≡ mark (topic_of b) (component_ids b) d
  unfolding publish_bundle attempt
  publish_bundle-fresh b d ok f = ground (arith, ok, f)

  -- A document that lost an entity and gained one is handed on and replaces the full one. When the
  -- next report brings the lost entity back and nothing that was never sent, no document is handed on,
  -- so the broker keeps the document without it.
  pub publish_bundle-regrown :
      (full shrunken : Bundle) (d : Discovery)
      → topic_of shrunken ≡ topic_of full
      → answer full ≡ none
      → answer shrunken ≡ none
      → is_fresh (component_ids full) d.sent ≡ true
      → is_fresh (component_ids shrunken) (component_ids full ++ d.sent) ≡ true
      → (ids_at (after_both full shrunken d).by_topic (topic_of full) ≡ component_ids shrunken)
        × (publish_bundle topic_of answer full (after_both full shrunken d) ≡ record {
          state = after_both full shrunken d;
          topics = topic_of full ∷ [];
          attempts = [];
        })
  unfolding mark
  publish_bundle-regrown full shrunken d same ok ok' f f' =
      let d' = mark (topic_of full) (component_ids full) d in
      let e : after_both full shrunken d ≡ mark (topic_of shrunken) (component_ids shrunken) d' =
        rw (after_both, publish_bundle-fresh full d ok f)
          (publish_bundle-fresh shrunken d' ok' f') in
      rw e (
        rw same (ids_at-insert (topic_of full) (component_ids shrunken) d'.by_topic),
        publish_bundle-sent topic_of answer full
            (mark (topic_of shrunken) (component_ids shrunken) d')
            (λ k i. ground (
              arith,
              has_key-append k (component_ids shrunken) (component_ids full ++ d.sent),
              has_key-append k (component_ids full) d.sent,
            )),
      )
