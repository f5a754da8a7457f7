-- ===== src/Harender/Owned.antt =====
-- Which documents internal/harender/harender.go renders, and where their entities point.
use go_zendure2mqtt.Common.{
  Bytes, beq, has_key, Value, Option, none, some, Bool, true, false, not, List, [], ◌∷◌, ◌≡◌, refl,
  arith, ◌&&◌, if◌then◌else◌, is_some, Option-cases, Bool-cases, inl, inr,
}
use go_zendure2mqtt.Catalog.Entry.{Entry}
use go_zendure2mqtt.Process.Points.{Report, Point, mints_nothing, owners, item_path}
use go_zendure2mqtt.Process.OwnersLaws.{has_entity, owners_lem}
use go_zendure2mqtt.Harender.Layout.{
  slot_of, point_of, state_of, state_topic, online_of, availability_of,
}
use go_zendure2mqtt.Harender.Entity.{
  Source, Renderer, HaDevice, HaEntity, shape_entity, plain_entity, entity_for, entity,
  bundle_entities, bundle, availability,
}
use go_zendure2mqtt.Hass.Ownership.{unique_id}

module _ {F : Type 0} (quote : Bytes → Bytes) (r : Renderer) where
  is_some-entity :
      (dev : Source) (p : Point F) → is_some (entity quote r dev p) ≡ not (mints_nothing p)
  unfolding entity mints_nothing
  is_some-entity dev p = elim (Option-cases p.entry) [
    | inl n ↦ ground (arith, n)
    | inr (e, n) ↦ ground (arith, n)
  ]

  abbrev pub any_of : List (HaEntity F) → Bool
  any_of [] = false
  any_of (h ∷ hs) = true

  any-bundle_entities :
      (dev : Source) (pack_sn : Bytes) (ps : List (Point F))
      → any_of (bundle_entities quote r dev pack_sn ps) ≡ has_entity pack_sn ps
  unfolding bundle_entities has_entity
  any-bundle_entities dev pack_sn [] = refl
  any-bundle_entities dev pack_sn (p ∷ ps) = elim (Option-cases (entity quote r dev p)) [
    | inl n ↦ ground (arith, n, is_some-entity dev p, any-bundle_entities dev pack_sn ps)
    | inr (e, n) ↦ ground (arith, n, is_some-entity dev p, any-bundle_entities dev pack_sn ps)
  ]

  is_some-bundle :
      (print : Value F → Bytes) (dev : Source) (report : Option (Report F)) (pack_sn : Bytes)
      (ps : List (Point F))
      → is_some (bundle quote r print dev report pack_sn ps)
        ≡ any_of (bundle_entities quote r dev pack_sn ps)
  unfolding bundle
  is_some-bundle print dev report pack_sn ps = ground arith

  -- what no platform changes
  shape-kept :
      (e : Entry F) (h : HaEntity F)
      → ((shape_entity quote r e h).slot ≡ h.slot) × ((shape_entity quote r e h).uid ≡ h.uid)
  unfolding shape_entity
  shape-kept e h = (ground arith, ground arith)

  entity-made :
      (dev : Source) (p : Point F) (h : HaEntity F)
      → entity quote r dev p ≡ some h
      → (e : Entry F) × (h ≡ entity_for quote r dev p e)
  unfolding entity
  entity-made dev p h made = elim (Option-cases p.entry) [
    | inl n ↦ absurd (ground (arith, n, made))
    | inr (e, n) ↦ elim (Bool-cases (beq e.platform [])) [
      | inl b ↦ absurd (ground (arith, n, b, made))
      | inr b ↦ (e, ground (arith, n, b, made))
    ]
  ]

  -- Every entity of a device reads the topic that the point's values are published on, is available
  -- through the bridge's and the unit's own topics, and carries the unique id of its point.
  pub entity-topics :
      (dev : Source) (p : Point F) (h : HaEntity F)
      → entity quote r dev p ≡ some h
      → (state_of F r.topics h.slot ≡ state_topic r.topics dev.sn p)
        × (availability quote r h ≡ r.topics.connected ∷ online_of r.topics dev.sn ∷ [])
        × (h.uid ≡ unique_id r.identity_root dev.sn p.pack_sn p.topic)
  unfolding plain_entity entity_for state_of state_topic point_of slot_of availability
      availability_of item_path
  entity-topics dev p h made =
      let (e, same) = entity-made dev p h made in
      let slot : h.slot ≡ slot_of dev.sn p =
        rw same (shape-kept e (plain_entity quote r dev p e)).0 in
      (rw slot refl, rw slot refl, rw same (shape-kept e (plain_entity quote r dev p e)).1)

  abbrev pub entities_of : Option (HaDevice × List (HaEntity F)) → List (HaEntity F)
  entities_of none = []
  entities_of (some (d, hs)) = hs

  abbrev pub uids : List (HaEntity F) → List Bytes
  uids [] = []
  uids (h ∷ hs) = h.uid ∷ uids hs

  -- the unique ids of the owner's points that mint an entity
  abbrev pub minted : Source → Bytes → List (Point F) → List Bytes
  minted dev pack_sn [] = []
  minted dev pack_sn (p ∷ ps) =
      if beq p.pack_sn pack_sn && not (mints_nothing p)
      then unique_id r.identity_root dev.sn p.pack_sn p.topic ∷ minted dev pack_sn ps
      else minted dev pack_sn ps

  entities_of-bundle :
      (print : Value F → Bytes) (dev : Source) (report : Option (Report F)) (pack_sn : Bytes)
      (ps : List (Point F))
      → entities_of (bundle quote r print dev report pack_sn ps)
        ≡ bundle_entities quote r dev pack_sn ps
  unfolding bundle
  entities_of-bundle print dev report pack_sn ps = ground arith

  uids-bundle_entities :
      (dev : Source) (pack_sn : Bytes) (ps : List (Point F))
      → uids (bundle_entities quote r dev pack_sn ps) ≡ minted dev pack_sn ps
  unfolding bundle_entities
  uids-bundle_entities dev pack_sn [] = refl
  uids-bundle_entities dev pack_sn (p ∷ ps) = elim (Option-cases (entity quote r dev p)) [
    | inl n ↦ ground (arith, n, is_some-entity dev p, uids-bundle_entities dev pack_sn ps)
    | inr (h, n) ↦ ground (
      arith,
      n,
      is_some-entity dev p,
      (entity-topics dev p h n).2,
      uids-bundle_entities dev pack_sn ps,
    )
  ]

  -- A device document is rendered for exactly the owners of the points, a document that is rendered has
  -- an entity, and its entities are those of the owner's points that mint one, by their unique ids and
  -- in the order of the points.
  pub bundle-owners :
      (print : Value F → Bytes) (dev : Source) (report : Option (Report F)) (pack_sn : Bytes)
      (ps : List (Point F))
      → let document = bundle quote r print dev report pack_sn ps in
        (is_some document ≡ has_key pack_sn (owners ps))
        × (any_of (entities_of document) ≡ is_some document)
        × (uids (entities_of document) ≡ minted dev pack_sn ps)
  bundle-owners print dev report pack_sn ps = (
    ground (
      arith,
      is_some-bundle print dev report pack_sn ps,
      any-bundle_entities dev pack_sn ps,
      (owners_lem ps).0 pack_sn,
    ),
    rw (entities_of-bundle print dev report pack_sn ps, is_some-bundle print dev report pack_sn ps)
        refl,
    rw (entities_of-bundle print dev report pack_sn ps) (uids-bundle_entities dev pack_sn ps),
  )
