-- ===== src/Process/Resolved.antt =====
-- The points of a report: Resolve of internal/process/process.go.
use go_zendure2mqtt.Common.{
  ℕ, zero, suc, Bytes, str, beq, Map, Value, FloatOps, Option, none, some, true, List, [], ◌∷◌,
  ◌++◌, ◌≡◌, ◌⊎◌, refl, arith, inl, inr, All, All-append, get_elem?, Option-cases, Bool-cases,
}
use go_zendure2mqtt.Catalog.Load.{Catalog, by_property}
use go_zendure2mqtt.Process.Segment.{valid_pack_sn}
use go_zendure2mqtt.Process.SegmentSafe.{IsTopicSafe, sanitize_segment-IsTopicSafe}
use go_zendure2mqtt.Process.Points.{
  Report, Point, property_point, pack_point, property_points, pack_points, packs_points, serial_of,
  resolve,
}

-- The segments of a point that come from the device are safe: the serial of its pack is a plausible
-- one, and the topic of a property without a catalog entry is a safe level.
pub record IsPlausible {F : Type 0} (p : Point F) : Type 0 where
  pub serial : (p.pack_sn ≡ []) ⊎ (valid_pack_sn p.pack_sn ≡ true)
  pub topic : p.entry ≡ none → IsTopicSafe p.topic

module _ {F : Type 0} ⦃fl : FloatOps F⦄ (cat : Catalog F) where
  IsPlausible-property_point :
      (key : Bytes) (raw : Value F) → IsPlausible (property_point cat key raw)
  unfolding property_point
  IsPlausible-property_point key raw = elim (Option-cases (by_property cat key)) [
    | inl e ↦
        rw (e, property_point)
          (record { serial = inl refl; topic = λ h. (sanitize_segment-IsTopicSafe key).0 })
    | inr (x, e) ↦ rw (e, property_point) (record { serial = inl refl; topic = λ h. cc })
  ]

  IsPlausible-pack_point :
      (sn key : Bytes) (raw : Value F)
      → valid_pack_sn sn ≡ true
      → IsPlausible (pack_point cat sn key raw)
  unfolding pack_point
  IsPlausible-pack_point sn key raw v = elim (Option-cases (by_property cat key)) [
    | inl e ↦
        rw (e, pack_point)
          (record { serial = inr v; topic = λ h. (sanitize_segment-IsTopicSafe key).0 })
    | inr (x, e) ↦ rw (e, pack_point) (record { serial = inr v; topic = λ h. cc })
  ]

  All-property_points : (props : Map (Value F)) → All IsPlausible (property_points cat props)
  unfolding property_points
  All-property_points [] = tt
  All-property_points ((key, raw) ∷ props) =
      (IsPlausible-property_point key raw, All-property_points props)

  All-pack_points :
      (sn : Bytes) (props : Map (Value F))
      → valid_pack_sn sn ≡ true
      → All IsPlausible (pack_points cat sn props)
  unfolding pack_points
  All-pack_points sn [] v = tt
  All-pack_points sn ((key, raw) ∷ props) v = elim (Bool-cases (beq key (str "sn"))) [
    | inl e ↦ rw e (All-pack_points sn props v)
    | inr e ↦ rw e (IsPlausible-pack_point sn key raw v, All-pack_points sn props v)
  ]

  serial_of-valid :
      (pack : Map (Value F)) (sn : Bytes) → serial_of pack ≡ some sn → valid_pack_sn sn ≡ true
  unfolding serial_of
  serial_of-valid pack sn h = ground arith

  All-serial :
      (o : Option Bytes) (pack : Map (Value F)) (rest : List (Point F))
      → serial_of pack ≡ o
      → All IsPlausible rest
      → All IsPlausible (elim o [ none ↦ rest | some sn ↦ pack_points cat sn pack ++ rest ])
  All-serial none pack rest e h = h
  All-serial (some sn) pack rest e h =
      All-append IsPlausible (pack_points cat sn pack) rest
        (All-pack_points sn pack (serial_of-valid pack sn e)) h

  All-packs_points : (packs : List (Map (Value F))) → All IsPlausible (packs_points cat packs)
  unfolding packs_points
  All-packs_points [] = tt
  All-packs_points (pack ∷ packs) =
      All-serial (serial_of pack) pack (packs_points cat packs) refl (All-packs_points packs)

  get_elem?-property_points :
      (props : Map (Value F)) (rest : List (Point F)) (n : ℕ) (key : Bytes) (raw : Value F)
      → get_elem? props n ≡ some (key, raw)
      → get_elem? (property_points cat props ++ rest) n ≡ some (property_point cat key raw)
  unfolding property_points
  get_elem?-property_points [] rest n key raw h = cc
  get_elem?-property_points ((k, r) ∷ props) rest zero key raw h = ground arith
  get_elem?-property_points ((k, r) ∷ props) rest (suc n) key raw h =
      get_elem?-property_points props rest n key raw h

  -- Whatever a device reports, every point has a plausible pack serial or none, and a safe topic if
  -- the catalog does not name it; and every property of the report has its point, the n-th at the
  -- n-th place.
  pub resolve-IsPlausible :
      (rep : Report F)
      → All IsPlausible (resolve rep cat)
        × ((n : ℕ) (key : Bytes) (raw : Value F)
            → get_elem? rep.properties n ≡ some (key, raw)
            → get_elem? (resolve rep cat) n ≡ some (property_point cat key raw))
  unfolding resolve
  resolve-IsPlausible rep = (
    All-append IsPlausible (property_points cat rep.properties) (packs_points cat rep.pack_data)
        (All-property_points rep.properties) (All-packs_points rep.pack_data),
    get_elem?-property_points rep.properties (packs_points cat rep.pack_data),
  )
