-- ===== src/Process/Points.antt =====
-- Resolve, applyEntry, toFloat, codeOf and Owners of internal/process/process.go, Item of
-- internal/process/topic.go, and the report of internal/zendure/model/model.go. The entries of a
-- map stand in the order in which the loop meets them.
use go_zendure2mqtt.Common.{
  ◌-◌, ◌^◌, Bytes, str, beq, lookup, Map, Value, FloatOps, nil, float, int, text, Option, none,
  some, Bool, true, false, List, [], ◌∷◌, ◌++◌, ◌||◌, not, pos, negsuc, atoi, itoa, trim_space,
  if◌then◌else◌, has_key,
}
use go_zendure2mqtt.Catalog.Entry.{Entry, topic_leaf, token}
use go_zendure2mqtt.Catalog.Load.{Catalog, by_property}
use go_zendure2mqtt.Process.Segment.{sanitize_segment, valid_pack_sn, group_or_default}

abbrev pub group_misc : Bytes
group_misc = str "misc"

abbrev pub group_battery : Bytes
group_battery = str "battery"

-- A report, of which the bridge reads these fields.
pub record Report (F : Type 0) : Type 0 where
  pub sn : Bytes
  pub product : Bytes
  pub properties : Map (Value F)
  pub pack_data : List (Map (Value F))

pub record Point (F : Type 0) : Type 0 where
  pub group : Bytes
  pub topic : Bytes
  pub pack_sn : Bytes
  pub value : Value F
  pub entry : Option (Entry F)
  pub unmapped : Bool

module _ {F : Type 0} ⦃fl : FloatOps F⦄ where
  unfoldable pub to_float : Value F → Option F
  to_float (float x) = some x
  to_float (int n) = some (fl.of_int n)
  to_float _ = none

  -- f != math.Trunc(f) || math.IsInf(f, 0) || f > math.MaxInt32 || f < math.MinInt32
  unfoldable pub no_code : F → Bool
  no_code f =
      not (fl.feq f (fl.trunc f))
      || (fl.is_inf f
          || (fl.flt (fl.of_int (pos (2 ^ 31 - 1))) f
              || fl.flt f (fl.of_int (negsuc (2 ^ 31 - 1)))))

  unfoldable pub code_of : Value F → Option Bytes
  unfolding to_float no_code
  code_of (text s) = elim (atoi (trim_space s)) [ none ↦ none | some i ↦ some (itoa i) ]
  code_of v = elim (to_float v) [
    | none ↦ none
    | some f ↦ if no_code f then none else some (itoa (fl.to_int f))
  ]

  -- raw == nil || raw == ""
  unfoldable pub no_value : Value F → Bool
  no_value nil = true
  no_value (text s) = beq s []
  no_value _ = false

  -- a raw value through the value map
  unfoldable pub apply_map : Entry F → Value F → Value F × Bool
  unfolding no_value code_of
  apply_map e raw = if no_value raw then (raw, false) else elim (code_of raw) [
    | none ↦ (raw, true)
    | some code ↦ elim (token e code) [ none ↦ (raw, true) | some t ↦ (text t, false) ]
  ]

  abbrev pub is_zero : F → Bool
  is_zero x = fl.feq x (fl.of_int (pos 0))

  unfoldable pub apply_scale : Entry F → Value F → Value F × Bool
  unfolding to_float
  apply_scale e raw =
      if not (is_zero e.scale) || not (is_zero e.offset)
      then (elim (to_float raw) [
        | none ↦ (raw, false)
        | some f ↦
            let g = if not (is_zero e.offset) then fl.sub f e.offset else f in
            (float (if not (is_zero e.scale) then fl.div g e.scale else g), false)
      ])
      else (raw, false)

  unfoldable pub apply_entry : Entry F → Value F → Value F × Bool
  unfolding apply_map apply_scale
  apply_entry e raw = elim e.value_map [ [] ↦ apply_scale e raw | m ∷ ms ↦ apply_map e raw ]

  -- one property of the unit
  unfoldable pub property_point : Catalog F → Bytes → Value F → Point F
  unfolding apply_entry
  property_point cat key raw = elim (by_property cat key) [
    | none ↦ record {
      group = group_misc;
      topic = sanitize_segment key;
      pack_sn = [];
      value = raw;
      entry = none;
      unmapped = false;
    }
    | some e ↦ record {
      group = group_or_default e.group group_misc;
      topic = topic_leaf e;
      pack_sn = [];
      value = (apply_entry e raw).0;
      entry = some e;
      unmapped = (apply_entry e raw).1;
    }
  ]

  -- one property of a battery pack
  unfoldable pub pack_point : Catalog F → Bytes → Bytes → Value F → Point F
  unfolding apply_entry
  pack_point cat sn key raw = elim (by_property cat key) [
    | none ↦ record {
      group = group_battery;
      topic = sanitize_segment key;
      pack_sn = sn;
      value = raw;
      entry = none;
      unmapped = false;
    }
    | some e ↦ record {
      group = group_battery;
      topic = topic_leaf e;
      pack_sn = sn;
      value = (apply_entry e raw).0;
      entry = some e;
      unmapped = (apply_entry e raw).1;
    }
  ]

  unfoldable pub property_points : Catalog F → Map (Value F) → List (Point F)
  property_points cat [] = []
  property_points cat ((key, raw) ∷ props) = property_point cat key raw ∷ property_points cat props

  unfoldable pub pack_points : Catalog F → Bytes → Map (Value F) → List (Point F)
  pack_points cat sn [] = []
  pack_points cat sn ((key, raw) ∷ props) =
      let rest = pack_points cat sn props in
      if beq key (str "sn") then rest else pack_point cat sn key raw ∷ rest

  -- the text that a pack reports as its serial, if it is a plausible one
  unfoldable pub serial_of : Map (Value F) → Option Bytes
  serial_of pack = elim (lookup (str "sn") pack) [
    | some (text sn) ↦ if valid_pack_sn sn then some sn else none
    | _ ↦ none
  ]

  unfoldable pub packs_points : Catalog F → List (Map (Value F)) → List (Point F)
  unfolding serial_of
  packs_points cat [] = []
  packs_points cat (pack ∷ packs) =
      let rest = packs_points cat packs in
      elim (serial_of pack) [ none ↦ rest | some sn ↦ pack_points cat sn pack ++ rest ]

  unfoldable pub resolve : Report F → Catalog F → List (Point F)
  unfolding property_points packs_points
  resolve rep cat = property_points cat rep.properties ++ packs_points cat rep.pack_data

module _ {F : Type 0} where
  -- p.Entry == nil || p.Entry.Platform == ""
  unfoldable pub mints_nothing : Point F → Bool
  mints_nothing p = elim p.entry [ none ↦ true | some e ↦ beq e.platform [] ]

  -- the loop of Owners, with `seen` as the list of its keys
  unfoldable pub owners_loop : List Bytes → List (Point F) → List Bytes
  unfolding mints_nothing
  owners_loop seen [] = []
  owners_loop seen (p ∷ ps) =
      let skipped = owners_loop seen ps in
      let taken = p.pack_sn ∷ owners_loop (p.pack_sn ∷ seen) ps in
      if mints_nothing p || has_key p.pack_sn seen then skipped else taken

  unfoldable pub owners : List (Point F) → List Bytes
  unfolding owners_loop
  owners ps = owners_loop [] ps

  -- Item: the levels of a point's item path
  unfoldable pub item_path : Bytes → Point F → List Bytes
  item_path sn p = elim p.pack_sn [
    | [] ↦ sn ∷ p.group ∷ p.topic ∷ []
    | c ∷ s ↦ sn ∷ p.group ∷ p.pack_sn ∷ p.topic ∷ []
  ]
