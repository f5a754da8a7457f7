-- ===== src/Process/Tests.antt =====
-- The theorems on reports, on a concrete one.
use go_zendure2mqtt.Common.{
  str, float, text, none, some, true, false, [], ◌∷◌, ◌≡◌, refl, ℤ, pos, get_elem?,
}
use go_zendure2mqtt.Common.Samples.{int_floats}
use go_zendure2mqtt.Catalog.Entry.{Entry}
use go_zendure2mqtt.Catalog.Load.{new_catalog}
use go_zendure2mqtt.Process.Segment.{sanitize_segment}
use go_zendure2mqtt.Process.SegmentSafe.{IsTopicSafe, sanitize_segment-IsTopicSafe}
use go_zendure2mqtt.Process.Points.{Report, resolve, property_point}
use go_zendure2mqtt.Process.Resolved.{resolve-IsPlausible}

abbrev work_mode : Entry ℤ
work_mode = record {
  property = str "workMode";
  topic = [];
  group = [];
  platform = str "select";
  device_class = [];
  unit = [];
  scale = pos 0;
  offset = pos 0;
  writable = true;
  confirm = false;
  min = none;
  max = none;
  step = none;
  value_map = (str "0", str "off") ∷ (str "1", str "on") ∷ [];
  value_map_de = [];
  name = [];
  name_de = [];
}

abbrev first_report : Report ℤ
first_report = record {
  sn = str "A1";
  product = str "solarFlow";
  properties = (str "workMode", float (pos 1)) ∷ (str "odd/key", float (pos 7)) ∷ [];
  pack_data = ((str "sn", text (str "P-1")) ∷ (str "soc", float (pos 50)) ∷ []) ∷ [];
}

sanitize_segment-IsTopicSafe_example :
    IsTopicSafe (sanitize_segment (str "odd/key"))
    × (sanitize_segment (sanitize_segment (str "odd/key")) ≡ sanitize_segment (str "odd/key"))
sanitize_segment-IsTopicSafe_example = sanitize_segment-IsTopicSafe (str "odd/key")

resolve-IsPlausible_example :
    get_elem? (resolve first_report (new_catalog (work_mode ∷ []))) 1
    ≡ some (property_point (new_catalog (work_mode ∷ [])) (str "odd/key") (float (pos 7)))
resolve-IsPlausible_example =
    (resolve-IsPlausible (new_catalog (work_mode ∷ [])) first_report).1 1 (str "odd/key")
      (float (pos 7)) refl
