-- ===== src/Coordinator/Publish/Tests.antt =====
-- The publish path on a point that the catalog does not map.
use go_zendure2mqtt.Common.{
  ◌≤◌, ◌<◌, Bytes, str, beq, has_key, Value, text, none, some, true, false, List, [], ◌∷◌, ◌≡◌,
  refl, ℤ, length, arith,
}
use go_zendure2mqtt.Common.Samples.{int_floats}
use go_zendure2mqtt.Process.Points.{Point, no_value}
use go_zendure2mqtt.Coordinator.Publish.{
  evicted, StatePlane, publish_state, max_unmapped_warnings, warning_key, publish_points,
}
use go_zendure2mqtt.Coordinator.Publish.Warned.{publish_points-warns}

abbrev plane : StatePlane ℤ
plane = record { evict_fails = λ t. false; publish_status = λ t v. some true }

abbrev odd : Point ℤ
odd = record {
  group = str "misc";
  topic = str "t";
  pack_sn = [];
  value = text (str "9");
  entry = none;
  unmapped = true;
}

publish_state_empty : publish_state plane (str "t") (text []) ≡ (evicted (str "t"), true)
unfolding publish_state beq no_value
publish_state_empty = refl

abbrev print : Value ℤ → Bytes
print v = str "9"

abbrev status : List Bytes → Bytes
status ls = str "s"

publish_points-warns_example :
    (length (publish_points print status plane (str "A") (odd ∷ []) []).0 ≤ max_unmapped_warnings)
    × (has_key
            (warning_key print (str "A") odd)
            (publish_points print status plane (str "A") (odd ∷ []) []).1
          ≡ true
        → length (publish_points print status plane (str "A") (odd ∷ []) []).0
          < max_unmapped_warnings
        → has_key
            (warning_key print (str "A") odd)
            (publish_points print status plane
              (str "A")
              (odd ∷ [])
              (publish_points print status plane (str "A") (odd ∷ []) []).0).1
          ≡ false)
publish_points-warns_example =
    publish_points-warns print status plane (str "A") (warning_key print (str "A") odd) (odd ∷ [])
      (odd ∷ []) [] (omega arith)
