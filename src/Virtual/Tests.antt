-- ===== src/Virtual/Tests.antt =====
-- The switches over a concrete report.
use go_zendure2mqtt.Common.{str, float, [], ◌∷◌, ℤ, pos}
use go_zendure2mqtt.Common.Samples.{int_floats}
use go_zendure2mqtt.Process.Points.{Report}

abbrev before : Report ℤ
before = record {
  sn = str "A1";
  product = [];
  properties = (str "acMode", float (pos 2)) ∷ (str "outputLimit", float (pos 300)) ∷ [];
  pack_data = [];
}
