-- ===== src/Evcc/Tests.antt =====
-- The evcc theorems on concrete properties.
use go_zendure2mqtt.Common.{str, Map, Value, float, [], ◌∷◌, ℤ, pos}
use go_zendure2mqtt.Common.Samples.{int_floats}

abbrev sample : Map (Value ℤ)
sample = (str "acMode", float (pos 2)) ∷ (str "outputLimit", float (pos 300)) ∷ []
