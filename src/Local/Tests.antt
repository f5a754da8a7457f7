-- ===== src/Local/Tests.antt =====
-- Polls of two devices.
use go_zendure2mqtt.Common.{
  Bytes, str, lookup, Bool, true, false, Option, some, List, [], ◌∷◌, ◌≡◌, ℤ,
}
use go_zendure2mqtt.Process.Points.{Report}
use go_zendure2mqtt.Local.Poll.{LocalUnit, Polled, after_polls, heard, after_polls-debounced}
use go_zendure2mqtt.Local.Debounce.{outcomes, debounced}

abbrev polled : List (Bytes × Bool)
polled = (str "A1", false) ∷ (str "B2", false) ∷ (str "A1", false) ∷ (str "A1", true) ∷ []

abbrev hub : LocalUnit
hub = record {
  sn = str "A1";
  device_id = str "A1";
  device_name = [];
  model = [];
  address = str "10.0.0.2";
}

abbrev readable : Bytes → Option (Report ℤ)
readable s = some (record { sn = []; product = []; properties = []; pack_data = [] })

abbrev polls : List Polled
polls =
    record { dev = hub; cancelled = false; answer = some (record { status = 500; body = [] }) }
    ∷ record {
      dev = hub;
      cancelled = false;
      answer = some (record { status = 200; body = str "{}" });
    }
    ∷ []

after_polls-debounced_example :
    lookup (str "A1") (after_polls readable polls).reachable
    ≡ debounced (outcomes (str "A1") (heard readable polls))
after_polls-debounced_example = after_polls-debounced readable polls (str "A1")
