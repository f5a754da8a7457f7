-- ===== src/State/Tests.antt =====
-- The store on concrete operations.
use go_zendure2mqtt.Common.{str, none, false, List, [], ◌∷◌, ◌≡◌, ℤ, has_key}
use go_zendure2mqtt.State.Store.{Problem, new_store, snapshot_of}
use go_zendure2mqtt.State.Listed.{
  Op, updates, sets_online, perform_all, is_named, serials, snapshot_of-listed,
}

abbrev refused_set : Problem
refused_set = record { at = 0; sn = str "A1"; event = str "coordinator.set_rejected"; detail = [] }

abbrev operations : List (Op ℤ)
operations =
    sets_online (str "B2") false ∷ updates 5 (record { sn = str "A1"; model = [] }) none [] [] ∷ []

snapshot_of-listed_example :
    has_key (str "B2") (serials (snapshot_of (perform_all operations new_store)))
    ≡ is_named (str "B2") operations
snapshot_of-listed_example = snapshot_of-listed (str "B2") operations
