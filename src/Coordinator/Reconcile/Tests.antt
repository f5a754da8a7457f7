-- ===== src/Coordinator/Reconcile/Tests.antt =====
-- The reconcile of one device's discovery configs.
use go_zendure2mqtt.Common.{
  Bytes, str, beq, lookup, insert, sort_keys, keys, less, has_key, has_prefix, contains_byte,
  Option, none, some, true, false, List, [], ◌∷◌, ◌≡◌, ◌↔◌, refl,
}
use mathlib.Core.List.{Perm}
use go_zendure2mqtt.Hass.Publish.{Bundle, new_discovery, component_ids, mark, publish_bundle}
use go_zendure2mqtt.Hass.Ownership.{
  is_own_config, owns_device_config_topic, owns_identity, owns_each, owns_body,
}
use go_zendure2mqtt.Coordinator.Reconcile.{
  Gate, Retained, is_ours, reconcile_orphans, sweep_orphans,
}
use go_zendure2mqtt.Coordinator.Reconcile.Signature.{gate_behind, reconcile_orphans-changed}
use go_zendure2mqtt.Coordinator.Reconcile.Orphans.{
  IsShown, sweep_orphans-retracts, publish_bundle-sweep_orphans,
}

abbrev gate : Gate
gate = record { last = []; busy = [] }

abbrev one : List Bytes
one = str "h/device/z_A/config" ∷ []

abbrev two : List Bytes
two = str "h/device/z_A/config" ∷ str "h/device/z_A_pack_P/config" ∷ []

reconcile_orphans-changed_example :
    (Perm one two → (reconcile_orphans (str "A") two (gate_behind (str "A") one gate)).1 ≡ false)
    × ((reconcile_orphans (str "A") two (gate_behind (str "A") one gate)).1 ≡ true)
unfolding contains_byte has_key beq
reconcile_orphans-changed_example =
    let both = reconcile_orphans-changed (str "A") one two gate in
    (
      both.0,
      both.1 (str "h/device/z_A_pack_P/config") ((refl, tt), refl) ((refl, (refl, tt)), refl)
          (λ e. cc),
    )

abbrev unit : Bundle
unit = record { node_id = str "z_A"; components = (str "bat", str "z_A_bat") ∷ [] }

abbrev kept : Retained
kept = record {
  parsed = record { bundle = true; node_id = str "z_A"; platform = []; object_id = [] };
  body = some (record {
    itself = record { unique_id = []; state_topic = [] };
    components = (str "bat", record { unique_id = str "z_A_bat"; state_topic = str "z/x" }) ∷ [];
  });
  topic = str "z_A";
}

sweep_orphans-retracts_example :
    ((has_key
          (str "z_A")
          (sweep_orphans (str "z") (str "z") (str "A") [] [] none (kept ∷ []) new_discovery).0
        ≡ true)
      ↔ (IsShown (str "z") (str "z") (str "A") (str "z_A") (kept ∷ [])
          × (has_key (str "z_A") [] ≡ false)
          × (has_key (str "z_A") [] ≡ false)))
    × ((e : Bytes)
        → sweep_orphans (str "z") (str "z") (str "A") [] [] (some e) (kept ∷ []) new_discovery
          ≡ ([], new_discovery))
sweep_orphans-retracts_example =
    sweep_orphans-retracts (str "z") (str "z") (str "A") (str "z_A") [] [] (kept ∷ []) new_discovery

abbrev topic : Bundle → Bytes
topic b = b.node_id

abbrev arrives : Bundle → Option Bytes
arrives b = none

publish_bundle-sweep_orphans_example :
    (publish_bundle topic arrives unit
      (sweep_orphans
        (str "z")
        (str "z")
        (str "A")
        []
        []
        none
        (kept ∷ [])
        (mark (str "z_A") (component_ids unit) new_discovery)).1).attempts
    ≡ unit ∷ []
unfolding component_ids lookup insert sort_keys keys beq less has_key is_ours is_own_config
    owns_device_config_topic owns_identity owns_each owns_body has_prefix mark
publish_bundle-sweep_orphans_example =
    publish_bundle-sweep_orphans topic arrives (str "z") (str "z") (str "A") (str "z_A_bat") [] []
      (kept ∷ []) unit (mark (str "z_A") (component_ids unit) new_discovery) refl refl refl refl
      refl
