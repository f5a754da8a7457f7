-- ===== src/Hass/Tests.antt =====
-- The Home Assistant modules on the documents of a unit with one battery pack.
use go_zendure2mqtt.Common.{
  Bytes, str, beq, split_levels, join, lookup, insert, has_key, sort_keys, keys, less, to_lower,
  contains_byte, has_prefix, Option, none, some, true, [], ◌∷◌, ◌++◌, ◌≡◌, refl, ◌⊎◌,
}
use go_zendure2mqtt.Hass.Publish.{
  Bundle, render_failed, rendered, new_discovery, component_ids, ids_at, is_fresh, mark,
  publish_bundle, publish_all, forget, remove_key, remove_keys,
}
use go_zendure2mqtt.Hass.Gate.{publish_all_again}
use go_zendure2mqtt.Hass.Missed.{after_both, publish_bundle-regrown}
use go_zendure2mqtt.Hass.Ownership.{
  ConfigTopic, Body, is_own_config, owns_device_config_topic, unique_id,
}
use go_zendure2mqtt.Hass.Owned.{owns_device_config_topic_unique, unique_id-owned, entity_topic}
use go_zendure2mqtt.Hass.Names.{entity_object_id, device_name, slugify, collapse_tokens}
use go_zendure2mqtt.Hass.Tokens.{are_tokens, entity_object_id-are_tokens}

abbrev unit : Bundle
unit = record {
  node_id = str "z_A";
  components = (str "lvl", str "z_A_lvl") ∷ (str "bat", str "z_A_bat") ∷ [];
}

abbrev smaller : Bundle
smaller = record {
  node_id = str "z_A";
  components = (str "bat", str "z_A_bat") ∷ (str "pv", str "z_A_pv") ∷ [];
}

abbrev pack : Bundle
pack = record { node_id = str "z_A_pack_P"; components = (str "soc", str "z_A_pack_P_soc") ∷ [] }

abbrev topic : Bundle → Bytes
topic b = b.node_id

abbrev arrives : Bundle → Option Bytes
arrives b = none

component_ids_sorted : component_ids unit ≡ str "z_A_bat" ∷ str "z_A_lvl" ∷ []
unfolding component_ids lookup sort_keys keys beq less
component_ids_sorted = refl

forget_once : (forget (str "t" ∷ []) (mark (str "t") (str "a" ∷ []) new_discovery)).sent ≡ []
unfolding forget remove_key remove_keys mark insert lookup beq
forget_once = refl

publish_all_again_example :
    publish_all topic
      (λ b. some (str "down"))
      (rendered unit ∷ render_failed ∷ rendered pack ∷ [])
      (publish_all topic arrives
        (rendered unit ∷ render_failed ∷ rendered pack ∷ [])
        new_discovery).state
    ≡ record {
      state =
          (publish_all topic arrives
            (rendered unit ∷ render_failed ∷ rendered pack ∷ [])
            new_discovery).state;
      topics =
          (publish_all topic arrives
            (rendered unit ∷ render_failed ∷ rendered pack ∷ [])
            new_discovery).topics;
      attempts = [];
    }
publish_all_again_example =
    publish_all_again topic arrives (λ b. some (str "down"))
      (rendered unit ∷ render_failed ∷ rendered pack ∷ []) new_discovery (λ b. refl)

publish_bundle-regrown_example :
    (ids_at (after_both topic arrives unit smaller new_discovery).by_topic (str "z_A")
      ≡ component_ids smaller)
    × (publish_bundle topic arrives unit (after_both topic arrives unit smaller new_discovery)
        ≡ record {
          state = after_both topic arrives unit smaller new_discovery;
          topics = str "z_A" ∷ [];
          attempts = [];
        })
unfolding component_ids lookup sort_keys keys beq has_key is_fresh less
publish_bundle-regrown_example =
    publish_bundle-regrown topic arrives unit smaller new_discovery refl refl refl refl refl

abbrev pack_topic : ConfigTopic
pack_topic = record { bundle = true; node_id = str "z_A_pack_P"; platform = []; object_id = [] }

owns_device_config_topic_unique_example : str "A" ≡ str "A"
unfolding owns_device_config_topic beq contains_byte has_prefix
owns_device_config_topic_unique_example =
    owns_device_config_topic_unique (str "z") (str "A") (str "A") pack_topic refl refl refl refl

abbrev document : Option Body
document = some (record {
  itself = record { unique_id = []; state_topic = [] };
  components =
      (str "lvl", record { unique_id = str "z_A_lvl"; state_topic = str "zendure/status/A/lvl" })
      ∷ [];
})

unique_id-owned_example :
    (owns_device_config_topic
        (str "z")
        (str "A")
        (entity_topic (str "sensor") (unique_id (str "z") (str "A") (str "P") (str "soc")))
      ≡ true)
    × (is_own_config (str "zendure") (str "z") (
          some (record {
            itself = record {
              unique_id = unique_id (str "z") (str "A") (str "P") (str "soc");
              state_topic = str "zendure" ++ str "/" ++ str "x";
            };
            components = [];
          }))
        ≡ true)
    × (is_own_config (str "zendure") (str "z") (
          some (record {
            itself = record {
              unique_id = unique_id (str "z") (str "A") (str "P") (str "soc");
              state_topic = str "z" ++ str "/" ++ str "x";
            };
            components = [];
          }))
        ≡ true)
unique_id-owned_example =
    unique_id-owned (str "zendure") (str "z") (str "A") (str "P") (str "soc") (str "sensor")
      (str "x") (λ e. cc)

entity_object_id_run :
    entity_object_id (str "Zendure Hoa1") (str "hoa1/electric-level")
    ≡ str "zendure_hoa1_electric_level"
unfolding entity_object_id collapse_tokens slugify split_levels beq to_lower join
entity_object_id_run = refl

device_name_run : device_name (str "A") [] (str "P") ≡ str "Zendure A Pack P"
unfolding device_name beq
device_name_run = refl

entity_object_id-are_tokens_example :
    (entity_object_id (str "Zendure A") (str "a") ≡ [])
    ⊎ (are_tokens none (split_levels b'_' (entity_object_id (str "Zendure A") (str "a"))) ≡ true)
entity_object_id-are_tokens_example = entity_object_id-are_tokens (str "Zendure A") (str "a")
