-- ===== src/Hass/Publish.antt =====
-- internal/hass/discovery.go: Publish, componentIDs, Forget and Reopen. Rendering is an argument,
-- and so is `topic_of`, Bundle.Topic of go-hamqtt. A set is the list of its members. The lock
-- is taken twice in one round of Publish; with one caller at a time for a device, a round is one step.
use go_zendure2mqtt.Common.{
  Bytes, beq, lookup, insert, delete, keys, sort_keys, has_key, Map, Option, none, some, Bool,
  false, not, List, [], ◌∷◌, ◌++◌, ◌||◌, if◌then◌else◌,
}

-- discovery.Bundle: the unique id of each component, by the component's key
pub record Bundle : Type 0 where
  pub node_id : Bytes
  pub components : Map Bytes

-- What BundleRenderer.Bundle gives back.
pub data Rendered : Type 0 where
  render_failed no_bundle : Rendered
  rendered : Bundle → Rendered

pub record Discovery : Type 0 where
  pub sent : List Bytes
  pub by_topic : Map (List Bytes)

abbrev pub new_discovery : Discovery
new_discovery = record { sent = []; by_topic = [] }

unfoldable pub ids_of : List Bytes → Map Bytes → List Bytes
ids_of [] components = []
ids_of (key ∷ ks) components =
    let rest = ids_of ks components in
    elim (lookup key components) [
      | none ↦ rest
      | some uid ↦ if beq uid [] then rest else uid ∷ rest
    ]

-- componentIDs, over the keys in sorted order, as Bundle.Keys gives them
unfoldable pub component_ids : Bundle → List Bytes
unfolding ids_of
component_ids b = ids_of (sort_keys (keys b.components)) b.components

unfoldable pub is_fresh : List Bytes → List Bytes → Bool
is_fresh [] sent = false
is_fresh (id ∷ ids) sent = not (has_key id sent) || is_fresh ids sent

-- the state behind a document that reached the broker
unfoldable pub mark : Bytes → List Bytes → Discovery → Discovery
mark topic ids d = record { sent = ids ++ d.sent; by_topic = insert topic ids d.by_topic }

-- What a round, or a whole Publish, leaves: the state, the topics of the device's current set, and the
-- documents handed to PublishBundle.
pub record Published : Type 0 where
  pub state : Discovery
  pub topics : List Bytes
  pub attempts : List Bundle

module _ (topic_of : Bundle → Bytes) (answer : Bundle → Option Bytes) where
  -- a document whose turn it is: `answer` is PublishBundle's error
  unfoldable pub attempt : Bundle → Discovery → Discovery
  unfolding mark
  attempt b d = elim (answer b) [ some e ↦ d | none ↦ mark (topic_of b) (component_ids b) d ]

  unfoldable pub publish_bundle : Bundle → Discovery → Published
  unfolding attempt
  publish_bundle b d =
      if is_fresh (component_ids b) d.sent
      then record { state = attempt b d; topics = topic_of b ∷ []; attempts = b ∷ [] }
      else record { state = d; topics = topic_of b ∷ []; attempts = [] }

  -- one round of the loop
  unfoldable pub publish_one : Rendered → Discovery → Published
  unfolding publish_bundle
  publish_one render_failed d = record { state = d; topics = []; attempts = [] }
  publish_one no_bundle d = record { state = d; topics = []; attempts = [] }
  publish_one (rendered b) d = publish_bundle b d

  -- Publish, over what each owner renders to
  unfoldable pub publish_all : List Rendered → Discovery → Published
  unfolding publish_one
  publish_all [] d = record { state = d; topics = []; attempts = [] }
  publish_all (r ∷ rs) d =
      let one = publish_one r d in
      let rest = publish_all rs one.state in
      record {
        state = rest.state;
        topics = one.topics ++ rest.topics;
        attempts = one.attempts ++ rest.attempts;
      }

-- delete(d.sent, id) for each id
unfoldable pub remove_key : Bytes → List Bytes → List Bytes
remove_key k [] = []
remove_key k (j ∷ ks) = let rest = remove_key k ks in if beq j k then rest else j ∷ rest

unfoldable pub remove_keys : List Bytes → List Bytes → List Bytes
unfolding remove_key
remove_keys [] ks = ks
remove_keys (id ∷ ids) ks = remove_keys ids (remove_key id ks)

abbrev pub ids_at : Map (List Bytes) → Bytes → List Bytes
ids_at m topic = elim (lookup topic m) [ none ↦ [] | some ids ↦ ids ]

-- Forget
unfoldable pub forget : List Bytes → Discovery → Discovery
unfolding remove_keys
forget [] d = d
forget (topic ∷ topics) d = forget topics (record {
  sent = remove_keys (ids_at d.by_topic topic) d.sent;
  by_topic = delete topic d.by_topic;
})

-- Reopen
unfoldable pub reopen : Discovery → Discovery
reopen d = record d { sent = [] }
