-- ===== src/Hass/Ownership.antt =====
-- internal/hass/cleanup.go: which retained discovery configs are this daemon's own. The decoded body
-- of a payload and publisher.ConfigTopic of go-hamqtt are records; a body is `none` where
-- json.Unmarshal fails. Also the identity formulas of internal/hass/discovery.go.
use go_zendure2mqtt.Common.{
  Bytes, str, beq, has_prefix, Map, Option, none, some, Bool, true, false, not, [], ◌∷◌, ◌++◌, ◌||◌,
  ◌&&◌, if◌then◌else◌,
}

pub record Identity : Type 0 where
  pub unique_id : Bytes
  pub state_topic : Bytes

-- the body that IsOwnConfig decodes
pub record Body : Type 0 where
  pub itself : Identity
  pub components : Map Identity

unfoldable pub owns_identity : Bytes → Bytes → Identity → Bool
owns_identity name identity i =
    has_prefix i.unique_id (identity ++ str "_")
    && (beq i.state_topic []
        || (has_prefix i.state_topic (name ++ str "/")
            || has_prefix i.state_topic (identity ++ str "/")))

unfoldable pub owns_each : Bytes → Bytes → Map Identity → Bool
unfolding owns_identity
owns_each name identity [] = true
owns_each name identity ((key, i) ∷ m) = owns_identity name identity i && owns_each name identity m

unfoldable pub owns_body : Bytes → Bytes → Identity → Map Identity → Bool
unfolding owns_each
owns_body name identity itself [] = owns_identity name identity itself
owns_body name identity itself (c ∷ cs) = owns_each name identity (c ∷ cs)

-- IsOwnConfig
unfoldable pub is_own_config : Bytes → Bytes → Option Body → Bool
unfolding owns_body
is_own_config name identity none = false
is_own_config name identity (some b) = owns_body name identity b.itself b.components

-- publisher.ConfigTopic
pub record ConfigTopic : Type 0 where
  pub bundle : Bool
  pub node_id : Bytes
  pub platform : Bytes
  pub object_id : Bytes

unfoldable pub owns_device_config_topic : Bytes → Bytes → ConfigTopic → Bool
owns_device_config_topic identity sn t =
    let device = identity ++ b'_' ∷ sn in
    if t.bundle
    then beq t.node_id device || has_prefix t.node_id (device ++ str "_pack_")
    else if beq t.platform [] || (not (beq t.node_id []) || beq t.object_id [])
    then false
    else has_prefix t.object_id (device ++ str "_")

-- UniqueID
unfoldable pub unique_id : Bytes → Bytes → Bytes → Bytes → Bytes
unique_id root sn pack_sn leaf =
    if beq pack_sn []
    then root ++ b'_' ∷ (sn ++ b'_' ∷ leaf)
    else root ++ b'_' ∷ (sn ++ (str "_pack_" ++ (pack_sn ++ b'_' ∷ leaf)))
