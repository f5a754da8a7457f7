-- ===== src/Harender/Layout.antt =====
-- The topics of internal/harender/harender.go. `status` and `set` are the methods of go-hamqtt's
-- topic.SmartHome, over the levels of an item, and `connected` its status topic.
use go_zendure2mqtt.Common.{Bytes, str, beq, none, false, List, [], ◌∷◌, ◌++◌, if◌then◌else◌, nil}
use go_zendure2mqtt.Process.Points.{Point, item_path}

pub record Layout : Type 0 where
  pub name : Bytes
  pub status : List Bytes → Bytes
  pub set : List Bytes → Bytes
  pub connected : Bytes

-- hamodel.Slot
pub record Slot : Type 0 where
  pub address : Bytes
  pub channel : Bytes
  pub path : List Bytes

module _ {F : Type 0} where
  -- Slot
  unfoldable pub slot_of : Bytes → Point F → Slot
  slot_of sn p = record { address = sn; channel = p.pack_sn; path = p.group ∷ p.topic ∷ [] }

  -- a point that has no value
  abbrev pub bare_point : Bytes → Bytes → Bytes → Point F
  bare_point pack_sn group topic = record {
    group = group;
    topic = topic;
    pack_sn = pack_sn;
    value = nil;
    entry = none;
    unmapped = false;
  }

  -- pointOf
  unfoldable pub point_of : Slot → Point F
  point_of s = elim s.path [
    | [] ↦ bare_point s.channel [] []
    | group ∷ rest ↦ elim rest [
      | [] ↦ bare_point s.channel group []
      | topic ∷ more ↦ bare_point s.channel group topic
    ]
  ]

  -- Layout.StateTopic
  unfoldable pub state_topic : Layout → Bytes → Point F → Bytes
  state_topic l sn p = l.status (item_path sn p)

-- Layout.State and Layout.Command, for points over floats of type F
unfoldable pub state_of : (F : Type 0) → Layout → Slot → Bytes
unfolding point_of
state_of F l s = l.status (item_path s.address (point_of {F = F} s))

unfoldable pub command_of : (F : Type 0) → Layout → Slot → Bytes
unfolding point_of
command_of F l s = l.set (item_path s.address (point_of {F = F} s))

-- Layout.Online and Layout.Availability
unfoldable pub online_of : Layout → Bytes → Bytes
online_of l sn = if beq sn [] then [] else l.status (sn ∷ str "online" ∷ [])

unfoldable pub availability_of : Layout → Slot → Bytes
unfolding online_of
availability_of l s = online_of l s.address

-- the filters of the commands
unfoldable pub command_filter : Layout → Bytes
command_filter l = l.name ++ str "/set/+/+/+"

unfoldable pub evcc_command_filter : Layout → Bytes
evcc_command_filter l = l.name ++ str "/set/+/evcc/+/+"

-- Layout.EVCCStatus and Layout.EVCCSet
unfoldable pub evcc_status : Layout → Bytes → Bytes → Bytes → Bytes
evcc_status l sn role key = l.status (sn ∷ str "evcc" ∷ role ∷ key ∷ [])

unfoldable pub evcc_set : Layout → Bytes → Bytes → Bytes → Bytes
evcc_set l sn role key = l.set (sn ∷ str "evcc" ∷ role ∷ key ∷ [])
