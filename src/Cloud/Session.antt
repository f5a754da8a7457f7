-- ===== src/Cloud/Session.antt =====
-- internal/zendure/cloud/source.go: the cloud backend's state, the login's devices, the routing of a
-- message, the observer, the subscriptions and a write. `parse` is model.ParseReport, a call of
-- json.Unmarshal. There is an observer; a handler of one event is one step.
use go_zendure2mqtt.Common.{
  cut, ℕ, ◌+◌, Bytes, str, beq, lookup, insert, cut_prefix, Map, Value, Option, none, some, Bool,
  true, false, not, List, [], ◌∷◌, ◌++◌, if◌then◌else◌,
}
use go_zendure2mqtt.Cloud.Login.{Creds, LoginDevice, LoginResult}
use go_zendure2mqtt.Process.Points.{Report}

-- source.Device, without the friendly name, which the cloud leaves empty
pub record CloudDevice : Type 0 where
  pub sn : Bytes
  pub device_id : Bytes
  pub product_key : Bytes
  pub model : Bytes
  pub address : Bytes

pub record Backend : Type 0 where
  pub devices : List CloudDevice
  pub by_id : Map CloudDevice
  pub creds : Option Creds
  -- whether there is a client, and whether there is a handler of readings
  pub has_client : Bool
  pub has_handler : Bool
  pub msg_id : ℕ

abbrev pub new_backend : Backend
new_backend = record {
  devices = [];
  by_id = [];
  creds = none;
  has_client = false;
  has_handler = false;
  msg_id = 0;
}

unfoldable pub device_of : LoginDevice → CloudDevice
device_of d = record {
  sn = d.sn_number;
  device_id = d.device_key;
  product_key = d.product_key;
  model = d.product_model;
  address = d.ip;
}

-- the loop of login
unfoldable pub learn :
    List LoginDevice → List CloudDevice → Map CloudDevice → List CloudDevice × Map CloudDevice
unfolding device_of
learn [] devices by_id = (devices, by_id)
learn (d ∷ ds) devices by_id =
    learn ds (devices ++ device_of d ∷ []) (insert d.device_key (device_of d) by_id)

-- login, for a result
unfoldable pub logged_in : LoginResult → Backend → Backend
unfolding learn
logged_in res b =
    let (devices, by_id) = learn res.device_list [] [] in
    record b { creds = some res.mqtt; devices = devices; by_id = by_id }

-- what the observer and the handler are told
pub data Told (F : Type 0) : Type 0 where
  device_reachable : CloudDevice → Bool → Told F
  upstream_usable : Bool → Told F
  reading : CloudDevice → Report F → Told F

-- strings.TrimPrefix
unfoldable pub trim_prefix : Bytes → Bytes → Bytes
trim_prefix s p = elim (cut_prefix s p) [ none ↦ s | some r ↦ r ]

-- the second of three levels and what is behind it: strings.SplitN at 3 is two cuts
unfoldable pub levels : Bytes → Bytes × Bytes
unfolding cut
levels t = elim (cut b'/' t) [
  | none ↦ ([], [])
  | some (product, rest) ↦ elim (cut b'/' rest) [ none ↦ ([], []) | some (id, sub) ↦ (id, sub) ]
]

unfoldable pub device_and_sub : Bytes → Bytes × Bytes
unfolding trim_prefix levels
device_and_sub topic = levels (trim_prefix (trim_prefix topic (str "/")) (str "iot/"))

abbrev pub report_subtopic : Bytes
report_subtopic = str "properties/report"

-- the two filters of subscribeAll, without the wildcard
abbrev pub iot_prefix : CloudDevice → Bytes
iot_prefix d = str "iot/" ++ (d.product_key ++ b'/' ∷ (d.device_id ++ str "/"))

abbrev pub bare_prefix : CloudDevice → Bytes
bare_prefix d = b'/' ∷ (d.product_key ++ b'/' ∷ (d.device_id ++ str "/"))

unfoldable pub filters : List CloudDevice → List Bytes
filters [] = []
filters (d ∷ ds) = (iot_prefix d ++ str "#") ∷ (bare_prefix d ++ str "#") ∷ filters ds

-- subscribeAll: the filters it asks for, whatever the broker answers
unfoldable pub subscribe_all : Backend → List Bytes
unfolding filters
subscribe_all b = if b.has_client then filters b.devices else []

module _ {F : Type 0} where
  unfoldable pub with_sn : CloudDevice → Report F → Report F
  with_sn d r = if beq r.sn [] then record r { sn = d.sn } else r

  -- handleMessage
  unfoldable pub handle_message :
      (Bytes → Option (Report F)) → Bytes → Bytes → Backend → List (Told F)
  unfolding device_and_sub with_sn
  handle_message parse topic payload b =
      let (id, sub) = device_and_sub topic in
      if not (beq sub report_subtopic) then [] else elim (lookup id b.by_id) [
        | none ↦ []
        | some d ↦ if not b.has_handler then [] else elim (parse payload) [
          | none ↦ []
          | some r ↦ device_reachable d true ∷ reading d (with_sn d r) ∷ []
        ]
      ]

  unfoldable pub all_reachable : List CloudDevice → List (Told F)
  all_reachable [] = []
  all_reachable (d ∷ ds) = device_reachable d true ∷ all_reachable ds

  -- sessionUp
  unfoldable pub session_up : Bool → Backend → List (Told F)
  unfolding all_reachable
  session_up up b = (if up then all_reachable b.devices else []) ++ upstream_usable up ∷ []

-- What a write publishes: the topic, and the request's device id, message id and properties.
pub record Request (F : Type 0) : Type 0 where
  pub topic : Bytes
  pub device_id : Bytes
  pub message_id : ℕ
  pub properties : Map (Value F)

pub data WriteEnd : Type 0 where
  written not_connected no_payload : WriteEnd
  publish_failed : Bytes → WriteEnd

module _ {F : Type 0} (marshals : Map (Value F) → Bool) (publish : Request F → Option Bytes) where
  -- Write: `marshals` is whether json.Marshal takes the properties, and `publish` the client's answer.
  -- The counter of the requests moves before the request is marshalled.
  unfoldable pub write_to :
      CloudDevice → Map (Value F) → Backend → Backend × List (Request F) × WriteEnd
  write_to d props b =
      let counted : Backend = record b { msg_id = b.msg_id + 1 } in
      let request : Request F = record {
        topic = str "iot/" ++ (d.product_key ++ b'/' ∷ (d.device_id ++ str "/properties/write"));
        device_id = d.device_id;
        message_id = b.msg_id + 1;
        properties = props;
      } in
      if not b.has_client
      then (b, [], not_connected)
      else if not (marshals props)
      then (counted, [], no_payload)
      else elim (publish request) [
        | none ↦ (counted, request ∷ [], written)
        | some e ↦ (counted, request ∷ [], publish_failed e)
      ]
