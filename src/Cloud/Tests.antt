-- ===== src/Cloud/Tests.antt =====
-- The cloud modules on one device and its token.
use go_zendure2mqtt.Common.{
  str, beq, contains_byte, lookup, none, some, true, false, [], ◌∷◌, ◌++◌, ◌≡◌, refl, ℤ, pos, atoi,
}
use go_zendure2mqtt.Process.Points.{Report}
use go_zendure2mqtt.Cloud.Base64.{decode_base64}
use go_zendure2mqtt.Cloud.Login.{Creds, LoginDevice, LoginResult, host_port, login_url}
use go_zendure2mqtt.Cloud.Session.{
  Backend, new_backend, device_of, logged_in, device_reachable, reading, report_subtopic,
  iot_prefix, bare_prefix, with_sn, handle_message, session_up,
}
use go_zendure2mqtt.Cloud.Routing.{handle_message-logged_in}
use go_zendure2mqtt.Cloud.Lifetime.{
  lost, stopped, connect_failed, Steps, down, run_session, run_session-Steps,
}
use go_zendure2mqtt.Retry.{
  succeeds, fails, done, login_with_retry, repeat, waits_from, login_with_retry-succeeds,
}
use go_zendure2mqtt.Common.Samples.{int_floats}
use go_zendure2mqtt.Catalog.Load.{new_catalog}
use go_zendure2mqtt.State.Store.{Store, new_store}
use go_zendure2mqtt.Hass.Publish.{no_bundle}
use go_zendure2mqtt.Coordinator.Online.{Setup, World}
use go_zendure2mqtt.Cloud.Observed.{hear, hear-session_up}

decode_base64_run : decode_base64 (str "aHR0cHM6Ly9hLmIua2V5") ≡ some (str "https://a.b.key")
unfolding decode_base64
decode_base64_run = refl

decode_base64_padded : decode_base64 (str "YS5i\nYw==") ≡ some (str "a.bc")
unfolding decode_base64
decode_base64_padded = refl

decode_base64_short : decode_base64 (str "YS5iYw=") ≡ none
unfolding decode_base64
decode_base64_short = refl

abbrev creds : Creds
creds = record {
  client_id = str "c";
  url = str "mqtteu.zen-iot.com:8883";
  username = [];
  password = [];
}

host_port_run : host_port creds ≡ (str "mqtteu.zen-iot.com", pos 8883)
unfolding host_port atoi
host_port_run = refl

login_url_run : login_url (str "https://a//") ≡ str "https://a/api/ha/deviceList"
unfolding login_url beq
login_url_run = refl

abbrev listed : LoginDevice
listed = record {
  device_key = str "k1";
  device_name = [];
  sn_number = str "S1";
  product_key = str "p1";
  product_model = str "Hub";
  ip = [];
}

abbrev answer : LoginResult
answer = record { mqtt = creds; device_list = listed ∷ [] }

abbrev connected : Backend
connected = record new_backend { has_client = true; has_handler = true }

abbrev report : Report ℤ
report = record { sn = []; product = []; properties = []; pack_data = [] }

handle_message-logged_in_example :
    (handle_message
        (λ p. some report)
        (iot_prefix (device_of listed) ++ report_subtopic)
        (str "{}")
        (logged_in answer connected)
      ≡ device_reachable (device_of listed) true
        ∷ reading (device_of listed) (with_sn (device_of listed) report)
        ∷ [])
    × (handle_message
          (λ p. some report)
          (bare_prefix (device_of listed) ++ report_subtopic)
          (str "{}")
          (logged_in answer connected)
        ≡ device_reachable (device_of listed) true
          ∷ reading (device_of listed) (with_sn (device_of listed) report)
          ∷ [])
unfolding contains_byte
handle_message-logged_in_example =
    handle_message-logged_in (λ p. some report) answer [] [] listed (str "{}") report connected refl
      refl (refl, λ e. cc) refl refl refl

login_with_retry-succeeds_example :
    login_with_retry (repeat 3 fails (succeeds ∷ [])) ≡ (1 ∷ 2 ∷ 4 ∷ [], done)
unfolding waits_from
login_with_retry-succeeds_example = login_with_retry-succeeds 3 []

run_session-Steps_example :
    Steps down (run_session (lost 70 false ∷ connect_failed false ∷ stopped ∷ []))
run_session-Steps_example = run_session-Steps (lost 70 false ∷ connect_failed false ∷ stopped ∷ [])

abbrev setup : Setup ℤ
setup = record {
  catalog = new_catalog [];
  switches = [];
  language = str "en";
  print = λ v. [];
  status = λ ls. str "s";
  plane = record { evict_fails = λ t. false; publish_status = λ t v. some true };
  render = λ dev report ps pack. no_bundle;
  topic_of = λ b. [];
  answer = λ b. none;
}

abbrev world : World ℤ
world = record {
  by_sn = [];
  last = [];
  reach = (str "S1", false) ∷ [];
  store = some new_store;
  hass = none;
  gate = record { last = []; busy = [] };
  unmapped = [];
  evcc = none;
}

abbrev one_device : Backend
one_device = record new_backend { devices = device_of listed ∷ [] }

hear-session_up_example :
    (lookup (str "S1") (hear setup (session_up true one_device) world).reach ≡ some true)
    × ((hear setup (session_up false one_device) world).reach ≡ world.reach)
    × ((s : Store ℤ)
        → some new_store ≡ some s
        → (s' : Store ℤ) × ((hear setup (session_up false one_device) world).store ≡ some s')
          × (s'.online ≡ s.online)
          × (s'.upstream ≡ some false))
unfolding device_of beq
hear-session_up_example = hear-session_up setup (str "S1") one_device world
