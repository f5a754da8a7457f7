-- ===== src/Startup/Tests.antt =====
-- What the daemon starts with.
use go_zendure2mqtt.Common.{
  ℕ, some, str, beq, itoa, contains_byte, none, true, [], ◌∷◌, ◌≡◌, refl, pos,
}
use go_zendure2mqtt.Config.Valid.{unset}
use go_zendure2mqtt.Startup.{mqtt_broker_url, config_path, output_broker_config, build_backend}
use go_zendure2mqtt.Startup.Lifecycle.{
  backend_built, link_wired, link_started, routes_registered, hook_set, info_announced,
  coordinator_run, stats_run, replay_closed, offline_published, link_stopped, Answers, down, moves,
  run_daemon, run_daemon-moves,
}

broker_url_run :
    mqtt_broker_url (record unset { mqtt_server = str "h"; mqtt_port = pos 8883; mqtt_tls = true })
    ≡ str "tls://h:8883"
unfolding mqtt_broker_url itoa contains_byte
broker_url_run = refl

config_path_env : config_path [] none ≡ none
unfolding config_path beq
config_path_env = refl

-- a daemon that comes up, runs and ends with the error of a component
abbrev online : Answers ℕ
online = record {
  config = some unset;
  catalog_loads = true;
  will_made = true;
  tls_answer = λ host ca insecure. none;
  link_starts = true;
  registers = true;
  is_connected = true;
  ends = some (str "web");
}

run_daemon-moves_example : moves down (run_daemon online).0 ≡ some down
unfolding run_daemon output_broker_config
run_daemon-moves_example = run_daemon-moves online

-- what it does
run_online :
    (run_daemon online).0
    ≡ backend_built (build_backend unset)
      ∷ link_wired
      ∷ link_started
      ∷ routes_registered
      ∷ hook_set
      ∷ info_announced
      ∷ coordinator_run
      ∷ stats_run
      ∷ replay_closed
      ∷ offline_published
      ∷ link_stopped
      ∷ []
unfolding run_daemon output_broker_config
run_online = refl
