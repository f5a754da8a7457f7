-- ===== src/Coordinator/Web/Secret.antt =====
-- What the projection of internal/coordinator/web.go keeps to itself.
use go_zendure2mqtt.Common.{Bytes, beq, [], ◌≡◌, refl}
use go_zendure2mqtt.Config.Settings.{Config, cloud_configured, charge_active_w, discharge_active_w}
use go_zendure2mqtt.Coordinator.Web.{config_view}

-- the configuration with other secrets: token, broker login and password, UI password
abbrev pub with_secrets : Bytes → Bytes → Bytes → Bytes → Config → Config
with_secrets token login password web c = record c {
  cloud_app_token = token;
  mqtt_login = login;
  mqtt_password = password;
  web_password = web;
}

-- What the web UI is shown of the configuration does not depend on the token and on the passwords,
-- beyond whether the token and the UI's password are set, nor on the broker's login.
pub config_view-with_secrets :
    (token login password web : Bytes) (c : Config)
    → beq token [] ≡ beq c.cloud_app_token []
    → beq web [] ≡ beq c.web_password []
    → config_view (with_secrets token login password web c) ≡ config_view c
unfolding config_view cloud_configured charge_active_w discharge_active_w
config_view-with_secrets token login password web c ht hw = rw (ht, hw) refl
