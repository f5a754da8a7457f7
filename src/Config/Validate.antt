-- ===== src/Config/Validate.antt =====
-- internal/config/validate.go. `topic_ok` says whether topic.NewSmartHomeMultiLevel of go-hamqtt
-- accepts a name. The issues stand in the order in which the source adds them, without their texts.
use go_zendure2mqtt.Common.{
  ℕ, ◌+◌, Bytes, str, beq, contains_byte, Option, none, some, Bool, true, false, not, List, [], ◌∷◌,
  ◌||◌, ◌&&◌, ◌==◌, ℤ, pos, ltb_ℤ, atoi, if◌then◌else◌,
}
use go_zendure2mqtt.Config.Settings.{Config, LocalDevice, connection_local, connection_cloud}

pub data Issue : Type 0 where
  connection refresh charge_active discharge_active evcc_timeout mqtt_server mqtt_port tls_ca :
      Issue
  mqtt_topic stats_interval web_bind web_user language : Issue
  local_device : ℕ → Issue

-- the text before and behind the last colon
unfoldable pub split_last_colon : Bytes → Option (Bytes × Bytes)
split_last_colon [] = none
split_last_colon (c ∷ s) =
    let rest = split_last_colon s in
    elim rest [
      | some (before, behind) ↦ some (c ∷ before, behind)
      | none ↦ if c == b':' then some ([], s) else none
    ]

-- the text behind the first `]`, without the `[` in front of it; `none` where there is no `]` or a `[`
-- before it
unfoldable pub behind_bracket : Bytes → Option Bytes
behind_bracket [] = none
behind_bracket (c ∷ s) =
    let rest = behind_bracket s in if c == b']' then some s else if c == b'[' then none else rest

abbrev pub has_bracket : Bytes → Bool
has_bracket s = contains_byte b'[' s || contains_byte b']' s

-- the port of net.SplitHostPort, `none` for its error
unfoldable pub bracketed_port : Option Bytes → Option Bytes
bracketed_port none = none
bracketed_port (some []) = none
bracketed_port (some (c ∷ port)) =
    if not (c == b':') || (contains_byte b':' port || has_bracket port) then none else some port

unfoldable pub plain_port : Bytes → Option Bytes
unfolding split_last_colon
plain_port s = elim (split_last_colon s) [
  | none ↦ none
  | some (host, port) ↦ if contains_byte b':' host || has_bracket s then none else some port
]

unfoldable pub port_of : Bytes → Option Bytes
unfolding bracketed_port behind_bracket plain_port
port_of [] = none
port_of (c ∷ s) =
    let bracketed = bracketed_port (behind_bracket s) in
    let plain = plain_port (c ∷ s) in if c == b'[' then bracketed else plain

abbrev pub outside : ℤ → ℤ → ℤ → Bool
outside v lo hi = ltb_ℤ v lo || ltb_ℤ hi v

-- validateHostPort: whether there is no error
unfoldable pub valid_host_port : Bytes → Bool
unfolding port_of
valid_host_port s = elim (port_of s) [
  | none ↦ false
  | some port ↦ elim (atoi port) [ none ↦ false | some p ↦ not (outside p (pos 1) (pos 65535)) ]
]

abbrev pub issue_if : Bool → Issue → List Issue → List Issue
issue_if true i is = i ∷ is
issue_if false i is = is

unfoldable pub device_issues : ℕ → List LocalDevice → List Issue → List Issue
device_issues i [] is = is
device_issues i (d ∷ ds) is =
    issue_if (beq d.sn [] || beq d.host []) (Issue.local_device i) (device_issues (i + 1) ds is)

-- an option that is there and lies outside the bounds
abbrev pub set_outside : Option ℤ → ℤ → ℤ → Bool
set_outside none lo hi = false
set_outside (some v) lo hi = outside v lo hi

abbrev pub set_negative : Option ℤ → Bool
set_negative none = false
set_negative (some v) = ltb_ℤ v (pos 0)

abbrev pub one_empty : Bytes → Bytes → Bool
one_empty a b = if beq a [] then not (beq b []) else beq b []

-- the checks behind the local devices
unfoldable pub later_issues : (Bytes → Bool) → Config → List Issue
unfolding valid_host_port
later_issues topic_ok c =
    issue_if (set_outside c.charge_active_value (pos 1) (pos 2400)) Issue.charge_active (
      issue_if (set_outside c.discharge_active_value (pos 1) (pos 2400)) Issue.discharge_active (
        issue_if (outside c.evcc_battery_mode_timeout (pos 0) (pos 86400)) Issue.evcc_timeout (
          issue_if (beq c.mqtt_server []) Issue.mqtt_server (
            issue_if (outside c.mqtt_port (pos 1) (pos 65535)) Issue.mqtt_port (
              issue_if (not (beq c.mqtt_tls_ca []) && c.mqtt_tls_insecure) Issue.tls_ca (
                issue_if (beq c.mqtt_topic [] || not (topic_ok c.mqtt_topic)) Issue.mqtt_topic (
                  issue_if (set_negative c.mqtt_stats_interval) Issue.stats_interval (
                    issue_if (c.web_enable && not (valid_host_port c.web_bind)) Issue.web_bind (
                      issue_if (c.web_enable && one_empty c.web_user c.web_password) Issue.web_user
                        (issue_if (not (beq c.language (str "en") || beq c.language (str "de")))
                          Issue.language []))))))))))

-- Validate: the issues, none for no error
unfoldable pub validate : (Bytes → Bool) → Config → List Issue
unfolding device_issues later_issues
validate topic_ok c =
    issue_if (not (beq c.connection connection_local || beq c.connection connection_cloud))
      Issue.connection
      (issue_if (outside c.refresh (pos 5) (pos 86400)) Issue.refresh
        (device_issues 0 c.local_devices (later_issues topic_ok c)))
