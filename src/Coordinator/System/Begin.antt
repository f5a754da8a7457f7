-- ===== src/Coordinator/System/Begin.antt =====
-- New and the beginning of Run, internal/coordinator/coordinator.go: what stops New with a panic, and
-- what Run begins and in which order. The legacy topic forms of go-hamqtt's runtime are arguments, and
-- so are the answers of its command router; the router has the filters of harender.Layout.
use go_zendure2mqtt.Common.{
  ℕ, ◌*◌, ◌^◌, ◌/◌, Bytes, beq, Option, none, some, Bool, true, false, not, List, [], ◌∷◌, ◌++◌,
  ◌&&◌, map, pos, ltb_ℤ, pos_part, leb, if◌then◌else◌,
}
use go_zendure2mqtt.Config.Settings.{Config}
use go_zendure2mqtt.Harender.Layout.{Layout, command_filter, evcc_command_filter}
use go_zendure2mqtt.State.Store.{SourceDevice}
use go_zendure2mqtt.Coordinator.System.{Daemon, new_daemon}

pub data Panic : Type 0 where
  no_runtime legacy_forms no_state_plane set_route evcc_route : Panic

-- slices.Equal
unfoldable pub same_texts : List Bytes → List Bytes → Bool
same_texts [] [] = true
same_texts (s ∷ ss) (t ∷ ts) = beq s t && same_texts ss ts
same_texts _ _ = false

-- what New is given: the forms that the runtime states, whether there is a state plane, and what
-- registering a filter answers
pub record Parts : Type 0 where
  pub runtime : Option (List Bytes)
  pub state_plane : Bool
  pub registers : Bytes → Bool
  pub layout : Layout
  pub devices : List SourceDevice
  pub web : Bool
  pub hass : Bool

-- what New gives: a panic, or the coordinator with the filters of its routes
pub data Made (F : Type 0) : Type 0 where
  panics : Panic → Made F
  made : Daemon F → List Bytes → Made F

module _ {F : Type 0} where
  -- the routes, and whether they can be registered
  unfoldable pub register_routes : Parts → Bool → Daemon F → Made F
  register_routes ps evcc d =
      if not (ps.registers (command_filter ps.layout))
      then panics set_route
      else if not evcc
      then made d (command_filter ps.layout ∷ [])
      else if not (ps.registers (evcc_command_filter ps.layout))
      then panics evcc_route
      else made d (command_filter ps.layout ∷ evcc_command_filter ps.layout ∷ [])

-- one second, in nanoseconds
abbrev pub second : ℕ
second = 10 ^ 9

-- the ticker of runEVCCFallback, over the timeout: min(max(timeout/4, second), 5*second)
unfoldable pub fallback_tick : ℕ → ℕ
fallback_tick timeout =
    let low : ℕ = if leb second (timeout / 4) then timeout / 4 else second in
    if leb low (5 * second) then low else 5 * second

-- EVCCBatteryModeTimeoutDuration, for a timeout that is positive
unfoldable pub timeout_ns : Config → ℕ
timeout_ns c = pos_part c.evcc_battery_mode_timeout * second

-- what Run begins
pub data Begun : Type 0 where
  -- PublishOnline
  announced : Begun
  -- Start of the command router, WatchBirth, and retrySubscribe for one that failed
  commands_started commands_retried birth_watched birth_retried : Begun
  -- migrateBridge, runEVCCFallback with its ticker and timeout, migrateDevice
  bridge_migrated : Begun
  fallback_begun : ℕ → ℕ → Begun
  device_migrated : Bytes → Begun
  -- Run of the backend, and Stop of the router behind it
  backend_run commands_stopped : Begun

abbrev pub sn_of : SourceDevice → Bytes
sn_of d = d.sn

-- Run: `starts` and `watches` are the first answers to the two subscriptions
unfoldable pub run_begun : Bool → Bool → Bool → Bool → Config → List SourceDevice → List Begun
unfolding fallback_tick timeout_ns
run_begun starts watches hass evcc c devices =
    announced
    ∷ (if starts then commands_started else commands_retried)
    ∷ ((if hass then (if watches then birth_watched else birth_retried) ∷ [] else [])
        ++ (bridge_migrated
            ∷ ((if evcc && ltb_ℤ (pos 0) c.evcc_battery_mode_timeout
                  then fallback_begun (fallback_tick (timeout_ns c)) (timeout_ns c) ∷ []
                  else [])
                ++ (map (λ d. device_migrated (sn_of d)) devices
                    ++ backend_run ∷ commands_stopped ∷ []))))

module _ {F : Type 0} where
  -- New. `want` are the forms that HARuntimeConfig states.
  unfoldable pub new_coordinator : List Bytes → Config → Parts → Made F
  unfolding same_texts register_routes new_daemon
  new_coordinator want c ps = elim ps.runtime [
    | none ↦ panics no_runtime
    | some forms ↦
        if not (same_texts forms want)
        then panics legacy_forms
        else if not ps.state_plane
        then panics no_state_plane
        else register_routes ps c.evcc_enable (new_daemon ps.devices ps.web ps.hass c.evcc_enable)
  ]
