-- ===== src/Coordinator/System/InTime.antt =====
-- How long a battery stays locked behind an evcc that stopped: the ticker of runEVCCFallback,
-- internal/coordinator/evcc.go.
use go_zendure2mqtt.Common.{
  ℕ, ◌+◌, ◌-◌, ◌*◌, ◌/◌, ◌≤◌, ◌<◌, Bytes, Map, Value, FloatOps, none, some, Bool, true, false, List,
  [], ◌∷◌, ◌≡◌, ◌∙◌, refl, ap, arith, length, map,
}
use go_zendure2mqtt.State.Store.{SourceDevice}
use go_zendure2mqtt.Evcc.Mode.{normal, same_mode}
use go_zendure2mqtt.Coordinator.Battery.{
  Plane, EvccUnit, Effect, write, unit, is_stale, evcc_fallback,
}
use go_zendure2mqtt.Coordinator.Battery.Duration.{set_timeout, spent, spent-evcc_fallback}
use go_zendure2mqtt.Coordinator.Online.{Act, evcc_effect}
use go_zendure2mqtt.Coordinator.System.{
  Daemon, Fixed, Env, Event, tick, known_in, handle, step, run, start,
}
use go_zendure2mqtt.Coordinator.System.Kept.{units_in}
use go_zendure2mqtt.Coordinator.System.Begin.{second, fallback_tick}
use go_zendure2mqtt.Coordinator.System.Released.{tick_releases}

fallback_tick_bounds :
    (timeout : ℕ) → (second ≤ fallback_tick timeout) × (fallback_tick timeout ≤ 5 * second)
unfolding fallback_tick
fallback_tick_bounds timeout = ground arith

-- the number of ticks that a wait takes
abbrev pub ticks : ℕ → ℕ → ℕ
ticks every wait = (wait + every - 1) / every

ticks_bounds :
    (every wait : ℕ)
    → 0 < every
    → (wait ≤ ticks every wait * every) × (ticks every wait * every < wait + every)
ticks_bounds every wait h = grind arith

-- a unit that is locked is stale from the timeout on
stale-late :
    {F : Type 0} (now timeout : ℕ) (u : EvccUnit F)
    → same_mode u.mode normal ≡ false
    → u.last_cmd + timeout ≤ now
    → is_stale now timeout u ≡ true
unfolding is_stale
stale-late now timeout u m h = ground arith

-- the time that the writes of a step take
abbrev pub spent_in : {F : Type 0} → (Map (Value F) → ℕ) → List (Act F) → ℕ
spent_in took [] = 0
spent_in took (evcc_effect (write sn w) ∷ acts) = took w + spent_in took acts
spent_in took (a ∷ acts) = spent_in took acts

spent_in-map :
    {F : Type 0} (took : Map (Value F) → ℕ) (effects : List (Effect F))
    → spent_in took (map evcc_effect effects) ≡ spent took effects
spent_in-map took [] = refl
spent_in-map took (write sn w ∷ effects) = ap (λ n. took w + n) (spent_in-map took effects)
spent_in-map took (e ∷ effects) = spent_in-map took effects

module _ {F : Type 0} ⦃fl : FloatOps F⦄ (fx : Fixed F) where
  spent_in-tick :
      (env : Env F) (timeout : ℕ) (s : Daemon F) (units : Plane F) (took : Map (Value F) → ℕ)
      → s.world.evcc ≡ some units
      → ((w : Map (Value F)) → took w ≤ set_timeout)
      → spent_in took (step fx env (tick timeout) s).1 ≤ length units * set_timeout
  unfolding step handle
  spent_in-tick env timeout s units took e h =
      let fallen =
        evcc_fallback fx.charge_w true env.writes env.now timeout (known_in s.world) units in
      let same : (step fx env (tick timeout) s).1 ≡ map evcc_effect fallen.1 = ground (arith, e) in
      rw (same, spent_in-map took fallen.1)
        (spent-evcc_fallback took fx.charge_w true env.writes env.now timeout (known_in s.world)
          units h)

  -- An evcc that stopped leaves no battery locked, where the backend accepts what is written: a unit
  -- that `hold` or `charge` has locked is in `normal` behind the first tick of the fallback that is
  -- due. That tick begins less than five seconds behind the timeout, when the ticker began no later
  -- than the timeout ended, nothing reached the coordinator since the state in question, and no tick
  -- is late; and when each write takes 15 seconds at most, its writes are over less than five seconds
  -- and 15 seconds for each unit of the plane behind the timeout.
  pub released_in_time :
      (devices : List SourceDevice) (web hass evcc : Bool) (events : List (Env F × Event F))
      (env : Env F) (timeout begun : ℕ) (units : Plane F) (j : Bytes) (took : Map (Value F) → ℕ)
      → (run fx events (start fx devices web hass evcc)).world.evcc ≡ some units
      → same_mode (unit units j).mode normal ≡ false
      → begun ≤ (unit units j).last_cmd + timeout
      → env.now
        ≡ begun
          + ticks (fallback_tick timeout) ((unit units j).last_cmd + timeout - begun)
            * fallback_tick timeout
      → ((w : Map (Value F)) → env.writes w ≡ none)
      → ((w : Map (Value F)) → took w ≤ set_timeout)
      → let ended = step fx env (tick timeout) (run fx events (start fx devices web hass evcc)) in
        let due = (unit units j).last_cmd + timeout in
        ((unit (units_in ended.0.world.evcc) j).mode ≡ normal)
        × (env.now < due + 5 * second)
        × (env.now + spent_in took ended.1 < due + 5 * second + length units * set_timeout)
  released_in_time devices web hass evcc events env timeout begun units j took e locked g at ok
        quick =
      let u = unit units j in
      let every = fallback_tick timeout in
      let b = fallback_tick_bounds timeout in
      let t = ticks_bounds every (u.last_cmd + timeout - begun) (omega (arith, b.0)) in
      let stale = stale-late env.now timeout u locked (omega (arith, t.0, at, g)) in
      let r = tick_releases fx devices web hass evcc events env timeout units j e ok in
      let soon : env.now < u.last_cmd + timeout + 5 * second = omega (arith, t.1, at, g, b.1) in
      let state = run fx events (start fx devices web hass evcc) in
      (
        r.0 ∙ (rw stale refl),
        soon,
        omega (arith, soon, spent_in-tick env timeout state units took e quick),
      )
