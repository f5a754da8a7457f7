-- ===== src/Coordinator/System/Released.antt =====
-- The timeout of the battery modes in the running coordinator: runEVCCFallback of
-- internal/coordinator/evcc.go.
use go_zendure2mqtt.Common.{
  ℕ, Bytes, Map, Value, FloatOps, none, some, Bool, true, List, [], ◌∷◌, ◌≡◌, refl, ap, ◌∙◌, arith,
  Bool-cases, if◌then◌else◌, inl, inr,
}
use mathlib.Core.Path.{subst}
use go_zendure2mqtt.State.Store.{SourceDevice}
use go_zendure2mqtt.Evcc.Mode.{normal}
use go_zendure2mqtt.Coordinator.Battery.{EvccUnit, Plane, unit, is_stale, evcc_fallback}
use go_zendure2mqtt.Coordinator.Battery.Fallback.{unit-stale, evcc_fallback_releases}
use go_zendure2mqtt.Coordinator.Online.{Act, sweep}
use go_zendure2mqtt.Coordinator.System.{
  Daemon, Fixed, Env, Event, tick, re_read_soon, settle_one, settle, known_in, step, handle, run,
  start,
}
use go_zendure2mqtt.Coordinator.System.Kept.{Units, units_in}
use go_zendure2mqtt.Coordinator.System.Sound.{run-IsSound}

module _ {F : Type 0} ⦃fl : FloatOps F⦄ (fx : Fixed F) where
  evcc-settle_one : (a : Act F) (s : Daemon F) → (settle_one fx a s).world.evcc ≡ s.world.evcc
  unfolding settle_one re_read_soon
  evcc-settle_one (sweep sn topics) s = refl
  evcc-settle_one a s = ground arith

  evcc-settle : (acts : List (Act F)) (s : Daemon F) → (settle fx acts s).world.evcc ≡ s.world.evcc
  unfolding settle
  evcc-settle [] s = refl
  evcc-settle (a ∷ acts) s = evcc-settle acts (settle_one fx a s) ∙ evcc-settle_one a s

  evcc-tick :
      (env : Env F) (timeout : ℕ) (s : Daemon F) (units : Plane F)
      → s.world.evcc ≡ some units
      → units_in (step fx env (tick timeout) s).0.world.evcc
        ≡ (evcc_fallback fx.charge_w true env.writes env.now timeout (known_in s.world) units).0
  unfolding step handle
  evcc-tick env timeout s units e =
      let (w, acts) = handle fx env (tick timeout) s in
      let fallen : w.evcc
          ≡ some
              (evcc_fallback fx.charge_w true env.writes env.now timeout (known_in s.world)
                units).0 =
        ground (arith, e) in
      ap units_in (evcc-settle acts (record s { world = w }) ∙ fallen)

  -- When the ticker of a running coordinator fires and the backend accepts what is written then, every
  -- unit that `hold` or `charge` has held for the timeout is in `normal` behind it, whatever happened
  -- before, and every other unit is left as it was.
  pub tick_releases :
      (devices : List SourceDevice) (web hass evcc : Bool) (events : List (Env F × Event F))
      (env : Env F) (timeout : ℕ) (units : Plane F) (j : Bytes)
      → (run fx events (start fx devices web hass evcc)).world.evcc ≡ some units
      → ((w : Map (Value F)) → env.writes w ≡ none)
      → let s' = (step fx env (tick timeout) (run fx events (start fx devices web hass evcc))).0 in
        let u = unit units j in
        let u' = unit (units_in s'.world.evcc) j in
        (u'.mode ≡ (if is_stale env.now timeout u then normal else u.mode))
        × ((if is_stale env.now timeout u then u else u') ≡ u)
  tick_releases devices web hass evcc events env timeout units j e ok =
      let s = run fx events (start fx devices web hass evcc) in
      let sound : Units units s.world.by_sn =
        subst (λ o. Units (units_in o) s.world.by_sn) e
          (run-IsSound fx devices web hass evcc events).known.units in
      let both =
        evcc_fallback_releases fx.charge_w true env.writes env.now timeout (known_in s.world) units
          j sound.1 in
      let stale = is_stale env.now timeout (unit units j) in
      rw (evcc-tick env timeout s units e) (elim (Bool-cases stale) [
        | inl t ↦ rw t (both.0 ok (sound.0 j (unit-stale env.now timeout units j t)) t, refl)
        | inr f ↦
            let same = both.1 (ground (arith, f)) in
            rw f (ap (λ (u : EvccUnit F). u.mode) same, same)
      ])
