-- ===== src/Coordinator/System/Logged.antt =====
-- What a write of the web UI leaves in the problem log of the running coordinator: Write of
-- internal/coordinator/web.go, with the mirrors into the UI state store that an evcc write makes.
use go_zendure2mqtt.Common.{
  Bytes, str, FloatOps, Option, none, some, true, List, [], ◌∷◌, ◌++◌, ◌≡◌, refl, ap, ◌∙◌, arith,
  take, ℕ, Option-cases, inl, inr, map,
}
use go_zendure2mqtt.State.Store.{Store, Problem, stamp, problems_of, max_problems, set_evcc}
use go_zendure2mqtt.Coordinator.Battery.{Effect, mirror, re_read}
use go_zendure2mqtt.Coordinator.Commands.Routes.{
  Failure, event_of, write_item, write_item-IsLogged, IsLogged,
}
use go_zendure2mqtt.Coordinator.Commands.Routes
use go_zendure2mqtt.Coordinator.Online.{World, Act, evcc_effect}
use go_zendure2mqtt.Coordinator.System.{
  Daemon, Fixed, Env, ui_write, mirror_evcc, re_read_soon, settle_one, settle, known_in, commanded,
  behind, or_new, handle, in_flight, step,
}

module _ {F : Type 0} where
  abbrev pub problems_in : Option (Store F) → List Problem
  problems_in none = []
  problems_in (some s) = problems_of s

module _ {F : Type 0} ⦃fl : FloatOps F⦄ (fx : Fixed F) where
  problems-settle_one :
      (a : Act F) (s : Daemon F)
      → problems_in (settle_one fx a s).world.store ≡ problems_in s.world.store
  unfolding settle_one mirror_evcc set_evcc problems_of re_read_soon
  problems-settle_one (evcc_effect (mirror sn values m)) s = elim (Option-cases s.world.store) [
    | inl n ↦ ground (arith, n)
    | inr (st, n) ↦ ground (arith, n)
  ]
  problems-settle_one (evcc_effect (re_read sn)) s = ground arith
  problems-settle_one a s = refl

  problems-settle :
      (acts : List (Act F)) (s : Daemon F)
      → problems_in (settle fx acts s).world.store ≡ problems_in s.world.store
  unfolding settle
  problems-settle [] s = refl
  problems-settle (a ∷ acts) s = problems-settle acts (settle_one fx a s) ∙ problems-settle_one a s

  -- Write on the coordinator as it runs
  abbrev pub writes_item :
      Env F → Bytes → Bytes → Bytes → Daemon F → Routes.World F × List (Effect F) × Option Failure
  writes_item env sn key value s =
      write_item (known_in s.world) fx.setup.catalog fx.setup.switches fx.charge_w true env.writes
        fx.say env.now fx.parse sn key value (commanded s.world)

  -- the log behind a write that returns an error or none
  abbrev pub logged : ℕ → Bytes → Bytes → Bytes → Option Failure → List Problem → List Problem
  logged now sn key value none old = old
  logged now sn key value (some e) old = take max_problems (
      record {
        at = now;
        sn = sn;
        event = event_of e;
        detail =
            (str "web " ++ (sn ++ b'/' ∷ key)) ++ (str " = " ++ (value ++ (str ": " ++ fx.say e)));
      }
      ∷ old)

  problems-behind :
      (w : World F) (c : Routes.World F) (store : Store F)
      → w.store ≡ some store
      → problems_in (behind w c).store ≡ problems_of c.store
  problems-behind w c store h = ground (arith, h)

  logged-IsLogged :
      (env : Env F) (s : Daemon F) (sn key value : Bytes) (e : Option Failure)
      (w w' : Routes.World F)
      → IsLogged
          (known_in s.world)
          fx.setup.catalog
          fx.setup.switches
          fx.charge_w
          true
          env.writes
          fx.say
          env.now
          sn
          (str "web " ++ (sn ++ b'/' ∷ key))
          value
          e
          w
          w'
      → problems_of w'.store ≡ logged env.now sn key value e (problems_of w.store)
  unfolding stamp
  logged-IsLogged env s sn key value none w w' h = ap problems_of h
  logged-IsLogged env s sn key value (some e) w w' h = h

  -- A write of the web UI on a running coordinator that keeps a store leaves the error that Write
  -- returns as the newest entry of the problem log, which keeps the newest twenty; a write that
  -- succeeds leaves the log as it was, whatever else the store learns from it.
  pub ui_write-logged :
      (env : Env F) (sn key value : Bytes) (s : Daemon F) (store : Store F)
      → s.world.store ≡ some store
      → problems_in (step fx env (ui_write sn key value) s).0.world.store
        ≡ logged env.now sn key value (writes_item env sn key value s).2 (problems_of store)
  unfolding step handle in_flight
  ui_write-logged env sn key value s store h =
      let c = writes_item env sn key value s in
      problems-settle (map evcc_effect c.1) (record s { world = behind s.world c.0 })
      ∙ problems-behind s.world c.0 store h
      ∙ logged-IsLogged env s sn key value c.2 (commanded s.world) c.0 (
          (write_item-IsLogged (known_in s.world) fx.setup.catalog fx.setup.switches fx.charge_w
              true env.writes fx.say env.now fx.parse sn key value (commanded s.world)).0
            refl)
      ∙ ap (λ o. logged env.now sn key value c.2 (problems_of (or_new o))) h
