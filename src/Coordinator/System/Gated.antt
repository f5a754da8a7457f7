-- ===== src/Coordinator/System/Gated.antt =====
-- The gate of the running coordinator after any events: it is closed for a device exactly while a sweep
-- of that device is in flight.
use go_zendure2mqtt.Common.{
  Bytes, has_key, lookup, insert, delete, lookup-insert, lookup-delete, Map, FloatOps, Option, none,
  Bool, List, [], ◌∷◌, ◌≡◌, refl, sym, arith, is_some, Option-cases, inl, inr, All,
}
use mathlib.Core.Path.{subst}
use go_zendure2mqtt.State.Store.{SourceDevice}
use go_zendure2mqtt.Hass.Publish.{remove_key}
use go_zendure2mqtt.Hass.Forgotten.{has_key-remove_key}
use go_zendure2mqtt.Coordinator.Battery.{re_read}
use go_zendure2mqtt.Coordinator.Reconcile.{Retained, reconciled}
use go_zendure2mqtt.Coordinator.Online.{World, Act, sweep, evcc_effect}
use go_zendure2mqtt.Coordinator.System.{
  Daemon, Fixed, Env, Event, reading, swept, old_swept, re_read_soon, settle_one, settle,
  migrate_device, migration_over, sweep_over, handle, in_flight, step, run, migrate_all, start,
  new_daemon,
}
use go_zendure2mqtt.Coordinator.System.Sweeps.{Gates, leaves, closes, sweeps_of, Gates-handle}

unfoldable pub insert_all : Map (List Bytes) → Map (List Bytes) → Map (List Bytes)
insert_all [] m = m
insert_all ((sn, topics) ∷ new) m = insert_all new (insert sn topics m)

-- the sweeps that are begun, beside the ones in flight
abbrev pub AllNew : Map (List Bytes) → Map (List Bytes) → Type 0
AllNew flying new = All (λ (p : Bytes × List Bytes). lookup p.0 flying ≡ none) new

-- the gate is closed for the devices of a map
abbrev pub ClosedFor : List Bytes → Map (List Bytes) → Type 0
ClosedFor busy sweeps = (k : Bytes) → has_key k busy ≡ is_some (lookup k sweeps)

ClosedFor-insert :
    (sn : Bytes) (topics : List Bytes) (busy : List Bytes) (sweeps : Map (List Bytes))
    → ClosedFor busy sweeps
    → ClosedFor (sn ∷ busy) (insert sn topics sweeps)
unfolding has_key
ClosedFor-insert sn topics busy sweeps h k = ground (arith, h k, lookup-insert sn k topics sweeps)

ClosedFor-delete :
    (sn : Bytes) (busy : List Bytes) (sweeps : Map (List Bytes))
    → ClosedFor busy sweeps
    → ClosedFor (remove_key sn busy) (delete sn sweeps)
ClosedFor-delete sn busy sweeps h k =
    ground (arith, h k, lookup-delete sn k sweeps, has_key-remove_key k sn busy)

module _ {F : Type 0} where
  abbrev pub Gated : Daemon F → Type 0
  Gated s = ClosedFor s.world.gate.busy s.sweeps

  -- the parts of the state that the gate is about
  SameGate : Daemon F → Daemon F → Type 0
  SameGate s t = (t.world.gate ≡ s.world.gate) × (t.sweeps ≡ s.sweeps)

  -- the sweeps that acts begin are still to be noted
  abbrev Pending : Daemon F → List (Act F) → Type 0
  Pending s acts = ClosedFor s.world.gate.busy (insert_all (sweeps_of acts) s.sweeps)

  Pending-Gates :
      (s : Daemon F) (w : World F) (acts : List (Act F))
      → Gated s
      → Gates s.world w acts
      → Pending (record s { world = w }) acts
  unfolding insert_all
  Pending-Gates s w acts h (leaves e g) = rw (e, g) h
  Pending-Gates s w acts h (closes sn topics e f g) =
      rw (e, g) (ClosedFor-insert sn topics s.world.gate.busy s.sweeps h)

module _ {F : Type 0} ⦃fl : FloatOps F⦄ (fx : Fixed F) where
  busy-settle_one : (a : Act F) (s : Daemon F) → (settle_one fx a s).world.gate ≡ s.world.gate
  unfolding settle_one re_read_soon
  busy-settle_one (sweep sn topics) s = refl
  busy-settle_one a s = ground arith

  sweeps-re_read_soon : (sn : Bytes) (s : Daemon F) → (re_read_soon fx sn s).sweeps ≡ s.sweeps
  unfolding re_read_soon
  sweeps-re_read_soon sn s = ground arith

  sweeps-settle_one :
      (a : Act F) (s : Daemon F)
      → (settle_one fx a s).sweeps ≡ insert_all (sweeps_of (a ∷ [])) s.sweeps
  unfolding settle_one insert_all
  sweeps-settle_one (sweep sn topics) s = refl
  sweeps-settle_one (evcc_effect (re_read sn)) s = sweeps-re_read_soon sn s
  sweeps-settle_one a s = refl

  insert_all-cons :
      (a : Act F) (acts : List (Act F)) (m : Map (List Bytes))
      → insert_all (sweeps_of (a ∷ acts)) m
        ≡ insert_all (sweeps_of acts) (insert_all (sweeps_of (a ∷ [])) m)
  unfolding insert_all
  insert_all-cons (sweep sn topics) acts m = refl
  insert_all-cons a acts m = refl

  Gated-settle : (acts : List (Act F)) (s : Daemon F) → Pending s acts → Gated (settle fx acts s)
  unfolding settle insert_all
  Gated-settle [] s h = h
  Gated-settle (a ∷ acts) s h = Gated-settle acts (settle_one fx a s) (
      rw (busy-settle_one a s, sweeps-settle_one a s)
        (subst (λ m. ClosedFor s.world.gate.busy m) (insert_all-cons a acts s.sweeps) h))

  Gated-sweep_over :
      (sn : Bytes) (failed : Option Bytes) (declared : List Bytes) (window : List Retained)
      (s : Daemon F)
      → Gated s
      → Gated (sweep_over fx sn failed declared window s)
  unfolding sweep_over reconciled
  Gated-sweep_over sn failed declared window s h = elim (Option-cases (lookup sn s.sweeps)) [
    | inl n ↦
        let same : sweep_over fx sn failed declared window s ≡ s = ground (arith, n) in
        subst Gated (sym same) h
    | inr (published, n) ↦ rw (sweep_over, n) (ClosedFor-delete sn s.world.gate.busy s.sweeps h)
  ]

  migrate_device_gate : (sn : Bytes) (s : Daemon F) → SameGate s (migrate_device fx sn s)
  unfolding migrate_device SameGate
  migrate_device_gate sn s = ground arith

  migration_over_gate :
      (sn : Bytes) (failed : Bool) (s : Daemon F) → SameGate s (migration_over fx sn failed s)
  unfolding migration_over SameGate
  migration_over_gate sn failed s = ground arith

  Pending-same :
      (s t : Daemon F) (acts : List (Act F)) → SameGate s t → Pending s acts → Pending t acts
  unfolding SameGate
  Pending-same s t acts e h = rw (e.0, e.1) h

  Gated-step : (env : Env F) (e : Event F) (s : Daemon F) → Gated s → Gated (step fx env e s).0
  unfolding step in_flight
  Gated-step env (swept sn failed declared window) s h =
      unfold handle insert_all in
      Gated-settle [] (sweep_over fx sn failed declared window s)
        (Gated-sweep_over sn failed declared window s h)
  Gated-step env (reading dev report) s h =
      let (w, acts) = handle fx env (reading dev report) s in
      let t = record s { world = w } in
      Gated-settle acts (migrate_device fx dev.sn t) (
        Pending-same t (migrate_device fx dev.sn t) acts (migrate_device_gate dev.sn t)
          (Pending-Gates s w acts h (Gates-handle fx env (reading dev report) s)))
  Gated-step env (old_swept sn failed) s h =
      let (w, acts) = handle fx env (old_swept sn failed) s in
      let t = record s { world = w } in
      Gated-settle acts (migration_over fx sn failed t) (
        Pending-same t (migration_over fx sn failed t) acts (migration_over_gate sn failed t)
          (Pending-Gates s w acts h (Gates-handle fx env (old_swept sn failed) s)))
  Gated-step env e s h =
      Gated-settle (handle fx env e s).1
        (in_flight fx e (record s { world = (handle fx env e s).0 }))
        (Pending-Gates s (handle fx env e s).0 (handle fx env e s).1 h (Gates-handle fx env e s))

  Gated-run : (es : List (Env F × Event F)) (s : Daemon F) → Gated s → Gated (run fx es s)
  unfolding run
  Gated-run [] s h = h
  Gated-run ((env, e) ∷ es) s h = Gated-run es (step fx env e s).0 (Gated-step env e s h)

  Gated-migrate_all :
      (ds : List SourceDevice) (s : Daemon F) → Gated s → Gated (migrate_all fx ds s)
  unfolding migrate_all insert_all
  Gated-migrate_all [] s h = h
  Gated-migrate_all (d ∷ ds) s h =
      Gated-migrate_all ds (migrate_device fx d.sn s)
        (Pending-same s (migrate_device fx d.sn s) [] (migrate_device_gate d.sn s) h)

  Gated-start :
      (devices : List SourceDevice) (web hass evcc : Bool) → Gated (start fx devices web hass evcc)
  unfolding start has_key lookup
  Gated-start devices web hass evcc =
      Gated-migrate_all devices (new_daemon devices web hass evcc) (λ k. refl)

  AllNew-Gates :
      (s : Daemon F) (w : World F) (acts : List (Act F))
      → Gated s
      → Gates s.world w acts
      → AllNew s.sweeps (sweeps_of acts)
  AllNew-Gates s w acts h (leaves e g) = rw e tt
  AllNew-Gates s w acts h (closes sn topics e f g) =
      rw e (ground (arith, h sn, f, Option-cases (lookup sn s.sweeps)), tt)

  -- After any events, the gate of reconcileOrphans is closed for a device exactly while a sweep of it is
  -- in flight, so that no gate stays closed behind a sweep that is over; and whatever comes next begins
  -- sweeps only of devices that have none in flight.
  pub run-Gated :
      (devices : List SourceDevice) (web hass evcc : Bool) (events : List (Env F × Event F))
      (env : Env F) (e : Event F)
      → let s = run fx events (start fx devices web hass evcc) in
        Gated s × AllNew s.sweeps (sweeps_of (step fx env e s).1)
  unfolding step
  run-Gated devices web hass evcc events env e =
      let s = run fx events (start fx devices web hass evcc) in
      let gated =
        Gated-run events (start fx devices web hass evcc) (Gated-start devices web hass evcc) in
      (
        gated,
        AllNew-Gates s (handle fx env e s).0 (handle fx env e s).1 gated (Gates-handle fx env e s),
      )
