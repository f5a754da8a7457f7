-- ===== src/Coordinator/System/Sound.antt =====
-- The running coordinator after any events: whoever has reported, has a unit of the evcc plane or is
-- shown with values is known, and so is every device that is read again soon.
use go_zendure2mqtt.Common.{
  Bytes, lookup, insert, lookup-insert, beq_iff, if◌then◌else◌, Map, FloatOps, Option, none, some,
  Bool, true, false, List, [], ◌∷◌, ◌≡◌, refl, sym, arith, All, Option-cases, inl, inr,
}
use mathlib.Core.Path.{subst}
use go_zendure2mqtt.Evcc.Profile.{Derived}
use go_zendure2mqtt.Evcc.Mode.{Mode}
use go_zendure2mqtt.State.Store.{Store, SourceDevice, set_evcc, notify, new_store}
use go_zendure2mqtt.Coordinator.Battery.{mirror, re_read}
use go_zendure2mqtt.Coordinator.Reconcile.{Retained}
use go_zendure2mqtt.Coordinator.Online.{World, Act, sweep, evcc_effect}
use go_zendure2mqtt.Coordinator.System.{
  Daemon, Fixed, Env, Event, reading, read_again, swept, old_swept, mirror_evcc, re_read_soon,
  settle_one, settle, migrate_device, migration_over, sweep_over, known_in, handle, in_flight, step,
  run, start, migrate_all, learn_all,
}
use go_zendure2mqtt.Coordinator.System.Kept.{
  Below, Labelled, devices_in, units_in, Kept-eq, Kept-devices, IsKnown-Kept,
}
use go_zendure2mqtt.Coordinator.System.Known.{
  IsSound, Follows-Kept, All-remove_at, All-more, Follows-handle,
}

module _ {F : Type 0} ⦃fl : FloatOps F⦄ (fx : Fixed F) where
  devices_in-mirror_evcc :
      (sn : Bytes) (values : List (Derived F)) (m : Mode) (o : Option (Store F))
      → devices_in (mirror_evcc fx sn values m o) ≡ devices_in o
  unfolding mirror_evcc set_evcc notify
  devices_in-mirror_evcc sn values m none = refl
  devices_in-mirror_evcc sn values m (some s) = refl

  IsSound-settle_one : (a : Act F) (s : Daemon F) → IsSound s → IsSound (settle_one fx a s)
  unfolding settle_one
  IsSound-settle_one (evcc_effect (mirror sn values m)) s h =
      let w' = record s.world { store = mirror_evcc fx sn values m s.world.store } in
      record {
        known =
            IsKnown-Kept
              (Kept-devices s.world w' (refl, refl, refl)
                (devices_in-mirror_evcc sn values m s.world.store))
              h.known;
        labelled = h.labelled;
        re_reads = h.re_reads;
      }
  IsSound-settle_one (evcc_effect (re_read sn)) s h =
      elim (Option-cases (lookup sn s.world.by_sn)) [
        | inl e ↦
            let none_read : re_read_soon fx sn s ≡ s = unfold re_read_soon in ground (arith, e) in
            subst IsSound (sym none_read) h
        | inr (dev, e) ↦
            let same : dev.sn ≡ sn = h.labelled sn dev e in
            let known : known_in s.world dev.sn ≡ true = ground (arith, same, e) in
            let one_read : re_read_soon fx sn s ≡ record s { re_reads = dev ∷ s.re_reads } =
              unfold re_read_soon in ground (arith, e) in
            subst IsSound (sym one_read)
              (record { known = h.known; labelled = h.labelled; re_reads = (known, h.re_reads) })
      ]
  IsSound-settle_one (sweep sn topics) s h = record {
    known = h.known;
    labelled = h.labelled;
    re_reads = h.re_reads;
  }
  IsSound-settle_one a s h = h

  IsSound-settle : (acts : List (Act F)) (s : Daemon F) → IsSound s → IsSound (settle fx acts s)
  unfolding settle
  IsSound-settle [] s h = h
  IsSound-settle (a ∷ acts) s h = IsSound-settle acts (settle_one fx a s) (IsSound-settle_one a s h)

  abbrev SameWorld : World F → World F → Type 0
  SameWorld w w' =
      (w'.by_sn ≡ w.by_sn) × (w'.last ≡ w.last) × (w'.evcc ≡ w.evcc) × (w'.store ≡ w.store)

  IsSound-eq :
      (s t : Daemon F) → SameWorld s.world t.world → t.re_reads ≡ s.re_reads → IsSound s → IsSound t
  IsSound-eq s t e r h =
      let f = Follows-Kept h.known (Kept-eq s.world t.world (e.0, e.1, e.2) e.3) in
      record {
        known = f.known;
        labelled = f.labelled h.labelled;
        re_reads =
            subst (All (λ (d : SourceDevice). known_in t.world d.sn ≡ true)) (sym r)
              (All-more s.world.by_sn t.world.by_sn s.re_reads f.more h.re_reads);
      }

  migrate_device_fields :
      (sn : Bytes) (s : Daemon F)
      → SameWorld s.world (migrate_device fx sn s).world
        × ((migrate_device fx sn s).re_reads ≡ s.re_reads)
  unfolding migrate_device
  migrate_device_fields sn s = ground arith

  migration_over_fields :
      (sn : Bytes) (failed : Bool) (s : Daemon F)
      → SameWorld s.world (migration_over fx sn failed s).world
        × ((migration_over fx sn failed s).re_reads ≡ s.re_reads)
  unfolding migration_over
  migration_over_fields sn failed s = ground arith

  sweep_over_fields :
      (sn : Bytes) (failed : Option Bytes) (declared : List Bytes) (window : List Retained)
      (s : Daemon F)
      → SameWorld s.world (sweep_over fx sn failed declared window s).world
        × ((sweep_over fx sn failed declared window s).re_reads ≡ s.re_reads)
  unfolding sweep_over
  sweep_over_fields sn failed declared window s = ground arith

  IsSound-in_flight : (e : Event F) (s : Daemon F) → IsSound s → IsSound (in_flight fx e s)
  unfolding in_flight
  IsSound-in_flight (reading dev report) s h =
      let f = migrate_device_fields dev.sn s in IsSound-eq s (migrate_device fx dev.sn s) f.0 f.1 h
  IsSound-in_flight (read_again i report) s h = record {
    known = h.known;
    labelled = h.labelled;
    re_reads =
        All-remove_at (λ (d : SourceDevice). known_in s.world d.sn ≡ true) i s.re_reads h.re_reads;
  }
  IsSound-in_flight (swept sn failed declared window) s h =
      let f = sweep_over_fields sn failed declared window s in
      IsSound-eq s (sweep_over fx sn failed declared window s) f.0 f.1 h
  IsSound-in_flight (old_swept sn failed) s h =
      let f = migration_over_fields sn failed s in
      IsSound-eq s (migration_over fx sn failed s) f.0 f.1 h
  IsSound-in_flight e s h = h

  IsSound-step :
      (env : Env F) (e : Event F) (s : Daemon F) → IsSound s → IsSound (step fx env e s).0
  unfolding step
  IsSound-step env e s h =
      let f = Follows-handle fx env e s h in
      let w = (handle fx env e s).0 in
      IsSound-settle (handle fx env e s).1 (in_flight fx e (record s { world = w })) (
        IsSound-in_flight e (record s { world = w })
          (record {
            known = f.known;
            labelled = f.labelled h.labelled;
            re_reads = All-more s.world.by_sn w.by_sn s.re_reads f.more h.re_reads;
          }))

  IsSound-run : (es : List (Env F × Event F)) (s : Daemon F) → IsSound s → IsSound (run fx es s)
  unfolding run
  IsSound-run [] s h = h
  IsSound-run ((env, e) ∷ es) s h = IsSound-run es (step fx env e s).0 (IsSound-step env e s h)

  IsSound-migrate_all :
      (ds : List SourceDevice) (s : Daemon F) → IsSound s → IsSound (migrate_all fx ds s)
  unfolding migrate_all
  IsSound-migrate_all [] s h = h
  IsSound-migrate_all (d ∷ ds) s h =
      let f = migrate_device_fields d.sn s in
      IsSound-migrate_all ds (migrate_device fx d.sn s)
        (IsSound-eq s (migrate_device fx d.sn s) f.0 f.1 h)

  Labelled-learn_all :
      (ds : List SourceDevice) (m : Map SourceDevice) → Labelled m → Labelled (learn_all ds m)
  unfolding learn_all
  Labelled-learn_all [] m h = h
  Labelled-learn_all (d ∷ ds) m h =
      Labelled-learn_all ds (insert d.sn d m)
        (λ k x e. ground (arith, e, h k x, lookup-insert d.sn k d m, beq_iff d.sn k))

  units-start : (b : Bool) → units_in {F = F} (if b then some [] else none) ≡ []
  units-start true = refl
  units-start false = refl

  devices-start : (b : Bool) → devices_in {F = F} (if b then some new_store else none) ≡ []
  devices-start true = refl
  devices-start false = refl

  Below-nil : (V : Type 0) (n : Map SourceDevice) → Below {V = V} [] n
  unfolding lookup
  Below-nil V n k e = cc

  IsSound-start :
      (devices : List SourceDevice) (web hass evcc : Bool)
      → IsSound (start fx devices web hass evcc)
  unfolding start
  IsSound-start devices web hass evcc = IsSound-migrate_all devices _ (record {
    known = record {
      last = Below-nil _ _;
      units = rw (units-start evcc) (Below-nil _ _, tt);
      devices = rw (devices-start web) (Below-nil _ _);
      keyed = rw (devices-start web) tt;
    };
    labelled = Labelled-learn_all devices [] (λ k d e. unfold lookup in cc);
    re_reads = tt;
  })

  -- After any events, in any order and with any answers, every device that has a last report, a unit of
  -- the evcc plane, or an entry of the store is in bySN, and so is every device that is about to be read
  -- again. bySN and the store hold each device under its own serial, and the plane no serial twice.
  pub run-IsSound :
      (devices : List SourceDevice) (web hass evcc : Bool) (es : List (Env F × Event F))
      → IsSound (run fx es (start fx devices web hass evcc))
  run-IsSound devices web hass evcc es =
      IsSound-run es (start fx devices web hass evcc) (IsSound-start devices web hass evcc)
