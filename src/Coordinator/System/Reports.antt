-- ===== src/Coordinator/System/Reports.antt =====
-- publish, onReading and the backends' callbacks of internal/coordinator/coordinator.go: what they leave
-- known.
use go_zendure2mqtt.Common.{
  ℕ, Bytes, beq_iff, lookup, insert, lookup-insert, FloatOps, Option, none, some, Bool, true, ◌≡◌,
  refl, sym, ap, ◌∙◌, arith, is_some, Bool-cases, inl, inr,
}
use mathlib.Core.Path.{subst}
use go_zendure2mqtt.Process.Points.{Report}
use go_zendure2mqtt.State.Store.{
  Store, SourceDevice, device_of, update, notify, set_online, set_upstream,
}
use go_zendure2mqtt.State.Listed.{Keyed, Keyed-insert, devices-set_online, devices-set_upstream}
use go_zendure2mqtt.Coordinator.Battery.{Plane, publish_evcc}
use go_zendure2mqtt.Coordinator.Online.{
  World, Setup, points_of, store_report, discover, publish_items, publish_profile, publish,
  learn_device, on_reading, upstream_usable, device_reachable, publish_current, republish_discovery,
}
use go_zendure2mqtt.Coordinator.System.Kept.{
  Below, Below-insert, Units, Units-insert, Labelled, devices_in, units_in, IsKnown, Kept,
  Kept-trans, IsKnown-Kept, Kept-store, Kept-eq, Kept-devices, Kept-units,
}

module _ {F : Type 0} ⦃fl : FloatOps F⦄ (su : Setup F) where
  updated : ℕ → SourceDevice → Report F → Option (Store F) → Option (Store F)
  updated now dev report none = none
  updated now dev report (some s) =
      some (update now dev (some report) (points_of su report) su.language s)

  Below-updated :
      (now : ℕ) (dev : SourceDevice) (report : Report F) (w : World F) (o : Option (Store F))
      → is_some (lookup dev.sn w.by_sn) ≡ true
      → Below (devices_in o) w.by_sn
      → Below (devices_in (updated now dev report o)) w.by_sn
  unfolding updated update notify
  Below-updated now dev report w none known h = h
  Below-updated now dev report w (some s) known h = Below-insert dev.sn _ s.devices w.by_sn known h

  Keyed-updated :
      (now : ℕ) (dev : SourceDevice) (report : Report F) (o : Option (Store F))
      → Keyed (devices_in o)
      → Keyed (devices_in (updated now dev report o))
  unfolding updated update notify
  Keyed-updated now dev report none h = h
  Keyed-updated now dev report (some s) h =
      Keyed-insert dev.sn _ s.devices (unfold device_of in refl) h

  store_report_lem :
      (now : ℕ) (dev : SourceDevice) (report : Report F) (w : World F)
      → store_report su now dev report w ≡ record w { store = updated now dev report w.store }
  unfolding store_report updated
  store_report_lem now dev report w = ground arith

  Kept-store_report :
      (now : ℕ) (dev : SourceDevice) (report : Report F) (w : World F)
      → is_some (lookup dev.sn w.by_sn) ≡ true
      → Kept w (store_report su now dev report w)
  Kept-store_report now dev report w known = rw (store_report_lem now dev report w) (
      Kept-store w (record w { store = updated now dev report w.store }) (refl, refl, refl)
        (Below-updated now dev report w w.store known) (Keyed-updated now dev report w.store))

  discover_fields :
      (dev : SourceDevice) (report : Report F) (w : World F)
      → let w' = (discover su dev report w).0 in
        (w'.by_sn ≡ w.by_sn) × (w'.evcc ≡ w.evcc) × (w'.store ≡ w.store)
  unfolding discover
  discover_fields dev report w = ground arith

  Below-discover :
      (dev : SourceDevice) (report : Report F) (w : World F)
      → is_some (lookup dev.sn w.by_sn) ≡ true
      → Below w.last w.by_sn
      → Below (discover su dev report w).0.last w.by_sn
  unfolding discover
  Below-discover dev report w known h k e = ground (
    arith,
    Below-insert dev.sn (record { dev = dev; report = report }) w.last w.by_sn known h k,
    h k,
  )

  Kept-discover :
      (dev : SourceDevice) (report : Report F) (w : World F)
      → is_some (lookup dev.sn w.by_sn) ≡ true
      → Kept w (discover su dev report w).0
  Kept-discover dev report w known =
      let f = discover_fields dev report w in
      record {
        by_sn = f.0;
        last = Below-discover dev report w known;
        units = λ h. subst (λ m. Units (units_in m) w.by_sn) (sym f.1) h;
        devices = λ h. subst (λ m. Below (devices_in m) w.by_sn) (sym f.2) h;
        keyed = λ h. subst (λ m. Keyed (devices_in m)) (sym f.2) h;
      }

  Kept-publish_items :
      (dev : SourceDevice) (report : Report F) (w : World F)
      → Kept w (publish_items su dev report w).0
  unfolding publish_items
  Kept-publish_items dev report w =
      Kept-eq w (publish_items su dev report w).0 (refl, refl, refl) refl

  profiled : SourceDevice → Report F → Option (Plane F) → Option (Plane F)
  profiled dev report none = none
  profiled dev report (some units) = some (publish_evcc (some report.properties) dev.sn units).0

  Below-profiled :
      (dev : SourceDevice) (report : Report F) (w : World F) (o : Option (Plane F))
      → is_some (lookup dev.sn w.by_sn) ≡ true
      → Units (units_in o) w.by_sn
      → Units (units_in (profiled dev report o)) w.by_sn
  unfolding profiled publish_evcc
  Below-profiled dev report w none known h = h
  Below-profiled dev report w (some units) known h = Units-insert dev.sn _ units w.by_sn known h

  publish_profile_lem :
      (dev : SourceDevice) (report : Report F) (w : World F)
      → (publish_profile su dev report w).0 ≡ record w { evcc = profiled dev report w.evcc }
  unfolding publish_profile profiled
  publish_profile_lem dev report w = ground arith

  Kept-publish_profile :
      (dev : SourceDevice) (report : Report F) (w : World F)
      → is_some (lookup dev.sn w.by_sn) ≡ true
      → Kept w (publish_profile su dev report w).0
  Kept-publish_profile dev report w known = rw (publish_profile_lem dev report w) (
      Kept-units w (record w { evcc = profiled dev report w.evcc }) (refl, refl, refl)
        (Below-profiled dev report w w.evcc known))

  pub Kept-publish :
      (now : ℕ) (dev : SourceDevice) (report : Report F) (w : World F)
      → is_some (lookup dev.sn w.by_sn) ≡ true
      → Kept w (publish su now dev report w).0
  unfolding publish
  Kept-publish now dev report w known =
      let a = Kept-store_report now dev report w known in
      let w1 = store_report su now dev report w in
      let known1 : is_some (lookup dev.sn w1.by_sn) ≡ true =
        subst (λ n. is_some (lookup dev.sn n) ≡ true) (sym a.by_sn) known in
      let b = Kept-discover dev report w1 known1 in
      let w2 = (discover su dev report w1).0 in
      let w3 = (publish_items su dev report w2).0 in
      let c = Kept-publish_items dev report w2 in
      let ab = Kept-trans (Kept-trans a b) c in
      Kept-trans ab (
        Kept-publish_profile dev report w3
          (subst (λ n. is_some (lookup dev.sn n) ≡ true) (sym ab.by_sn) known))

  learn_device_lem :
      (dev : SourceDevice) (w : World F)
      → IsKnown w
      → IsKnown (learn_device su dev w)
        × (is_some (lookup dev.sn (learn_device su dev w).by_sn) ≡ true)
        × Below w.by_sn (learn_device su dev w).by_sn
        × (Labelled w.by_sn → Labelled (learn_device su dev w).by_sn)
  unfolding learn_device
  learn_device_lem dev w h = elim (Bool-cases (is_some (lookup dev.sn w.by_sn))) [
    | inl t ↦ rw t (h, t, λ k e. e, λ l. l)
    | inr f ↦
        let more : Below w.by_sn (insert dev.sn dev w.by_sn) =
          λ k e. ground (arith, e, lookup-insert dev.sn k dev w.by_sn) in
        rw f (
          record {
            last = λ k e. more k (h.last k e);
            units = (λ k e. more k (h.units.0 k e), h.units.1);
            devices = λ k e. more k (h.devices k e);
            keyed = h.keyed;
          },
          ground (arith, lookup-insert dev.sn dev.sn dev w.by_sn, beq_iff dev.sn dev.sn),
          more,
          λ l k d e. ground (arith, e, l k d, lookup-insert dev.sn k dev w.by_sn, beq_iff dev.sn k),
        )
  ]

  pub on_reading-IsKnown :
      (now : ℕ) (dev : SourceDevice) (report : Report F) (w : World F)
      → IsKnown w
      → IsKnown (on_reading su now dev report w).0
        × (is_some (lookup dev.sn (on_reading su now dev report w).0.by_sn) ≡ true)
        × Below w.by_sn (on_reading su now dev report w).0.by_sn
        × (Labelled w.by_sn → Labelled (on_reading su now dev report w).0.by_sn)
  unfolding on_reading
  on_reading-IsKnown now dev report w h =
      let l = learn_device_lem dev w h in
      let k = Kept-publish now dev report (learn_device su dev w) l.1 in
      (
        IsKnown-Kept k l.0,
        rw k.by_sn l.1,
        subst (λ n. Below w.by_sn n) (sym k.by_sn) l.2,
        λ h'. subst Labelled (sym k.by_sn) (l.3 h'),
      )

  changed : (Store F → Store F) → Option (Store F) → Option (Store F)
  changed f none = none
  changed f (some s) = some (f s)

  devices_in-changed :
      (f : Store F → Store F) (o : Option (Store F))
      → ((s : Store F) → (f s).devices ≡ s.devices)
      → devices_in (changed f o) ≡ devices_in o
  unfolding changed
  devices_in-changed f none h = refl
  devices_in-changed f (some s) h = h s

  pub Kept-upstream_usable : (b : Bool) (w : World F) → Kept w (upstream_usable su b w).0
  unfolding upstream_usable
  Kept-upstream_usable b w =
      let e : (upstream_usable su b w).0.store ≡ changed (set_upstream b) w.store =
        unfold changed in ground arith in
      Kept-devices w (upstream_usable su b w).0 (refl, refl, refl)
        (ap devices_in e ∙ devices_in-changed (set_upstream b) w.store (devices-set_upstream b))

  pub Kept-device_reachable :
      (sn : Bytes) (b : Bool) (w : World F) → Kept w (device_reachable su sn b w).0
  unfolding device_reachable
  Kept-device_reachable sn b w =
      let e : (device_reachable su sn b w).0.store ≡ changed (set_online sn b) w.store =
        unfold changed in ground arith in
      Kept-devices w (device_reachable su sn b w).0 (refl, refl, refl)
        (ap devices_in e ∙ devices_in-changed (set_online sn b) w.store (devices-set_online sn b))

  republish_discovery_fields :
      (w : World F)
      → let w' = (republish_discovery su w).0 in
        (w'.by_sn ≡ w.by_sn) × (w'.last ≡ w.last) × (w'.evcc ≡ w.evcc) × (w'.store ≡ w.store)
  unfolding republish_discovery
  republish_discovery_fields w = ground arith

  pub Kept-publish_current : (w : World F) → Kept w (publish_current su w).0
  unfolding publish_current
  Kept-publish_current w =
      let f = republish_discovery_fields w in
      Kept-eq w (republish_discovery su w).0 (f.0, f.1, f.2) f.3
