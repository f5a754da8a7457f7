-- ===== src/Web/Running.antt =====
-- The page of internal/web/web.go over a running coordinator: every control that it offers is taken.
use go_zendure2mqtt.Common.{
  Bytes, str, beq_refl, cut_prefix, less, lookup, Map, FloatOps, none, some, Bool, true, List, [],
  ◌∷◌, ◌++◌, ◌≡◌, refl, arith, All, All-append, is_some, Bool-cases, inl, inr,
}
use mathlib.Core.Path.{subst}
use go_zendure2mqtt.Catalog.Entry.{Entry, topic_leaf}
use go_zendure2mqtt.Catalog.Load.{load, loaded}
use go_zendure2mqtt.State.Store.{
  Store, Device, SourceDevice, shown, shown_devices, silent_devices, insert_device, sort_devices,
  snapshot_of,
}
use go_zendure2mqtt.State.Listed.{Keyed}
use go_zendure2mqtt.Coordinator.Web.{items}
use go_zendure2mqtt.Coordinator.Web.Shown.{items-Takes}
use go_zendure2mqtt.Coordinator.System.{Fixed, Env, Event, Daemon, known_in, commanded, run, start}
use go_zendure2mqtt.Coordinator.System.Kept.{Below, devices_in}
use go_zendure2mqtt.Coordinator.System.Sound.{run-IsSound}
use go_zendure2mqtt.Web.Dashboard.{ui_items}
use go_zendure2mqtt.Web.Offered.{Accepted, Accepted-ui_items, Sourced}

abbrev listed_in : Map SourceDevice → Bytes → Bool
listed_in n sn = is_some (lookup sn n)

module _ {F : Type 0} (n : Map SourceDevice) where
  Sourced-shown_devices :
      (s : Store F) (ds : Map (Device F))
      → Keyed ds
      → Below ds n
      → All (Sourced (listed_in n)) (shown_devices s ds)
  unfolding shown_devices shown lookup
  Sourced-shown_devices s [] k h = tt
  Sourced-shown_devices s ((sn, d) ∷ ds) k h = (
    inr (rw k.0 (h sn (rw (lookup, beq_refl sn) refl))),
    Sourced-shown_devices s ds k.1 (λ j e. h j (ground (arith, e))),
  )

  Sourced-silent_devices :
      (s : Store F) (os : Map Bool) → All (Sourced (listed_in n)) (silent_devices s os)
  unfolding silent_devices
  Sourced-silent_devices s [] = tt
  Sourced-silent_devices s ((sn, b) ∷ os) = elim (Bool-cases (is_some (lookup sn s.devices))) [
    | inl t ↦ rw t (Sourced-silent_devices s os)
    | inr f ↦ rw f (inl refl, Sourced-silent_devices s os)
  ]

  Sourced-insert_device :
      (d : Device F) (es : List (Device F))
      → Sourced (listed_in n) d
      → All (Sourced (listed_in n)) es
      → All (Sourced (listed_in n)) (insert_device d es)
  unfolding insert_device
  Sourced-insert_device d [] p h = (p, tt)
  Sourced-insert_device d (e ∷ es) p h = elim (Bool-cases (less d.sn e.sn)) [
    | inl t ↦ rw t (p, h)
    | inr f ↦ rw f (h.0, Sourced-insert_device d es p h.1)
  ]

  Sourced-sort_devices :
      (ds : List (Device F))
      → All (Sourced (listed_in n)) ds
      → All (Sourced (listed_in n)) (sort_devices ds)
  unfolding sort_devices
  Sourced-sort_devices [] h = tt
  Sourced-sort_devices (d ∷ ds) h =
      Sourced-insert_device d (sort_devices ds) h.0 (Sourced-sort_devices ds h.1)

  Sourced-snapshot_of :
      (s : Store F)
      → Keyed s.devices
      → Below s.devices n
      → All (Sourced (listed_in n)) (snapshot_of s)
  unfolding snapshot_of
  Sourced-snapshot_of s k h =
      Sourced-sort_devices (shown_devices s s.devices ++ silent_devices s s.online) (
        All-append (Sourced (listed_in n)) (shown_devices s s.devices) (silent_devices s s.online)
          (Sourced-shown_devices s s.devices k h) (Sourced-silent_devices s s.online))

module _ {F : Type 0} ⦃fl : FloatOps F⦄ (fx : Fixed F) (env : Env F) where
  -- what the page offers over the coordinator's store, and that it is taken
  abbrev pub AllAccepted : Daemon F → Store F → Type 0
  AllAccepted s st =
      All
        (Accepted (known_in s.world) fx.setup.catalog fx.setup.switches fx.charge_w env.writes
          fx.say env.now fx.parse (commanded s.world))
        (ui_items
          (items fx.setup.language fx.setup.catalog fx.setup.switches (is_some s.world.evcc))
          (snapshot_of st))

  -- Whatever happened before, no control that the page offers is refused for itself: a write through it
  -- is never one to an unknown device nor to an item that may not be written, whatever its value, when
  -- the device has a serial, the catalog was loaded, and no leaf or switch has a name that begins with
  -- the evcc group.
  pub run-AllAccepted :
      (devices : List SourceDevice) (web hass evcc : Bool) (events : List (Env F × Event F))
      (es : List (Entry F)) (st : Store F)
      → load (some es) ≡ loaded fx.setup.catalog
      → All (λ e. cut_prefix (topic_leaf e) (str "evcc/") ≡ none) es
      → All (λ s. cut_prefix s.topic (str "evcc/") ≡ none) fx.setup.switches
      → (run fx events (start fx devices web hass evcc)).world.store ≡ some st
      → AllAccepted (run fx events (start fx devices web hass evcc)) st
  run-AllAccepted devices web hass evcc events es st l he hs stored =
      let s = run fx events (start fx devices web hass evcc) in
      let sound = run-IsSound fx devices web hass evcc events in
      let keyed : Keyed st.devices = subst (λ o. Keyed (devices_in o)) stored sound.known.keyed in
      let below : Below st.devices s.world.by_sn =
        subst (λ o. Below (devices_in o) s.world.by_sn) stored sound.known.devices in
      Accepted-ui_items (known_in s.world) fx.setup.catalog fx.setup.switches fx.charge_w env.writes
        fx.say env.now fx.parse (commanded s.world)
        (items fx.setup.language fx.setup.catalog fx.setup.switches (is_some s.world.evcc))
        (snapshot_of st) (Sourced-snapshot_of s.world.by_sn st keyed below)
        (items-Takes (known_in s.world) fx.setup.catalog fx.setup.switches fx.charge_w true
          env.writes fx.say env.now fx.setup.language (commanded s.world) es l he hs)
