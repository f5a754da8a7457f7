-- ===== src/State/Listed.antt =====
-- The devices that a snapshot lists: the operations of internal/state/state.go in any order.
use go_zendure2mqtt.Common.{
  ℕ, Bytes, beq, beq_iff, lookup, insert, lookup-insert, has_key, Map, Option, Bool, false,
  Bool-cases, inl, inr, not, List, [], ◌∷◌, ◌++◌, ◌&&◌, ◌||◌, ◌≡◌, refl, arith, is_some,
}
use go_zendure2mqtt.Process.Points.{Report, Point}
use go_zendure2mqtt.State.Store.{
  Store, Device, StateEntry, SourceDevice, Problem, notify, update, set_evcc, set_online,
  set_upstream, add_problem, new_store, device_of, shown, shown_devices, silent_devices,
  insert_device, sort_devices, snapshot_of,
}

-- the operations that write the store
pub data Op (F : Type 0) : Type 0 where
  updates : ℕ → SourceDevice → Option (Report F) → List (Point F) → Bytes → Op F
  sets_evcc : Bytes → List (StateEntry F) → Op F
  sets_online : Bytes → Bool → Op F
  sets_upstream : Bool → Op F
  adds_problem : ℕ → Problem → Op F

module _ {F : Type 0} where
  unfoldable pub perform : Op F → Store F → Store F
  perform (updates now dev report points lang) s = update now dev report points lang s
  perform (sets_evcc sn entries) s = set_evcc sn entries s
  perform (sets_online sn b) s = set_online sn b s
  perform (sets_upstream usable) s = set_upstream usable s
  perform (adds_problem now p) s = add_problem now p s

  unfoldable pub perform_all : List (Op F) → Store F → Store F
  unfolding perform
  perform_all [] s = s
  perform_all (op ∷ ops) s = perform_all ops (perform op s)

  -- whether an operation is about a device: it updates it or sets its reachability
  unfoldable pub is_about : Bytes → Op F → Bool
  is_about sn (updates now dev report points lang) = beq dev.sn sn
  is_about sn (sets_online j b) = beq j sn
  is_about sn _ = false

  unfoldable pub is_named : Bytes → List (Op F) → Bool
  unfolding is_about
  is_named sn [] = false
  is_named sn (op ∷ ops) = is_about sn op || is_named sn ops

  abbrev pub serials : List (Device F) → List Bytes
  serials [] = []
  serials (d ∷ ds) = d.sn ∷ serials ds

  -- each device stands under its own serial
  abbrev pub Keyed : Map (Device F) → Type 0
  Keyed [] = Unit
  Keyed ((sn, d) ∷ ds) = (d.sn ≡ sn) × Keyed ds

  pub Keyed-insert :
      (sn : Bytes) (d : Device F) (ds : Map (Device F))
      → d.sn ≡ sn
      → Keyed ds
      → Keyed (insert sn d ds)
  unfolding insert
  Keyed-insert sn d [] e h = (e, tt)
  Keyed-insert sn d ((j, x) ∷ ds) e h = elim (Bool-cases (beq j sn)) [
    | inl t ↦ rw t (e, h.1)
    | inr f ↦ rw f (h.0, Keyed-insert sn d ds e h.1)
  ]

  pub devices-set_online :
      (sn : Bytes) (b : Bool) (s : Store F) → (set_online sn b s).devices ≡ s.devices
  unfolding set_online notify
  devices-set_online sn b s = ground arith

  pub devices-set_upstream : (b : Bool) (s : Store F) → (set_upstream b s).devices ≡ s.devices
  unfolding set_upstream notify
  devices-set_upstream b s = ground arith

  Keyed-perform : (op : Op F) (s : Store F) → Keyed s.devices → Keyed (perform op s).devices
  unfolding perform update notify set_evcc add_problem
  Keyed-perform (updates now dev report points lang) s h =
      Keyed-insert dev.sn (device_of now dev report points lang) s.devices
        (unfold device_of in refl) h
  Keyed-perform (sets_evcc sn entries) s h = h
  Keyed-perform (sets_online sn b) s h = rw (devices-set_online sn b s) h
  Keyed-perform (sets_upstream usable) s h = rw (devices-set_upstream usable s) h
  Keyed-perform (adds_problem now p) s h = h

  has_key-append :
      (k : Bytes) (ds es : List (Device F))
      → has_key k (serials (ds ++ es)) ≡ (has_key k (serials ds) || has_key k (serials es))
  unfolding has_key
  has_key-append k [] es = refl
  has_key-append k (d ∷ ds) es = ground (arith, has_key-append k ds es)

  has_key-insert_device :
      (k : Bytes) (d : Device F) (es : List (Device F))
      → has_key k (serials (insert_device d es)) ≡ (beq d.sn k || has_key k (serials es))
  unfolding insert_device has_key
  has_key-insert_device k d [] = refl
  has_key-insert_device k d (e ∷ es) = ground (arith, has_key-insert_device k d es)

  has_key-sort_devices :
      (k : Bytes) (ds : List (Device F))
      → has_key k (serials (sort_devices ds)) ≡ has_key k (serials ds)
  unfolding sort_devices has_key
  has_key-sort_devices k [] = refl
  has_key-sort_devices k (d ∷ ds) =
      ground (arith, has_key-insert_device k d (sort_devices ds), has_key-sort_devices k ds)

  has_key-shown_devices :
      (k : Bytes) (s : Store F) (ds : Map (Device F))
      → Keyed ds
      → has_key k (serials (shown_devices s ds)) ≡ is_some (lookup k ds)
  unfolding shown_devices shown has_key lookup
  has_key-shown_devices k s [] h = refl
  has_key-shown_devices k s ((sn, d) ∷ ds) h = ground (arith, h.0, has_key-shown_devices k s ds h.1)

  has_key-silent_devices :
      (k : Bytes) (s : Store F) (os : Map Bool)
      → has_key k (serials (silent_devices s os))
        ≡ (is_some (lookup k os) && not (is_some (lookup k s.devices)))
  unfolding silent_devices has_key lookup
  has_key-silent_devices k s [] = refl
  has_key-silent_devices k s ((sn, b) ∷ os) =
      ground (arith, beq_iff sn k, has_key-silent_devices k s os)

  -- whether the store knows a device
  abbrev known : Bytes → Store F → Bool
  known k s = is_some (lookup k s.devices) || is_some (lookup k s.online)

  has_key-snapshot_of :
      (k : Bytes) (s : Store F) → Keyed s.devices → has_key k (serials (snapshot_of s)) ≡ known k s
  unfolding snapshot_of
  has_key-snapshot_of k s h = ground (
    arith,
    has_key-sort_devices k (shown_devices s s.devices ++ silent_devices s s.online),
    has_key-append k (shown_devices s s.devices) (silent_devices s s.online),
    has_key-shown_devices k s s.devices h,
    has_key-silent_devices k s s.online,
  )

  known-perform :
      (k : Bytes) (op : Op F) (s : Store F) → known k (perform op s) ≡ (is_about k op || known k s)
  unfolding perform update notify set_evcc set_online set_upstream add_problem is_about
  known-perform k (updates now dev report points lang) s =
      ground (arith, lookup-insert dev.sn k (device_of now dev report points lang) s.devices)
  known-perform k (sets_evcc sn entries) s = refl
  known-perform k (sets_online sn b) s = ground (arith, lookup-insert sn k b s.online)
  known-perform k (sets_upstream usable) s = ground arith
  known-perform k (adds_problem now p) s = refl

  has_key-perform_all :
      (k : Bytes) (ops : List (Op F)) (s : Store F)
      → Keyed s.devices
      → has_key k (serials (snapshot_of (perform_all ops s))) ≡ (is_named k ops || known k s)
  unfolding perform_all is_named
  has_key-perform_all k [] s h = has_key-snapshot_of k s h
  has_key-perform_all k (op ∷ ops) s h =
      ground (
        arith,
        has_key-perform_all k ops (perform op s) (Keyed-perform op s h),
        known-perform k op s,
      )

  -- A snapshot lists a device exactly when some operation since the start updated it or told its
  -- reachability, whatever else was written.
  pub snapshot_of-listed :
      (k : Bytes) (ops : List (Op F))
      → has_key k (serials (snapshot_of (perform_all ops new_store))) ≡ is_named k ops
  snapshot_of-listed k ops = unfold lookup in ground (arith, has_key-perform_all k ops new_store tt)
