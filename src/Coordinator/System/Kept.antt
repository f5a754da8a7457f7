-- ===== src/Coordinator/System/Kept.antt =====
-- What is known in the running coordinator: whoever has reported, has a unit of the evcc plane or is
-- shown with values is in bySN; and the changes that keep it so.
use go_zendure2mqtt.Common.{
  Bytes, beq, beq_iff, lookup, insert, lookup-insert, has_key, keys, contains-keys, Map, Option,
  none, some, true, [], ◌∷◌, ◌≡◌, refl, sym, ◌∙◌, arith, is_some, Bool-cases, inl, inr,
}
use mathlib.Core.Path.{subst}
use go_zendure2mqtt.State.Store.{Store, Device, SourceDevice}
use go_zendure2mqtt.State.Listed.{Keyed}
use go_zendure2mqtt.Coordinator.Battery.Fallback.{HasDistinct}
use go_zendure2mqtt.Coordinator.Battery.{Plane}
use go_zendure2mqtt.Coordinator.Online.{World}

-- every key of one map is a key of the other
abbrev pub Below {ℓ κ} : {V : Type ℓ} {W : Type κ} → Map V → Map W → Type 0
Below m n = (k : Bytes) → is_some (lookup k m) ≡ true → is_some (lookup k n) ≡ true

pub Below-insert {ℓ κ} :
    {V : Type ℓ} {W : Type κ} (k : Bytes) (v : V) (m : Map V) (n : Map W)
    → is_some (lookup k n) ≡ true
    → Below m n
    → Below (insert k v m) n
Below-insert k v m n known h j e = ground (arith, h j, lookup-insert k j v m, beq_iff k j)

-- a device of bySN stands under its own serial
abbrev pub Labelled : Map SourceDevice → Type 0
Labelled n = (k : Bytes) (d : SourceDevice) → lookup k n ≡ some d → d.sn ≡ k

-- a Go map holds a key once
pub HasDistinct-insert {ℓ} :
    {V : Type ℓ} (k : Bytes) (v : V) (m : Map V) → HasDistinct m → HasDistinct (insert k v m)
unfolding insert has_key keys
HasDistinct-insert k v [] h = (refl, tt)
HasDistinct-insert k v ((j, w) ∷ m) (fresh, h) = elim (Bool-cases (beq j k)) [
  | inl e ↦ rw e (ground (arith, fresh, e, beq_iff j k), h)
  | inr e ↦ rw e (
    ground (
      arith,
      fresh,
      e,
      contains-keys j (insert k v m),
      contains-keys j m,
      lookup-insert k j v m,
      beq_iff k j,
      beq_iff j k,
    ),
    HasDistinct-insert k v m h,
  )
]

-- the units of a plane: distinct, and known
abbrev pub Units {ℓ κ} : {V : Type ℓ} {W : Type κ} → Map V → Map W → Type 0
Units m n = Below m n × HasDistinct m

pub Units-insert {ℓ κ} :
    {V : Type ℓ} {W : Type κ} (k : Bytes) (v : V) (m : Map V) (n : Map W)
    → is_some (lookup k n) ≡ true
    → Units m n
    → Units (insert k v m) n
Units-insert k v m n known h = (Below-insert k v m n known h.0, HasDistinct-insert k v m h.1)

module _ {F : Type 0} where
  abbrev pub devices_in : Option (Store F) → Map (Device F)
  devices_in none = []
  devices_in (some s) = s.devices

  abbrev pub units_in : Option (Plane F) → Plane F
  units_in none = []
  units_in (some units) = units

  -- what holds between events
  pub record IsKnown (w : World F) : Type 0 where
    pub last : Below w.last w.by_sn
    pub units : Units (units_in w.evcc) w.by_sn
    pub devices : Below (devices_in w.store) w.by_sn
    pub keyed : Keyed (devices_in w.store)

  -- a change that learns no device and names only known ones
  pub record Kept (w w' : World F) : Type 0 where
    pub by_sn : w'.by_sn ≡ w.by_sn
    pub last : Below w.last w.by_sn → Below w'.last w.by_sn
    pub units : Units (units_in w.evcc) w.by_sn → Units (units_in w'.evcc) w.by_sn
    pub devices : Below (devices_in w.store) w.by_sn → Below (devices_in w'.store) w.by_sn
    pub keyed : Keyed (devices_in w.store) → Keyed (devices_in w'.store)

  pub Kept-refl : (w : World F) → Kept w w
  Kept-refl w = record {
    by_sn = refl;
    last = λ h. h;
    units = λ h. h;
    devices = λ h. h;
    keyed = λ h. h;
  }

  pub Kept-trans : {u v w : World F} → Kept u v → Kept v w → Kept u w
  Kept-trans {u} {v} {w} a b = record {
    by_sn = b.by_sn ∙ a.by_sn;
    last = λ h.
        subst (λ n. Below w.last n) a.by_sn
          (b.last (subst (λ n. Below v.last n) (sym a.by_sn) (a.last h)));
    units = λ h.
        subst (λ n. Units (units_in w.evcc) n) a.by_sn
          (b.units (subst (λ n. Units (units_in v.evcc) n) (sym a.by_sn) (a.units h)));
    devices = λ h.
        subst (λ n. Below (devices_in w.store) n) a.by_sn
          (b.devices (subst (λ n. Below (devices_in v.store) n) (sym a.by_sn) (a.devices h)));
    keyed = λ h. b.keyed (a.keyed h);
  }

  pub IsKnown-Kept : {w w' : World F} → Kept w w' → IsKnown w → IsKnown w'
  IsKnown-Kept {w} {w'} k h = record {
    last = subst (λ n. Below w'.last n) (sym k.by_sn) (k.last h.last);
    units = subst (λ n. Units (units_in w'.evcc) n) (sym k.by_sn) (k.units h.units);
    devices = subst (λ n. Below (devices_in w'.store) n) (sym k.by_sn) (k.devices h.devices);
    keyed = k.keyed h.keyed;
  }

  -- a change of what the store holds, of the plane, of the reports, and of nothing that matters
  pub Kept-store :
      (w w' : World F)
      → (w'.by_sn ≡ w.by_sn) × (w'.last ≡ w.last) × (w'.evcc ≡ w.evcc)
      → (Below (devices_in w.store) w.by_sn → Below (devices_in w'.store) w.by_sn)
      → (Keyed (devices_in w.store) → Keyed (devices_in w'.store))
      → Kept w w'
  Kept-store w w' e devices keyed = record {
    by_sn = e.0;
    last = λ h. subst (λ m. Below m w.by_sn) (sym e.1) h;
    units = λ h. subst (λ m. Units (units_in m) w.by_sn) (sym e.2) h;
    devices = devices;
    keyed = keyed;
  }

  pub Kept-eq :
      (w w' : World F)
      → (w'.by_sn ≡ w.by_sn) × (w'.last ≡ w.last) × (w'.evcc ≡ w.evcc)
      → w'.store ≡ w.store
      → Kept w w'
  Kept-eq w w' e store =
      Kept-store w w' e (λ h. subst (λ m. Below (devices_in m) w.by_sn) (sym store) h)
        (λ h. subst (λ m. Keyed (devices_in m)) (sym store) h)

  pub Kept-devices :
      (w w' : World F)
      → (w'.by_sn ≡ w.by_sn) × (w'.last ≡ w.last) × (w'.evcc ≡ w.evcc)
      → devices_in w'.store ≡ devices_in w.store
      → Kept w w'
  Kept-devices w w' e store =
      Kept-store w w' e (λ h. subst (λ m. Below m w.by_sn) (sym store) h)
        (λ h. subst Keyed (sym store) h)

  pub Kept-units :
      (w w' : World F)
      → (w'.by_sn ≡ w.by_sn) × (w'.last ≡ w.last) × (w'.store ≡ w.store)
      → (Units (units_in w.evcc) w.by_sn → Units (units_in w'.evcc) w.by_sn)
      → Kept w w'
  Kept-units w w' e units = record {
    by_sn = e.0;
    last = λ h. subst (λ m. Below m w.by_sn) (sym e.1) h;
    units = units;
    devices = λ h. subst (λ m. Below (devices_in m) w.by_sn) (sym e.2) h;
    keyed = λ h. subst (λ m. Keyed (devices_in m)) (sym e.2) h;
  }
