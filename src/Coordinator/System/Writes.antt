-- ===== src/Coordinator/System/Writes.antt =====
-- What the commands of internal/coordinator leave known: handleSet, handleEVCCSet, Write and
-- evccFallback.
use go_zendure2mqtt.Common.{
  ℕ, Bytes, str, beq, cut_prefix, lookup, Map, Value, FloatOps, Option, none, some, Bool, true, not,
  ◌&&◌, ◌||◌, List, [], ◌∷◌, ◌++◌, ◌≡◌, refl, sym, ap, arith, ℤ, is_some, Bool-cases, Option-cases,
  inl, inr,
}
use mathlib.Core.Path.{subst}
use go_zendure2mqtt.State.Store.{Store, SourceDevice, notify, add_problem}
use go_zendure2mqtt.State.Listed.{Keyed}
use go_zendure2mqtt.Evcc.Mode.{Mode, normal, parse_mode}
use go_zendure2mqtt.Evcc.Profile.{group, role_battery, key_battery_mode}
use go_zendure2mqtt.Coordinator.Battery.{Plane, apply_battery_mode, normal_each, evcc_fallback}
use go_zendure2mqtt.Coordinator.Commands.{SetValue, apply_evcc_set, reject_set}
use go_zendure2mqtt.Coordinator.Online.{World}
use go_zendure2mqtt.Coordinator.System.Kept.{Below, Units, Units-insert, devices_in, units_in, Kept}
use go_zendure2mqtt.Coordinator.Commands.Routes.{
  Failure, bad_payload, rejected, handle_set, handle_evcc_set, set_evcc_item, set_item, write_item,
  write_running, cut_slash,
}
use go_zendure2mqtt.Coordinator.Commands.Routes
use go_zendure2mqtt.Coordinator.System.{Fixed, commanded, behind, or_new, known_in}

-- The plane behind the commands, when a unit is known by a device of the map `n`.
module _ {F : Type 0} ⦃fl : FloatOps F⦄ (charge_w : ℤ) (answer : Map (Value F) → Option Bytes)
    (now : ℕ) (n : Map SourceDevice) where
  abbrev listed : Bytes → Bool
  listed sn = is_some (lookup sn n)

  Units-apply_battery_mode :
      (m : Mode) (sn : Bytes) (units : Plane F)
      → listed sn ≡ true
      → Units units n
      → Units (apply_battery_mode charge_w true answer now m sn units).0 n
  unfolding apply_battery_mode
  Units-apply_battery_mode m sn units known h = Units-insert sn _ units n known h

  Units-normal_each :
      (sns : List Bytes) (units : Plane F)
      → Units units n
      → Units (normal_each charge_w true answer now listed sns units).0 n
  unfolding normal_each
  Units-normal_each [] units h = h
  Units-normal_each (sn ∷ sns) units h = elim (Bool-cases (listed sn)) [
    | inl t ↦ rw t (
        Units-normal_each sns (apply_battery_mode charge_w true answer now normal sn units).0
          (Units-apply_battery_mode normal sn units t h))
    | inr f ↦ rw f (Units-normal_each sns units h)
  ]

  pub Units-evcc_fallback :
      (timeout : ℕ) (units : Plane F)
      → Units units n
      → Units (evcc_fallback charge_w true answer now timeout listed units).0 n
  unfolding evcc_fallback
  Units-evcc_fallback timeout units h = Units-normal_each _ units h

  -- a command for the battery mode, with a plain payload
  abbrev reaches : Bytes → Bytes → SetValue → Bool
  reaches role key v =
      not (not (beq role role_battery) || not (beq key key_battery_mode)) && not v.structured

  Units-apply_evcc_set :
      (sn role key : Bytes) (v : SetValue) (units : Plane F)
      → Units units n
      → Units (apply_evcc_set listed charge_w true answer now sn role key v units).0 n
  unfolding apply_evcc_set
  Units-apply_evcc_set sn role key v units h =
      let out = (apply_evcc_set listed charge_w true answer now sn role key v units).0 in
      elim (Bool-cases (listed sn)) [
        | inl t ↦ elim (Option-cases (parse_mode v.text)) [
          | inl e ↦
              let same : out ≡ units = ground (arith, e) in subst (λ m. Units m n) (sym same) h
          | inr (m, e) ↦ elim (Bool-cases (reaches role key v)) [
            | inl r ↦
                let same : out ≡ (apply_battery_mode charge_w true answer now m sn units).0 =
                  ground (arith, e, t, r) in
                subst (λ p. Units p n) (sym same) (Units-apply_battery_mode m sn units t h)
            | inr r ↦
                let same : out ≡ units = ground (arith, e, t, r) in
                subst (λ p. Units p n) (sym same) h
          ]
        ]
        | inr f ↦ let same : out ≡ units = ground (arith, f) in subst (λ m. Units m n) (sym same) h
      ]

-- The commands over the whole coordinator.
module _ {F : Type 0} ⦃fl : FloatOps F⦄ (fx : Fixed F) (answer : Map (Value F) → Option Bytes)
    (now : ℕ) (w : World F) where
  -- what a command may leave of what the commands see
  record KeptBehind (c : Routes.World F) : Type 0 where
    units : Units (units_in w.evcc) w.by_sn → Units (units_in c.evcc) w.by_sn
    devices : c.store.devices ≡ (or_new w.store).devices

  devices-behind :
      (o : Option (Store F)) (s : Store F)
      → s.devices ≡ (or_new o).devices
      → devices_in {F = F} (elim o [ none ↦ none | some _ ↦ some s ]) ≡ devices_in o
  devices-behind none s e = refl
  devices-behind (some x) s e = e

  Kept-behind : (c : Routes.World F) → KeptBehind c → Kept w (behind w c)
  Kept-behind c k =
      let same = devices-behind w.store c.store k.devices in
      record {
        by_sn = refl;
        last = λ h. h;
        units = k.units;
        devices = λ h. subst (λ m. Below m w.by_sn) (sym same) h;
        keyed = λ h. subst Keyed (sym same) h;
      }

  KeptBehind-rejected :
      (sn topic payload : Bytes) (e : Option Failure) (c : Routes.World F)
      → KeptBehind c
      → KeptBehind (
          rejected
            (known_in w)
            fx.setup.catalog
            fx.setup.switches
            fx.charge_w
            true
            answer
            fx.say
            now
            sn
            topic
            payload
            e
            c)
  unfolding rejected reject_set add_problem notify
  KeptBehind-rejected sn topic payload none c k = k
  KeptBehind-rejected sn topic payload (some e) c k = record {
    units = k.units;
    devices = k.devices;
  }

  KeptBehind-commanded : KeptBehind (commanded w)
  KeptBehind-commanded = record { units = λ h. h; devices = refl }

  plane_set : Bytes → Bytes → Bytes → SetValue → Option (Plane F) → Option (Plane F)
  plane_set sn role key v none = none
  plane_set sn role key v (some units) =
      some (apply_evcc_set (known_in w) fx.charge_w true answer now sn role key v units).0

  Units-plane_set :
      (sn role key : Bytes) (v : SetValue) (o : Option (Plane F))
      → Units (units_in o) w.by_sn
      → Units (units_in (plane_set sn role key v o)) w.by_sn
  unfolding plane_set
  Units-plane_set sn role key v none h = h
  Units-plane_set sn role key v (some units) h =
      Units-apply_evcc_set fx.charge_w answer now w.by_sn sn role key v units h

  set_evcc_item_fields :
      (sn role key : Bytes) (v : SetValue)
      → let c =
          (set_evcc_item
            (known_in w)
            fx.setup.catalog
            fx.setup.switches
            fx.charge_w
            true
            answer
            fx.say
            now
            sn
            role
            key
            v
            (commanded w)).0 in
        (c.evcc ≡ plane_set sn role key v w.evcc) × (c.store ≡ or_new w.store)
  unfolding set_evcc_item plane_set
  set_evcc_item_fields sn role key v = ground arith

  KeptBehind-set_evcc_item :
      (sn role key : Bytes) (v : SetValue)
      → KeptBehind
          (set_evcc_item
            (known_in w)
            fx.setup.catalog
            fx.setup.switches
            fx.charge_w
            true
            answer
            fx.say
            now
            sn
            role
            key
            v
            (commanded w)).0
  KeptBehind-set_evcc_item sn role key v =
      let f = set_evcc_item_fields sn role key v in
      record {
        units = λ h.
            subst (λ m. Units (units_in m) w.by_sn) (sym f.0)
              (Units-plane_set sn role key v w.evcc h);
        devices = ap (λ (s : Store F). s.devices) f.1;
      }

  KeptBehind-set_item :
      (sn key : Bytes) (v : SetValue)
      → KeptBehind
          (set_item
            (known_in w)
            fx.setup.catalog
            fx.setup.switches
            fx.charge_w
            true
            answer
            fx.say
            now
            sn
            key
            v
            (commanded w)).0
  unfolding set_item
  KeptBehind-set_item sn key v = elim (Option-cases (cut_prefix key (group ++ b'/' ∷ []))) [
    | inl e ↦ rw (set_item, e) KeptBehind-commanded
    | inr (rest, e) ↦
        rw (set_item, e) (KeptBehind-set_evcc_item sn (cut_slash rest).0 (cut_slash rest).1 v)
  ]

  pub Kept-handle_set :
      (wildcards : List Bytes) (topic payload : Bytes) (v : SetValue)
      → Kept w (
          behind w
            (handle_set
              (known_in w)
              fx.setup.catalog
              fx.setup.switches
              fx.charge_w
              true
              answer
              fx.say
              now
              wildcards
              topic
              payload
              v
              (commanded w)).0)
  unfolding handle_set
  Kept-handle_set (sn ∷ g ∷ leaf ∷ []) topic payload v =
      Kept-behind _ (KeptBehind-rejected sn topic payload _ (commanded w) KeptBehind-commanded)
  Kept-handle_set _ topic payload v = Kept-behind (commanded w) KeptBehind-commanded

  pub Kept-handle_evcc_set :
      (wildcards : List Bytes) (topic payload : Bytes) (v : SetValue)
      → Kept w (
          behind w
            (handle_evcc_set
              (known_in w)
              fx.setup.catalog
              fx.setup.switches
              fx.charge_w
              true
              answer
              fx.say
              now
              wildcards
              topic
              payload
              v
              (commanded w)).0)
  unfolding handle_evcc_set
  Kept-handle_evcc_set (sn ∷ role ∷ key ∷ []) topic payload v =
      Kept-behind _
        (KeptBehind-rejected sn topic payload _ _ (KeptBehind-set_evcc_item sn role key v))
  Kept-handle_evcc_set _ topic payload v = Kept-behind (commanded w) KeptBehind-commanded

  KeptBehind-write_item :
      (device key value : Bytes)
      → KeptBehind
          (write_item
            (known_in w)
            fx.setup.catalog
            fx.setup.switches
            fx.charge_w
            true
            answer
            fx.say
            now
            fx.parse
            device
            key
            value
            (commanded w)).0
  unfolding write_item write_running
  KeptBehind-write_item device key value = elim (Option-cases (fx.parse value)) [
    | inl e ↦
        rw (write_running, e)
          (KeptBehind-rejected device (str "web " ++ (device ++ b'/' ∷ key)) value
            (some bad_payload) (commanded w) KeptBehind-commanded)
    | inr (v, e) ↦
        rw (write_running, e)
          (KeptBehind-rejected device _ value _ _ (KeptBehind-set_item device key v))
  ]

  pub Kept-write_item :
      (device key value : Bytes)
      → Kept w (
          behind w
            (write_item
              (known_in w)
              fx.setup.catalog
              fx.setup.switches
              fx.charge_w
              true
              answer
              fx.say
              now
              fx.parse
              device
              key
              value
              (commanded w)).0)
  Kept-write_item device key value = Kept-behind _ (KeptBehind-write_item device key value)
