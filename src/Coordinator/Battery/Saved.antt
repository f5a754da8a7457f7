-- ===== src/Coordinator/Battery/Saved.antt =====
-- Where the snapshot of a unit comes from: applyBatteryMode of internal/coordinator/evcc.go over the
-- whole life of the plane.
use go_zendure2mqtt.Common.{
  Bytes, lookup, has_key, Map, Value, FloatOps, Option, none, some, true, ◌≡◌, ◌≢◌, refl, arith,
  is_some, if◌then◌else◌,
}
use go_zendure2mqtt.Evcc.Mode.{Mode, normal, hold, charge, snapshot, controlled}
use go_zendure2mqtt.Evcc.Diff.{saved_value}
use go_zendure2mqtt.Evcc.Profile.{number}
use go_zendure2mqtt.Coordinator.Battery.{EvccUnit, Plane, unit}
use go_zendure2mqtt.Coordinator.Battery.Units.{Step, Reach, HasSaved}

module _ {F : Type 0} ⦃fl : FloatOps F⦄ where
  -- the steps from one plane to a later one
  pub data Later (units : Plane F) : Plane F → Type 0 where
    now : Later units units
    then : {a b : Plane F} → Later units a → Step a b → Later units b

  -- How a mode change leaves what is saved.
  data SavedEnd (u v : EvccUnit F) : Type 0 where
    same : v.saved ≡ u.saved → SavedEnd u v
    gone : v.saved ≡ none → SavedEnd u v
    first : u.saved ≡ none → v.saved ≡ some (snapshot u.props) → SavedEnd u v

  -- The saved values come from an earlier plane on the way, in which the unit was in `normal` with
  -- nothing saved: each controlled property that was a number then, rounded.
  pub record IsTaken (j : Bytes) (units : Plane F) (s : Map (Value F)) : Type 0 where
    pub earlier : Plane F
    pub reached : Reach earlier
    pub later : Later earlier units
    pub unlocked : (unit earlier j).mode ≡ normal
    pub unsaved : (unit earlier j).saved ≡ none
    pub values :
        (k : Bytes)
        → lookup k s
          ≡ (if has_key k controlled then saved_value (number (unit earlier j).props k) else none)

  unlocked_mode :
      (m : Mode) (o : Option (Map (Value F)))
      → (m ≢ normal → is_some o ≡ true)
      → o ≡ none
      → m ≡ normal
  unlocked_mode normal o h n = refl
  unlocked_mode hold o h n = absurd (ground (arith, n, h (λ e. cc)))
  unlocked_mode charge o h n = absurd (ground (arith, n, h (λ e. cc)))

  unlocked : (u : EvccUnit F) → HasSaved u → u.saved ≡ none → u.mode ≡ normal
  unlocked u h n = unlocked_mode u.mode u.saved h n
