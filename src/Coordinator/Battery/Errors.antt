-- ===== src/Coordinator/Battery/Errors.antt =====
-- How a battery mode ends for the unit and for the world outside, by the writes that the backend takes
-- and refuses: applyBatteryMode of internal/coordinator/evcc.go.
use go_zendure2mqtt.Common.{
  Bytes, beq, copy, Map, Value, Option, none, some, Bool, true, false, List, [], ◌∷◌, ◌&&◌, ◌||◌,
  ◌≤◌, ◌≡◌, length, if◌then◌else◌,
}
use go_zendure2mqtt.Evcc.Mode.{Mode, normal, same_mode}
use go_zendure2mqtt.Coordinator.Battery.{EvccUnit, Effect, write, re_read}

module _ {F : Type 0} where
  -- the writes to a unit among the effects
  abbrev pub writes_to : Bytes → List (Effect F) → List (Map (Value F))
  writes_to sn [] = []
  writes_to sn (write k w ∷ es) = if beq k sn then w ∷ writes_to sn es else writes_to sn es
  writes_to sn (e ∷ es) = writes_to sn es

  -- whether anything is published or mirrored
  abbrev pub announces : List (Effect F) → Bool
  announces [] = false
  announces (write k w ∷ es) = announces es
  announces (re_read k ∷ es) = announces es
  announces (e ∷ es) = true

  -- the properties behind the writes that the backend takes
  abbrev pub taken :
      (Map (Value F) → Option Bytes) → List (Map (Value F)) → Map (Value F) → Map (Value F)
  taken answer [] props = props
  taken answer (w ∷ ws) props =
      taken answer ws (elim (answer w) [ none ↦ copy props w | some e ↦ props ])

  abbrev pub all_taken : (Map (Value F) → Option Bytes) → List (Map (Value F)) → Bool
  all_taken answer [] = true
  all_taken answer (w ∷ ws) = elim (answer w) [ none ↦ all_taken answer ws | some e ↦ false ]

  abbrev pub has_report : EvccUnit F → Bool
  has_report u = elim u.props [ [] ↦ false | p ∷ ps ↦ true ]

  -- how a change of mode is to end for the unit, by the effects it has
  abbrev pub EndsWell :
      (Map (Value F) → Option Bytes)
      → Bytes
      → Mode
      → EvccUnit F
      → EvccUnit F
      → List (Effect F)
      → Type 0
  EndsWell answer sn m u v effects =
      let ws = writes_to sn effects in
      let succeeds = all_taken answer ws && (same_mode m normal || has_report u) in
      (v.props ≡ taken answer ws u.props)
      × (v.mode ≡ (if succeeds then m else u.mode))
      × (announces effects ≡ succeeds)
      × (length ws ≤ 1)
