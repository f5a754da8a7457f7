-- ===== src/Coordinator/Battery/Restore.antt =====
-- `normal` behind `hold` and `charge`: applyBatteryMode of internal/coordinator/evcc.go over time.
use go_zendure2mqtt.Common.{
  ℕ, Bytes, lookup, copy, has_key, Map, Value, FloatOps, Option, none, some, true, List, [], ◌∷◌,
  ◌≡◌, ◌≢◌, refl, arith, ℤ, is_some, Option-cases, inl, inr,
}
use go_zendure2mqtt.Evcc.Mode.{
  Mode, normal, hold, charge, snapshot, reported, diff, entries, controlled,
}
use go_zendure2mqtt.Evcc.Diff.{AreNumbers-snapshot, lookup-snapshot, reported-copy}
use go_zendure2mqtt.Evcc.Profile.{number, to_float}
use go_zendure2mqtt.Coordinator.Battery.{EvccUnit, Outcome, unit_of, change_mode, merge_report}

-- What may happen to a unit: a report, or a command with the backend's answer and the time.
pub data Event (F : Type 0) : Type 0 where
  report : Map (Value F) → Event F
  command : Mode → (Map (Value F) → Option Bytes) → ℕ → Event F

-- No command for `normal` among the events.
abbrev pub IsLocking : {F : Type 0} → Event F → Type 0
IsLocking (report r) = Unit
IsLocking (command m answer now) = m ≢ normal

abbrev pub AllLocking : {F : Type 0} → List (Event F) → Type 0
AllLocking [] = Unit
AllLocking (e ∷ es) = IsLocking e × AllLocking es

module _ {F : Type 0} ⦃fl : FloatOps F⦄ where
  unfoldable pub happen : ℤ → Event F → EvccUnit F → EvccUnit F
  unfolding change_mode merge_report
  happen charge_w (report r) u = merge_report (some r) u
  happen charge_w (command m answer now) u = unit_of (change_mode charge_w answer now m u)

  unfoldable pub run : ℤ → List (Event F) → EvccUnit F → EvccUnit F
  run charge_w [] u = u
  run charge_w (e ∷ es) u = run charge_w es (happen charge_w e u)

  saved-happen :
      (charge_w : ℤ) (e : Event F) (u : EvccUnit F) (s : Map (Value F))
      → IsLocking e
      → u.saved ≡ some s
      → (happen charge_w e u).saved ≡ some s
  unfolding happen
  saved-happen charge_w (report r) u s l h = h
  saved-happen charge_w (command normal answer now) u s l h = absurd (l refl)
  saved-happen charge_w (command hold answer now) u s l h = ground arith
  saved-happen charge_w (command charge answer now) u s l h = ground arith

  saved-run :
      (charge_w : ℤ) (es : List (Event F)) (u : EvccUnit F) (s : Map (Value F))
      → AllLocking es
      → u.saved ≡ some s
      → (run charge_w es u).saved ≡ some s
  unfolding run
  saved-run charge_w [] u s l h = h
  saved-run charge_w (e ∷ es) u s l h =
      saved-run charge_w es (happen charge_w e u) s l.1 (saved-happen charge_w e u s l.0 h)

  -- The first command for `hold` or `charge` saves the snapshot, whether its write goes through or not.
  pub saved-change_mode :
      (charge_w : ℤ) (answer : Map (Value F) → Option Bytes) (now : ℕ) (m : Mode) (u : EvccUnit F)
      → m ≢ normal
      → u.saved ≡ none
      → u.props ≢ []
      → (unit_of (change_mode charge_w answer now m u)).saved ≡ some (snapshot u.props)
  unfolding change_mode
  saved-change_mode charge_w answer now normal u l h p = absurd (l refl)
  saved-change_mode charge_w answer now hold u l h p = ground arith
  saved-change_mode charge_w answer now charge u l h p = ground arith

  -- What a `normal` that the backend accepts leaves of a unit with something saved.
  pub change_mode-normal :
      (charge_w : ℤ) (answer : Map (Value F) → Option Bytes) (now : ℕ) (u : EvccUnit F)
      (s : Map (Value F))
      → u.saved ≡ some s
      → ((w : Map (Value F)) → answer w ≡ none)
      → change_mode charge_w answer now normal u
        ≡ Outcome.applied
            (record {
              props = copy u.props (entries (diff s u.props));
              mode = normal;
              saved = none;
              last_cmd = now;
            })
            (diff s u.props)
  unfolding change_mode copy
  change_mode-normal charge_w answer now u s h ok = elim (Option-cases (diff s u.props)) [
    | inl e ↦ ground (arith, e)
    | inr (w, e) ↦ ground (arith, e, ok w)
  ]

  read_back :
      (props q : Map (Value F)) (j : Bytes) (x : F)
      → has_key j controlled ≡ true
      → number props j ≡ some x
      → reported (snapshot props) q j ≡ true
      → (y : F) × (number q j ≡ some y) × (fl.feq (fl.of_int (fl.round x)) y ≡ true)
  unfolding reported to_float
  read_back props q j x c e r = elim (Option-cases (number q j)) [
    | inl none_there ↦ absurd (ground (arith, lookup-snapshot j props, none_there))
    | inr (y, there) ↦ (y, there, ground (arith, lookup-snapshot j props, there))
  ]

  is_saved :
      (props : Map (Value F)) (j : Bytes) (x : F)
      → has_key j controlled ≡ true
      → number props j ≡ some x
      → is_some (lookup j (snapshot props)) ≡ true
  is_saved props j x c e = ground (arith, lookup-snapshot j props)

  -- The unit after a command for a mode, and then some events.
  abbrev pub after_lock :
      ℤ → EvccUnit F → Mode → (Map (Value F) → Option Bytes) → ℕ → List (Event F) → EvccUnit F
  after_lock charge_w u m answer now es = run charge_w es (happen charge_w (command m answer now) u)

  -- Take a unit with nothing saved that has reported something. After a command for `hold` or
  -- `charge`, then any reports and any more commands for those two, whichever of their writes the
  -- backend refused, a `normal` whose write goes through leaves the unit in `normal` with nothing
  -- saved, and every controlled property that was a number before the first command is known with
  -- that number again, rounded to an integer.
  pub normal_restores :
      (charge_w : ℤ) (u : EvccUnit F) (m : Mode) (answer : Map (Value F) → Option Bytes) (now : ℕ)
      (es : List (Event F)) (answer' : Map (Value F) → Option Bytes) (now' : ℕ)
      → u.saved ≡ none
      → u.props ≢ []
      → m ≢ normal
      → AllLocking es
      → ((w : Map (Value F)) → answer' w ≡ none)
      → ((happen charge_w
            (command normal answer' now')
            (after_lock charge_w u m answer now es)).mode
          ≡ normal)
        × ((happen charge_w
              (command normal answer' now')
              (after_lock charge_w u m answer now es)).saved
            ≡ none)
        × ((j : Bytes) (x : F)
            → has_key j controlled ≡ true
            → number u.props j ≡ some x
            → (y : F) × (number
                  (happen charge_w
                    (command normal answer' now')
                    (after_lock charge_w u m answer now es)).props
                  j
                ≡ some y)
              × (fl.feq (fl.of_int (fl.round x)) y ≡ true))
  unfolding happen
  normal_restores charge_w u m answer now es answer' now' h p l locked ok =
      let s = snapshot u.props in
      let v = after_lock charge_w u m answer now es in
      let kept : v.saved ≡ some s =
        saved-run charge_w es (happen charge_w (command m answer now) u) s locked
          (saved-change_mode charge_w answer now m u l h p) in
      rw (change_mode-normal charge_w answer' now' v s kept ok) (
        refl,
        refl,
        λ j x c e.
            read_back u.props (copy v.props (entries (diff s v.props))) j x c e
              (reported-copy s v.props j (is_saved u.props j x c e) (AreNumbers-snapshot u.props)),
      )
