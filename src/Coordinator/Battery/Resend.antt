-- ===== src/Coordinator/Battery/Resend.antt =====
-- A mode that is sent again to applyBatteryMode of internal/coordinator/evcc.go.
use go_zendure2mqtt.Common.{
  ℕ, Bytes, copy, copy-ne-nil, Map, Value, FloatOps, Option, none, some, [], ◌≡◌, ◌≢◌, refl, arith,
  ℤ, Option-cases, inl, inr,
}
use go_zendure2mqtt.Evcc.Mode.{Mode, normal, hold, charge, snapshot, target, diff, entries}
use go_zendure2mqtt.Evcc.Diff.{AreNumbers-target, target-copy, diff-copy}
use go_zendure2mqtt.Coordinator.Battery.{EvccUnit, Outcome, unit_of, change_mode}

module _ {F : Type 0} ⦃fl : FloatOps F⦄ where
  -- what the first `hold` or `charge` saves, if nothing is saved yet
  unfoldable pub saved_or_snapshot : EvccUnit F → Map (Value F)
  saved_or_snapshot u = elim u.saved [ none ↦ snapshot u.props | some s ↦ s ]

  abbrev pub locked_unit : ℤ → ℕ → Mode → EvccUnit F → EvccUnit F
  locked_unit charge_w now m u = record {
    props = copy u.props (entries (diff (target m u.props charge_w) u.props));
    mode = m;
    saved = some (saved_or_snapshot u);
    last_cmd = now;
  }

  -- What a `hold` or `charge` that the backend accepts leaves of a unit that has reported.
  pub change_mode-lock :
      (charge_w : ℤ) (answer : Map (Value F) → Option Bytes) (now : ℕ) (m : Mode) (u : EvccUnit F)
      → m ≢ normal
      → u.props ≢ []
      → ((w : Map (Value F)) → answer w ≡ none)
      → change_mode charge_w answer now m u
        ≡ Outcome.applied (locked_unit charge_w now m u) (diff (target m u.props charge_w) u.props)
  unfolding change_mode copy saved_or_snapshot
  change_mode-lock charge_w answer now normal u l p ok = absurd (l refl)
  change_mode-lock charge_w answer now hold u l p ok =
      elim (Option-cases (diff (target hold u.props charge_w) u.props)) [
        | inl e ↦ ground (arith, e)
        | inr (w, e) ↦ ground (arith, e, ok w)
      ]
  change_mode-lock charge_w answer now charge u l p ok =
      elim (Option-cases (diff (target charge u.props charge_w) u.props)) [
        | inl e ↦ ground (arith, e)
        | inr (w, e) ↦ ground (arith, e, ok w)
      ]

  change_mode-no_diff :
      (charge_w : ℤ) (answer : Map (Value F) → Option Bytes) (now : ℕ) (m : Mode) (u : EvccUnit F)
      (s : Map (Value F))
      → m ≢ normal
      → u.mode ≡ m
      → u.saved ≡ some s
      → u.props ≢ []
      → diff (target m u.props charge_w) u.props ≡ none
      → change_mode charge_w answer now m u ≡ Outcome.applied (record u { last_cmd = now }) none
  unfolding change_mode
  change_mode-no_diff charge_w answer now normal u s l e h p d = absurd (l refl)
  change_mode-no_diff charge_w answer now hold u s l e h p d = ground (arith, d)
  change_mode-no_diff charge_w answer now charge u s l e h p d = ground (arith, d)

  -- Once a `hold` or `charge` went through for a unit that has reported, the same mode again, before
  -- the unit reports, is applied with no write to the unit, whatever the backend would answer; it
  -- changes nothing of the unit but the time of the last command.
  pub resend_writes_nothing :
      (charge_w : ℤ) (answer answer' : Map (Value F) → Option Bytes) (now now' : ℕ) (m : Mode)
      (u : EvccUnit F)
      → m ≢ normal
      → u.props ≢ []
      → ((w : Map (Value F)) → answer w ≡ none)
      → change_mode charge_w answer' now' m (unit_of (change_mode charge_w answer now m u))
        ≡ Outcome.applied
            (record (unit_of (change_mode charge_w answer now m u)) { last_cmd = now' })
            none
  resend_writes_nothing charge_w answer answer' now now' m u l p ok =
      let want = target m u.props charge_w in
      rw (change_mode-lock charge_w answer now m u l p ok) (
        change_mode-no_diff charge_w answer' now' m (locked_unit charge_w now m u)
          (saved_or_snapshot u) l refl refl (copy-ne-nil u.props (entries (diff want u.props)) p)
          (rw (target-copy m u.props charge_w)
            (diff-copy want u.props (AreNumbers-target m u.props charge_w))))
