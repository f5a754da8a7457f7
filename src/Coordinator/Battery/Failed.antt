-- ===== src/Coordinator/Battery/Failed.antt =====
-- Refused and failed mode changes: the errors of applyBatteryMode in internal/coordinator/evcc.go.
use go_zendure2mqtt.Common.{
  ℕ, Bytes, copy, Map, Value, FloatOps, Option, none, some, [], ◌≡◌, ◌≢◌, ◌∙◌, refl, arith, ℤ,
}
use go_zendure2mqtt.Evcc.Mode.{Mode, normal, hold, charge, snapshot, diff, entries}
use go_zendure2mqtt.Coordinator.Battery.{
  EvccUnit, no_report, failed, applied, change_mode, merge_report,
}
use go_zendure2mqtt.Coordinator.Battery.Restore.{saved-change_mode, change_mode-normal}
use mathlib.Core.Path.{subst}

module _ {F : Type 0} ⦃fl : FloatOps F⦄ where
  -- A mode change whose write the backend refuses leaves the unit's mode and its known properties as
  -- they were, and the error is the backend's answer to that write. One that is refused because the
  -- unit has not reported makes no write, and changes only the time of the last command.
  pub change_mode_errors :
      (charge_w : ℤ) (answer : Map (Value F) → Option Bytes) (now : ℕ) (m : Mode)
      (u u' : EvccUnit F) (w : Map (Value F)) (e : Bytes)
      → (change_mode charge_w answer now m u ≡ failed u' w e
          → (u'.mode ≡ u.mode) × (u'.props ≡ u.props) × (answer w ≡ some e))
        × (change_mode charge_w answer now m u ≡ no_report u'
            → (u.props ≡ []) × (m ≢ normal) × (u' ≡ record u { last_cmd = now }))
  unfolding change_mode
  change_mode_errors charge_w answer now normal u u' w e = (λ h. ground arith, λ h. ground arith)
  change_mode_errors charge_w answer now hold u u' w e = (λ h. ground arith, λ h. ground arith)
  change_mode_errors charge_w answer now charge u u' w e = (λ h. ground arith, λ h. ground arith)

  failed_has_report :
      (charge_w : ℤ) (answer : Map (Value F) → Option Bytes) (now : ℕ) (m : Mode)
      (u u' : EvccUnit F) (w : Map (Value F)) (e : Bytes)
      → m ≢ normal
      → change_mode charge_w answer now m u ≡ failed u' w e
      → u.props ≢ []
  unfolding change_mode
  failed_has_report charge_w answer now normal u u' w e l f p = absurd (l refl)
  failed_has_report charge_w answer now hold u u' w e l f p = ground arith
  failed_has_report charge_w answer now charge u u' w e l f p = ground arith

  normal_over :
      (charge_w : ℤ) (answer : Map (Value F) → Option Bytes) (now : ℕ) (u : EvccUnit F)
      (s p r : Map (Value F))
      → u.saved ≡ some s
      → u.props ≡ p
      → ((v : Map (Value F)) → answer v ≡ none)
      → change_mode charge_w answer now normal (merge_report (some r) u)
        ≡ applied
            (record {
              props = copy (copy p r) (entries (diff s (copy p r)));
              mode = normal;
              saved = none;
              last_cmd = now;
            })
            (diff s (copy p r))
  unfolding merge_report
  normal_over charge_w answer now u s p r h e ok =
      subst
        (λ q.
          change_mode charge_w answer now normal (merge_report (some r) u)
          ≡ applied
              (record {
                props = copy (copy q r) (entries (diff s (copy q r)));
                mode = normal;
                saved = none;
                last_cmd = now;
              })
              (diff s (copy q r)))
        e (change_mode-normal charge_w answer now (merge_report (some r) u) s h ok)

  -- When the first `hold` or `charge` fails, the unit stays in `normal` with its snapshot saved. If a
  -- report then changes the unit's properties, the next `normal` that the backend accepts writes the
  -- snapshot of before the failure over them: every saved value that differs from the report.
  pub failed_lock_is_restored :
      (charge_w : ℤ) (answer answer' : Map (Value F) → Option Bytes) (now now' : ℕ) (m : Mode)
      (u u' : EvccUnit F) (w r : Map (Value F)) (e : Bytes)
      → m ≢ normal
      → u.mode ≡ normal
      → u.saved ≡ none
      → change_mode charge_w answer now m u ≡ failed u' w e
      → ((v : Map (Value F)) → answer' v ≡ none)
      → (u'.mode ≡ normal)
        × (u'.saved ≡ some (snapshot u.props))
        × (change_mode charge_w answer' now' normal (merge_report (some r) u')
            ≡ applied
                (record {
                  props =
                      copy (copy u.props r) (entries (diff (snapshot u.props) (copy u.props r)));
                  mode = normal;
                  saved = none;
                  last_cmd = now';
                })
                (diff (snapshot u.props) (copy u.props r)))
  failed_lock_is_restored charge_w answer answer' now now' m u u' w r e l is_normal h f ok =
      let (same_mode, same_props, _) = (change_mode_errors charge_w answer now m u u' w e).0 f in
      let p = failed_has_report charge_w answer now m u u' w e l f in
      let kept : u'.saved ≡ some (snapshot u.props) =
        rw f at (saved-change_mode charge_w answer now m u l h p) in
      (
        same_mode ∙ is_normal,
        kept,
        normal_over charge_w answer' now' u' (snapshot u.props) u.props r kept same_props ok,
      )
