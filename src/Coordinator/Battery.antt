-- ===== src/Coordinator/Battery.antt =====
-- internal/coordinator/evcc.go: the battery-mode state of each unit. The lock is held for the whole
-- of a mode change, so a change is one step. Time is counted in nanoseconds.
pub mod Restore
pub mod Resend
pub mod Failed
pub mod Errors
pub mod Saved
pub mod Duration
pub mod Units
pub mod Fallback
use go_zendure2mqtt.Common.{
  ℕ, Bytes, str, lookup, insert, copy, Map, Value, FloatOps, text, Option, none, some, Bool, true,
  false, List, [], ◌∷◌, ◌++◌, ◌-◌, ◌&&◌, not, leb, map, ℤ, if◌then◌else◌, sort_keys, keys,
}
use go_zendure2mqtt.Evcc.Profile.{Item, Derived, derive, battery_mode}
use go_zendure2mqtt.Evcc.Mode.{
  Mode, normal, hold, charge, mode_string, same_mode, target, snapshot, diff,
}

pub record EvccUnit (F : Type 0) : Type 0 where
  pub props : Map (Value F)
  pub mode : Mode
  pub saved : Option (Map (Value F))
  pub last_cmd : ℕ

abbrev pub Plane : Type 0 → Type 0
Plane F = Map (EvccUnit F)

abbrev pub new_unit : {F : Type 0} → EvccUnit F
new_unit = record { props = []; mode = normal; saved = none; last_cmd = 0 }

-- unit: sn's state, created in `normal`
unfoldable pub unit : {F : Type 0} → Plane F → Bytes → EvccUnit F
unit units sn = elim (lookup sn units) [ none ↦ new_unit | some u ↦ u ]

-- How one mode change ends, with the unit it leaves: refused with errNoReport; failed, with the
-- write that the backend refused and its error; or applied, with the write that was made.
pub data Outcome (F : Type 0) : Type 0 where
  no_report : EvccUnit F → Outcome F
  failed : EvccUnit F → Map (Value F) → Bytes → Outcome F
  applied : EvccUnit F → Option (Map (Value F)) → Outcome F

abbrev pub unit_of : {F : Type 0} → Outcome F → EvccUnit F
unit_of (no_report u) = u
unit_of (failed u w e) = u
unit_of (applied u w) = u

-- What the coordinator does to the world, in order.
pub data Effect (F : Type 0) : Type 0 where
  -- Backend.Write of these properties to the unit
  write : Bytes → Map (Value F) → Effect F
  -- publishState of a profile item of the unit
  status : Bytes → Item → Value F → Effect F
  -- mirrorEVCC
  mirror : Bytes → List (Derived F) → Mode → Effect F
  -- reReadSoon
  re_read : Bytes → Effect F

-- evccFallback, first half: the units that `hold` or `charge` has held for the timeout
unfoldable pub is_stale : {F : Type 0} → ℕ → ℕ → EvccUnit F → Bool
unfolding same_mode
is_stale now timeout u = not (same_mode u.mode normal) && leb timeout (now - u.last_cmd)

unfoldable pub stale_in : {F : Type 0} → ℕ → ℕ → Plane F → List Bytes
unfolding is_stale
stale_in now timeout [] = []
stale_in now timeout ((sn, u) ∷ units) =
    let rest = stale_in now timeout units in if is_stale now timeout u then sn ∷ rest else rest

module _ {F : Type 0} ⦃fl : FloatOps F⦄ where
  -- The unit's `saved` and the wanted properties, or `none` for errNoReport.
  unfoldable pub plan : ℤ → Mode → EvccUnit F → Option (Option (Map (Value F)) × Map (Value F))
  plan charge_w normal u = elim u.saved [ none ↦ some (none, []) | some s ↦ some (some s, s) ]
  plan charge_w m u = elim u.props [
    | [] ↦ none
    | p ∷ ps ↦ some (
      elim u.saved [ none ↦ some (snapshot u.props) | some s ↦ some s ],
      target m u.props charge_w,
    )
  ]

  abbrev forget : Mode → Option (Map (Value F)) → Option (Map (Value F))
  forget normal saved = none
  forget hold saved = saved
  forget charge saved = saved

  -- the write, if there is one, and the new mode behind it
  unfoldable pub commit :
      (Map (Value F) → Option Bytes) → Mode → EvccUnit F → Option (Map (Value F)) → Outcome F
  commit answer m u none = applied (record u { mode = m; saved = forget m u.saved }) none
  commit answer m u (some w) = elim (answer w) [
    | some e ↦ failed u w e
    | none ↦
        applied (record u { props = copy u.props w; mode = m; saved = forget m u.saved }) (some w)
  ]

  -- applyBatteryMode on one unit. `answer` is what the backend answers to a write: its error, or
  -- `none` for success.
  unfoldable pub change_mode :
      ℤ → (Map (Value F) → Option Bytes) → ℕ → Mode → EvccUnit F → Outcome F
  unfolding plan commit
  change_mode charge_w answer now m u = elim (plan charge_w m u) [
    | none ↦ no_report (record u { last_cmd = now })
    | some (saved, want) ↦
        commit answer m (record u { last_cmd = now; saved = saved }) (diff want u.props)
  ]

  outcome_effects : Bool → Bytes → Mode → Outcome F → List (Effect F)
  outcome_effects running sn m (no_report u) = []
  outcome_effects running sn m (failed u w e) = write sn w ∷ []
  outcome_effects running sn m (applied u none) =
      status sn battery_mode (text (mode_string m)) ∷ mirror sn (derive u.props) m ∷ []
  outcome_effects running sn m (applied u (some w)) =
      write sn w
      ∷ status sn battery_mode (text (mode_string m))
      ∷ mirror sn (derive u.props) m
      ∷ (if running then re_read sn ∷ [] else [])

  -- applyBatteryMode: the new plane, the effects and how it ended. `running` is runCtx != nil.
  unfoldable pub apply_battery_mode :
      ℤ
      → Bool
      → (Map (Value F) → Option Bytes)
      → ℕ
      → Mode
      → Bytes
      → Plane F
      → Plane F × List (Effect F) × Outcome F
  unfolding change_mode outcome_effects unit
  apply_battery_mode charge_w running answer now m sn units =
      let o = change_mode charge_w answer now m (unit units sn) in
      (insert sn (unit_of o) units, outcome_effects running sn m o, o)

  -- publishEVCC: merge a report, and publish what it yields and the mode. The report is `none`
  -- where the caller has none.
  unfoldable pub merge_report : Option (Map (Value F)) → EvccUnit F → EvccUnit F
  merge_report none u = u
  merge_report (some r) u = record u { props = copy u.props r }

  unfoldable pub publish_evcc : Option (Map (Value F)) → Bytes → Plane F → Plane F × List (Effect F)
  unfolding merge_report unit
  publish_evcc report sn units =
      let u = merge_report report (unit units sn) in
      let values = derive u.props in
      (
        insert sn u units,
        map (λ (d : Derived F). status sn d.item d.value) values
            ++ (status sn battery_mode (text (mode_string u.mode)) ∷ mirror sn values u.mode ∷ []),
      )

  -- second half: each of them to `normal`, a failure being logged and left
  unfoldable pub normal_each :
      ℤ
      → Bool
      → (Map (Value F) → Option Bytes)
      → ℕ
      → (Bytes → Bool)
      → List Bytes
      → Plane F
      → Plane F × List (Effect F)
  unfolding apply_battery_mode
  normal_each charge_w running answer now known [] units = (units, [])
  normal_each charge_w running answer now known (sn ∷ sns) units =
      let (units', effects, o) = apply_battery_mode charge_w running answer now normal sn units in
      let done = normal_each charge_w running answer now known sns units' in
      let skipped = normal_each charge_w running answer now known sns units in
      if known sn then (done.0, effects ++ done.1) else skipped

  -- evccFallback. `known` is whether bySN has the serial; a clock that runs backwards makes no unit
  -- stale, for `now - last` stops at 0 and the timeout is positive. The units are released one behind
  -- the other in one step at one time; the time that the writes take is in Duration.
  unfoldable pub evcc_fallback :
      ℤ
      → Bool
      → (Map (Value F) → Option Bytes)
      → ℕ
      → ℕ
      → (Bytes → Bool)
      → Plane F
      → Plane F × List (Effect F)
  unfolding stale_in normal_each
  evcc_fallback charge_w running answer now timeout known units =
      normal_each charge_w running answer now known (sort_keys (stale_in now timeout units)) units
