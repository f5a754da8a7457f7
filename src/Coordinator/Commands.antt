-- ===== src/Coordinator/Commands.antt =====
-- The write path of internal/coordinator: applySet, switchProps, decodeSet, decodeCommand and rejectSet
-- of coordinator.go, and applyEVCCSet of evcc.go.
pub mod Written
pub mod Bounds
pub mod Tokens
pub mod Evcc
pub mod Routes
mod Tests
use go_zendure2mqtt.Common.{
  ℕ, ◌-◌, ◌^◌, Bytes, str, beq, lookup, Map, Value, FloatOps, nil, int, text, Option, none, some,
  Bool, true, false, not, List, [], ◌∷◌, ◌++◌, ◌&&◌, ◌||◌, ◌==◌, ℤ, pos, negsuc, atoi, trim_space,
  cut_prefix, if◌then◌else◌,
}
use go_zendure2mqtt.Catalog.Entry.{Entry, code_for_token}
use go_zendure2mqtt.Catalog.Load.{Catalog, find_topic}
use go_zendure2mqtt.Harender.{HaEnum, ha_enum}
use go_zendure2mqtt.Virtual.{Switch, write_props}
use go_zendure2mqtt.Evcc.Profile.{role_battery, key_battery_mode}
use go_zendure2mqtt.Evcc.Mode.{Mode, parse_mode}
use go_zendure2mqtt.Coordinator.Battery.{
  Plane, Effect, write, re_read, Outcome, no_report, failed, applied, apply_battery_mode,
}
use go_zendure2mqtt.State.Store.{Store, Problem, add_problem}

-- publisher.SetValue: a payload as go-hamqtt reads it. `as_bool` is Bool, `as_enum` is Enum with
-- labels accepted; `none` is their error.
pub record SetValue : Type 0 where
  pub text : Bytes
  pub structured : Bool
  pub as_bool : Option Bool
  pub as_enum : HaEnum → Option Bytes

-- the state.Err* classes
pub data Kind : Type 0 where
  unknown_device not_writable invalid_value not_ready : Kind

-- the failure behind an error: the backend's, ErrMode or errNoReport
pub data Cause : Type 0 where
  backend : Bytes → Cause
  bad_mode : Bytes → Cause
  nothing_reported : Cause

pub record SetError : Type 0 where
  pub event : Bytes
  pub kind : Option Kind
  pub err : Option Cause

abbrev pub refusal : Kind → Bytes → SetError
refusal kind event = record { event = event; kind = some kind; err = none }

-- the code behind a token, the empty text where there is none
abbrev pub code_or_empty : Option Bytes → Bytes
code_or_empty none = []
code_or_empty (some c) = c

-- what a `set` asks for: a refusal, or properties to write
pub data Chosen (F : Type 0) : Type 0 where
  refused : SetError → Chosen F
  chosen : Map (Value F) → Chosen F

module _ {F : Type 0} ⦃fl : FloatOps F⦄ where
  unfoldable pub raise_to_min : Entry F → F → F
  raise_to_min e f = elim e.min [ none ↦ f | some lo ↦ if fl.flt f lo then lo else f ]

  unfoldable pub lower_to_max : Entry F → F → F
  lower_to_max e f = elim e.max [ none ↦ f | some hi ↦ if fl.flt hi f then hi else f ]

  unfoldable pub clamp : Entry F → F → F
  unfolding raise_to_min lower_to_max
  clamp e f = lower_to_max e (raise_to_min e f)

  -- from display units to the device's
  unfoldable pub unscale : Entry F → F → F
  unscale e f =
      let g = if not (fl.feq e.scale (fl.of_int (pos 0))) then fl.mul f e.scale else f in
      fl.add g e.offset

  unfoldable pub out_of_int64 : F → Bool
  out_of_int64 f =
      fl.flt f (fl.of_int (negsuc (2 ^ 63 - 1))) || fl.flt (fl.of_int (pos (2 ^ 63 - 1))) f

  unfoldable pub decode_number : Entry F → F → Option (Value F)
  unfolding clamp unscale out_of_int64
  decode_number e f =
      let g = unscale e (clamp e f) in
      if fl.is_nan f || fl.is_inf f
      then none
      else if out_of_int64 g
      then none
      else some (int (fl.round g))

  unfoldable pub decode_command : Entry F → Bytes → Option (Value F)
  unfolding decode_number
  decode_command e payload =
      let s = trim_space payload in
      elim (fl.parse_float s) [ none ↦ some (text s) | some f ↦ decode_number e f ]

  -- the raw code as an integer where it is one
  unfoldable pub code_value : Bytes → Value F
  code_value code = elim (atoi code) [ none ↦ text code | some i ↦ int i ]

  -- a value that is no text
  unfoldable pub untext : Option (Value F) → Option (Value F)
  untext (some (text s)) = none
  untext v = v

  unfoldable pub decode_set : Entry F → SetValue → Option (Value F)
  unfolding decode_command code_value untext
  decode_set e v = if v.structured then none else elim (ha_enum e) [
    | none ↦ decode_command e v.text
    | some h ↦ elim (v.as_enum h) [
      | some tok ↦ some (code_value (code_or_empty (code_for_token e tok)))
      | none ↦ untext (decode_command e v.text)
    ]
  ]

  -- `none` where no switch has the leaf; `some none` where the payload is no boolean
  unfoldable pub switch_props : List (Switch F) → Bytes → SetValue → Option (Option (Map (Value F)))
  switch_props [] leaf v = none
  switch_props (s ∷ ss) leaf v =
      let rest = switch_props ss leaf v in
      if beq s.topic leaf
      then some (elim v.as_bool [ none ↦ none | some on ↦ some (write_props s on) ])
      else rest

  unfoldable pub choose_entry : Option (Entry F) → SetValue → Chosen F
  unfolding decode_set
  choose_entry none v = refused (refusal not_writable (str "coordinator.set_not_writable"))
  choose_entry (some e) v =
      if not e.writable
      then refused (refusal not_writable (str "coordinator.set_not_writable"))
      else elim (decode_set e v) [
        | none ↦ refused (refusal invalid_value (str "coordinator.set_rejected"))
        | some value ↦ chosen ((e.property, value) ∷ [])
      ]

  -- the properties that a `set` asks for
  unfoldable pub choose : Catalog F → List (Switch F) → Bytes → SetValue → Chosen F
  unfolding switch_props choose_entry
  choose cat switches leaf v = elim (switch_props switches leaf v) [
    | none ↦ choose_entry (find_topic cat leaf) v
    | some none ↦ refused (refusal invalid_value (str "coordinator.set_rejected"))
    | some (some props) ↦ chosen props
  ]

  unfoldable pub write_chosen :
      (Map (Value F) → Option Bytes) → Bytes → Chosen F → List (Effect F) × Option SetError
  write_chosen answer sn (refused e) = ([], some e)
  write_chosen answer sn (chosen props) = elim (answer props) [
    | some e ↦ (
      write sn props ∷ [],
      some (record { event = str "coordinator.write_failed"; kind = none; err = some (backend e) }),
    )
    | none ↦ (write sn props ∷ re_read sn ∷ [], none)
  ]

  -- applySet. `known` is whether bySN has the serial.
  unfoldable pub apply_set :
      (Bytes → Bool)
      → Catalog F
      → List (Switch F)
      → (Map (Value F) → Option Bytes)
      → Bytes
      → Bytes
      → SetValue
      → List (Effect F) × Option SetError
  unfolding choose write_chosen
  apply_set known cat switches answer sn leaf v =
      if known sn
      then write_chosen answer sn (choose cat switches leaf v)
      else ([], some (refusal unknown_device (str "coordinator.set_unknown_device")))

  unfoldable pub outcome_error : Outcome F → Option SetError
  outcome_error (no_report u) = some (record {
    event = str "coordinator.write_failed";
    kind = some not_ready;
    err = some nothing_reported;
  })
  outcome_error (failed u w e) =
      some (record { event = str "coordinator.write_failed"; kind = none; err = some (backend e) })
  outcome_error (applied u w) = none

  -- applyEVCCSet: the plane behind it, the effects and the error
  unfoldable pub apply_evcc_set :
      (Bytes → Bool)
      → ℤ
      → Bool
      → (Map (Value F) → Option Bytes)
      → ℕ
      → Bytes
      → Bytes
      → Bytes
      → SetValue
      → Plane F
      → Plane F × List (Effect F) × Option SetError
  unfolding outcome_error
  apply_evcc_set known charge_w running answer now sn role key v units =
      if not (beq role role_battery) || not (beq key key_battery_mode)
      then (units, [], some (refusal not_writable (str "coordinator.evcc_not_writable")))
      else if not (known sn)
      then (units, [], some (refusal unknown_device (str "coordinator.set_unknown_device")))
      else if v.structured
      then (units, [], some (refusal invalid_value (str "coordinator.set_rejected")))
      else elim (parse_mode v.text) [
        | none ↦ (
          units,
          [],
          some (record {
            event = str "coordinator.set_rejected";
            kind = some invalid_value;
            err = some (bad_mode v.text);
          }),
        )
        | some m ↦
            let (units', effects, o) = apply_battery_mode charge_w running answer now m sn units in
            (units', effects, outcome_error o)
      ]

-- rejectSet: the problem that the web UI shows. `said` is the text of the error, and `event` that of
-- a SetError or the default.
unfoldable pub reject_set :
    {F : Type 0} → ℕ → Bytes → Bytes → Bytes → Bytes → Bytes → Store F → Store F
reject_set now sn event topic payload said s =
    add_problem now
      (record {
        at = 0;
        sn = sn;
        event = event;
        detail = topic ++ (str " = " ++ (payload ++ (str ": " ++ said)));
      })
      s
