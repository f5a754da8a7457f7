-- ===== src/Evcc/Mode.antt =====
-- The battery modes: parsing a command, and planning the property writes of a mode.
use go_zendure2mqtt.Common.{
  Bytes, str, beq, lookup, insert, sort_keys, keys, Map, Value, FloatOps, int, nil, Option, none,
  some, Bool, true, false, List, [], ◌∷◌, ◌||◌, ℤ, pos, trim_space, to_lower, if◌then◌else◌,
}
use go_zendure2mqtt.Evcc.Profile.{
  to_float, number, prop_ac_mode, prop_input_limit, prop_output_limit, prop_smart_mode,
  prop_charge_limit,
}

pub data Mode : Type 0 where
  normal hold charge : Mode

unfoldable pub mode_string : Mode → Bytes
mode_string normal = str "normal"
mode_string hold = str "hold"
mode_string charge = str "charge"

-- Go compares two modes by their strings, which tell them apart.
unfoldable pub same_mode : Mode → Mode → Bool
same_mode normal normal = true
same_mode hold hold = true
same_mode charge charge = true
same_mode _ _ = false

-- `none` is ErrMode.
unfoldable pub parse_mode : Bytes → Option Mode
parse_mode s =
    let t = to_lower (trim_space s) in
    if beq t (str "1") || beq t (mode_string normal)
    then some normal
    else if beq t (str "2") || beq t (mode_string hold)
    then some hold
    else if beq t (str "3") || beq t (mode_string charge)
    then some charge
    else none

abbrev pub controlled : List Bytes
controlled = prop_ac_mode ∷ prop_input_limit ∷ prop_output_limit ∷ prop_smart_mode ∷ []

module _ {F : Type 0} ⦃fl : FloatOps F⦄ where
  -- the input limit that `charge` writes
  unfoldable pub charge_limit : Map (Value F) → ℤ → ℤ
  unfolding number
  charge_limit props charge_w = elim (number props prop_charge_limit) [
    | none ↦ charge_w
    | some v ↦ if fl.flt (fl.of_int (pos 0)) v then fl.round v else charge_w
  ]

  -- A nil map and an empty one are the same to every reader of the result.
  unfoldable pub target : Mode → Map (Value F) → ℤ → Map (Value F)
  unfolding charge_limit
  target normal props charge_w = []
  target hold props charge_w =
      (prop_smart_mode, int (pos 1)) ∷ (prop_output_limit, int (pos 0)) ∷ []
  target charge props charge_w =
      (prop_smart_mode, int (pos 1))
      ∷ (prop_ac_mode, int (pos 1))
      ∷ (prop_input_limit, int (charge_limit props charge_w))
      ∷ (prop_output_limit, int (pos 0))
      ∷ []

  unfoldable pub snapshot_loop : List Bytes → Map (Value F) → Map (Value F) → Map (Value F)
  snapshot_loop [] props out = out
  snapshot_loop (k ∷ ks) props out =
      snapshot_loop ks props
        (elim (number props k) [ none ↦ out | some v ↦ insert k (int (fl.round v)) out ])

  unfoldable pub snapshot : Map (Value F) → Map (Value F)
  unfolding snapshot_loop
  snapshot props = snapshot_loop controlled props []

  -- want[k]; the zero value of `any` for a key that is not there
  unfoldable pub wanted : Map (Value F) → Bytes → Value F
  wanted want k = elim (lookup k want) [ none ↦ nil | some v ↦ v ]

  -- okW && okHave && w == have
  unfoldable pub same_number : Option F → Option F → Bool
  same_number (some w) (some have) = fl.feq w have
  same_number _ _ = false

  unfoldable pub reported : Map (Value F) → Map (Value F) → Bytes → Bool
  unfolding same_number wanted
  reported want props k = same_number (to_float (wanted want k)) (number props k)

  -- The entries of a map that may be nil.
  abbrev pub entries : Option (Map (Value F)) → Map (Value F)
  entries none = []
  entries (some m) = m

  unfoldable pub diff_loop :
      List Bytes → Map (Value F) → Map (Value F) → Option (Map (Value F)) → Option (Map (Value F))
  diff_loop [] want props out = out
  diff_loop (k ∷ ks) want props out =
      diff_loop ks want props
        (if reported want props k then out else some (insert k (wanted want k) (entries out)))

  unfoldable pub diff : Map (Value F) → Map (Value F) → Option (Map (Value F))
  unfolding diff_loop
  diff want props = diff_loop (sort_keys (keys want)) want props none
