-- ===== src/Coordinator/Commands/Tests.antt =====
-- Commands for a concrete unit and catalog.
use go_zendure2mqtt.State.Store.{new_store}
use go_zendure2mqtt.Coordinator.Commands.Routes.{World}
use go_zendure2mqtt.Common.{
  All, ◌⊎◌, ◌<◌, Bytes, str, beq, beq_iff, fold_ascii, cut_prefix, split_levels, sym, Bool-cases,
  inl, inr, lookup, keys, has_key, int, none, some, true, false, List, [], ◌∷◌, ◌≡◌, refl, arith, ℤ,
  pos, ltb_ℤ, trim_space, atoi,
}
use mathlib.Core.Path.{subst}
use go_zendure2mqtt.Common.Samples.{int_floats}
use go_zendure2mqtt.Evcc.Profile.{role_battery, key_battery_mode}
use go_zendure2mqtt.Catalog.Entry.{Entry, token, equal_fold, text_at}
use go_zendure2mqtt.Catalog.Load.{new_catalog}
use go_zendure2mqtt.Virtual.{switches}
use go_zendure2mqtt.Coordinator.Battery.{unit}
use go_zendure2mqtt.Coordinator.Commands.{
  SetValue, decode_command, decode_set, code_value, apply_set, apply_evcc_set,
}
use go_zendure2mqtt.Coordinator.Commands.Bounds.{Decoded, decode_command_bounds}
use go_zendure2mqtt.Coordinator.Commands.Tokens.{IsAlone, decode_set-token}
use go_zendure2mqtt.Coordinator.Commands.Written.{SetEnd, apply_set_lem}
use go_zendure2mqtt.Coordinator.Commands.Evcc.{apply_evcc_set_lem}
use go_zendure2mqtt.Coordinator.Migrate.{Delivery, sweep_device, sweep_retained}
use go_zendure2mqtt.Coordinator.Migrate.Layout.{IsOldTopic}
use go_zendure2mqtt.Coordinator.Migrate.Swept.{delivered, sweep_device_own}

-- a limit from 0 to 800 W
abbrev limit : Entry ℤ
limit = record {
  property = str "outputLimit";
  topic = str "output_limit";
  group = str "config";
  platform = str "number";
  device_class = [];
  unit = str "W";
  scale = pos 0;
  offset = pos 0;
  writable = true;
  confirm = false;
  min = some (pos 0);
  max = some (pos 800);
  step = none;
  value_map = [];
  value_map_de = [];
  name = [];
  name_de = [];
}

abbrev ac_mode : Entry ℤ
ac_mode = record limit {
  property = str "acMode";
  topic = str "ac_mode";
  min = none;
  max = none;
  value_map = (str "1", str "input") ∷ (str "2", str "output") ∷ [];
}

abbrev payload_900 : SetValue
payload_900 = record { text = str "900"; structured = false; as_bool = none; as_enum = λ h. none }

abbrev payload_output : SetValue
payload_output = record {
  text = str "OUTPUT";
  structured = false;
  as_bool = none;
  as_enum = λ h. some (str "output");
}

irreflexive : (x : ℤ) → ltb_ℤ x x ≡ false
irreflexive x = ground arith

limit_ordered : (lo hi : ℤ) → limit.min ≡ some lo → limit.max ≡ some hi → ltb_ℤ hi lo ≡ false
limit_ordered lo hi h k = ground arith

limit_900 : decode_command limit (str "900") ≡ some (int (pos 800))
unfolding decode_command trim_space atoi
limit_900 = refl

decode_command_bounds_example : Decoded limit (str "900") (int (pos 800))
decode_command_bounds_example =
    decode_command_bounds limit (str "900") (int (pos 800)) irreflexive limit_ordered limit_900

apply_set_lem_example :
    SetEnd
      (λ sn. true)
      (new_catalog (limit ∷ []))
      (switches (pos 1000) (pos 800))
      (λ w. none)
      (str "A1")
      (str "output_limit")
      payload_900
      (apply_set
        (λ sn. true)
        (new_catalog (limit ∷ []))
        (switches (pos 1000) (pos 800))
        (λ w. none)
        (str "A1")
        (str "output_limit")
        payload_900)
apply_set_lem_example =
    apply_set_lem (λ sn. true) (new_catalog (limit ∷ [])) (switches (pos 1000) (pos 800))
      (λ w. none) (str "A1") (str "output_limit") payload_900

input_differs : equal_fold (text_at ac_mode.value_map (str "1")) (str "output") ≡ false
unfolding equal_fold lookup beq fold_ascii
input_differs = refl

no_input :
    (c : Bytes) → str "1" ≡ c → equal_fold (text_at ac_mode.value_map c) (str "output") ≡ true → ⊥
no_input c e h =
    let same : equal_fold (text_at ac_mode.value_map (str "1")) (str "output") ≡ true =
      subst (λ k. equal_fold (text_at ac_mode.value_map k) (str "output") ≡ true) (sym e) h in
    cc (same, input_differs)

ascii_input : All (λ b. b < 128) (str "input")
ascii_input = (omega arith, (omega arith, (omega arith, (omega arith, (omega arith, tt)))))

ascii_output : All (λ b. b < 128) (str "output")
ascii_output =
    (omega arith, (omega arith, (omega arith, (omega arith, (omega arith, (omega arith, tt))))))

-- the code of the mode with that key
code_of_mode :
    (c : Bytes) → has_key c (keys ac_mode.value_map) ≡ true → (str "1" ≡ c) ⊎ (str "2" ≡ c)
unfolding has_key keys
code_of_mode c i = elim (Bool-cases (beq (str "1") c)) [
  | inl one ↦ inl ((beq_iff (str "1") c).0 one)
  | inr other ↦ inr (ground (arith, i, other, beq_iff (str "2") c))
]

output-IsAlone : IsAlone ac_mode (str "2") (str "output")
unfolding lookup beq
output-IsAlone c i = elim (code_of_mode c i) [
  | inl one ↦ (
    subst (λ k. All (λ b. b < 128) (text_at ac_mode.value_map k)) one ascii_input,
    λ h. absurd (no_input c one h),
  )
  | inr two ↦
      (subst (λ k. All (λ b. b < 128) (text_at ac_mode.value_map k)) two ascii_output, λ h. sym two)
]

decode_set-token_example : decode_set ac_mode payload_output ≡ some (code_value (str "2"))
unfolding token lookup beq
decode_set-token_example =
    decode_set-token ac_mode payload_output (str "2") (str "output") refl output-IsAlone refl
      λ h e. refl

apply_evcc_set_lem_example :
    unit
      (apply_evcc_set
        (λ sn. true)
        (pos 1000)
        true
        (λ w. none)
        10
        (str "A1")
        role_battery
        key_battery_mode
        (record payload_900 { text = str "hold" })
        []).0
      (str "B2")
    ≡ unit {F = ℤ} [] (str "B2")
unfolding beq
apply_evcc_set_lem_example =
    (apply_evcc_set_lem (λ sn. true) (pos 1000) true (λ w. none) 10 (str "A1") role_battery
        key_battery_mode (record payload_900 { text = str "hold" }) []).0
      (str "B2") refl

abbrev retained : List Delivery
retained =
    record { topic = str "old/A1/now/power/state"; payload = str "1"; retained = true }
    ∷ record { topic = str "old/A1/other"; payload = str "1"; retained = true }
    ∷ []

no_error :
    (sweep_retained none none (λ t. none) retained (λ t. beq t (str "old/A1/other"))).1 ≡ none
unfolding sweep_retained beq has_key
no_error = refl

swept :
    has_key
      (str "old/A1/now/power/state")
      (sweep_device (λ sn. false) (str "old") (str "A1") none none (λ t. none) retained).0
    ≡ true
unfolding sweep_device beq has_key cut_prefix split_levels
swept = refl

sweep_device_own_example :
    (false ≡ false)
    × IsOldTopic (str "old") (str "A1") (str "old/A1/now/power/state")
    × (delivered (λ x. true) (str "old/A1/now/power/state") retained ≡ true)
sweep_device_own_example =
    (sweep_device_own (λ sn. false) (str "old") (str "A1") none none (λ t. none) retained
        (str "old/A1/now/power/state")).0
      swept

abbrev empty_world : World ℤ
empty_world = record { evcc = some []; store = new_store }
