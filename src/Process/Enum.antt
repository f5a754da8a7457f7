-- ===== src/Process/Enum.antt =====
-- What an entry with a value map publishes: applyEntry of internal/process/process.go.
use go_zendure2mqtt.Common.{
  Bytes, Value, FloatOps, text, none, some, Bool, true, false, [], ◌≡◌, ◌≢◌, arith, Bool-cases,
  Option-cases, inl, inr,
}
use go_zendure2mqtt.Catalog.Entry.{Entry, token}
use go_zendure2mqtt.Process.Points.{apply_entry, apply_map, no_value, code_of}

module _ {F : Type 0} ⦃fl : FloatOps F⦄ where
  -- The three ways in which a raw value goes through a value map.
  pub data EnumResult (e : Entry F) (raw : Value F) : Value F × Bool → Type 0 where
    -- no value: it is passed on, so that the item is cleared
    cleared : (r : Value F × Bool) → no_value raw ≡ true → r ≡ (raw, false) → EnumResult e raw r
    -- the token of the value's code
    mapped :
        (r : Value F × Bool) (code t : Bytes)
        → no_value raw ≡ false
        → code_of raw ≡ some code
        → token e code ≡ some t
        → r ≡ (text t, false)
        → EnumResult e raw r
    -- a code that the map does not have, or no code: the raw value, marked
    unknown :
        (r : Value F × Bool)
        → no_value raw ≡ false
        → ((code : Bytes) → code_of raw ≡ some code → token e code ≡ none)
        → r ≡ (raw, true)
        → EnumResult e raw r

  apply_map_enum : (e : Entry F) (raw : Value F) → EnumResult e raw (apply_map e raw)
  unfolding apply_map
  apply_map_enum e raw = elim (Bool-cases (no_value raw)) [
    | inl z ↦ cleared _ z (ground (arith, z))
    | inr v ↦ elim (Option-cases (code_of raw)) [
      | inl c ↦ unknown _ v (λ code k. cc) (ground (arith, v, c))
      | inr (code, c) ↦ elim (Option-cases (token e code)) [
        | inl t ↦ unknown _ v (λ k h. ground (arith, c, t, h)) (ground (arith, v, c, t))
        | inr (t, g) ↦ mapped _ code t v c g (ground (arith, v, c, g))
      ]
    ]
  ]

  apply_entry-map :
      (e : Entry F) (raw : Value F) → e.value_map ≢ [] → apply_entry e raw ≡ apply_map e raw
  unfolding apply_entry
  apply_entry-map e raw h = ground arith

  -- An entry with a value map publishes a token only for a value whose code the map has; a missing
  -- value passes through, and any other value stays raw and is marked unmapped.
  pub apply_entry_enum :
      (e : Entry F) (raw : Value F) → e.value_map ≢ [] → EnumResult e raw (apply_entry e raw)
  apply_entry_enum e raw h = rw (apply_entry-map e raw h) (apply_map_enum e raw)
