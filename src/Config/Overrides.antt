-- ===== src/Config/Overrides.antt =====
-- What the environment sets: applyEnvOverrides and Load of internal/config/load.go.
use go_zendure2mqtt.Common.{
  Bytes, beq, beq_iff, beq_refl, ◌∙◌, cut-append, lookup, insert, lookup-insert, cut, cut_prefix,
  contains_byte, Map, Value, FloatOps, text, Option, none, some, Bool, false, List, [], ◌∷◌, ◌++◌,
  ◌≡◌, ◌≢◌, refl, arith, or_else, Option-cases, inl, inr, if◌then◌else◌,
}
use mathlib.Core.Path.{subst}
use go_zendure2mqtt.Config.Settings.{Config, apply_defaults}
use go_zendure2mqtt.Config.Validate.{Issue, validate}
use go_zendure2mqtt.Config.Valid.{IsValid, validate-IsValid}
use go_zendure2mqtt.Config.Load.{
  kind_string, field_kinds, coerce_env_value, env_override, env_prefix, apply_env_overrides,
  FileContent, empty_file, bad_yaml, decoded, loaded, checked, load_map, load_config,
}

module _ {F : Type 0} ⦃fl : FloatOps F⦄ where
  abbrev pub value_for : Bytes → Option (Bytes × Value F) → Option (Value F)
  value_for k none = none
  value_for k (some (key, v)) = if beq key k then some v else none

  -- what the last variable for a key sets
  abbrev pub last_override : Bytes → List Bytes → Option (Value F)
  last_override k [] = none
  last_override k (kv ∷ env) = or_else (last_override k env) (value_for k (env_override kv))

  -- A setting is what the last variable for it says, and where there is none what the file says.
  lookup-apply_env_overrides :
      (k : Bytes) (env : List Bytes) (raw : Map (Value F))
      → lookup k (apply_env_overrides env raw) ≡ or_else (last_override k env) (lookup k raw)
  unfolding apply_env_overrides
  lookup-apply_env_overrides k [] raw = refl
  lookup-apply_env_overrides k (kv ∷ env) raw = elim (Option-cases (env_override {F = F} kv)) [
    | inl e ↦ ground (arith, e, lookup-apply_env_overrides k env raw)
    | inr ((key, v), e) ↦
        ground
          (arith, e, lookup-insert key k v raw, lookup-apply_env_overrides k env (insert key v raw))
  ]

  override-prefixed :
      (k val : Bytes)
      → k ≢ []
      → contains_byte b'=' k ≡ false
      → env_override {F = F} (env_prefix ++ (k ++ b'=' ∷ val))
        ≡ some (k, coerce_env_value val (lookup k field_kinds))
  unfolding env_override contains_byte cut_prefix
  override-prefixed k val ne free =
      let parts : cut b'=' (env_prefix ++ (k ++ b'=' ∷ val)) ≡ some (env_prefix ++ k, val) =
        cut-append b'=' (env_prefix ++ k) val free in
      rw (env_override, parts) (ground (arith, ne, beq_iff k []))

  apply_env_overrides-append :
      (xs ys : List Bytes) (raw : Map (Value F))
      → apply_env_overrides (xs ++ ys) raw ≡ apply_env_overrides ys (apply_env_overrides xs raw)
  unfolding apply_env_overrides
  apply_env_overrides-append [] ys raw = refl
  apply_env_overrides-append (x ∷ xs) ys raw = elim (Option-cases (env_override {F = F} x)) [
    | inl e ↦ ground (arith, e, apply_env_overrides-append xs ys raw)
    | inr ((key, v), e) ↦ ground (arith, e, apply_env_overrides-append xs ys (insert key v raw))
  ]

  -- The last variable ZENDURE_<key> of the environment decides the setting, over any earlier one and
  -- over the file: it is the variable's text, read as the kind of the field says, and for a field that
  -- is a text it is that text, byte for byte.
  pub apply_env_overrides-last :
      (k val : Bytes) (before after : List Bytes) (raw : Map (Value F))
      → k ≢ []
      → contains_byte b'=' k ≡ false
      → last_override k after ≡ none
      → (lookup k (apply_env_overrides (before ++ (env_prefix ++ (k ++ b'=' ∷ val)) ∷ after) raw)
          ≡ some (coerce_env_value val (lookup k field_kinds)))
        × (lookup k field_kinds ≡ some kind_string
            → lookup k
                (apply_env_overrides (before ++ (env_prefix ++ (k ++ b'=' ∷ val)) ∷ after) raw)
              ≡ some (text val))
  unfolding coerce_env_value
  apply_env_overrides-last k val before after raw ne free last =
      let kv = env_prefix ++ (k ++ b'=' ∷ val) in
      let here : value_for k (env_override kv)
          ≡ some (coerce_env_value val (lookup k field_kinds)) =
        rw (override-prefixed k val ne free, value_for, beq_refl k) refl in
      let found : lookup k (apply_env_overrides (before ++ kv ∷ after) raw)
          ≡ some (coerce_env_value val (lookup k field_kinds)) =
        rw (apply_env_overrides-append before (kv ∷ after) raw) (
          lookup-apply_env_overrides k (kv ∷ after) (apply_env_overrides before raw)
          ∙ ground (arith, here, last)) in
      (found, λ s. found ∙ rw s refl)

checked-loaded :
    (full c : Config) (issues : List Issue)
    → checked full issues ≡ loaded c
    → (issues ≡ []) × (full ≡ c)
unfolding checked
checked-loaded full c [] h = (refl, ground (arith, h))
checked-loaded full c (i ∷ issues) h = cc

module _ {F : Type 0} ⦃fl : FloatOps F⦄ (topic_ok : Bytes → Bool)
    (typed : Map (Value F) → Option Config) where
  load_map-IsValid :
      (raw : Map (Value F)) (c : Config)
      → load_map topic_ok typed raw ≡ loaded c
      → IsValid topic_ok c
  unfolding load_map
  load_map-IsValid raw c h = elim (Option-cases (typed raw)) [
    | inl e ↦ absurd (ground (arith, e, h))
    | inr (d, e) ↦
        let through : checked (apply_defaults d) (validate topic_ok (apply_defaults d)) ≡ loaded c =
          ground (arith, e, h) in
        let (clean, same) =
          checked-loaded (apply_defaults d) c (validate topic_ok (apply_defaults d)) through in
        subst (IsValid topic_ok) same (validate-IsValid topic_ok (apply_defaults d) clean)
  ]

  -- Whatever the file and the environment hold, a configuration that loads is valid: every number in
  -- its bounds and every name present and known.
  pub load_config-IsValid :
      (env : List Bytes) (file : FileContent F) (c : Config)
      → load_config topic_ok typed env file ≡ loaded c
      → IsValid topic_ok c
  unfolding load_config
  load_config-IsValid env empty_file c h = load_map-IsValid (apply_env_overrides env []) c h
  load_config-IsValid env bad_yaml c h = cc
  load_config-IsValid env (decoded raw) c h = load_map-IsValid (apply_env_overrides env raw) c h
