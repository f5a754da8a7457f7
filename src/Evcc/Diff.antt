-- ===== src/Evcc/Diff.antt =====
-- What snapshot and diff compute, key by key.
use go_zendure2mqtt.Common.{
  Bytes, beq, beq_iff, lookup, insert, lookup-insert, copy, lookup-copy, keys, sort_keys, has_key,
  contains-keys, contains-sort_keys, Map, Value, FloatOps, int, Option, none, some, true, not, List,
  [], ◌∷◌, ◌&&◌, ◌≡◌, refl, arith, if◌then◌else◌, is_some, or_else, Option-cases, inl, inr, ℤ, pos,
}
use go_zendure2mqtt.Evcc.Profile.{to_float, number, prop_charge_limit}
use go_zendure2mqtt.Evcc.Mode.{
  Mode, normal, hold, charge, charge_limit, target, controlled, snapshot_loop, snapshot, wanted,
  reported, same_number, entries, diff_loop, diff,
}

module _ {F : Type 0} ⦃fl : FloatOps F⦄ where
  lookup-diff_loop :
      (j : Bytes) (ks : List Bytes) (want props : Map (Value F)) (out : Option (Map (Value F)))
      → lookup j (entries (diff_loop ks want props out)) ≡ (
          if has_key j ks && not (reported want props j)
          then some (wanted want j)
          else lookup j (entries out))
  unfolding diff_loop has_key
  lookup-diff_loop j [] want props out = refl
  lookup-diff_loop j (k ∷ ks) want props out = ground (
    arith,
    beq_iff k j,
    lookup-insert k j (wanted want k) (entries out),
    lookup-diff_loop j ks want props
        (if reported want props k then out else some (insert k (wanted want k) (entries out))),
  )

  -- The diff of `want` against `props` carries exactly the wanted entries that are not reported yet.
  pub lookup-diff :
      (j : Bytes) (want props : Map (Value F))
      → lookup j (entries (diff want props))
        ≡ (if reported want props j then none else lookup j want)
  unfolding diff reported lookup wanted
  lookup-diff j want props = ground (
    arith,
    lookup-diff_loop j (sort_keys (keys want)) want props none,
    contains-sort_keys j (keys want),
    contains-keys j want,
  )

  -- Nothing is written if every key is reported.
  diff_loop-none :
      (ks : List Bytes) (want props : Map (Value F))
      → ((j : Bytes) → has_key j ks ≡ true → reported want props j ≡ true)
      → diff_loop ks want props none ≡ none
  unfolding diff_loop has_key
  diff_loop-none [] want props h = refl
  diff_loop-none (k ∷ ks) want props h =
      rw (h k (ground (arith, beq_iff k k)))
        (diff_loop-none ks want props (λ j i. h j (ground (arith, i))))

  pub diff-none :
      (want props : Map (Value F))
      → ((j : Bytes) → is_some (lookup j want) ≡ true → reported want props j ≡ true)
      → diff want props ≡ none
  unfolding diff
  diff-none want props h =
      diff_loop-none (sort_keys (keys want)) want props
        λ j i. h j (ground (arith, i, contains-sort_keys j (keys want), contains-keys j want))

  -- Every wanted value is a number that equals itself, as every integer is.
  abbrev pub AreNumbers : Map (Value F) → Type 0
  AreNumbers want =
      (j : Bytes)
      → is_some (lookup j want) ≡ true
      → same_number (to_float (wanted want j)) (to_float (wanted want j)) ≡ true

  pub reported-copy :
      (want props : Map (Value F)) (j : Bytes)
      → is_some (lookup j want) ≡ true
      → AreNumbers want
      → reported want (copy props (entries (diff want props))) j ≡ true
  unfolding reported number wanted
  reported-copy want props j h n =
      ground
        (arith, lookup-copy j props (entries (diff want props)), lookup-diff j want props, n j h)

  -- Once the diff is written, nothing is left to write.
  pub diff-copy :
      (want props : Map (Value F))
      → AreNumbers want
      → diff want (copy props (entries (diff want props))) ≡ none
  diff-copy want props n = diff-none want _ (λ j h. reported-copy want props j h n)

  -- int(math.Round(v)) of a number that is there
  abbrev pub saved_value : Option F → Option (Value F)
  saved_value none = none
  saved_value (some v) = some (int (fl.round v))

  lookup-snapshot_loop :
      (j : Bytes) (ks : List Bytes) (props out : Map (Value F))
      → lookup j (snapshot_loop ks props out) ≡ (
          if has_key j ks
          then or_else (saved_value (number props j)) (lookup j out)
          else lookup j out)
  unfolding snapshot_loop has_key
  lookup-snapshot_loop j [] props out = refl
  lookup-snapshot_loop j (k ∷ ks) props out = elim (Option-cases (number props k)) [
    | inl e ↦ rw e (ground (arith, beq_iff k j, lookup-snapshot_loop j ks props out))
    | inr (v, e) ↦ rw e (
        ground (
          arith,
          beq_iff k j,
          lookup-snapshot_loop j ks props (insert k (int (fl.round v)) out),
          lookup-insert k j (int (fl.round v)) out,
        ))
  ]

  -- A snapshot holds exactly the controlled properties that have a number, rounded.
  pub lookup-snapshot :
      (j : Bytes) (props : Map (Value F))
      → lookup j (snapshot props)
        ≡ (if has_key j controlled then saved_value (number props j) else none)
  unfolding snapshot lookup
  lookup-snapshot j props = ground (arith, lookup-snapshot_loop j controlled props [])

  pub AreNumbers-snapshot : (props : Map (Value F)) → AreNumbers (snapshot props)
  unfolding wanted to_float same_number
  AreNumbers-snapshot props j h = elim (Option-cases (number props j)) [
    | inl e ↦ ground (arith, lookup-snapshot j props, e)
    | inr (v, e) ↦ ground (arith, lookup-snapshot j props, e, fl.feq-of_int (fl.round v))
  ]

  pub AreNumbers-target :
      (m : Mode) (props : Map (Value F)) (charge_w : ℤ) → AreNumbers (target m props charge_w)
  unfolding target wanted to_float same_number lookup
  AreNumbers-target normal props charge_w j h = cc
  AreNumbers-target hold props charge_w j h =
      ground (arith, fl.feq-of_int (pos 0), fl.feq-of_int (pos 1))
  AreNumbers-target charge props charge_w j h = ground (
    arith,
    fl.feq-of_int (pos 0),
    fl.feq-of_int (pos 1),
    fl.feq-of_int (charge_limit props charge_w),
  )

  -- No mode writes the limit that `charge` reads.
  lookup-target-charge_limit :
      (m : Mode) (props : Map (Value F)) (charge_w : ℤ)
      → lookup prop_charge_limit (target m props charge_w) ≡ none
  unfolding target lookup beq
  lookup-target-charge_limit normal props charge_w = refl
  lookup-target-charge_limit hold props charge_w = refl
  lookup-target-charge_limit charge props charge_w = refl

  target_of_limit :
      (m : Mode) (p q : Map (Value F)) (charge_w : ℤ)
      → lookup prop_charge_limit p ≡ lookup prop_charge_limit q
      → target m p charge_w ≡ target m q charge_w
  unfolding target number
  target_of_limit normal p q charge_w h = refl
  target_of_limit hold p q charge_w h = refl
  target_of_limit charge p q charge_w h = ground arith

  -- The plan of a mode is the same once its own writes are merged.
  pub target-copy :
      (m : Mode) (props : Map (Value F)) (charge_w : ℤ)
      → target m (copy props (entries (diff (target m props charge_w) props))) charge_w
        ≡ target m props charge_w
  target-copy m props charge_w =
      let want = target m props charge_w in
      target_of_limit m (copy props (entries (diff want props))) props charge_w (
        ground (
          arith,
          lookup-copy prop_charge_limit props (entries (diff want props)),
          lookup-diff prop_charge_limit want props,
          lookup-target-charge_limit m props charge_w,
        ))

  pub diff-nil : (props : Map (Value F)) → diff [] props ≡ none
  unfolding diff keys sort_keys
  diff-nil props = refl
