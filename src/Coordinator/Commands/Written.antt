-- ===== src/Coordinator/Commands/Written.antt =====
-- When a `set` writes, and what: applySet of internal/coordinator/coordinator.go.
use go_zendure2mqtt.Common.{
  Bytes, beq, beq_iff, Map, Value, FloatOps, Option, none, some, Bool, true, List, [], ◌∷◌, ◌≡◌,
  refl, arith, Bool-cases, Option-cases, inl, inr,
}
use go_zendure2mqtt.Catalog.Entry.{Entry}
use go_zendure2mqtt.Catalog.Load.{Catalog, find_topic}
use go_zendure2mqtt.Virtual.{Switch, write_props}
use go_zendure2mqtt.Coordinator.Battery.{Effect, write, re_read}
use go_zendure2mqtt.Coordinator.Commands.{
  SetValue, SetError, backend, decode_set, switch_props, Chosen, refused, chosen, choose,
  choose_entry, write_chosen, apply_set,
}

module _ {F : Type 0} ⦃fl : FloatOps F⦄ where
  -- A switch of the list, by where it stands.
  pub data IsSwitch (s : Switch F) : List (Switch F) → Type 0 where
    here : (ss : List (Switch F)) → IsSwitch s (s ∷ ss)
    there : (t : Switch F) (ss : List (Switch F)) → IsSwitch s ss → IsSwitch s (t ∷ ss)

  -- The properties that a `set` of a leaf may write.
  pub data Permitted (cat : Catalog F) (switches : List (Switch F)) (leaf : Bytes) (v : SetValue)
      : Map (Value F) → Type 0 where
    -- a switch's own, for a boolean
    by_switch :
        (s : Switch F) (on : Bool)
        → IsSwitch s switches
        → s.topic ≡ leaf
        → v.as_bool ≡ some on
        → Permitted cat switches leaf v (write_props s on)
    -- the one property of a writable entry, with the value decoded for it
    by_entry :
        (e : Entry F) (value : Value F)
        → find_topic cat leaf ≡ some e
        → e.writable ≡ true
        → decode_set e v ≡ some value
        → Permitted cat switches leaf v ((e.property, value) ∷ [])

  -- How a `set` ends.
  pub data SetEnd (known : Bytes → Bool) (cat : Catalog F) (switches : List (Switch F))
      (answer : Map (Value F) → Option Bytes) (sn leaf : Bytes) (v : SetValue)
      : List (Effect F) × Option SetError → Type 0 where
    -- refused: nothing is written, and no backend is named
    rejected :
        (e : SetError) → e.err ≡ none → SetEnd known cat switches answer sn leaf v ([], some e)
    -- one write, which the backend refused
    unwritten :
        (props : Map (Value F)) (e : Bytes) (se : SetError)
        → known sn ≡ true
        → Permitted cat switches leaf v props
        → answer props ≡ some e
        → se.err ≡ some (backend e)
        → SetEnd known cat switches answer sn leaf v (write sn props ∷ [], some se)
    -- one write, and the unit is read again
    written :
        (props : Map (Value F))
        → known sn ≡ true
        → Permitted cat switches leaf v props
        → answer props ≡ none
        → SetEnd known cat switches answer sn leaf v (write sn props ∷ re_read sn ∷ [], none)

  module _ (cat : Catalog F) (leaf : Bytes) (v : SetValue) where
    -- What a switch is asked to write is its own.
    switch_props-Permitted :
        (switches : List (Switch F)) (props : Map (Value F))
        → switch_props switches leaf v ≡ some (some props)
        → (s : Switch F) × (on : Bool) × IsSwitch s switches
          × (s.topic ≡ leaf)
          × (v.as_bool ≡ some on)
          × (props ≡ write_props s on)
    unfolding switch_props
    switch_props-Permitted [] props h = cc
    switch_props-Permitted (s ∷ ss) props h = elim (Bool-cases (beq s.topic leaf)) [
      | inl t ↦ elim (Option-cases v.as_bool) [
        | inl n ↦ absurd (ground (arith, t, n))
        | inr (on, b) ↦
            (s, on, IsSwitch.here ss, (beq_iff s.topic leaf).0 t, b, ground (arith, t, b))
      ]
      | inr f ↦
          let (t, on, m, l, b, p) = switch_props-Permitted ss props (ground (arith, f)) in
          (t, on, IsSwitch.there s ss m, l, b, p)
    ]

    choose_entry-Permitted :
        (switches : List (Switch F)) (props : Map (Value F))
        → choose_entry (find_topic cat leaf) v ≡ chosen props
        → Permitted cat switches leaf v props
    unfolding choose_entry
    choose_entry-Permitted switches props h = elim (Option-cases (find_topic cat leaf)) [
      | inl n ↦ absurd (ground (arith, n))
      | inr (e, f) ↦ elim (Option-cases (decode_set e v)) [
        | inl n ↦ absurd (ground (arith, f, n))
        | inr (value, d) ↦
            let same : props ≡ (e.property, value) ∷ [] = ground (arith, f, d) in
            rw same (Permitted.by_entry e value f (ground (arith, f)) d)
      ]
    ]

    choose-Permitted :
        (switches : List (Switch F)) (props : Map (Value F))
        → choose cat switches leaf v ≡ chosen props
        → Permitted cat switches leaf v props
    unfolding choose
    choose-Permitted switches props h = elim (Option-cases (switch_props switches leaf v)) [
      | inl n ↦ choose_entry-Permitted switches props (ground (arith, n))
      | inr (none, n) ↦ absurd (ground (arith, n))
      | inr (some p, n) ↦
          let (s, on, m, l, b, q) = switch_props-Permitted switches p n in
          let same : props ≡ write_props s on = ground (arith, n) in
          rw same (Permitted.by_switch s on m l b)
    ]

    refused_err :
        (switches : List (Switch F)) (e : SetError)
        → choose cat switches leaf v ≡ refused e
        → e.err ≡ none
    unfolding choose choose_entry
    refused_err switches e h = ground arith

  write_chosen-SetEnd :
      (known : Bytes → Bool) (cat : Catalog F) (switches : List (Switch F))
      (answer : Map (Value F) → Option Bytes) (sn leaf : Bytes) (v : SetValue) (c : Chosen F)
      → known sn ≡ true
      → choose cat switches leaf v ≡ c
      → SetEnd known cat switches answer sn leaf v (write_chosen answer sn c)
  unfolding write_chosen
  write_chosen-SetEnd known cat switches answer sn leaf v (refused e) k h =
      SetEnd.rejected e (refused_err cat leaf v switches e h)
  write_chosen-SetEnd known cat switches answer sn leaf v (chosen props) k h =
      let permitted = choose-Permitted cat leaf v switches props h in
      elim (Option-cases (answer props)) [
        | inl n ↦ rw (n, write_chosen) (SetEnd.written props k permitted n)
        | inr (e, r) ↦ rw (r, write_chosen) (SetEnd.unwritten props e _ k permitted r refl)
      ]

  -- A `set` is refused with nothing written, or makes exactly one write: of the properties that it may
  -- write, to a unit that is known. The write is either refused by the backend, whose error is given
  -- back, or goes through, and the unit is read again.
  pub apply_set_lem :
      (known : Bytes → Bool) (cat : Catalog F) (switches : List (Switch F))
      (answer : Map (Value F) → Option Bytes) (sn leaf : Bytes) (v : SetValue)
      → SetEnd known cat switches answer sn leaf v (apply_set known cat switches answer sn leaf v)
  unfolding apply_set
  apply_set_lem known cat switches answer sn leaf v = elim (Bool-cases (known sn)) [
    | inl k ↦ rw k (
        write_chosen-SetEnd known cat switches answer sn leaf v (choose cat switches leaf v) k refl)
    | inr u ↦ rw u (SetEnd.rejected _ refl)
  ]
