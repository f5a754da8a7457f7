-- ===== src/Coordinator/Web/Shown.antt =====
-- The items that Items of internal/coordinator/web.go lists, and what Write takes.
use go_zendure2mqtt.Common.{
  ℕ, suc, Bytes, str, beq, beq_refl, cut_prefix, Map, Value, FloatOps, Option, none, some, Bool,
  true, false, not, List, [], ◌∷◌, ◌++◌, ◌||◌, ◌≡◌, ◌≢◌, refl, ap, arith, ℤ, All, All-append,
  is_some, if◌then◌else◌, get_elem?, Option-cases, Bool-cases, inl, inr, ◌⊎◌,
}
use go_zendure2mqtt.Catalog.Entry.{Entry, topic_leaf}
use go_zendure2mqtt.Catalog.Load.{Catalog, load, loaded, find_topic, new_catalog, check_entries}
use go_zendure2mqtt.Catalog.Index.{load_finds}
use go_zendure2mqtt.Virtual.{Switch}
use go_zendure2mqtt.Evcc.Profile.{group, role_battery, key_battery_mode, item_string, battery_mode}
use go_zendure2mqtt.Evcc.Mode.{parse_mode}
use go_zendure2mqtt.Coordinator.Battery.{
  apply_battery_mode, Plane, Outcome, no_report, failed, applied,
}
use go_zendure2mqtt.Coordinator.Commands.{
  SetValue, SetError, Kind, not_writable, Chosen, refused, chosen, apply_set, apply_evcc_set,
  choose, choose_entry, switch_props, decode_set, write_chosen, outcome_error,
}
use go_zendure2mqtt.Coordinator.Commands.Routes.{
  World, Failure, set_failed, set_item, set_evcc_item, cut_slash, failure_of,
}
use go_zendure2mqtt.Coordinator.Web.{
  ItemInfo, items, entry_items, entry_item, switch_items, mode_item,
}

-- whether an error is that of an item that may not be written
abbrev pub of_kind : Option Kind → Bool
of_kind (some not_writable) = true
of_kind _ = false

abbrev pub refuses : Option SetError → Bool
refuses none = false
refuses (some e) = of_kind e.kind

abbrev pub says_not_writable : Option Failure → Bool
says_not_writable (some (set_failed e)) = of_kind e.kind
says_not_writable _ = false

module _ {F : Type 0} ⦃fl : FloatOps F⦄ where
  entries-load : (es : List (Entry F)) (c : Catalog F) → load (some es) ≡ loaded c → c.entries ≡ es
  unfolding load new_catalog
  entries-load es c l = elim (Option-cases (check_entries 0 es [] [])) [
    | inl n ↦ ground (arith, n, l)
    | inr (x, n) ↦ ground (arith, n, l)
  ]

  -- the entries of a list that are all found
  All-found :
      (es : List (Entry F)) (c : Catalog F) (fs : List (Entry F))
      → load (some es) ≡ loaded c
      → ((n : ℕ) (e : Entry F) → get_elem? fs n ≡ some e → (m : ℕ) × (get_elem? es m ≡ some e))
      → All (λ e. cut_prefix (topic_leaf e) (str "evcc/") ≡ none) fs
      → All
          (λ e.
            (find_topic c (topic_leaf e) ≡ some e)
            × (cut_prefix (topic_leaf e) (str "evcc/") ≡ none))
          fs
  All-found es c [] l sub h = tt
  All-found es c (e ∷ fs) l sub (p, h) =
      let (m, g) = sub 0 e refl in
      (((load_finds es c m e l g).1, p), All-found es c fs l (λ n x x_at. sub (suc n) x x_at) h)

  -- a choice that is no refusal of the item itself
  abbrev allows : Chosen F → Bool
  allows (refused e) = not (of_kind e.kind)
  allows (chosen props) = true

  refuses-write_chosen :
      (answer : Map (Value F) → Option Bytes) (sn : Bytes) (c : Chosen F)
      → allows c ≡ true
      → refuses (write_chosen answer sn c).1 ≡ false
  unfolding write_chosen
  refuses-write_chosen answer sn (refused e) h = ground (arith, h)
  refuses-write_chosen answer sn (chosen props) h = elim (Option-cases (answer props)) [
    | inl e ↦ rw (write_chosen, e) refl
    | inr (b, e) ↦ rw (write_chosen, e) refl
  ]

  allows-choose_entry :
      (e : Entry F) (v : SetValue) → e.writable ≡ true → allows (choose_entry (some e) v) ≡ true
  unfolding choose_entry
  allows-choose_entry e v w = elim (Option-cases (decode_set e v)) [
    | inl n ↦ rw (choose_entry, n, w) refl
    | inr (x, n) ↦ rw (choose_entry, n, w) refl
  ]

  -- whether a switch has the leaf
  abbrev has_switch : Bytes → List (Switch F) → Bool
  has_switch leaf [] = false
  has_switch leaf (s ∷ ss) = beq s.topic leaf || has_switch leaf ss

  has_switch-switch_props :
      (ss : List (Switch F)) (leaf : Bytes) (v : SetValue)
      → has_switch leaf ss ≡ true
      → switch_props ss leaf v ≢ none
  unfolding switch_props
  has_switch-switch_props [] leaf v h e = cc
  has_switch-switch_props (s ∷ ss) leaf v h e = elim (Bool-cases (beq s.topic leaf)) [
    | inl t ↦ ground (arith, e, t)
    | inr t ↦ has_switch-switch_props ss leaf v (ground (arith, h, t)) (ground (arith, e, t))
  ]

  allows-choose :
      (cat : Catalog F) (switches : List (Switch F)) (leaf : Bytes) (v : SetValue)
      → (has_switch leaf switches ≡ true)
        ⊎ ((e : Entry F) × (find_topic cat leaf ≡ some e) × (e.writable ≡ true))
      → allows (choose cat switches leaf v) ≡ true
  unfolding choose
  allows-choose cat switches leaf v h = elim (Option-cases (switch_props switches leaf v)) [
    | inr (none, e) ↦ rw (choose, e) refl
    | inr (some props, e) ↦ rw (choose, e) refl
    | inl e ↦ elim h [
      | inl s ↦ absurd (has_switch-switch_props switches leaf v s e)
      | inr (x, found, w) ↦ rw (choose, e, found) (allows-choose_entry x v w)
    ]
  ]

module _ {F : Type 0} ⦃fl : FloatOps F⦄ (known : Bytes → Bool) (cat : Catalog F)
    (switches : List (Switch F)) (charge_w : ℤ) (running : Bool)
    (answer : Map (Value F) → Option Bytes) (say : Failure → Bytes) (now : ℕ) where
  refuses-apply_set :
      (sn leaf : Bytes) (v : SetValue)
      → allows (choose cat switches leaf v) ≡ true
      → refuses (apply_set known cat switches answer sn leaf v).1 ≡ false
  unfolding apply_set
  refuses-apply_set sn leaf v h = elim (Bool-cases (known sn)) [
    | inl k ↦ rw (apply_set, k) (refuses-write_chosen answer sn (choose cat switches leaf v) h)
    | inr k ↦ rw (apply_set, k) refl
  ]

  says-failure_of :
      (o : Option SetError)
      → refuses o ≡ false
      → says_not_writable (failure_of known cat switches charge_w running answer say now o) ≡ false
  says-failure_of none h = refl
  says-failure_of (some e) h = h

  -- a key outside the evcc group
  set_item-plain :
      (sn key : Bytes) (v : SetValue) (w : World F)
      → cut_prefix key (str "evcc/") ≡ none
      → allows (choose cat switches key v) ≡ true
      → says_not_writable (set_item known cat switches charge_w running answer say now sn key v w).2
        ≡ false
  unfolding set_item
  set_item-plain sn key v w c h =
      rw (set_item, c)
        (says-failure_of (apply_set known cat switches answer sn key v).1
          (refuses-apply_set sn key v h))

  refuses-outcome_error : (o : Outcome F) → refuses (outcome_error o) ≡ false
  unfolding outcome_error
  refuses-outcome_error (no_report u) = refl
  refuses-outcome_error (failed u w e) = refl
  refuses-outcome_error (applied u w) = refl

  refuses-apply_evcc_set :
      (sn : Bytes) (v : SetValue) (units : Plane F)
      → refuses
          (apply_evcc_set known charge_w running answer now sn role_battery key_battery_mode v
            units).2
        ≡ false
  unfolding apply_evcc_set beq
  refuses-apply_evcc_set sn v units = elim (Bool-cases (known sn)) [
    | inr k ↦ rw (apply_evcc_set, k) refl
    | inl k ↦ elim (Bool-cases v.structured) [
      | inl t ↦ rw (apply_evcc_set, k, t) refl
      | inr t ↦ elim (Option-cases (parse_mode v.text)) [
        | inl m ↦ rw (apply_evcc_set, k, m, t) refl
        | inr (x, m) ↦
            rw (apply_evcc_set, k, m, t)
              (refuses-outcome_error (apply_battery_mode charge_w running answer now x sn units).2)
      ]
    ]
  ]

  set_item-mode :
      (sn : Bytes) (v : SetValue) (w : World F) (units : Plane F)
      → w.evcc ≡ some units
      → says_not_writable
          (set_item known cat switches charge_w running answer say now sn
            (group ++ b'/' ∷ item_string battery_mode)
            v
            w).2
        ≡ false
  unfolding set_item set_evcc_item cut_slash cut_prefix item_string
  set_item-mode sn v w units e =
      rw (set_evcc_item, e)
        (says-failure_of
          (apply_evcc_set known charge_w running answer now sn role_battery key_battery_mode v
            units).2
          (refuses-apply_evcc_set sn v units))

  -- what the theorem below says of one item
  abbrev pub Takes : World F → ItemInfo F → Type 0
  Takes w i =
      (sn : Bytes) (v : SetValue)
      → says_not_writable
          (set_item known cat switches charge_w running answer say now sn i.key v w).2
        ≡ false

  Takes-entry_items :
      (lang : Bytes) (w : World F) (es : List (Entry F))
      → All
          (λ e.
            (find_topic cat (topic_leaf e) ≡ some e)
            × (cut_prefix (topic_leaf e) (str "evcc/") ≡ none))
          es
      → All (Takes w) (entry_items lang es)
  unfolding entry_items entry_item
  Takes-entry_items lang w [] h = tt
  Takes-entry_items lang w (e ∷ es) (p, h) = elim (Bool-cases e.writable) [
    | inl t ↦
        let key = topic_leaf e in
        let shown : entry_items lang (e ∷ es) ≡ entry_item lang e ∷ entry_items lang es =
          ground (arith, t) in
        rw shown (
          λ sn v.
              set_item-plain sn key v w p.1 (allows-choose cat switches key v (inr (e, p.0, t))),
          Takes-entry_items lang w es h,
        )
    | inr t ↦
        let hidden : entry_items lang (e ∷ es) ≡ entry_items lang es = ground (arith, t) in
        rw hidden (Takes-entry_items lang w es h)
  ]

  Takes-switch_items :
      (lang : Bytes) (w : World F) (ss : List (Switch F))
      → ((leaf : Bytes) → has_switch leaf ss ≡ true → has_switch leaf switches ≡ true)
      → All (λ s. cut_prefix s.topic (str "evcc/") ≡ none) ss
      → All (Takes w) (switch_items lang ss)
  unfolding switch_items
  Takes-switch_items lang w [] sub h = tt
  Takes-switch_items lang w (s ∷ ss) sub (p, h) = (
    λ sn v. set_item-plain sn s.topic v w p (
        allows-choose cat switches s.topic v
          (inl (sub s.topic (ground (arith, beq_refl s.topic))))),
    Takes-switch_items lang w ss (λ leaf t. sub leaf (ground (arith, t))) h,
  )

  Takes-modes :
      (lang : Bytes) (w : World F)
      → All (Takes w) (if is_some w.evcc then mode_item lang ∷ [] else [])
  unfolding mode_item
  Takes-modes lang w = elim (Option-cases w.evcc) [
    | inl n ↦
        let none_shown : (if is_some w.evcc then mode_item {F = F} lang ∷ [] else []) ≡ [] =
          ground (arith, n) in
        rw none_shown tt
    | inr (units, n) ↦
        let one_shown : (if is_some w.evcc then mode_item {F = F} lang ∷ [] else [])
            ≡ mode_item lang ∷ [] =
          ground (arith, n) in
        rw one_shown (λ sn v. set_item-mode sn v w units n, tt)
  ]

  -- Whatever Items lists can be written: no write of a listed item is refused because the item is not
  -- writable, whatever the value and the device, when the catalog was loaded and no leaf or switch has a
  -- name that begins with the evcc group.
  pub items-Takes :
      (lang : Bytes) (w : World F) (es : List (Entry F))
      → load (some es) ≡ loaded cat
      → All (λ e. cut_prefix (topic_leaf e) (str "evcc/") ≡ none) es
      → All (λ s. cut_prefix s.topic (str "evcc/") ≡ none) switches
      → All (Takes w) (items lang cat switches (is_some w.evcc))
  unfolding items mode_item
  items-Takes lang w es l he hs =
      let same : entry_items lang cat.entries ≡ entry_items lang es =
        ap (entry_items lang) (entries-load es cat l) in
      let modes = if is_some w.evcc then mode_item lang ∷ [] else [] in
      rw same (
        All-append (Takes w) (entry_items lang es) (switch_items lang switches ++ modes)
          (Takes-entry_items lang w es (All-found es cat es l (λ n e g. (n, g)) he))
          (All-append (Takes w) (switch_items lang switches) modes
            (Takes-switch_items lang w switches (λ leaf t. t) hs) (Takes-modes lang w)))
