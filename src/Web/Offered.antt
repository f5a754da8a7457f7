-- ===== src/Web/Offered.antt =====
-- The controls of the page, internal/web/web.go, over the running coordinator: what is offered can be
-- written.
use go_zendure2mqtt.Common.{
  ℕ, Bytes, beq_iff, cut_prefix, has_key, Map, Value, FloatOps, Option, none, some, Bool, true,
  false, List, [], ◌∷◌, ◌++◌, ◌≡◌, ◌≢◌, refl, ap, arith, ℤ, All, All-append, Option-cases,
  Bool-cases, inl, inr, ◌⊎◌, ◌||◌,
}
use go_zendure2mqtt.Catalog.Entry.{Entry}
use go_zendure2mqtt.Catalog.Load.{Catalog, find_topic}
use go_zendure2mqtt.Evcc.Profile.{group}
use go_zendure2mqtt.Evcc.Mode.{parse_mode}
use go_zendure2mqtt.Virtual.{Switch}
use go_zendure2mqtt.State.Store.{Device}
use go_zendure2mqtt.Coordinator.Battery.{
  Plane, Outcome, no_report, failed, applied, apply_battery_mode,
}
use go_zendure2mqtt.Coordinator.Commands.{
  SetValue, SetError, Kind, unknown_device, Chosen, refused, chosen, choose, choose_entry,
  write_chosen, apply_set, apply_evcc_set, outcome_error,
}
use go_zendure2mqtt.Coordinator.Commands.Routes.{
  World, Failure, set_failed, failure_of, set_item, set_evcc_item, write_item, write_running,
  cut_slash,
}
use go_zendure2mqtt.Coordinator.Web.{ItemInfo}
use go_zendure2mqtt.Coordinator.Web.Shown.{says_not_writable, Takes}
use go_zendure2mqtt.Web.Dashboard.{
  UiItem, WriteFailure, no_device, not_written, unit_topics, ui_item, controls, ui_items, ui_write,
}

-- whether an error is that of a device that is not known
abbrev of_unknown : Option Kind → Bool
of_unknown (some unknown_device) = true
of_unknown _ = false

abbrev names_unknown : Option SetError → Bool
names_unknown none = false
names_unknown (some e) = of_unknown e.kind

abbrev pub says_unknown : Option Failure → Bool
says_unknown (some (set_failed e)) = of_unknown e.kind
says_unknown _ = false

-- whether a write of the page was refused for the control itself: its device or its item
abbrev pub refuses_control : Option WriteFailure → Bool
refuses_control none = false
refuses_control (some no_device) = true
refuses_control (some (not_written e)) = says_unknown (some e) || says_not_writable (some e)

-- a device that is known, or that reported nothing
abbrev pub Sourced : {F : Type 0} → (Bytes → Bool) → Device F → Type 0
Sourced known d = (d.entries ≡ []) ⊎ (known d.sn ≡ true)

module _ {F : Type 0} ⦃fl : FloatOps F⦄ (known : Bytes → Bool) (cat : Catalog F)
    (switches : List (Switch F)) (charge_w : ℤ) (answer : Map (Value F) → Option Bytes)
    (say : Failure → Bytes) (now : ℕ) where
  abbrev chosen_unknown : Chosen F → Bool
  chosen_unknown (refused e) = of_unknown e.kind
  chosen_unknown (chosen props) = false

  choose_entry-knows :
      (e : Option (Entry F)) (v : SetValue) → chosen_unknown (choose_entry e v) ≡ false
  unfolding choose_entry
  choose_entry-knows none v = refl
  choose_entry-knows (some e) v = ground arith

  choose-knows : (leaf : Bytes) (v : SetValue) → chosen_unknown (choose cat switches leaf v) ≡ false
  unfolding choose
  choose-knows leaf v = ground (arith, choose_entry-knows (find_topic cat leaf) v)

  write_chosen-knows :
      (sn : Bytes) (c : Chosen F)
      → chosen_unknown c ≡ false
      → names_unknown (write_chosen answer sn c).1 ≡ false
  unfolding write_chosen
  write_chosen-knows sn (refused e) h = h
  write_chosen-knows sn (chosen props) h = ground arith

  outcome-knows : (o : Outcome F) → names_unknown (outcome_error o) ≡ false
  unfolding outcome_error
  outcome-knows (no_report u) = refl
  outcome-knows (failed u w e) = refl
  outcome-knows (applied u w) = refl

  apply_evcc_set-knows :
      (sn role key : Bytes) (v : SetValue) (units : Plane F)
      → known sn ≡ true
      → names_unknown (apply_evcc_set known charge_w true answer now sn role key v units).2 ≡ false
  unfolding apply_evcc_set
  apply_evcc_set-knows sn role key v units h = elim (Option-cases (parse_mode v.text)) [
    | inl e ↦ ground (arith, e)
    | inr (m, e) ↦
        ground (arith, e, outcome-knows (apply_battery_mode charge_w true answer now m sn units).2)
  ]

  says-failure_of :
      (e : Option SetError)
      → says_unknown (failure_of known cat switches charge_w true answer say now e)
        ≡ names_unknown e
  says-failure_of none = refl
  says-failure_of (some e) = refl

  set_evcc_item-knows :
      (sn role key : Bytes) (v : SetValue) (w : World F)
      → known sn ≡ true
      → says_unknown
          (set_evcc_item known cat switches charge_w true answer say now sn role key v w).2
        ≡ false
  unfolding set_evcc_item
  set_evcc_item-knows sn role key v w h = elim (Option-cases w.evcc) [
    | inl n ↦ ground (arith, n)
    | inr (units, n) ↦ ground (
      arith,
      n,
      apply_evcc_set-knows sn role key v units h,
      says-failure_of (apply_evcc_set known charge_w true answer now sn role key v units).2,
    )
  ]

  set_item-knows :
      (sn key : Bytes) (v : SetValue) (w : World F)
      → known sn ≡ true
      → says_unknown (set_item known cat switches charge_w true answer say now sn key v w).2 ≡ false
  unfolding set_item apply_set
  set_item-knows sn key v w h = elim (Option-cases (cut_prefix key (group ++ b'/' ∷ []))) [
    | inl n ↦ ground (
      arith,
      n,
      h,
      write_chosen-knows sn (choose cat switches key v) (choose-knows key v),
      says-failure_of (write_chosen answer sn (choose cat switches key v)).1,
    )
    | inr (rest, n) ↦
        ground (arith, n, set_evcc_item-knows sn (cut_slash rest).0 (cut_slash rest).1 v w h)
  ]

  -- what the theorem says of one control
  abbrev pub Accepted : (Bytes → Option SetValue) → World F → UiItem F → Type 0
  Accepted parse w i =
      i.device ≢ []
      → (value : Bytes)
      → refuses_control
          (ui_write known cat switches charge_w true answer say now parse i.device i.key value w).2
        ≡ false

  Accepted-Takes :
      (parse : Bytes → Option SetValue) (w : World F) (it : ItemInfo F) (sn : Bytes)
      → known sn ≡ true
      → Takes known cat switches charge_w true answer say now w it
      → Accepted parse w (ui_item sn it)
  unfolding ui_item ui_write write_item write_running
  Accepted-Takes parse w it sn h t named value = elim (Option-cases (parse value)) [
    | inl n ↦ ground (arith, n, named, beq_iff sn [])
    | inr (v, n) ↦ ground (arith, n, named, beq_iff sn [], t sn v, set_item-knows sn it.key v w h)
  ]

  Accepted-controls :
      (parse : Bytes → Option SetValue) (w : World F) (sn : Bytes) (has : List Bytes)
      (its : List (ItemInfo F))
      → known sn ≡ true
      → All (Takes known cat switches charge_w true answer say now w) its
      → All (Accepted parse w) (controls sn has its)
  unfolding controls
  Accepted-controls parse w sn has [] h t = tt
  Accepted-controls parse w sn has (it ∷ its) h t = elim (Bool-cases (has_key it.key has)) [
    | inl b ↦ rw b (Accepted-Takes parse w it sn h t.0, Accepted-controls parse w sn has its h t.1)
    | inr b ↦ rw b (Accepted-controls parse w sn has its h t.1)
  ]

  controls-nil : (sn : Bytes) (its : List (ItemInfo F)) → controls sn [] its ≡ []
  unfolding controls has_key
  controls-nil sn [] = refl
  controls-nil sn (it ∷ its) = controls-nil sn its

  Accepted-device :
      (parse : Bytes → Option SetValue) (w : World F) (d : Device F) (its : List (ItemInfo F))
      → Sourced known d
      → All (Takes known cat switches charge_w true answer say now w) its
      → All (Accepted parse w) (controls d.sn (unit_topics d.entries) its)
  unfolding unit_topics
  Accepted-device parse w d its (inl e) t =
      let bare : unit_topics d.entries ≡ [] = ap unit_topics e in
      rw (bare, controls-nil d.sn its) tt
  Accepted-device parse w d its (inr k) t =
      Accepted-controls parse w d.sn (unit_topics d.entries) its k t

  pub Accepted-ui_items :
      (parse : Bytes → Option SetValue) (w : World F) (its : List (ItemInfo F))
      (ds : List (Device F))
      → All (Sourced known) ds
      → All (Takes known cat switches charge_w true answer say now w) its
      → All (Accepted parse w) (ui_items its ds)
  unfolding ui_items
  Accepted-ui_items parse w its [] h t = tt
  Accepted-ui_items parse w its (d ∷ ds) h t =
      All-append (Accepted parse w) (controls d.sn (unit_topics d.entries) its) (ui_items its ds)
        (Accepted-device parse w d its h.0 t) (Accepted-ui_items parse w its ds h.1 t)
