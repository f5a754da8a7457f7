-- ===== src/Virtual.antt =====
-- internal/virtual/virtual.go: the charge and discharge switches.
pub mod Laws
mod Tests
use go_zendure2mqtt.Common.{
  ℕ, Bytes, str, beq, lookup, Map, Value, FloatOps, float, int, Option, none, some, Bool, true,
  false, List, [], ◌∷◌, ◌&&◌, ℤ, pos, ltb_ℤ, eqb_ℤ, if◌then◌else◌,
}
use go_zendure2mqtt.Catalog.Entry.{nonempty_or}
use go_zendure2mqtt.Process.Points.{Report}

pub record Switch (F : Type 0) : Type 0 where
  pub topic : Bytes
  pub name : Bytes
  pub name_de : Bytes
  pub on_props : Map (Value F)
  pub off_props : Map (Value F)
  pub active : Option (Report F) → Bool

module _ {F : Type 0} where
  unfoldable pub switch_name : Switch F → Bytes → Bytes
  switch_name s lang = if beq lang (str "de") then nonempty_or s.name_de s.name else s.name

  unfoldable pub write_props : Switch F → Bool → Map (Value F)
  write_props s on = if on then s.on_props else s.off_props

module _ {F : Type 0} ⦃fl : FloatOps F⦄ where
  -- A report that is not there, a property that is not there and one that is no float64 read 0.
  unfoldable pub prop_int : Option (Report F) → Bytes → ℤ
  prop_int none key = pos 0
  prop_int (some r) key = elim (lookup key r.properties) [
    | some (float f) ↦ fl.to_int f
    | _ ↦ pos 0
  ]

  unfoldable pub is_active : ℤ → Bytes → Option (Report F) → Bool
  unfolding prop_int
  is_active mode limit r =
      eqb_ℤ (prop_int r (str "acMode")) mode && ltb_ℤ (pos 0) (prop_int r limit)

  unfoldable pub charge_switch : ℤ → Switch F
  unfolding is_active
  charge_switch charge_w = record {
    topic = str "charge_active";
    name = str "Charge active";
    name_de = str "Laden aktiv";
    on_props =
        (str "smartMode", int (pos 1))
        ∷ (str "acMode", int (pos 1))
        ∷ (str "inputLimit", int charge_w)
        ∷ (str "outputLimit", int (pos 0))
        ∷ [];
    off_props =
        (str "smartMode", int (pos 0))
        ∷ (str "acMode", int (pos 1))
        ∷ (str "inputLimit", int (pos 0))
        ∷ (str "outputLimit", int (pos 0))
        ∷ [];
    active = is_active (pos 1) (str "inputLimit");
  }

  unfoldable pub discharge_switch : ℤ → Switch F
  unfolding is_active
  discharge_switch discharge_w = record {
    topic = str "discharge_active";
    name = str "Discharge active";
    name_de = str "Entladen aktiv";
    on_props =
        (str "smartMode", int (pos 1))
        ∷ (str "acMode", int (pos 2))
        ∷ (str "outputLimit", int discharge_w)
        ∷ (str "inputLimit", int (pos 0))
        ∷ [];
    off_props =
        (str "smartMode", int (pos 0))
        ∷ (str "acMode", int (pos 2))
        ∷ (str "outputLimit", int (pos 0))
        ∷ (str "inputLimit", int (pos 0))
        ∷ [];
    active = is_active (pos 2) (str "outputLimit");
  }

  unfoldable pub switches : ℤ → ℤ → List (Switch F)
  unfolding charge_switch discharge_switch
  switches charge_w discharge_w = charge_switch charge_w ∷ discharge_switch discharge_w ∷ []
