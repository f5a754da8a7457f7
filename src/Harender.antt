-- ===== src/Harender.antt =====
-- internal/harender/harender.go: Enum, the options that Home Assistant gets for a value map.
pub mod Layout
pub mod Entity
pub mod Owned
mod Tests
use go_zendure2mqtt.Common.{
  Bytes, str, beq, insert, Map, Option, none, some, List, [], ◌∷◌, if◌then◌else◌, ◌++◌,
}
use go_zendure2mqtt.Catalog.Entry.{Entry, token, label, codes}

-- of hamodel.Localized, what is set here: the default and the German text
pub record Localized : Type 0 where
  pub text : Bytes
  pub german : Option Bytes

-- hamodel.Enum
pub record HaEnum : Type 0 where
  pub codes : List Bytes
  pub labels : Map Localized

module _ {F : Type 0} where
  unfoldable pub localized : Entry F → Bytes → Bytes → Localized
  localized e code tok = record {
    text = tok;
    german = elim (label e code (str "de")) [
      | none ↦ none
      | some de ↦ if beq de tok then none else some de
    ];
  }

  unfoldable pub add_codes : Entry F → List Bytes → HaEnum → HaEnum
  unfolding localized
  add_codes e [] h = h
  add_codes e (code ∷ cs) h = elim (token e code) [
    | none ↦ add_codes e cs h
    | some tok ↦ add_codes e cs (record {
      codes = h.codes ++ tok ∷ [];
      labels = insert tok (localized e code tok) h.labels;
    })
  ]

  unfoldable pub ha_enum : Entry F → Option HaEnum
  unfolding add_codes
  ha_enum e = elim (codes e) [
    | [] ↦ none
    | c ∷ cs ↦ some (add_codes e (c ∷ cs) (record { codes = []; labels = [] }))
  ]
