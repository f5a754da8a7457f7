-- ===== src/Catalog/Entry.antt =====
-- internal/catalog/catalog.go: one catalog entry and its lookups.
use go_zendure2mqtt.Common.{
  Bytes, str, beq, lookup, keys, Map, Option, none, some, Bool, List, [], ◌∷◌, less, atoi, ltb_ℤ,
  fold_ascii, if◌then◌else◌,
}

-- The numbers are floats of type F.
pub record Entry (F : Type 0) : Type 0 where
  pub property : Bytes
  pub topic : Bytes
  pub group : Bytes
  pub platform : Bytes
  pub device_class : Bytes
  pub unit : Bytes
  pub scale : F
  pub offset : F
  pub writable : Bool
  pub confirm : Bool
  pub min : Option F
  pub max : Option F
  pub step : Option F
  pub value_map : Map Bytes
  pub value_map_de : Map Bytes
  pub name : Bytes
  pub name_de : Bytes

-- s, or t where s is the empty text
abbrev pub nonempty_or : Bytes → Bytes → Bytes
nonempty_or [] t = t
nonempty_or (c ∷ s) t = c ∷ s

module _ {F : Type 0} where
  unfoldable pub topic_leaf : Entry F → Bytes
  topic_leaf e = nonempty_or e.topic e.property

  unfoldable pub friendly_name : Entry F → Bytes → Bytes
  friendly_name e lang =
      let english = nonempty_or e.name e.property in
      if beq lang (str "de") then nonempty_or e.name_de english else english

  unfoldable pub label : Entry F → Bytes → Bytes → Option Bytes
  label e code lang =
      let english = lookup code e.value_map in
      if beq lang (str "de")
      then (elim (lookup code e.value_map_de) [ some l ↦ some l | none ↦ english ])
      else english

  unfoldable pub token : Entry F → Bytes → Option Bytes
  token e code = lookup code e.value_map

-- the order of two codes: by number where both are numbers, by text otherwise
unfoldable pub code_less : Bytes → Bytes → Bool
code_less a b = elim (atoi a) [
  | none ↦ less a b
  | some i ↦ elim (atoi b) [ none ↦ less a b | some j ↦ ltb_ℤ i j ]
]

unfoldable pub insert_code : Bytes → List Bytes → List Bytes
unfolding code_less
insert_code c [] = c ∷ []
insert_code c (d ∷ ds) = if code_less c d then c ∷ d ∷ ds else d ∷ insert_code c ds

-- sort.Slice by `code_less`
unfoldable pub sort_codes : List Bytes → List Bytes
unfolding insert_code
sort_codes [] = []
sort_codes (c ∷ cs) = insert_code c (sort_codes cs)

-- strings.EqualFold of two ASCII texts; of other texts, Go also folds the letters that are not ASCII,
-- and here they are equal to themselves only.
unfoldable pub equal_fold : Bytes → Bytes → Bool
equal_fold s t = beq (fold_ascii s) (fold_ascii t)

-- m[k] of a map of texts
abbrev pub text_at : Map Bytes → Bytes → Bytes
text_at m k = elim (lookup k m) [ none ↦ [] | some v ↦ v ]

module _ {F : Type 0} where
  unfoldable pub sorted_codes : Entry F → List Bytes
  unfolding sort_codes
  sorted_codes e = sort_codes (keys e.value_map)

  -- Codes
  unfoldable pub codes : Entry F → List Bytes
  unfolding sorted_codes
  codes e = sorted_codes e

  unfoldable pub first_code : Entry F → List Bytes → Bytes → Option Bytes
  first_code e [] tok = none
  first_code e (c ∷ cs) tok =
      if equal_fold (text_at e.value_map c) tok then some c else first_code e cs tok

  unfoldable pub code_for_token : Entry F → Bytes → Option Bytes
  unfolding first_code sorted_codes
  code_for_token e tok = first_code e (sorted_codes e) tok

  unfoldable pub labels_of : Entry F → List Bytes → Bytes → List Bytes
  unfolding label
  labels_of e [] lang = []
  labels_of e (c ∷ cs) lang = elim (label e c lang) [
    | none ↦ labels_of e cs lang
    | some l ↦ l ∷ labels_of e cs lang
  ]

  -- Options
  unfoldable pub options : Entry F → Bytes → List Bytes
  unfolding labels_of sorted_codes
  options e lang = labels_of e (sorted_codes e) lang
