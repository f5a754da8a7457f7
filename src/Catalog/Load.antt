-- ===== src/Catalog/Load.antt =====
-- newCatalog of internal/catalog/catalog.go, and Load of internal/catalog/load.go. The YAML decoder
-- is outside: `load` takes what it decodes, `none` for its error.
use go_zendure2mqtt.Common.{
  ℕ, ◌+◌, Bytes, str, beq, lookup, insert, Map, Option, none, some, Bool, List, [], ◌∷◌, ◌||◌, not,
  if◌then◌else◌,
}
use go_zendure2mqtt.Catalog.Entry.{Entry, topic_leaf}

pub record Catalog (F : Type 0) : Type 0 where
  pub entries : List (Entry F)
  pub by_prop : Map (Entry F)
  pub by_topic : Map (Entry F)

module _ {F : Type 0} where
  -- index the entries by a key, a later one over an earlier one
  unfoldable pub index : (Entry F → Bytes) → List (Entry F) → Map (Entry F) → Map (Entry F)
  index key [] m = m
  index key (e ∷ es) m = index key es (insert (key e) e m)

  unfoldable pub new_catalog : List (Entry F) → Catalog F
  unfolding index
  new_catalog es = record {
    entries = es;
    by_prop = index (λ e. e.property) es [];
    by_topic = index topic_leaf es [];
  }

  unfoldable pub by_property : Catalog F → Bytes → Option (Entry F)
  by_property c property = lookup property c.by_prop

  unfoldable pub find_topic : Catalog F → Bytes → Option (Entry F)
  find_topic c topic = lookup topic c.by_topic

unfoldable pub valid_platform : Bytes → Bool
valid_platform p =
    beq p []
    || (beq p (str "sensor")
        || (beq p (str "binary_sensor")
            || (beq p (str "number") || (beq p (str "select") || beq p (str "switch")))))

pub data LoadError : Type 0 where
  bad_yaml : LoadError
  no_property : ℕ → LoadError
  bad_platform : ℕ → LoadError
  same_property : ℕ → ℕ → LoadError
  same_leaf : ℕ → ℕ → LoadError

module _ {F : Type 0} where
  unfoldable pub check_entry : ℕ → Entry F → Map ℕ → Map ℕ → Option LoadError
  check_entry i e seen_prop seen_leaf =
      if beq e.property []
      then some (LoadError.no_property i)
      else if not (valid_platform e.platform)
      then some (LoadError.bad_platform i)
      else elim (lookup e.property seen_prop) [
        | some j ↦ some (LoadError.same_property j i)
        | none ↦ elim (lookup (topic_leaf e) seen_leaf) [
          | some j ↦ some (LoadError.same_leaf j i)
          | none ↦ none
        ]
      ]

  -- the loop over the entries, `none` at its end
  unfoldable pub check_entries : ℕ → List (Entry F) → Map ℕ → Map ℕ → Option LoadError
  unfolding check_entry
  check_entries i [] seen_prop seen_leaf = none
  check_entries i (e ∷ es) seen_prop seen_leaf =
      let rest =
        check_entries (i + 1) es (insert e.property i seen_prop)
          (insert (topic_leaf e) i seen_leaf) in
      elim (check_entry i e seen_prop seen_leaf) [ some err ↦ some err | none ↦ rest ]

pub data Loaded (F : Type 0) : Type 0 where
  loaded : Catalog F → Loaded F
  refused : LoadError → Loaded F

unfoldable pub load : {F : Type 0} → Option (List (Entry F)) → Loaded F
unfolding check_entries new_catalog
load none = refused LoadError.bad_yaml
load (some es) = elim (check_entries 0 es [] []) [
  | some err ↦ refused err
  | none ↦ loaded (new_catalog es)
]
