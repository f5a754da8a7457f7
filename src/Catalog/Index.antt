-- ===== src/Catalog/Index.antt =====
-- What a catalog that loads finds: newCatalog and Load against the lookups of internal/catalog.
use go_zendure2mqtt.Common.{
  ℕ, zero, suc, ◌+◌, Bytes, beq, beq_iff, beq_refl, lookup, insert, lookup-insert, Map, none, some,
  true, false, List, [], ◌∷◌, ◌≡◌, ◌≢◌, refl, arith, get_elem?,
}
use go_zendure2mqtt.Catalog.Entry.{Entry, topic_leaf}
use go_zendure2mqtt.Catalog.Load.{
  Catalog, index, new_catalog, by_property, find_topic, check_entries, loaded, load, valid_platform,
}

module _ {F : Type 0} where
  -- No key of the entries has been seen, and none comes twice.
  abbrev Fresh : (Entry F → Bytes) → ℕ → List (Entry F) → Map ℕ → Type 0
  Fresh key i [] seen = Unit
  Fresh key i (e ∷ es) seen =
      (lookup (key e) seen ≡ none) × Fresh key (i + 1) es (insert (key e) i seen)

  Fresh-lookup :
      (key : Entry F → Bytes) (i : ℕ) (es : List (Entry F)) (seen : Map ℕ) (n : ℕ) (e : Entry F)
      → Fresh key i es seen
      → get_elem? es n ≡ some e
      → lookup (key e) seen ≡ none
  Fresh-lookup key i [] seen n e h g = cc
  Fresh-lookup key i (x ∷ es) seen zero e h g = ground (arith, h.0, g)
  Fresh-lookup key i (x ∷ es) seen (suc n) e h g = ground (
    arith,
    Fresh-lookup key (i + 1) es (insert (key x) i seen) n e h.1 g,
    lookup-insert (key x) (key e) i seen,
  )

  index_skip :
      (key : Entry F → Bytes) (k : Bytes) (es : List (Entry F)) (m : Map (Entry F))
      → ((n : ℕ) (e : Entry F) → get_elem? es n ≡ some e → beq (key e) k ≡ false)
      → lookup k (index key es m) ≡ lookup k m
  unfolding index
  index_skip key k [] m h = refl
  index_skip key k (e ∷ es) m h = ground (
    arith,
    index_skip key k es (insert (key e) e m) (λ n x g. h (suc n) x g),
    lookup-insert (key e) k e m,
    h 0 e refl,
  )

  lookup-index :
      (key : Entry F → Bytes) (i : ℕ) (es : List (Entry F)) (seen : Map ℕ) (m : Map (Entry F))
      (n : ℕ) (e : Entry F)
      → Fresh key i es seen
      → get_elem? es n ≡ some e
      → lookup (key e) (index key es m) ≡ some e
  unfolding index
  lookup-index key i [] seen m n e h g = cc
  lookup-index key i (x ∷ es) seen m zero e h g = ground (
    arith,
    g,
    index_skip key (key x) es (insert (key x) x m) (λ n y gy. ground (
      arith,
      beq_iff (key y) (key x),
      beq_iff (key x) (key y),
      Fresh-lookup key (i + 1) es (insert (key x) i seen) n y h.1 gy,
      lookup-insert (key x) (key y) i seen,
    )),
    lookup-insert (key x) (key x) x m,
    beq_refl (key x),
  )
  lookup-index key i (x ∷ es) seen m (suc n) e h g =
      lookup-index key (i + 1) es (insert (key x) i seen) (insert (key x) x m) n e h.1 g

  entry_good :
      (i : ℕ) (x : Entry F) (es : List (Entry F)) (seen_prop seen_leaf : Map ℕ)
      → check_entries i (x ∷ es) seen_prop seen_leaf ≡ none
      → ((n : ℕ) (e : Entry F)
          → get_elem? es n ≡ some e
          → (beq e.property [] ≡ false) × (valid_platform e.platform ≡ true))
      → (n : ℕ) (e : Entry F) → get_elem? (x ∷ es) n ≡ some e
      → (beq e.property [] ≡ false) × (valid_platform e.platform ≡ true)
  unfolding check_entries
  entry_good i x es seen_prop seen_leaf h good zero e g =
      (ground (arith, h, g), ground (arith, h, g))
  entry_good i x es seen_prop seen_leaf h good (suc n) e g = good n e g

  check_entries-Fresh :
      (i : ℕ) (es : List (Entry F)) (seen_prop seen_leaf : Map ℕ)
      → check_entries i es seen_prop seen_leaf ≡ none
      → Fresh (λ e. e.property) i es seen_prop
        × Fresh topic_leaf i es seen_leaf
        × ((n : ℕ) (e : Entry F)
            → get_elem? es n ≡ some e
            → (beq e.property [] ≡ false) × (valid_platform e.platform ≡ true))
  unfolding check_entries
  check_entries-Fresh i [] seen_prop seen_leaf h = (tt, tt, λ n e g. cc)
  check_entries-Fresh i (x ∷ es) seen_prop seen_leaf h =
      let (props, leaves, good) =
        check_entries-Fresh (i + 1) es (insert x.property i seen_prop)
          (insert (topic_leaf x) i seen_leaf) (ground (arith, h)) in
      (
        (ground (arith, h), props),
        (ground (arith, h), leaves),
        λ n e g. entry_good i x es seen_prop seen_leaf h good n e g,
      )

  -- Every entry of a catalog that loads is found under its own property and under its own topic leaf,
  -- has a property, and names a platform that Home Assistant knows, or none.
  pub load_finds :
      (es : List (Entry F)) (c : Catalog F) (n : ℕ) (e : Entry F)
      → load (some es) ≡ loaded c
      → get_elem? es n ≡ some e
      → (by_property c e.property ≡ some e)
        × (find_topic c (topic_leaf e) ≡ some e)
        × (e.property ≢ [])
        × (valid_platform e.platform ≡ true)
  unfolding load by_property find_topic
  load_finds es c n e h g =
      let ok : check_entries 0 es [] [] ≡ none = ground (arith, h) in
      let same : c ≡ new_catalog es = ground (arith, h) in
      let (props, leaves, good) = check_entries-Fresh 0 es [] [] ok in
      rw same (
        lookup-index (λ x. x.property) 0 es [] [] n e props g,
        lookup-index topic_leaf 0 es [] [] n e leaves g,
        ground (arith, good n e g, beq_iff e.property []),
        (good n e g).1,
      )
