-- ===== src/Common/Maps.antt =====
-- Go maps with string keys, as association lists. The order of the entries stands for the order
-- in which one run iterates over the map; a key is found at its first entry.
use mathlib.Core.Path.{◌≡◌, refl}
use mathlib.Core.Logic.{◌≢◌}
use mathlib.Core.Bool.{Bool, false, ◌||◌}
use mathlib.Core.Option.{Option, none, some}
use mathlib.Core.List.{List, [], ◌∷◌, ◌++◌}
use native.Mathlib.Omega.{arith}
use go_zendure2mqtt.Common.Tests.{if◌then◌else◌, or_else, is_some}
use go_zendure2mqtt.Common.Text.{Bytes, beq, beq_iff, less}

abbrev pub Map {ℓ} : Type ℓ → Type ℓ
Map V = List (Bytes × V)

module _ {ℓ} {V : Type ℓ} where
  unfoldable pub lookup : Bytes → Map V → Option V
  lookup k [] = none
  lookup k ((j, v) ∷ m) = if beq j k then some v else lookup k m

  -- m[k] = v
  unfoldable pub insert : Bytes → V → Map V → Map V
  insert k v [] = (k, v) ∷ []
  insert k v ((j, w) ∷ m) = if beq j k then (k, v) ∷ m else (j, w) ∷ insert k v m

  -- delete(m, k)
  unfoldable pub delete : Bytes → Map V → Map V
  delete k [] = []
  delete k ((j, v) ∷ m) = let rest = delete k m in if beq j k then rest else (j, v) ∷ rest

  -- maps.Copy(dst, src)
  unfoldable pub copy : Map V → Map V → Map V
  unfolding insert
  copy dst [] = dst
  copy dst ((k, v) ∷ src) = insert k v (copy dst src)

  unfoldable pub keys : Map V → List Bytes
  keys [] = []
  keys ((k, v) ∷ m) = k ∷ keys m

  pub lookup-insert :
      (k j : Bytes) (v : V) (m : Map V)
      → lookup j (insert k v m) ≡ (if beq k j then some v else lookup j m)
  unfolding lookup insert
  lookup-insert k j v [] = refl
  lookup-insert k j v ((i, w) ∷ m) =
      ground (arith, beq_iff k j, beq_iff i k, beq_iff i j, lookup-insert k j v m)

  pub lookup-delete :
      (k j : Bytes) (m : Map V) → lookup j (delete k m) ≡ (if beq k j then none else lookup j m)
  unfolding lookup delete
  lookup-delete k j [] = ground arith
  lookup-delete k j ((i, w) ∷ m) =
      ground (arith, beq_iff k j, beq_iff i k, beq_iff i j, lookup-delete k j m)

  pub lookup-copy :
      (j : Bytes) (dst src : Map V)
      → lookup j (copy dst src) ≡ or_else (lookup j src) (lookup j dst)
  unfolding lookup copy
  lookup-copy j dst [] = refl
  lookup-copy j dst ((k, v) ∷ src) =
      ground (arith, lookup-insert k j v (copy dst src), lookup-copy j dst src)

  insert-ne-nil : (k : Bytes) (v : V) (m : Map V) → insert k v m ≢ []
  unfolding insert
  insert-ne-nil k v [] h = cc
  insert-ne-nil k v ((j, w) ∷ m) h = ground arith

  pub copy-ne-nil : (dst src : Map V) → dst ≢ [] → copy dst src ≢ []
  unfolding copy
  copy-ne-nil dst [] h = h
  copy-ne-nil dst ((k, v) ∷ src) h = insert-ne-nil k v (copy dst src)

unfoldable pub has_key : Bytes → List Bytes → Bool
has_key k [] = false
has_key k (j ∷ ks) = beq j k || has_key k ks

pub contains-keys {ℓ} :
    {V : Type ℓ} (k : Bytes) (m : Map V) → has_key k (keys m) ≡ is_some (lookup k m)
unfolding has_key keys lookup
contains-keys k [] = refl
contains-keys k ((j, v) ∷ m) = ground (arith, contains-keys k m)

pub has_key-append :
    (k : Bytes) (xs ys : List Bytes) → has_key k (xs ++ ys) ≡ (has_key k xs || has_key k ys)
unfolding has_key
has_key-append k [] ys = refl
has_key-append k (x ∷ xs) ys = ground (arith, has_key-append k xs ys)

unfoldable pub insert_key : Bytes → List Bytes → List Bytes
insert_key k [] = k ∷ []
insert_key k (j ∷ ks) = if less k j then k ∷ j ∷ ks else j ∷ insert_key k ks

-- slices.Sorted and sort.Strings
unfoldable pub sort_keys : List Bytes → List Bytes
unfolding insert_key
sort_keys [] = []
sort_keys (k ∷ ks) = insert_key k (sort_keys ks)

contains-insert_key :
    (k j : Bytes) (ks : List Bytes) → has_key j (insert_key k ks) ≡ (beq k j || has_key j ks)
unfolding insert_key has_key
contains-insert_key k j [] = refl
contains-insert_key k j (i ∷ ks) = ground (arith, contains-insert_key k j ks)

-- Sorting keeps the members.
pub contains-sort_keys : (j : Bytes) (ks : List Bytes) → has_key j (sort_keys ks) ≡ has_key j ks
unfolding sort_keys has_key
contains-sort_keys j [] = refl
contains-sort_keys j (k ∷ ks) =
    ground (arith, contains-insert_key k j (sort_keys ks), contains-sort_keys j ks)
