-- ===== src/Common/Sorting.antt =====
-- slices.Sorted and sort.Strings forget the order that a map was walked in.
use Prim.Native.Nat.{ℕ, suc}
use mathlib.Core.Path.{◌≡◌, refl, ◌∙◌}
use mathlib.Core.Logic.{∥∥₁_elim}
use mathlib.Core.Bool.{true, false}
use mathlib.Core.List.{List, [], ◌∷◌, Perm, Permᴰ}
use native.Mathlib.Omega.{arith}
use mathlib.Core.Logic.{inl, inr}
use go_zendure2mqtt.Common.Tests.{Bool-cases}
use go_zendure2mqtt.Common.Lists.{length}
use go_zendure2mqtt.Common.Text.{Bytes, less, contains_byte, Free}
use go_zendure2mqtt.Common.Maps.{insert_key, sort_keys}

less_trans : (a b c : Bytes) → less a b ≡ true → less b c ≡ true → less a c ≡ true
unfolding less
less_trans a [] c h k = cc
less_trans a (y ∷ b) [] h k = cc
less_trans [] (y ∷ b) (z ∷ c) h k = refl
less_trans (x ∷ a) (y ∷ b) (z ∷ c) h k = ground (arith, less_trans a b c)

less_asym : (a b : Bytes) → less a b ≡ true → less b a ≡ false
unfolding less
less_asym [] [] h = cc
less_asym [] (y ∷ b) h = refl
less_asym (x ∷ a) [] h = cc
less_asym (x ∷ a) (y ∷ b) h = ground (arith, less_asym a b)

less_connected : (a b : Bytes) → less a b ≡ false → less b a ≡ false → a ≡ b
unfolding less
less_connected [] [] h k = refl
less_connected [] (y ∷ b) h k = cc
less_connected (x ∷ a) [] h k = cc
less_connected (x ∷ a) (y ∷ b) h k = ground (arith, less_connected a b)

insert_key_comm :
    (x y : Bytes) (ks : List Bytes)
    → insert_key x (insert_key y ks) ≡ insert_key y (insert_key x ks)
unfolding insert_key
insert_key_comm x y [] = ground (arith, less_asym x y, less_connected x y)
insert_key_comm x y (j ∷ ks) = ground (
  arith,
  insert_key_comm x y ks,
  less_asym x y,
  less_asym y x,
  less_connected x y,
  less_trans x y j,
  less_trans y x j,
)

sort_keys-Permᴰ : {xs ys : List Bytes} → Permᴰ xs ys → sort_keys xs ≡ sort_keys ys
unfolding sort_keys
sort_keys-Permᴰ Permᴰ.nil = refl
sort_keys-Permᴰ (Permᴰ.cons {a = a} {b = b} {l₁ = l} {l₂ = m} e p) = rw (e, sort_keys-Permᴰ p) refl
sort_keys-Permᴰ (Permᴰ.swap {a = a} {b = b} {l = l} e f) =
    rw (e, f) (insert_key_comm _ _ (sort_keys l))
sort_keys-Permᴰ (Permᴰ.trans p q) = sort_keys-Permᴰ p ∙ sort_keys-Permᴰ q

-- Two lists of the same keys, in any order, are sorted to the same list.
pub sort_keys-Perm : {xs ys : List Bytes} → Perm xs ys → sort_keys xs ≡ sort_keys ys
sort_keys-Perm p = ∥∥₁_elim p (hlevel) sort_keys-Permᴰ

Free-insert_key :
    (sep : ℕ) (k : Bytes) (ks : List Bytes)
    → contains_byte sep k ≡ false
    → Free sep ks
    → Free sep (insert_key k ks)
unfolding insert_key
Free-insert_key sep k [] h f = (h, tt)
Free-insert_key sep k (j ∷ ks) h f = elim (Bool-cases (less k j)) [
  | inl e ↦ rw e (h, f)
  | inr e ↦ rw e (f.0, Free-insert_key sep k ks h f.1)
]

-- Sorting adds no separator.
pub Free-sort_keys : (sep : ℕ) (ks : List Bytes) → Free sep ks → Free sep (sort_keys ks)
unfolding sort_keys
Free-sort_keys sep [] f = tt
Free-sort_keys sep (k ∷ ks) f = Free-insert_key sep k (sort_keys ks) f.0 (Free-sort_keys sep ks f.1)

length-insert_key : (k : Bytes) (ks : List Bytes) → length (insert_key k ks) ≡ suc (length ks)
unfolding insert_key
length-insert_key k [] = refl
length-insert_key k (j ∷ ks) = ground (arith, length-insert_key k ks)

-- Sorting keeps every key.
pub length-sort_keys : (ks : List Bytes) → length (sort_keys ks) ≡ length ks
unfolding sort_keys
length-sort_keys [] = refl
length-sort_keys (k ∷ ks) = ground (arith, length-insert_key k (sort_keys ks), length-sort_keys ks)
