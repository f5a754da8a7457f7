-- ===== src/Common/Text.antt =====
-- Go strings: sequences of bytes, and the functions of package strings that compare and cut them.
use Prim.Native.Nat.{ℕ}
use Prim.Native.Char.{code}
use Prim.Native.String.{String}
use mathlib.Core.Path.{◌≡◌, refl}
use mathlib.Core.Logic.{◌↔◌, ◌≢◌}
use mathlib.Core.Bool.{Bool, true, false, ◌&&◌, ◌||◌}
use mathlib.Core.Option.{Option, none, some}
use mathlib.Core.List.{List, [], ◌∷◌, ◌++◌}
use native.Mathlib.Omega.{arith}
use go_zendure2mqtt.Common.Tests.{◌==◌, ltb, if◌then◌else◌}

abbrev pub Bytes : Type 0
Bytes = List ℕ

-- The bytes of a literal, all of whose characters are ASCII.
abbrev pub str : String → Bytes
str String.[] = []
str (String.◌∷◌ c s) = code c ∷ str s

unfoldable pub beq : Bytes → Bytes → Bool
beq [] [] = true
beq (a ∷ s) (b ∷ t) = (a == b) && beq s t
beq _ _ = false

pub beq_iff : (s t : Bytes) → (beq s t ≡ true) ↔ (s ≡ t)
unfolding beq
beq_iff [] [] = (λ _. refl, λ _. refl)
beq_iff [] (b ∷ t) = (λ h. cc, λ h. cc)
beq_iff (a ∷ s) [] = (λ h. cc, λ h. cc)
beq_iff (a ∷ s) (b ∷ t) =
    (λ h. ground (arith, (beq_iff s t).0), λ h. ground (arith, (beq_iff s t).1))

pub beq_refl : (s : Bytes) → beq s s ≡ true
beq_refl s = (beq_iff s s).1 refl

pub beq_ne : (s t : Bytes) → s ≢ t → beq s t ≡ false
beq_ne s t h = ground (arith, beq_iff s t)

-- strings.HasPrefix
unfoldable pub has_prefix : Bytes → Bytes → Bool
has_prefix s [] = true
has_prefix [] (p ∷ ps) = false
has_prefix (c ∷ s) (p ∷ ps) = (c == p) && has_prefix s ps

-- strings.CutPrefix
unfoldable pub cut_prefix : Bytes → Bytes → Option Bytes
cut_prefix s [] = some s
cut_prefix [] (p ∷ ps) = none
cut_prefix (c ∷ s) (p ∷ ps) = if c == p then cut_prefix s ps else none

pub cut_prefix_inv : (s p r : Bytes) → cut_prefix s p ≡ some r → s ≡ p ++ r
unfolding cut_prefix
cut_prefix_inv s [] r h = ground arith
cut_prefix_inv [] (p ∷ ps) r h = cc
cut_prefix_inv (c ∷ s) (p ∷ ps) r h = ground (arith, cut_prefix_inv s ps r (ground arith))

pub cut_prefix-append : (p s : Bytes) → cut_prefix (p ++ s) p ≡ some s
unfolding cut_prefix
cut_prefix-append [] s = refl
cut_prefix-append (c ∷ p) s = ground (arith, cut_prefix-append p s)

pub has_prefix-append : (p s : Bytes) → has_prefix (p ++ s) p ≡ true
unfolding has_prefix
has_prefix-append [] s = refl
has_prefix-append (c ∷ p) s = ground (arith, has_prefix-append p s)

-- A prefix that is found is there.
pub has_prefix_inv : (s p : Bytes) → has_prefix s p ≡ true → (r : Bytes) × (s ≡ p ++ r)
unfolding has_prefix
has_prefix_inv s [] h = (s, refl)
has_prefix_inv [] (p ∷ ps) h = cc
has_prefix_inv (c ∷ s) (p ∷ ps) h =
    let ih = has_prefix_inv s ps (ground arith) in (ih.0, ground (arith, ih.1))

-- strings.Split at one byte: the part up to the first separator, and the parts behind it.
unfoldable pub split_at : ℕ → Bytes → Bytes × List Bytes
split_at sep [] = ([], [])
split_at sep (c ∷ s) =
    let (part, rest) = split_at sep s in if c == sep then ([], part ∷ rest) else (c ∷ part, rest)

unfoldable pub split_levels : ℕ → Bytes → List Bytes
unfolding split_at
split_levels sep s = let (part, rest) = split_at sep s in part ∷ rest

unfoldable pub contains_byte : ℕ → Bytes → Bool
contains_byte b [] = false
contains_byte b (c ∷ s) = (c == b) || contains_byte b s

-- strings.Cut at one byte
unfoldable pub cut : ℕ → Bytes → Option (Bytes × Bytes)
cut sep [] = none
cut sep (c ∷ s) =
    let rest = cut sep s in
    if c == sep then some ([], s) else elim rest [ none ↦ none | some (a, b) ↦ some (c ∷ a, b) ]

pub cut-append :
    (sep : ℕ) (a b : Bytes) → contains_byte sep a ≡ false → cut sep (a ++ sep ∷ b) ≡ some (a, b)
unfolding cut contains_byte
cut-append sep [] b h = ground arith
cut-append sep (c ∷ a) b h = rw (cut-append sep a b (ground arith)) (ground arith)

-- strings.Join at one byte
unfoldable pub join : ℕ → List Bytes → Bytes
join sep [] = []
join sep (p ∷ []) = p
join sep (p ∷ q ∷ ps) = p ++ sep ∷ join sep (q ∷ ps)

-- no part holds the separator
abbrev pub Free : ℕ → List Bytes → Type 0
Free sep [] = Unit
Free sep (p ∷ ps) = (contains_byte sep p ≡ false) × Free sep ps

split_at-free : (sep : ℕ) (p : Bytes) → contains_byte sep p ≡ false → split_at sep p ≡ (p, [])
unfolding split_at contains_byte
split_at-free sep [] h = refl
split_at-free sep (c ∷ p) h = rw (split_at-free sep p (ground arith)) (ground arith)

split_at-append :
    (sep : ℕ) (p s : Bytes)
    → contains_byte sep p ≡ false
    → split_at sep (p ++ sep ∷ s) ≡ (p, split_levels sep s)
unfolding split_at split_levels contains_byte
split_at-append sep [] s h = ground arith
split_at-append sep (c ∷ p) s h = rw (split_at-append sep p s (ground arith)) (ground arith)

-- What is joined at a separator that no part holds is split into the same parts.
pub split_levels-join :
    (sep : ℕ) (p : Bytes) (ps : List Bytes)
    → Free sep (p ∷ ps)
    → split_levels sep (join sep (p ∷ ps)) ≡ p ∷ ps
unfolding split_levels join
split_levels-join sep p [] h = rw (split_at-free sep p h.0) refl
split_levels-join sep p (q ∷ ps) h =
    rw (split_at-append sep p (join sep (q ∷ ps)) h.0, split_levels-join sep q ps h.1) refl

-- The order of Go strings, byte by byte.
unfoldable pub less : Bytes → Bytes → Bool
less s [] = false
less [] (b ∷ t) = true
less (a ∷ s) (b ∷ t) = ltb a b || ((a == b) && less s t)
