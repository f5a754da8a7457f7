-- ===== src/Common/Utf8.antt =====
-- The runes of a text, as Go's `range` reads them, and package unicode/utf8.
use Prim.Native.Nat.{ℕ, zero, suc, ◌+◌, ◌*◌, ◌/◌, ◌%◌, ◌≤◌, ◌<◌}
use mathlib.Core.Path.{◌≡◌, refl}
use mathlib.Core.Logic.{◌⊎◌, inl, inr}
use mathlib.Core.Bool.{Bool, true, ◌&&◌, ◌||◌}
use mathlib.Core.Option.{Option, none, some}
use mathlib.Core.List.{List, [], ◌∷◌, ◌++◌}
use native.Mathlib.Omega.{arith}
use go_zendure2mqtt.Common.Tests.{ltb, leb, ◌==◌, if◌then◌else◌, is_some, Bool-cases}
use go_zendure2mqtt.Common.Lists.{All}
use go_zendure2mqtt.Common.Text.{Bytes}

between : ℕ → ℕ → ℕ → Bool
between lo hi b = leb lo b && leb b hi

-- 0 stands for a byte behind the end, which continues nothing.
abbrev byte_at : Bytes → ℕ → ℕ
byte_at [] i = 0
byte_at (c ∷ s) zero = c
byte_at (c ∷ s) (suc i) = byte_at s i

-- whether a lead byte and the next one start a rune of three bytes
starts₃ : ℕ → ℕ → Bool
unfolding between
starts₃ a b =
    (a == 0xe0) && between 0xa0 0xbf b
    || ((between 0xe1 0xec a || between 0xee 0xef a) && between 0x80 0xbf b
        || (a == 0xed) && between 0x80 0x9f b)

starts₄ : ℕ → ℕ → Bool
unfolding between
starts₄ a b =
    (a == 0xf0) && between 0x90 0xbf b
    || (between 0xf1 0xf3 a && between 0x80 0xbf b || (a == 0xf4) && between 0x80 0x8f b)

-- The rune at the start of a text, `none` for a byte that starts no rune, and how many bytes more
-- than one it takes.
decode_rune : ℕ → Bytes → Option ℕ × ℕ
decode_rune a s =
    let b = byte_at s 0 in
    let c = byte_at s 1 in
    let d = byte_at s 2 in
    if ltb a 0x80
    then (some a, 0)
    else if between 0xc2 0xdf a && between 0x80 0xbf b
    then (some (a % 32 * 64 + b % 64), 1)
    else if starts₃ a b && between 0x80 0xbf c
    then (some (a % 16 * 4096 + b % 64 * 64 + c % 64), 2)
    else if starts₄ a b && (between 0x80 0xbf c && between 0x80 0xbf d)
    then (some (a % 8 * 262144 + b % 64 * 4096 + c % 64 * 64 + d % 64), 3)
    else (none, 0)

-- The first number counts bytes that belong to the rune before.
decode_from : ℕ → Bytes → List (Option ℕ)
decode_from n [] = []
decode_from (suc n) (a ∷ s) = decode_from n s
decode_from zero (a ∷ s) = let (r, more) = decode_rune a s in r ∷ decode_from more s

unfoldable pub decode : Bytes → List (Option ℕ)
unfolding decode_from decode_rune between starts₃ starts₄
decode = decode_from 0

all_some : List (Option ℕ) → Bool
all_some [] = true
all_some (r ∷ rs) = is_some r && all_some rs

-- utf8.ValidString
unfoldable pub valid_string : Bytes → Bool
unfolding all_some
valid_string s = all_some (decode s)

-- strings.Builder.WriteRune of a rune that was decoded
unfoldable pub encode : ℕ → Bytes
encode r =
    if ltb r 0x80
    then r ∷ []
    else if ltb r 0x800
    then (0xc0 + r / 64) ∷ (0x80 + r % 64) ∷ []
    else if ltb r 0x10000
    then (0xe0 + r / 4096) ∷ (0x80 + r / 64 % 64) ∷ (0x80 + r % 64) ∷ []
    else (0xf0 + r / 262144) ∷ (0x80 + r / 4096 % 64) ∷ (0x80 + r / 64 % 64) ∷ (0x80 + r % 64) ∷ []

-- A Unicode scalar value.
abbrev pub IsScalar : ℕ → Type 0
IsScalar r = (r < 0xd800) ⊎ ((0xe000 ≤ r) × (r < 0x110000))

abbrev pub AllScalar : List (Option ℕ) → Type 0
AllScalar [] = Unit
AllScalar (none ∷ rs) = AllScalar rs
AllScalar (some r ∷ rs) = IsScalar r × AllScalar rs

between_inv : (lo hi b : ℕ) → between lo hi b ≡ true → (lo ≤ b) × (b ≤ hi)
unfolding between
between_inv lo hi b h = ground arith

between_intro : (lo hi b : ℕ) → lo ≤ b → b ≤ hi → between lo hi b ≡ true
unfolding between
between_intro lo hi b h k = ground arith

starts₃-IsScalar :
    (a b c : ℕ) → starts₃ a b ≡ true → IsScalar (a % 16 * 4096 + b % 64 * 64 + c % 64)
unfolding starts₃
starts₃-IsScalar a b c h = ground arith

starts₄-IsScalar :
    (a b c d : ℕ)
    → starts₄ a b ≡ true
    → IsScalar (a % 8 * 262144 + b % 64 * 4096 + c % 64 * 64 + d % 64)
unfolding starts₄
starts₄-IsScalar a b c d h = ground arith

decode_rune-IsScalar : (a : ℕ) (s : Bytes) (r : ℕ) → (decode_rune a s).0 ≡ some r → IsScalar r
unfolding decode_rune
decode_rune-IsScalar a s r h = ground (
  arith,
  between_inv 0xc2 0xdf a,
  starts₃-IsScalar a (byte_at s 0) (byte_at s 1),
  starts₄-IsScalar a (byte_at s 0) (byte_at s 1) (byte_at s 2),
)

starts₃_ge : (a b c : ℕ) → starts₃ a b ≡ true → 0x80 ≤ a % 16 * 4096 + b % 64 * 64 + c % 64
unfolding starts₃
starts₃_ge a b c h = ground arith

starts₄_ge :
    (a b c d : ℕ)
    → starts₄ a b ≡ true
    → 0x80 ≤ a % 8 * 262144 + b % 64 * 4096 + c % 64 * 64 + d % 64
unfolding starts₄
starts₄_ge a b c d h = ground arith

starts₃_inv : (a b : ℕ) → starts₃ a b ≡ true → a < 0xf0
unfolding starts₃
starts₃_inv a b h = ground arith

starts₃-encode :
    (r : ℕ)
    → 0x800 ≤ r
    → r < 0x10000
    → IsScalar r
    → starts₃ (0xe0 + r / 4096) (0x80 + r / 64 % 64) ≡ true
unfolding starts₃
starts₃-encode r lo hi s = ground arith

starts₄-encode :
    (r : ℕ) → 0x10000 ≤ r → r < 0x110000 → starts₄ (0xf0 + r / 262144) (0x80 + r / 4096 % 64) ≡ true
unfolding starts₄
starts₄-encode r lo hi = ground arith

decode_from-encode₁ :
    (r : ℕ) (rest : Bytes) → r < 0x80 → decode_from 0 (r ∷ rest) ≡ some r ∷ decode_from 0 rest
unfolding decode_from decode_rune
decode_from-encode₁ r rest h = ground arith

decode_from-encode₂ :
    (r : ℕ) (rest : Bytes)
    → 0x80 ≤ r
    → r < 0x800
    → decode_from 0 ((0xc0 + r / 64) ∷ (0x80 + r % 64) ∷ rest) ≡ some r ∷ decode_from 0 rest
unfolding decode_from decode_rune
decode_from-encode₂ r rest lo hi =
    ground (arith, between_intro 0xc2 0xdf (0xc0 + r / 64), between_intro 0x80 0xbf (0x80 + r % 64))

decode_from-encode₃ :
    (r : ℕ) (rest : Bytes)
    → 0x800 ≤ r
    → r < 0x10000
    → IsScalar r
    → decode_from 0 ((0xe0 + r / 4096) ∷ (0x80 + r / 64 % 64) ∷ (0x80 + r % 64) ∷ rest)
      ≡ some r ∷ decode_from 0 rest
unfolding decode_from decode_rune
decode_from-encode₃ r rest lo hi s = ground (
  arith,
  between_inv 0xc2 0xdf (0xe0 + r / 4096),
  between_intro 0x80 0xbf (0x80 + r % 64),
  starts₃-encode r lo hi s,
)

decode_from-encode₄ :
    (r : ℕ) (rest : Bytes)
    → 0x10000 ≤ r
    → r < 0x110000
    → decode_from 0 (
        (0xf0 + r / 262144)
        ∷ (0x80 + r / 4096 % 64)
        ∷ (0x80 + r / 64 % 64)
        ∷ (0x80 + r % 64)
        ∷ rest)
      ≡ some r ∷ decode_from 0 rest
unfolding decode_from decode_rune
decode_from-encode₄ r rest lo hi = ground (
  arith,
  between_inv 0xc2 0xdf (0xf0 + r / 262144),
  between_intro 0x80 0xbf (0x80 + r / 64 % 64),
  between_intro 0x80 0xbf (0x80 + r % 64),
  starts₃_inv (0xf0 + r / 262144) (0x80 + r / 4096 % 64),
  starts₄-encode r lo hi,
)

-- A scalar value that is written reads back as one rune, whatever stands behind it.
pub decode-encode :
    (r : ℕ) (rest : Bytes) → IsScalar r → decode (encode r ++ rest) ≡ some r ∷ decode rest
unfolding encode
decode-encode r rest s =
    unfold decode in
    elim (Bool-cases (ltb r 0x80)) [
      | inl e ↦ rw e (decode_from-encode₁ r rest (ground (arith, e)))
      | inr e ↦ elim (Bool-cases (ltb r 0x800)) [
        | inl e₂ ↦ rw (e, e₂) (decode_from-encode₂ r rest (ground (arith, e)) (ground (arith, e₂)))
        | inr e₂ ↦ elim (Bool-cases (ltb r 0x10000)) [
          | inl e₃ ↦
              rw (e, e₂, e₃)
                (decode_from-encode₃ r rest (ground (arith, e₂)) (ground (arith, e₃)) s)
          | inr e₃ ↦
              rw (e, e₂, e₃)
                (decode_from-encode₄ r rest (ground (arith, e₃)) (ground (arith, s, e₃)))
        ]
      ]
    ]

AllScalar-cons :
    (o : Option ℕ) (rs : List (Option ℕ))
    → ((r : ℕ) → o ≡ some r → IsScalar r)
    → AllScalar rs
    → AllScalar (o ∷ rs)
AllScalar-cons none rs h hs = hs
AllScalar-cons (some r) rs h hs = (h r refl, hs)

AllScalar-decode_from : (n : ℕ) (s : Bytes) → AllScalar (decode_from n s)
unfolding decode_from
AllScalar-decode_from n [] = tt
AllScalar-decode_from (suc n) (a ∷ s) = AllScalar-decode_from n s
AllScalar-decode_from zero (a ∷ s) =
    AllScalar-cons (decode_rune a s).0 _ (decode_rune-IsScalar a s)
      (AllScalar-decode_from (decode_rune a s).1 s)

-- Every rune that is read is a scalar value.
pub AllScalar-decode : (s : Bytes) → AllScalar (decode s)
AllScalar-decode s = unfold decode in AllScalar-decode_from 0 s

-- An ASCII rune is its byte: nothing longer decodes to it.
decode_rune_ascii :
    (a : ℕ) (s : Bytes) (r : ℕ)
    → (decode_rune a s).0 ≡ some r
    → r < 0x80
    → (a ≡ r) × ((decode_rune a s).1 ≡ 0)
unfolding decode_rune
decode_rune_ascii a s r h k = ground (
  arith,
  between_inv 0xc2 0xdf a,
  starts₃_ge a (byte_at s 0) (byte_at s 1),
  starts₄_ge a (byte_at s 0) (byte_at s 1) (byte_at s 2),
)

-- Every rune is there and satisfies P.
abbrev pub AllRunes : (ℕ → Type 0) → List (Option ℕ) → Type 0
AllRunes P [] = Unit
AllRunes P (none ∷ rs) = ⊥
AllRunes P (some r ∷ rs) = P r × AllRunes P rs

module _ (P : ℕ → Type 0) (ascii : (k : ℕ) → P k → k < 0x80) where
  first_rune :
      (o : Option ℕ) (rs : List (Option ℕ))
      → AllRunes P (o ∷ rs)
      → (k : ℕ) × (o ≡ some k) × P k × AllRunes P rs
  first_rune none rs h = absurd h
  first_rune (some k) rs h = (k, refl, h.0, h.1)

  bytes_of_runes : (s : Bytes) → AllRunes P (decode_from 0 s) → All P s
  unfolding decode_from
  bytes_of_runes [] h = tt
  bytes_of_runes (a ∷ s) h =
      let (k, e, pk, rest) = first_rune (decode_rune a s).0 (decode_from (decode_rune a s).1 s) h in
      let (same, one) = decode_rune_ascii a s k e (ascii k pk) in
      (rw same pk, bytes_of_runes s (rw one at rest))

  -- If all runes of a text are ASCII, they are its bytes.
  pub AllRunes-bytes : (s : Bytes) → AllRunes P (decode s) → All P s
  AllRunes-bytes s h = bytes_of_runes s (unfold decode in h)

pub decode-ascii : (a : ℕ) (s : Bytes) → a < 0x80 → decode (a ∷ s) ≡ some a ∷ decode s
decode-ascii a s h = unfold decode in decode_from-encode₁ a s h

pub valid_string-encode :
    (r : ℕ) (rest : Bytes) → IsScalar r → valid_string (encode r ++ rest) ≡ valid_string rest
valid_string-encode r rest h = unfold valid_string in rw (decode-encode r rest h)

pub valid_string-ascii : (a : ℕ) (s : Bytes) → a < 0x80 → valid_string (a ∷ s) ≡ valid_string s
valid_string-ascii a s h = unfold valid_string in rw (decode-ascii a s h)

pub decode-ne-nil :
    (a : ℕ) (s : Bytes) → (r : Option ℕ) × (rs : List (Option ℕ)) × (decode (a ∷ s) ≡ r ∷ rs)
decode-ne-nil a s = ((decode_rune a s).0, decode_from (decode_rune a s).1 s, unfold decode in refl)
