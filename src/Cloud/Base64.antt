-- ===== src/Cloud/Base64.antt =====
-- base64.StdEncoding.DecodeString of the Go library, which DecodeToken of
-- internal/zendure/cloud/login.go calls: line ends are skipped, the padding is asked for.
use go_zendure2mqtt.Common.{
  ℕ, ◌+◌, ◌-◌, ◌*◌, ◌/◌, ◌%◌, Bytes, Option, none, some, [], ◌∷◌, ◌++◌, ◌||◌, ◌&&◌, leb, ◌==◌,
  if◌then◌else◌,
}

infixl 5 ◌>>=◌
abbrev ◌>>=◌ : {A B : Type 0} → Option A → (A → Option B) → Option B
none >>= f = none
some a >>= f = f a

-- the value of a character of the alphabet
unfoldable pub sextet : ℕ → Option ℕ
sextet c =
    if leb b'A' c && leb c b'Z'
    then some (c - b'A')
    else if leb b'a' c && leb c b'z'
    then some (c - b'a' + 26)
    else if leb b'0' c && leb c b'9'
    then some (c - b'0' + 52)
    else if c == b'+'
    then some 62
    else if c == b'/'
    then some 63
    else none

unfoldable pub skip_line_ends : Bytes → Bytes
skip_line_ends [] = []
skip_line_ends (c ∷ s) =
    let rest = skip_line_ends s in if (c == 10) || (c == 13) then rest else c ∷ rest

-- the bytes of two, three and four characters
unfoldable pub one_byte : ℕ → ℕ → Option Bytes
unfolding sextet
one_byte a b = do x ← sextet a; y ← sextet b; some ((x * 4 + y / 16) ∷ [])

unfoldable pub two_bytes : ℕ → ℕ → ℕ → Option Bytes
unfolding sextet
two_bytes a b c = do
  x ← sextet a
  y ← sextet b
  z ← sextet c
  some ((x * 4 + y / 16) ∷ (y % 16 * 16 + z / 4) ∷ [])

unfoldable pub three_bytes : ℕ → ℕ → ℕ → ℕ → Option Bytes
unfolding sextet
three_bytes a b c d = do
  x ← sextet a
  y ← sextet b
  z ← sextet c
  w ← sextet d
  some ((x * 4 + y / 16) ∷ (y % 16 * 16 + z / 4) ∷ (z % 4 * 64 + w) ∷ [])

-- The last four characters may end in the padding.
unfoldable pub decode_last : ℕ → ℕ → ℕ → ℕ → Option Bytes
unfolding one_byte two_bytes three_bytes
decode_last a b c d =
    if (c == b'=') && (d == b'=')
    then one_byte a b
    else if d == b'='
    then two_bytes a b c
    else three_bytes a b c d

unfoldable pub decode_quads : Bytes → Option Bytes
unfolding decode_last three_bytes
decode_quads [] = some []
decode_quads (a ∷ b ∷ c ∷ d ∷ []) = decode_last a b c d
decode_quads (a ∷ b ∷ c ∷ d ∷ e ∷ s) =
    let rest = decode_quads (e ∷ s) in
    do front ← three_bytes a b c d; back ← rest; some (front ++ back)
decode_quads _ = none

unfoldable pub decode_base64 : Bytes → Option Bytes
unfolding decode_quads skip_line_ends
decode_base64 s = decode_quads (skip_line_ends s)
