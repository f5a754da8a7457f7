-- ===== src/Common/Trim.antt =====
-- strings.TrimSpace and strings.ToLower on the bytes of a text.
use Prim.Native.Nat.{ℕ, zero, suc, ◌+◌}
use mathlib.Core.Bool.{Bool, ◌&&◌, ◌||◌}
use mathlib.Core.List.{[], ◌∷◌, reverse}
use go_zendure2mqtt.Common.Tests.{◌==◌, leb, if◌then◌else◌}
use go_zendure2mqtt.Common.Lists.{drop, length}
use go_zendure2mqtt.Common.Text.{Bytes}

-- U+0009 to U+000D and U+0020
ascii_space : ℕ → Bool
ascii_space c = (leb 9 c && leb c 13) || (c == 32)

-- the two-byte white space: U+0085 and U+00A0
wide_space₂ : ℕ → ℕ → Bool
wide_space₂ a b = (a == 0xc2) && ((b == 0x85) || (b == 0xa0))

-- the three-byte white space: U+1680, U+2000 to U+200A, U+2028, U+2029, U+202F, U+205F, U+3000
wide_space₃ : ℕ → ℕ → ℕ → Bool
wide_space₃ a b c =
    ((a == 0xe1) && ((b == 0x9a) && (c == 0x80)))
    || (((a == 0xe2)
          && (((b == 0x80)
                && ((leb 0x80 c && leb c 0x8a) || ((c == 0xa8) || ((c == 0xa9) || (c == 0xaf)))))
              || ((b == 0x81) && (c == 0x9f))))
        || ((a == 0xe3) && ((b == 0x80) && (c == 0x80))))

-- the bytes that a white space at the start of a text takes, 0 where there is none
space_width : Bytes → ℕ
unfolding ascii_space wide_space₂ wide_space₃
space_width [] = 0
space_width (a ∷ []) = if ascii_space a then 1 else 0
space_width (a ∷ b ∷ []) = if ascii_space a then 1 else if wide_space₂ a b then 2 else 0
space_width (a ∷ b ∷ c ∷ s) =
    if ascii_space a then 1 else if wide_space₂ a b then 2 else if wide_space₃ a b c then 3 else 0

-- the same for a reversed text
back_width : Bytes → ℕ
unfolding ascii_space wide_space₂ wide_space₃
back_width [] = 0
back_width (a ∷ []) = if ascii_space a then 1 else 0
back_width (a ∷ b ∷ []) = if ascii_space a then 1 else if wide_space₂ b a then 2 else 0
back_width (a ∷ b ∷ c ∷ s) =
    if ascii_space a then 1 else if wide_space₂ b a then 2 else if wide_space₃ c b a then 3 else 0

-- Each round drops a byte at least, so the length is fuel enough.
strip : (Bytes → ℕ) → ℕ → Bytes → Bytes
strip width zero s = s
strip width (suc f) s = elim (width s) [ zero ↦ s | suc n ↦ strip width f (drop (suc n) s) ]

unfoldable pub trim_space : Bytes → Bytes
unfolding strip space_width back_width
trim_space s =
    let front = strip space_width (length s) s in
    reverse (strip back_width (length front) (reverse front))

lower_byte : ℕ → ℕ
lower_byte c = if leb b'A' c && leb c b'Z' then c + 32 else c

-- ASCII letters, and the two other letters whose lower case is ASCII: U+0130 (i) and U+212A (k).
-- Any other text stays as it is, which no caller can tell: they look for ASCII letters only.
unfoldable pub to_lower : Bytes → Bytes
unfolding lower_byte
to_lower [] = []
to_lower (a ∷ []) = lower_byte a ∷ []
to_lower (a ∷ b ∷ []) =
    if (a == 0xc4) && (b == 0xb0) then b'i' ∷ [] else lower_byte a ∷ lower_byte b ∷ []
to_lower (a ∷ b ∷ c ∷ s) =
    let plain = lower_byte a ∷ to_lower (b ∷ c ∷ s) in
    let dotted = b'i' ∷ to_lower (c ∷ s) in
    let kelvin = b'k' ∷ to_lower s in
    if (a == 0xc4) && (b == 0xb0)
    then dotted
    else if (a == 0xe2) && ((b == 0x84) && (c == 0xaa))
    then kelvin
    else plain

-- The ASCII letters in lower case, every other byte as it is.
unfoldable pub fold_ascii : Bytes → Bytes
unfolding lower_byte
fold_ascii [] = []
fold_ascii (c ∷ s) = lower_byte c ∷ fold_ascii s
