-- ===== src/Process/Segment.antt =====
-- sanitizeSegment, validPackSN and groupOrDefault of internal/process/process.go.
use go_zendure2mqtt.Common.{
  ℕ, Bytes, Bool, true, false, ◌&&◌, ◌||◌, not, List, [], ◌∷◌, ◌++◌, Option, none, some, ltb, leb,
  ◌==◌, if◌then◌else◌, length, contains_byte,
}
use go_zendure2mqtt.Common.Utf8.{decode, encode, valid_string}

abbrev pub max_pack_sn_len : ℕ
max_pack_sn_len = 64

-- strings.ContainsAny(s, "/+#\x00")
unfoldable pub contains_special : Bytes → Bool
contains_special s =
    contains_byte b'/' s || (contains_byte b'+' s || (contains_byte b'#' s || contains_byte 0 s))

-- the runes that the switch replaces; an invalid byte is read as utf8.RuneError
unfoldable pub is_replaced : ℕ → Bool
is_replaced r = (r == b'/') || ((r == b'+') || ((r == b'#') || ((r == 0) || (r == 0xfffd))))

unfoldable pub write_rune : Option ℕ → Bytes
unfolding is_replaced
write_rune none = b'_' ∷ []
write_rune (some r) = if is_replaced r then b'_' ∷ [] else encode r

unfoldable pub write_runes : List (Option ℕ) → Bytes
write_runes [] = []
write_runes (r ∷ rs) = write_rune r ++ write_runes rs

unfoldable pub sanitize_segment : Bytes → Bytes
sanitize_segment [] = b'_' ∷ []
sanitize_segment (c ∷ s) =
    if not (contains_special (c ∷ s)) && valid_string (c ∷ s)
    then c ∷ s
    else write_runes (decode (c ∷ s))

unfoldable pub is_sn_rune : ℕ → Bool
is_sn_rune r =
    leb b'A' r && leb r b'Z'
    || (leb b'a' r && leb r b'z' || (leb b'0' r && leb r b'9' || ((r == b'-') || (r == b'_'))))

unfoldable pub all_sn_runes : List (Option ℕ) → Bool
unfolding is_sn_rune
all_sn_runes [] = true
all_sn_runes (none ∷ rs) = false
all_sn_runes (some r ∷ rs) = is_sn_rune r && all_sn_runes rs

unfoldable pub valid_pack_sn : Bytes → Bool
unfolding all_sn_runes
valid_pack_sn [] = false
valid_pack_sn (c ∷ s) =
    if ltb max_pack_sn_len (length (c ∷ s)) then false else all_sn_runes (decode (c ∷ s))

unfoldable pub group_or_default : Bytes → Bytes → Bytes
group_or_default [] fallback = fallback
group_or_default (c ∷ s) fallback = c ∷ s
