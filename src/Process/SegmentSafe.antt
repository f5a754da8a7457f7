-- ===== src/Process/SegmentSafe.antt =====
-- The segments that a device supplies: sanitizeSegment and validPackSN of internal/process/process.go.
use go_zendure2mqtt.Common.{
  ℕ, Bytes, true, false, ◌&&◌, ◌||◌, not, List, [], ◌∷◌, ◌++◌, Option, none, some, ◌≡◌, ◌≢◌, ◌↔◌,
  ◌≤◌, ◌<◌, refl, ap, ◌∙◌, arith, length, contains_byte, All, ◌==◌, Bool-cases, inl, inr,
}
use go_zendure2mqtt.Common.Utf8.{
  decode, encode, valid_string, AllScalar, AllScalar-decode, valid_string-encode,
  valid_string-ascii, decode-ne-nil, decode-ascii, AllRunes, AllRunes-bytes,
}
use go_zendure2mqtt.Process.Segment.{
  contains_special, is_replaced, write_rune, write_runes, sanitize_segment, is_sn_rune,
  all_sn_runes, valid_pack_sn, max_pack_sn_len,
}

-- A topic level that MQTT accepts: not empty, valid UTF-8, with no level separator, wildcard or NUL.
pub record IsTopicSafe (s : Bytes) : Type 0 where
  pub nonempty : s ≢ []
  pub no_slash : contains_byte b'/' s ≡ false
  pub no_plus : contains_byte b'+' s ≡ false
  pub no_hash : contains_byte b'#' s ≡ false
  pub no_nul : contains_byte 0 s ≡ false
  pub utf8 : valid_string s ≡ true

-- An ASCII byte stands in a written rune only if it is that rune.
contains_byte-encode :
    (b r : ℕ) (rest : Bytes)
    → b < 0x80
    → contains_byte b (encode r ++ rest) ≡ ((r == b) || contains_byte b rest)
unfolding contains_byte encode
contains_byte-encode b r rest h = ground arith

contains_byte-write_runes :
    (b : ℕ) (rs : List (Option ℕ))
    → b < 0x80
    → is_replaced b ≡ true
    → contains_byte b (write_runes rs) ≡ false
unfolding contains_byte write_runes write_rune
contains_byte-write_runes b [] h k = refl
contains_byte-write_runes b (none ∷ rs) h k = ground (arith, contains_byte-write_runes b rs h k)
contains_byte-write_runes b (some r ∷ rs) h k =
    ground (arith, contains_byte-encode b r (write_runes rs) h, contains_byte-write_runes b rs h k)

valid_string-write_runes :
    (rs : List (Option ℕ)) → AllScalar rs → valid_string (write_runes rs) ≡ true
unfolding write_runes write_rune
valid_string-write_runes [] h = unfold valid_string decode in refl
valid_string-write_runes (none ∷ rs) h =
    valid_string-ascii b'_' (write_runes rs) (omega arith) ∙ valid_string-write_runes rs h
valid_string-write_runes (some r ∷ rs) h = elim (Bool-cases (is_replaced r)) [
  | inl e ↦
      rw e
        (valid_string-ascii b'_' (write_runes rs) (omega arith) ∙ valid_string-write_runes rs h.1)
  | inr e ↦ rw e (valid_string-encode r (write_runes rs) h.0 ∙ valid_string-write_runes rs h.1)
]

write_runes-ne-nil : (r : Option ℕ) (rs : List (Option ℕ)) → write_runes (r ∷ rs) ≢ []
unfolding write_runes write_rune encode
write_runes-ne-nil none rs h = cc
write_runes-ne-nil (some r) rs h = ground arith

IsTopicSafe-write_runes :
    (rs : List (Option ℕ)) → AllScalar rs → write_runes rs ≢ [] → IsTopicSafe (write_runes rs)
unfolding is_replaced
IsTopicSafe-write_runes rs h n = record {
  nonempty = n;
  no_slash = contains_byte-write_runes b'/' rs (omega arith) refl;
  no_plus = contains_byte-write_runes b'+' rs (omega arith) refl;
  no_hash = contains_byte-write_runes b'#' rs (omega arith) refl;
  no_nul = contains_byte-write_runes 0 rs (omega arith) refl;
  utf8 = valid_string-write_runes rs h;
}

-- A safe text is left as it is.
pub sanitize_segment-fix : (s : Bytes) → IsTopicSafe s → sanitize_segment s ≡ s
unfolding sanitize_segment contains_special
sanitize_segment-fix [] h = absurd (h.nonempty refl)
sanitize_segment-fix (c ∷ s) h = ground arith

passes : (s : Bytes) → s ≢ [] → (not (contains_special s) && valid_string s) ≡ true → IsTopicSafe s
unfolding contains_special
passes s n t = record {
  nonempty = n;
  no_slash = ground arith;
  no_plus = ground arith;
  no_hash = ground arith;
  no_nul = ground arith;
  utf8 = ground arith;
}

sanitized : (s : Bytes) → IsTopicSafe (sanitize_segment s)
unfolding sanitize_segment
sanitized [] = record {
  nonempty = λ h. cc;
  no_slash = unfold contains_byte in refl;
  no_plus = unfold contains_byte in refl;
  no_hash = unfold contains_byte in refl;
  no_nul = unfold contains_byte in refl;
  utf8 = unfold valid_string decode in refl;
}
sanitized (c ∷ s) =
    let (r, rs, e) = decode-ne-nil c s in
    elim (Bool-cases (not (contains_special (c ∷ s)) && valid_string (c ∷ s))) [
      | inl t ↦ rw t (passes (c ∷ s) (λ h. cc) t)
      | inr f ↦ rw f (
          IsTopicSafe-write_runes (decode (c ∷ s)) (AllScalar-decode (c ∷ s))
            (rw e (write_runes-ne-nil r rs)))
    ]

-- Whatever bytes a device sends, the sanitised text is a safe topic level, and sanitising again
-- changes nothing.
pub sanitize_segment-IsTopicSafe :
    (s : Bytes)
    → IsTopicSafe (sanitize_segment s)
      × (sanitize_segment (sanitize_segment s) ≡ sanitize_segment s)
sanitize_segment-IsTopicSafe s =
    (sanitized s, sanitize_segment-fix (sanitize_segment s) (sanitized s))

-- The characters that a pack serial may hold.
abbrev pub IsSnByte : ℕ → Type 0
IsSnByte c = is_sn_rune c ≡ true

AllRunes-all_sn_runes : (rs : List (Option ℕ)) → all_sn_runes rs ≡ true → AllRunes IsSnByte rs
unfolding all_sn_runes
AllRunes-all_sn_runes [] h = tt
AllRunes-all_sn_runes (none ∷ rs) h = cc
AllRunes-all_sn_runes (some r ∷ rs) h = (ground arith, AllRunes-all_sn_runes rs (ground arith))

IsSnByte-ascii : (c : ℕ) → IsSnByte c → c < 0x80
unfolding is_sn_rune
IsSnByte-ascii c h = ground arith

all_sn_runes-decode : (s : Bytes) → All IsSnByte s → all_sn_runes (decode s) ≡ true
unfolding all_sn_runes
all_sn_runes-decode [] h = unfold decode in refl
all_sn_runes-decode (c ∷ s) h =
    rw (decode-ascii c s (IsSnByte-ascii c h.0)) (ground (arith, h.0, all_sn_runes-decode s h.1))

-- A pack serial is accepted exactly when it has from 1 to 64 bytes, each an ASCII letter, a digit,
-- `-` or `_`.
pub valid_pack_sn_iff :
    (s : Bytes)
    → (valid_pack_sn s ≡ true) ↔ ((0 < length s) × (length s ≤ max_pack_sn_len) × All IsSnByte s)
unfolding valid_pack_sn
valid_pack_sn_iff [] = (λ h. cc, λ h. absurd (omega (arith, h.0)))
valid_pack_sn_iff (c ∷ s) = (
  λ h. (
    omega arith,
    ground arith,
    AllRunes-bytes IsSnByte IsSnByte-ascii (c ∷ s)
        (AllRunes-all_sn_runes (decode (c ∷ s)) (ground arith)),
  ),
  λ h. ground (arith, all_sn_runes-decode (c ∷ s) h.2),
)

contains_byte-All :
    (b : ℕ) (s : Bytes) → is_sn_rune b ≡ false → All IsSnByte s → contains_byte b s ≡ false
unfolding contains_byte
contains_byte-All b [] h k = refl
contains_byte-All b (c ∷ s) h k = ground (arith, k.0, contains_byte-All b s h k.1)

valid_string-All : (s : Bytes) → All IsSnByte s → valid_string s ≡ true
valid_string-All [] h = unfold valid_string decode in refl
valid_string-All (c ∷ s) h = valid_string-ascii c s (IsSnByte-ascii c h.0) ∙ valid_string-All s h.1

-- An accepted pack serial is a safe topic level, which sanitising does not change.
pub valid_pack_sn-IsTopicSafe :
    (s : Bytes) → valid_pack_sn s ≡ true → IsTopicSafe s × (sanitize_segment s ≡ s)
valid_pack_sn-IsTopicSafe s h =
    let (pos_len, _, bytes) = (valid_pack_sn_iff s).0 h in
    let safe : IsTopicSafe s = record {
      nonempty = λ e. absurd (omega (arith, ap length e));
      no_slash = contains_byte-All b'/' s (unfold is_sn_rune in refl) bytes;
      no_plus = contains_byte-All b'+' s (unfold is_sn_rune in refl) bytes;
      no_hash = contains_byte-All b'#' s (unfold is_sn_rune in refl) bytes;
      no_nul = contains_byte-All 0 s (unfold is_sn_rune in refl) bytes;
      utf8 = valid_string-All s bytes;
    } in
    (safe, sanitize_segment-fix s safe)
