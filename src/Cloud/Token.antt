-- ===== src/Cloud/Token.antt =====
-- What DecodeToken of internal/zendure/cloud/login.go takes for a token.
use go_zendure2mqtt.Common.{
  Bytes, beq_iff, contains_byte, none, some, false, [], ◌∷◌, ◌++◌, ◌≡◌, ◌≢◌, refl, arith, ℕ,
  trim_space,
}
use go_zendure2mqtt.Cloud.Base64.{decode_base64}
use go_zendure2mqtt.Cloud.Login.{cut_last, ok, split_token, decode_token}

cut_last-free : (sep : ℕ) (s : Bytes) → contains_byte sep s ≡ false → cut_last sep s ≡ none
unfolding cut_last contains_byte
cut_last-free sep [] h = refl
cut_last-free sep (c ∷ s) h = rw (cut_last-free sep s (ground arith)) (ground arith)

cut_last-append :
    (sep : ℕ) (a b : Bytes)
    → contains_byte sep b ≡ false
    → cut_last sep (a ++ sep ∷ b) ≡ some (a, b)
unfolding cut_last
cut_last-append sep [] b h = rw (cut_last-free sep b h) (ground arith)
cut_last-append sep (c ∷ a) b h = rw (cut_last-append sep a b h) refl

-- A token whose decoded text is an address, a dot and a key, surrounded by any white space that
-- TrimSpace removes, gives back that address, dots of its own included, and the key, when neither is
-- empty and the key holds no dot.
pub decode_token-joined :
    (token raw url key : Bytes)
    → decode_base64 (trim_space token) ≡ some raw
    → trim_space raw ≡ url ++ b'.' ∷ key
    → url ≢ []
    → key ≢ []
    → contains_byte b'.' key ≡ false
    → decode_token token ≡ ok (url, key)
unfolding decode_token split_token
decode_token-joined token raw url key decoded joined hu hk free =
    rw (decode_token, decoded, joined, split_token, cut_last-append b'.' url key free)
      (ground (arith, beq_iff url [], beq_iff key []))
