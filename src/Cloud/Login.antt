-- ===== src/Cloud/Login.antt =====
-- internal/zendure/cloud/login.go: the token, the broker's address, the signature and the answer to a
-- login. `digest` is SHA-1 in upper hexadecimal digits; the HTTP client's answer is an argument.
use go_zendure2mqtt.Common.{
  cut, ℕ, ◌^◌, Bytes, str, beq, lookup, Map, keys, sort_keys, Option, none, some, List, [], ◌∷◌,
  ◌++◌, ◌||◌, ◌&&◌, ◌==◌, ltb, if◌then◌else◌, ℤ, pos, eqb_ℤ, atoi, trim_space, length,
}
use go_zendure2mqtt.Cloud.Base64.{decode_base64}

-- strings.CutLast at one byte
unfoldable pub cut_last : ℕ → Bytes → Option (Bytes × Bytes)
cut_last sep [] = none
cut_last sep (c ∷ s) =
    let rest = cut_last sep s in
    elim rest [ some (a, b) ↦ some (c ∷ a, b) | none ↦ if c == sep then some ([], s) else none ]

pub record Creds : Type 0 where
  pub client_id : Bytes
  pub url : Bytes
  pub username : Bytes
  pub password : Bytes

abbrev pub default_port : ℤ
default_port = pos 8883

-- HostPort
unfoldable pub host_port : Creds → Bytes × ℤ
unfolding cut
host_port m = elim (cut b':' m.url) [
  | none ↦ (m.url, default_port)
  | some (h, port) ↦ elim (atoi port) [ none ↦ (h, default_port) | some p ↦ (h, p) ]
]

-- one entry of deviceList
pub record LoginDevice : Type 0 where
  pub device_key : Bytes
  pub device_name : Bytes
  pub sn_number : Bytes
  pub product_key : Bytes
  pub product_model : Bytes
  pub ip : Bytes

pub record LoginResult : Type 0 where
  pub mqtt : Creds
  pub device_list : List LoginDevice

-- the decoded envelope
pub record Envelope : Type 0 where
  pub code : ℤ
  pub msg : Bytes
  pub result : LoginResult

-- how a login fails
pub data LoginError : Type 0 where
  not_base64 not_a_token no_answer too_long no_json : LoginError
  refused_login : ℤ → Bytes → LoginError

pub data Result (A : Type 0) : Type 0 where
  ok : A → Result A
  err : LoginError → Result A

-- the decoded text of a token
unfoldable pub split_token : Bytes → Result (Bytes × Bytes)
unfolding cut_last
split_token decoded = elim (cut_last b'.' decoded) [
  | none ↦ err not_a_token
  | some (before, after) ↦
      if beq before [] || beq after [] then err not_a_token else ok (before, after)
]

-- DecodeToken
unfoldable pub decode_token : Bytes → Result (Bytes × Bytes)
unfolding split_token
decode_token token = elim (decode_base64 (trim_space token)) [
  | none ↦ err not_base64
  | some raw ↦ split_token (trim_space raw)
]

abbrev pub ha_key : Bytes
ha_key = str "C*dafwArEOXK"

abbrev pub value_at : Map Bytes → Bytes → Bytes
value_at params k = elim (lookup k params) [ none ↦ [] | some v ↦ v ]

unfoldable pub sign_pairs : Map Bytes → List Bytes → Bytes
sign_pairs params [] = []
sign_pairs params (k ∷ ks) = k ++ (value_at params k ++ sign_pairs params ks)

-- sign
unfoldable pub sign : (Bytes → Bytes) → Map Bytes → Bytes
unfolding sign_pairs
sign digest params = digest (ha_key ++ (sign_pairs params (sort_keys (keys params)) ++ ha_key))

-- the headers that Login signs
unfoldable pub login_signature : (Bytes → Bytes) → Bytes → Bytes → Bytes → Bytes
unfolding sign
login_signature digest app_key timestamp nonce =
    sign digest ((str "appKey", app_key) ∷ (str "timestamp", timestamp) ∷ (str "nonce", nonce) ∷ [])

abbrev pub max_login_body : ℕ
max_login_body = 2 ^ 20

-- strings.TrimRight(s, "/")
unfoldable pub trim_slashes : Bytes → Bytes
trim_slashes [] = []
trim_slashes (c ∷ s) =
    let rest = trim_slashes s in if beq rest [] && (c == b'/') then [] else c ∷ rest

unfoldable pub login_url : Bytes → Bytes
unfolding trim_slashes
login_url api_url = trim_slashes api_url ++ str "/api/ha/deviceList"

-- What Login makes of an answer: `body` is what the client read, `none` for its errors, and `parse`
-- is json.Unmarshal into the envelope.
unfoldable pub login_answer : (Bytes → Option Envelope) → Option Bytes → Result LoginResult
login_answer parse none = err no_answer
login_answer parse (some body) =
    if ltb max_login_body (length body) then err too_long else elim (parse body) [
      | none ↦ err no_json
      | some e ↦ if eqb_ℤ e.code (pos 200) then ok e.result else err (refused_login e.code e.msg)
    ]
