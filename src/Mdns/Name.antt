-- ===== src/Mdns/Name.antt =====
-- parseName, parseTXT, firstLabel, appendName and buildQuery of internal/discovery/mdns.go.
use go_zendure2mqtt.Common.{
  ℕ, zero, suc, ◌+◌, ◌*◌, ◌/◌, ◌%◌, Bytes, Option, none, some, List, [], ◌∷◌, ◌++◌, ltb, leb, ◌==◌,
  if◌then◌else◌, length, get_elem?, take, drop, split_levels,
}

pub data NameError : Type 0 where
  out_of_bounds truncated_pointer pointer_loop non_backward label_out_of_bounds : NameError

-- The name and the offset behind it, or an error.
pub data NameResult : Type 0 where
  parsed : Bytes → ℕ → NameResult
  failed : NameError → NameResult

-- strings.Join
unfoldable pub join_labels : ℕ → List Bytes → Bytes
join_labels sep [] = []
join_labels sep (p ∷ []) = p
join_labels sep (p ∷ q ∷ ps) = p ++ sep ∷ join_labels sep (q ∷ ps)

abbrev pub next_or : Option ℕ → ℕ → ℕ
next_or none n = n
next_or (some m) n = m

-- The loop of parseName, on fuel: `none` means that the fuel ran out. `next` is `none` where the
-- source has -1. On a byte, `b&0xC0 == 0xC0` says 0xC0 ≤ b, and `b&0x3F` is the rest by 64.
unfoldable pub name_loop : ℕ → Bytes → ℕ → Option ℕ → List Bytes → ℕ → Option NameResult
unfolding join_labels
name_loop zero msg pos next parts hops = none
name_loop (suc fuel) msg pos next parts hops = elim (get_elem? msg pos) [
  | none ↦ some (failed out_of_bounds)
  | some b ↦
      let label =
        name_loop fuel msg (pos + 1 + b) next (parts ++ take b (drop (pos + 1) msg) ∷ []) hops in
      if b == 0
      then some (parsed (join_labels b'.' parts ++ b'.' ∷ []) (next_or next (pos + 1)))
      else if leb 0xc0 b
      then (elim (get_elem? msg (pos + 1)) [
        | none ↦ some (failed truncated_pointer)
        | some low ↦
            let ptr : ℕ = b % 64 * 256 + low in
            let jump = name_loop fuel msg ptr (some (next_or next (pos + 2))) parts (hops + 1) in
            if ltb (length msg) (hops + 1)
            then some (failed pointer_loop)
            else if leb pos ptr
            then some (failed non_backward)
            else jump
      ])
      else if ltb (length msg) (pos + 1 + b)
      then some (failed label_out_of_bounds)
      else label
]

-- Enough for a message of n bytes: at most n jumps, and at most n labels from each position.
unfoldable pub name_fuel : ℕ → ℕ
name_fuel n = suc ((n + 1) * (n + 1) + n)

unfoldable pub parse_name : Bytes → ℕ → Option NameResult
unfolding name_loop name_fuel
parse_name msg off = name_loop (name_fuel (length msg)) msg off none [] 0

-- the loop of parseTXT; each round takes a byte at least, so the length is fuel enough
unfoldable pub txt_loop : ℕ → Bytes → List Bytes
txt_loop zero s = []
txt_loop (suc fuel) [] = []
txt_loop (suc fuel) (l ∷ s) =
    let rest = txt_loop fuel (drop l s) in
    if ltb (length s) l then [] else if l == 0 then rest else take l s ∷ rest

unfoldable pub parse_txt : Bytes → List Bytes
unfolding txt_loop
parse_txt rdata = txt_loop (length rdata) rdata

unfoldable pub first_label : Bytes → Bytes
first_label [] = []
first_label (c ∷ s) = if c == b'.' then [] else c ∷ first_label s

-- the labels of a name as the wire carries them, the final 0 included
unfoldable pub encode_labels : List Bytes → Bytes
encode_labels [] = 0 ∷ []
encode_labels ([] ∷ ls) = encode_labels ls
encode_labels ((c ∷ s) ∷ ls) =
    let label = if ltb 63 (length (c ∷ s)) then take 63 (c ∷ s) else c ∷ s in
    length label ∷ (label ++ encode_labels ls)

-- strings.TrimSuffix(name, ".")
unfoldable pub trim_dot : Bytes → Bytes
trim_dot [] = []
trim_dot (c ∷ []) = if c == b'.' then [] else c ∷ []
trim_dot (c ∷ d ∷ s) = c ∷ trim_dot (d ∷ s)

unfoldable pub append_name : Bytes → Bytes → Bytes
unfolding encode_labels trim_dot
append_name b name = b ++ encode_labels (split_levels b'.' (trim_dot name))

-- binary.BigEndian.AppendUint16
unfoldable pub append_u16 : Bytes → ℕ → Bytes
append_u16 b n = b ++ (n / 256 % 256) ∷ (n % 256) ∷ []

abbrev pub type_a : ℕ
type_a = 1

abbrev pub type_ptr : ℕ
type_ptr = 12

abbrev pub type_txt : ℕ
type_txt = 16

abbrev pub type_srv : ℕ
type_srv = 33

abbrev pub qclass_qu : ℕ
qclass_qu = 0x8001

abbrev pub query_header : Bytes
query_header =
    append_u16 (append_u16 (append_u16 (append_u16 (append_u16 (append_u16 [] 0) 0) 1) 0) 0) 0

unfoldable pub build_query : Bytes → Bytes
unfolding append_name append_u16
build_query name = append_u16 (append_u16 (append_name query_header name) type_ptr) qclass_qu
