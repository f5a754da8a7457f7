-- ===== src/Mdns/Tests.antt =====
-- The mDNS theorems on concrete messages.
use go_zendure2mqtt.Common.{ℕ, ◌≤◌, ◌<◌, Bytes, some, [], ◌∷◌, ◌≡◌, ◌⊎◌, length}
use go_zendure2mqtt.Mdns.Name.{NameError, parsed, failed, parse_name}
use go_zendure2mqtt.Mdns.NameTotal.{parse_name_ends}

-- `a.b.`, whose second part is a pointer to the first label's end
abbrev message : Bytes
message = 1 ∷ b'b' ∷ 0 ∷ 1 ∷ b'a' ∷ 0xc0 ∷ 0 ∷ []

parse_name_ends_example :
    ((e : NameError) × (parse_name message 3 ≡ some (failed e)))
    ⊎ ((name : Bytes) × (n : ℕ) × (parse_name message 3 ≡ some (parsed name n))
        × (3 < n)
        × (n ≤ length message))
parse_name_ends_example = parse_name_ends message 3
