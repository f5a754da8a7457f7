-- ===== src/Evcc/Parse.antt =====
-- What parse_mode accepts.
use go_zendure2mqtt.Common.{
  Bytes, str, beq, beq_iff, has_key, ◌≡◌, ◌↔◌, true, some, List, [], ◌∷◌, arith, trim_space,
  to_lower,
}
use go_zendure2mqtt.Evcc.Mode.{Mode, normal, hold, charge, mode_string, parse_mode}

-- evcc's own number of a mode, and its name
abbrev pub tokens : Mode → List Bytes
tokens normal = str "1" ∷ str "normal" ∷ []
tokens hold = str "2" ∷ str "hold" ∷ []
tokens charge = str "3" ∷ str "charge" ∷ []

beq_comm : (s t : Bytes) → beq s t ≡ beq t s
beq_comm s t = ground (arith, beq_iff s t, beq_iff t s)

-- A command names a mode exactly when it is, in any case and between any white space, that mode's
-- number or name.
pub parse_mode_iff :
    (s : Bytes) (m : Mode)
    → (parse_mode s ≡ some m) ↔ (has_key (to_lower (trim_space s)) (tokens m) ≡ true)
unfolding parse_mode mode_string has_key
parse_mode_iff s normal =
    let t = to_lower (trim_space s) in
    ground (arith, beq_comm t (str "1"), beq_comm t (str "normal"))
parse_mode_iff s hold =
    let t = to_lower (trim_space s) in
    ground (
      arith,
      beq_comm t (str "2"),
      beq_comm t (str "hold"),
      beq_iff t (str "2"),
      beq_iff t (str "hold"),
      beq_iff t (str "1"),
      beq_iff t (str "normal"),
    )
parse_mode_iff s charge =
    let t = to_lower (trim_space s) in
    ground (
      arith,
      beq_comm t (str "3"),
      beq_comm t (str "charge"),
      beq_iff t (str "3"),
      beq_iff t (str "charge"),
      beq_iff t (str "1"),
      beq_iff t (str "normal"),
      beq_iff t (str "2"),
      beq_iff t (str "hold"),
    )
