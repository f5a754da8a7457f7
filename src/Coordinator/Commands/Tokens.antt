-- ===== src/Coordinator/Commands/Tokens.antt =====
-- Tokens as payloads: decodeSet of internal/coordinator/coordinator.go against the catalog.
use go_zendure2mqtt.Common.{
  Bytes, ◌<◌, All, fold_ascii, beq, beq_iff, beq_refl, keys, has_key, contains-keys, FloatOps, some,
  true, false, List, [], ◌∷◌, ◌≡◌, ◌||◌, refl, arith, Bool-cases, Option-cases, inl, inr,
}
use go_zendure2mqtt.Catalog.Entry.{
  Entry, token, text_at, equal_fold, insert_code, sort_codes, sorted_codes, codes, first_code,
  code_for_token,
}
use go_zendure2mqtt.Harender.{HaEnum, ha_enum}
use go_zendure2mqtt.Coordinator.Commands.{SetValue, code_value, decode_set}

has_key-insert_code :
    (k c : Bytes) (cs : List Bytes) → has_key k (insert_code c cs) ≡ (beq c k || has_key k cs)
unfolding insert_code has_key
has_key-insert_code k c [] = refl
has_key-insert_code k c (d ∷ ds) = ground (arith, has_key-insert_code k c ds)

has_key-sort_codes : (k : Bytes) (cs : List Bytes) → has_key k (sort_codes cs) ≡ has_key k cs
unfolding sort_codes has_key
has_key-sort_codes k [] = refl
has_key-sort_codes k (c ∷ cs) =
    ground (arith, has_key-insert_code k c (sort_codes cs), has_key-sort_codes k cs)

equal_fold_refl : (s : Bytes) → equal_fold s s ≡ true
unfolding equal_fold
equal_fold_refl s = beq_refl (fold_ascii s)

module _ {F : Type 0} where
  -- The tokens of the entry are ASCII, and no code but this one has the token in any case.
  abbrev pub IsAlone : Entry F → Bytes → Bytes → Type 0
  IsAlone e code t =
      (c : Bytes)
      → has_key c (keys e.value_map) ≡ true
      → All (λ b. b < 128) (text_at e.value_map c)
        × (equal_fold (text_at e.value_map c) t ≡ true → c ≡ code)

  first_code-alone :
      (e : Entry F) (cs : List Bytes) (code t : Bytes)
      → has_key code cs ≡ true
      → equal_fold (text_at e.value_map code) t ≡ true
      → ((c : Bytes) → has_key c cs ≡ true → equal_fold (text_at e.value_map c) t ≡ true → c ≡ code)
      → first_code e cs t ≡ some code
  unfolding first_code has_key
  first_code-alone e [] code t i h alone = cc
  first_code-alone e (c ∷ cs) code t i h alone =
      elim (Bool-cases (equal_fold (text_at e.value_map c) t)) [
        | inl y ↦ ground (arith, y, alone c, beq_refl c)
        | inr n ↦ ground (
          arith,
          n,
          beq_iff c code,
          first_code-alone e cs code t (ground (arith, i, h, n, beq_iff c code)) h
              (λ d j k. alone d (ground (arith, j)) k),
        )
      ]

  -- The token of a code leads back to the code, if the tokens are ASCII and no other code has the same
  -- token in any case.
  pub code_for_token-token :
      (e : Entry F) (code t : Bytes)
      → token e code ≡ some t
      → IsAlone e code t
      → code_for_token e t ≡ some code
  unfolding code_for_token sorted_codes token
  code_for_token-token e code t h alone =
      first_code-alone e (sort_codes (keys e.value_map)) code t
        (ground
          (arith, h, has_key-sort_codes code (keys e.value_map), contains-keys code e.value_map))
        (ground (arith, h, equal_fold_refl t))
        λ c i k. (alone c (ground (arith, i, has_key-sort_codes c (keys e.value_map)))).1 k

  some_enum :
      (e : Entry F) (code t : Bytes) → token e code ≡ some t → (h : HaEnum) × (ha_enum e ≡ some h)
  unfolding ha_enum codes sorted_codes token has_key
  some_enum e code t h = elim (Option-cases (ha_enum e)) [
    | inl n ↦ absurd (
        ground
          (arith, h, n, has_key-sort_codes code (keys e.value_map), contains-keys code e.value_map))
    | inr found ↦ found
  ]

module _ {F : Type 0} ⦃fl : FloatOps F⦄ where
  -- Let the enum of an entry, whose tokens are ASCII, read a payload that is no structured value as one
  -- of its tokens, which no other code has in any case. Then the payload is decoded to the code behind
  -- the token, as an integer where it is one.
  pub decode_set-token :
      (e : Entry F) (v : SetValue) (code t : Bytes)
      → token e code ≡ some t
      → IsAlone e code t
      → v.structured ≡ false
      → ((h : HaEnum) → ha_enum e ≡ some h → v.as_enum h ≡ some t)
      → decode_set e v ≡ some (code_value code)
  unfolding decode_set
  decode_set-token e v code t h alone plain reads =
      let (en, is) = some_enum e code t h in
      ground (arith, plain, is, reads en is, code_for_token-token e code t h alone)
