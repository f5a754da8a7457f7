-- ===== src/Mdns/NameTotal.antt =====
-- How parseName of internal/discovery/mdns.go ends.
use native.Mathlib.Decide.{ℕ_discrete, dec_lt}
use go_zendure2mqtt.Common.{
  ℕ, zero, suc, ◌+◌, ◌-◌, ◌*◌, ◌%◌, ◌≤◌, ◌<◌, Bytes, Option, none, some, Bool, true, false, List,
  [], ◌∷◌, ◌++◌, ltb, leb, if◌then◌else◌, length, get_elem?, take, drop, ◌≡◌, ◌≢◌, refl, arith,
  Option-cases, inl, inr, ◌⊎◌,
}
use go_zendure2mqtt.Mdns.Name.{
  NameResult, NameError, parsed, failed, next_or, join_labels, name_loop, name_fuel, parse_name,
  out_of_bounds, truncated_pointer, pointer_loop, non_backward, label_out_of_bounds,
}

get_elem?-lt : (s : Bytes) (i b : ℕ) → get_elem? s i ≡ some b → i < length s
get_elem?-lt [] i b h = cc
get_elem?-lt (c ∷ s) zero b h = omega arith
get_elem?-lt (c ∷ s) (suc i) b h = omega (arith, get_elem?-lt s i b h)

-- What is left to do: the jumps that may still be made, and the bytes behind the position.
abbrev measure : Bytes → ℕ → ℕ → ℕ
measure msg pos hops = (length msg + 1 - hops) * (length msg + 1) + (length msg - pos)

measure_jump :
    (n pos ptr hops : ℕ)
    → hops < n + 1
    → (n + 1 - (hops + 1)) * (n + 1) + (n - ptr) < (n + 1 - hops) * (n + 1) + (n - pos)
measure_jump n pos ptr hops h =
    let k : ℕ = n - hops in
    let e : n + 1 - hops ≡ suc k = omega arith in
    let f : n + 1 - (hops + 1) ≡ k = omega arith in rw (e, f) (grind arith)

-- The loop ended, and the offset behind a name lies behind `off` and in the message.
abbrev Ends : ℕ → Bytes → Option NameResult → Type 0
Ends off msg none = ⊥
Ends off msg (some (failed e)) = Unit
Ends off msg (some (parsed name n)) = (off < n) × (n ≤ length msg)

-- While no jump was made the position is not before `off`; behind a jump the result is fixed.
abbrev Bounded : ℕ → Bytes → ℕ → Option ℕ → Type 0
Bounded off msg pos none = off ≤ pos
Bounded off msg pos (some n) = (off < n) × (n ≤ length msg)

Ends-zero :
    (off : ℕ) (msg : Bytes) (pos : ℕ) (next : Option ℕ) (name : Bytes)
    → Bounded off msg pos next
    → pos < length msg
    → Ends off msg (some (parsed name (next_or next (pos + 1))))
Ends-zero off msg pos none name h k = omega arith
Ends-zero off msg pos (some n) name h k = h

Bounded-jump :
    (off : ℕ) (msg : Bytes) (pos ptr : ℕ) (next : Option ℕ)
    → Bounded off msg pos next
    → pos + 1 < length msg
    → Bounded off msg ptr (some (next_or next (pos + 2)))
Bounded-jump off msg pos ptr none h k = omega arith
Bounded-jump off msg pos ptr (some n) h k = h

Bounded-label :
    (off : ℕ) (msg : Bytes) (pos k : ℕ) (next : Option ℕ)
    → Bounded off msg pos next
    → pos ≤ k
    → Bounded off msg k next
Bounded-label off msg pos k none h l = omega arith
Bounded-label off msg pos k (some n) h l = h

ended :
    (off : ℕ) (msg : Bytes) (r : Option NameResult)
    → Ends off msg r
    → ((e : NameError) × (r ≡ some (failed e)))
      ⊎ ((name : Bytes) × (n : ℕ) × (r ≡ some (parsed name n)) × (off < n) × (n ≤ length msg))
ended off msg none h = absurd h
ended off msg (some (failed e)) h = inl (e, refl)
ended off msg (some (parsed name n)) h = inr (name, n, refl, h.0, h.1)

enough : (n off : ℕ) → (n + 1 - 0) * (n + 1) + (n - off) < name_fuel n
unfolding name_fuel
enough n off = let e : n + 1 - 0 ≡ n + 1 = omega arith in rw e (omega arith)

-- One round, by what stands at the position.
module _ (fuel : ℕ) (msg : Bytes) (pos : ℕ) (next : Option ℕ) (parts : List Bytes) (hops : ℕ) where
  step_end :
      get_elem? msg pos ≡ none
      → name_loop (suc fuel) msg pos next parts hops ≡ some (failed out_of_bounds)
  unfolding name_loop
  step_end e = ground (arith, e)

  step_zero :
      get_elem? msg pos ≡ some 0
      → name_loop (suc fuel) msg pos next parts hops
        ≡ some (parsed (join_labels b'.' parts ++ b'.' ∷ []) (next_or next (pos + 1)))
  unfolding name_loop
  step_zero e = ground (arith, e)

  -- what a jump does, by the byte behind its first
  abbrev jump_result : ℕ → Option ℕ → Option NameResult
  jump_result b none = some (failed truncated_pointer)
  jump_result b (some low) =
      if ltb (length msg) (hops + 1)
      then some (failed pointer_loop)
      else if leb pos (b % 64 * 256 + low)
      then some (failed non_backward)
      else name_loop fuel msg (b % 64 * 256 + low) (some (next_or next (pos + 2))) parts (hops + 1)

  step_jump :
      (b : ℕ)
      → get_elem? msg pos ≡ some b
      → 0xc0 ≤ b
      → name_loop (suc fuel) msg pos next parts hops ≡ jump_result b (get_elem? msg (pos + 1))
  unfolding name_loop
  step_jump b e h = ground (arith, e)

  step_label :
      (b : ℕ)
      → get_elem? msg pos ≡ some b
      → b ≢ 0
      → b < 0xc0
      → name_loop (suc fuel) msg pos next parts hops ≡ (
          if ltb (length msg) (pos + 1 + b)
          then some (failed label_out_of_bounds)
          else name_loop fuel msg
              (pos + 1 + b)
              next
              (parts ++ take b (drop (pos + 1) msg) ∷ [])
              hops)
  unfolding name_loop
  step_label b e h k = ground (arith, e)

Ends-if :
    (off : ℕ) (msg : Bytes) (t : Bool) (e : NameError) (r : Option NameResult)
    → (t ≡ false → Ends off msg r)
    → Ends off msg (if t then some (failed e) else r)
Ends-if off msg true e r h = tt
Ends-if off msg false e r h = h refl

module _ (off : ℕ) (msg : Bytes) where
  Ends-jump :
      (fuel pos : ℕ) (next : Option ℕ) (parts : List Bytes) (hops b : ℕ) (low : Option ℕ)
      → get_elem? msg (pos + 1) ≡ low
      → Bounded off msg pos next
      → ((ptr : ℕ)
          → hops + 1 ≤ length msg
          → Bounded off msg ptr (some (next_or next (pos + 2)))
          → Ends off msg (name_loop fuel msg ptr (some (next_or next (pos + 2))) parts (hops + 1)))
      → Ends off msg (jump_result fuel msg pos next parts hops b low)
  Ends-jump fuel pos next parts hops b none e k rec = tt
  Ends-jump fuel pos next parts hops b (some low) e k rec =
      let ptr : ℕ = b % 64 * 256 + low in
      let jump = name_loop fuel msg ptr (some (next_or next (pos + 2))) parts (hops + 1) in
      Ends-if off msg (ltb (length msg) (hops + 1)) pointer_loop
        (if leb pos ptr then some (failed non_backward) else jump)
        λ h. Ends-if off msg (leb pos ptr) non_backward jump λ _.
          rec (b % 64 * 256 + low) (ground arith) (
            Bounded-jump off msg pos (b % 64 * 256 + low) next k (get_elem?-lt msg (pos + 1) low e))

  Ends-name_loop :
      (fuel pos : ℕ) (next : Option ℕ) (parts : List Bytes) (hops : ℕ)
      → measure msg pos hops < fuel
      → Bounded off msg pos next
      → Ends off msg (name_loop fuel msg pos next parts hops)
  Ends-name_loop zero pos next parts hops h k = elim h [ ]
  Ends-name_loop (suc fuel) pos next parts hops h k = elim (Option-cases (get_elem? msg pos)) [
    | inl e ↦ rw (step_end fuel msg pos next parts hops e) tt
    | inr (b, e) ↦
        let inside = get_elem?-lt msg pos b e in
        elim (ℕ_discrete b 0) [
          | yes z ↦
              rw (step_zero fuel msg pos next parts hops (ground (arith, e)))
                (Ends-zero off msg pos next (join_labels b'.' parts ++ b'.' ∷ []) k inside)
          | no nz ↦ elim (dec_lt b 0xc0) [
            | yes small ↦ rw (step_label fuel msg pos next parts hops b e nz small) (
                Ends-if off msg (ltb (length msg) (pos + 1 + b)) label_out_of_bounds
                  (name_loop fuel msg (pos + 1 + b) next (parts ++ take b (drop (pos + 1) msg) ∷ [])
                    hops)
                  λ t.
                    Ends-name_loop fuel (pos + 1 + b) next
                      (parts ++ take b (drop (pos + 1) msg) ∷ []) hops (ground arith)
                      (Bounded-label off msg pos (pos + 1 + b) next k (omega arith)))
            | no big ↦ rw (step_jump fuel msg pos next parts hops b e (omega arith)) (
                Ends-jump fuel pos next parts hops b (get_elem? msg (pos + 1)) refl k
                  λ ptr hop bound.
                    Ends-name_loop fuel ptr (some (next_or next (pos + 2))) parts (hops + 1)
                      (omega (arith, measure_jump (length msg) pos ptr hops (omega arith))) bound)
          ]
        ]
  ]

-- Reading a name always ends, whatever the message and the offset, compression loops included: it
-- gives an error, or a name and an offset that lies behind the one it started at and no farther
-- than the end of the message.
pub parse_name_ends :
    (msg : Bytes) (off : ℕ)
    → ((e : NameError) × (parse_name msg off ≡ some (failed e)))
      ⊎ ((name : Bytes) × (n : ℕ) × (parse_name msg off ≡ some (parsed name n))
          × (off < n)
          × (n ≤ length msg))
unfolding parse_name
parse_name_ends msg off = ended off msg _ (
    Ends-name_loop off msg (name_fuel (length msg)) off none [] 0 (enough (length msg) off)
      (omega arith))
