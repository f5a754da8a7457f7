-- ===== src/Hass/Tokens.antt =====
-- The shape of the object ids of internal/hass/discovery.go.
use go_zendure2mqtt.Common.{
  Bytes, beq, to_lower, split_at, split_levels, split_levels-join, join, Free, contains_byte,
  Option, none, some, Bool, true, false, not, List, [], ◌∷◌, ◌++◌, ◌||◌, ◌&&◌, ◌==◌, ◌≡◌, refl,
  arith, ℕ, inl, inr, ◌⊎◌,
}
use go_zendure2mqtt.Hass.Names.{
  is_word, slug, slugify, collapse, collapse_tokens, transliterate, entity_object_id,
}

all_bytes : (ℕ → Bool) → Bytes → Bool
all_bytes p [] = true
all_bytes p (c ∷ s) = p c && all_bytes p s

word_or_sep : ℕ → Bool
word_or_sep c = is_word c || (c == b'_')

word_token : Bytes → Bool
unfolding all_bytes
word_token s = all_bytes is_word s

-- words, each behind a different one
unfoldable pub are_tokens : Option Bytes → List Bytes → Bool
unfolding word_token
are_tokens last [] = true
are_tokens none (p ∷ ps) = (not (beq p []) && word_token p) && are_tokens (some p) ps
are_tokens (some l) (p ∷ ps) =
    (not (beq p []) && (not (beq l p) && word_token p)) && are_tokens (some p) ps

all_bytes-weaken : (s : Bytes) → all_bytes is_word s ≡ true → all_bytes word_or_sep s ≡ true
unfolding all_bytes word_or_sep
all_bytes-weaken [] h = refl
all_bytes-weaken (c ∷ s) h = ground (arith, all_bytes-weaken s)

all_bytes-slug :
    (pending started : Bool) (s : Bytes) → all_bytes word_or_sep (slug pending started s) ≡ true
unfolding slug all_bytes word_or_sep
all_bytes-slug pending started [] = refl
all_bytes-slug pending started (c ∷ s) =
    ground (arith, all_bytes-slug false true s, all_bytes-slug true started s)

all_tokens : List Bytes → Bool
unfolding word_token
all_tokens [] = true
all_tokens (p ∷ ps) = word_token p && all_tokens ps

-- The parts between underscores of a text of words and underscores are words.
all_tokens-split_at :
    (s : Bytes)
    → all_bytes word_or_sep s ≡ true
    → (all_bytes is_word (split_at b'_' s).0 ≡ true) × (all_tokens (split_at b'_' s).1 ≡ true)
unfolding split_at all_bytes word_or_sep all_tokens
all_tokens-split_at [] h = (refl, refl)
all_tokens-split_at (c ∷ s) h =
    let ih = all_tokens-split_at s (ground arith) in
    (ground (arith, ih.0), ground (arith, ih.0, ih.1))

are_tokens-collapse :
    (last : Option Bytes) (ps : List Bytes)
    → all_tokens ps ≡ true
    → are_tokens last (collapse last ps) ≡ true
unfolding collapse are_tokens all_tokens
are_tokens-collapse none [] h = refl
are_tokens-collapse (some l) [] h = refl
are_tokens-collapse none (p ∷ ps) h =
    ground (arith, are_tokens-collapse none ps, are_tokens-collapse (some p) ps)
are_tokens-collapse (some l) (p ∷ ps) h =
    ground (arith, are_tokens-collapse (some l) ps, are_tokens-collapse (some p) ps)

word_free : (p : Bytes) → all_bytes is_word p ≡ true → contains_byte b'_' p ≡ false
unfolding all_bytes is_word contains_byte
word_free [] h = refl
word_free (c ∷ p) h = ground (arith, word_free p)

Free-tokens : (ps : List Bytes) → all_tokens ps ≡ true → Free b'_' ps
unfolding all_tokens word_token
Free-tokens [] h = tt
Free-tokens (p ∷ ps) h = (word_free p (ground arith), Free-tokens ps (ground arith))

all_tokens-are :
    (last : Option Bytes) (ps : List Bytes) → are_tokens last ps ≡ true → all_tokens ps ≡ true
unfolding are_tokens all_tokens
all_tokens-are last [] h = refl
all_tokens-are none (p ∷ ps) h = ground (arith, all_tokens-are (some p) ps)
all_tokens-are (some l) (p ∷ ps) h = ground (arith, all_tokens-are (some p) ps)

split_levels-tokens :
    (ps : List Bytes)
    → are_tokens none ps ≡ true
    → (join b'_' ps ≡ []) ⊎ (are_tokens none (split_levels b'_' (join b'_' ps)) ≡ true)
unfolding join
split_levels-tokens [] h = inl refl
split_levels-tokens (p ∷ ps) h =
    inr (rw (split_levels-join b'_' p ps (Free-tokens (p ∷ ps) (all_tokens-are none (p ∷ ps) h))) h)

-- An entity object id is empty, or the parts between its underscores are not empty, hold ASCII small
-- letters and digits alone, and are each different from the part before it.
pub entity_object_id-are_tokens :
    (name topic : Bytes)
    → (entity_object_id name topic ≡ [])
      ⊎ (are_tokens none (split_levels b'_' (entity_object_id name topic)) ≡ true)
unfolding entity_object_id collapse_tokens slugify split_levels all_tokens word_token
entity_object_id-are_tokens name topic =
    let s = transliterate (to_lower (name ++ b'_' ∷ topic)) in
    let parts = all_tokens-split_at (slug false false s) (all_bytes-slug false false s) in
    split_levels-tokens (collapse none (split_levels b'_' (slug false false s))) (
      are_tokens-collapse none (split_levels b'_' (slug false false s))
        (ground (arith, parts.0, parts.1)))
