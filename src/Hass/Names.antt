-- ===== src/Hass/Names.antt =====
-- internal/hass/discovery.go: the friendly names and the entity object ids. A text is its bytes: a
-- byte of a rune that is no ASCII letter or digit separates words, as the rune does.
use go_zendure2mqtt.Common.{
  Bytes, str, beq, to_lower, split_levels, join, Option, none, some, Bool, true, false, List, [],
  ◌∷◌, ◌++◌, ◌||◌, ◌&&◌, ◌==◌, leb, if◌then◌else◌, ℕ,
}

-- DeviceName, of the unit's serial, its name and the pack's serial
unfoldable pub device_name : Bytes → Bytes → Bytes → Bytes
device_name sn name pack_sn =
    let base = if beq name [] then str "Zendure " ++ sn else name in
    if beq pack_sn [] then base else base ++ (str " Pack " ++ pack_sn)

-- The second byte of ä, ö, ü and ß, and of the capitals, which strings.ToLower maps to them.
unfoldable pub umlaut : ℕ → Option Bytes
umlaut b =
    if (b == 0xa4) || (b == 0x84)
    then some (str "a")
    else if (b == 0xb6) || (b == 0x96)
    then some (str "o")
    else if (b == 0xbc) || (b == 0x9c)
    then some (str "u")
    else if b == 0x9f
    then some (str "ss")
    else none

-- umlautReplacer, and the rest of strings.ToLower that it can see: the capital umlauts and ẞ
unfoldable pub transliterate : Bytes → Bytes
unfolding umlaut
transliterate [] = []
transliterate (a ∷ []) = a ∷ []
transliterate (a ∷ b ∷ []) =
    if a == 0xc3 then elim (umlaut b) [ none ↦ a ∷ b ∷ [] | some l ↦ l ] else a ∷ b ∷ []
transliterate (a ∷ b ∷ c ∷ s) =
    let plain = a ∷ transliterate (b ∷ c ∷ s) in
    let two = transliterate (c ∷ s) in
    let three = transliterate s in
    if a == 0xc3
    then elim (umlaut b) [ none ↦ plain | some l ↦ l ++ two ]
    else if (a == 0xe1) && ((b == 0xba) && (c == 0x9e))
    then str "ss" ++ three
    else plain

unfoldable pub is_word : ℕ → Bool
is_word c = (leb b'a' c && leb c b'z') || (leb b'0' c && leb c b'9')

-- the loop of slugify: `pending` is pendingSep, `started` whether the builder holds anything
unfoldable pub slug : Bool → Bool → Bytes → Bytes
unfolding is_word
slug pending started [] = []
slug pending started (c ∷ s) =
    let kept = c ∷ slug false true s in
    let skipped = slug true started s in
    if is_word c then if pending && started then b'_' ∷ kept else kept else skipped

unfoldable pub slugify : Bytes → Bytes
unfolding slug transliterate
slugify s = slug false false (transliterate (to_lower s))

-- the loop of collapseTokens: `last` is the last token kept
unfoldable pub collapse : Option Bytes → List Bytes → List Bytes
collapse last [] = []
collapse none (p ∷ ps) =
    let rest = collapse none ps in
    let kept = p ∷ collapse (some p) ps in if beq p [] then rest else kept
collapse (some l) (p ∷ ps) =
    let rest = collapse (some l) ps in
    let kept = p ∷ collapse (some p) ps in if beq p [] || beq l p then rest else kept

unfoldable pub collapse_tokens : Bytes → Bytes
unfolding collapse
collapse_tokens s = join b'_' (collapse none (split_levels b'_' s))

-- EntityObjectID
unfoldable pub entity_object_id : Bytes → Bytes → Bytes
unfolding collapse_tokens slugify
entity_object_id name topic = collapse_tokens (slugify (name ++ b'_' ∷ topic))
