-- ===== src/Coordinator/Migrate/Layout.antt =====
-- The old layout of a device's topics, said as its comment in internal/coordinator/migrate.go says it.
use go_zendure2mqtt.Common.{
  cut_prefix_inv, cut_prefix-append, ℕ, Bytes, str, beq, beq_iff, has_key, cut_prefix, split_at,
  split_levels, split_levels-join, join, Free, contains_byte, Bool, true, false, List, [], ◌∷◌,
  ◌++◌, ◌==◌, ◌≡◌, ◌≢◌, ◌⊎◌, inl, inr, refl, sym, ap, ◌∙◌, arith, Option-cases, Bool-cases,
}
use go_zendure2mqtt.Coordinator.Migrate.{is_old_suffix, old_levels, device_prefix, old_layout_topic}

-- a level of a topic that is not empty
abbrev pub IsLevel : Bytes → Type 0
IsLevel l = (l ≢ []) × (contains_byte b'/' l ≡ false)

abbrev pub IsSuffix : Bytes → Type 0
IsSuffix s = (s ≡ str "state") ⊎ (s ≡ str "set")

-- <root>/<sn>/<group>/<topic>/state and <root>/<sn>/battery/<packSN>/<topic>/state, and the same with set
pub data IsOldTopic (root sn t : Bytes) : Type 0 where
  unit_item :
      (g leaf suffix : Bytes)
      → IsLevel g
      → IsLevel leaf
      → IsSuffix suffix
      → t ≡ device_prefix root sn ++ join b'/' (g ∷ leaf ∷ suffix ∷ [])
      → IsOldTopic root sn t
  pack_item :
      (pack leaf suffix : Bytes)
      → IsLevel pack
      → IsLevel leaf
      → IsSuffix suffix
      → t ≡ device_prefix root sn ++ join b'/' (str "battery" ∷ pack ∷ leaf ∷ suffix ∷ [])
      → IsOldTopic root sn t

join-cons :
    (sep c : ℕ) (p : Bytes) (ps : List Bytes) → join sep ((c ∷ p) ∷ ps) ≡ c ∷ join sep (p ∷ ps)
unfolding join
join-cons sep c p [] = refl
join-cons sep c p (q ∷ ps) = refl

join-split_levels : (sep : ℕ) (s : Bytes) → join sep (split_levels sep s) ≡ s
unfolding split_levels split_at join
join-split_levels sep [] = refl
join-split_levels sep (c ∷ s) =
    ground (arith, join-split_levels sep s, join-cons sep c (split_at sep s).0 (split_at sep s).1)

Free-split_levels : (sep : ℕ) (s : Bytes) → Free sep (split_levels sep s)
unfolding split_levels split_at contains_byte
Free-split_levels sep [] = (refl, tt)
Free-split_levels sep (c ∷ s) = elim (Bool-cases (c == sep)) [
  | inl e ↦ rw e (refl, Free-split_levels sep s)
  | inr n ↦ rw n (ground (arith, n, (Free-split_levels sep s).0), (Free-split_levels sep s).1)
]

is_old_suffix-IsSuffix : (s : Bytes) → is_old_suffix s ≡ true → IsSuffix s
unfolding is_old_suffix
is_old_suffix-IsSuffix s h = elim (Bool-cases (beq s (str "state"))) [
  | inl y ↦ inl (ground (arith, y, beq_iff s (str "state")))
  | inr n ↦ inr (ground (arith, n, h, beq_iff s (str "set")))
]

-- a level among levels none of which is empty
level :
    (l : Bytes) (ls : List Bytes)
    → contains_byte b'/' l ≡ false
    → has_key [] (l ∷ ls) ≡ false
    → IsLevel l
unfolding has_key
level l ls free full = ((λ e. ground (arith, full, e, beq_iff l [])), free)

full-tail : (l : Bytes) (ls : List Bytes) → has_key [] (l ∷ ls) ≡ false → has_key [] ls ≡ false
unfolding has_key
full-tail l ls h = ground arith

old_levels-IsOldTopic :
    (root sn t : Bytes) (ls : List Bytes)
    → t ≡ device_prefix root sn ++ join b'/' ls
    → Free b'/' ls
    → has_key [] ls ≡ false
    → old_levels ls ≡ true
    → IsOldTopic root sn t
unfolding old_levels
old_levels-IsOldTopic root sn t [] e f n h = cc
old_levels-IsOldTopic root sn t (a ∷ []) e f n h = cc
old_levels-IsOldTopic root sn t (a ∷ b ∷ []) e f n h = cc
old_levels-IsOldTopic root sn t (a ∷ b ∷ c ∷ []) e f n h =
    IsOldTopic.unit_item a b c (level a _ f.0 n) (level b _ f.1.0 (full-tail a _ n))
      (is_old_suffix-IsSuffix c h) e
old_levels-IsOldTopic root sn t (a ∷ b ∷ c ∷ d ∷ []) e f n h =
    let battery : a ≡ str "battery" = ground (arith, h, beq_iff a (str "battery")) in
    IsOldTopic.pack_item b c d (level b _ f.1.0 (full-tail a _ n))
      (level c _ f.1.1.0 (full-tail b _ (full-tail a _ n)))
      (is_old_suffix-IsSuffix d (ground (arith, h)))
      (e ∙ ap (λ x. device_prefix root sn ++ join b'/' (x ∷ b ∷ c ∷ d ∷ [])) battery)
old_levels-IsOldTopic root sn t (a ∷ b ∷ c ∷ d ∷ x ∷ ls) e f n h = cc

pub old_layout_topic-IsOldTopic :
    (is_function : Bytes → Bool) (root sn t : Bytes)
    → old_layout_topic is_function root sn t ≡ true
    → (is_function sn ≡ false) × IsOldTopic root sn t
unfolding old_layout_topic
old_layout_topic-IsOldTopic is_function root sn t h =
    elim (Option-cases (cut_prefix t (device_prefix root sn))) [
      | inl n ↦ absurd (ground (arith, n))
      | inr (rest, c) ↦ (
        ground (arith, c),
        old_levels-IsOldTopic root sn t (split_levels b'/' rest)
            (cut_prefix_inv t (device_prefix root sn) rest c
              ∙ ap (λ s. device_prefix root sn ++ s) (sym (join-split_levels b'/' rest)))
            (Free-split_levels b'/' rest) (ground (arith, c)) (ground (arith, c)),
      )
    ]

-- levels that are not empty, and the last of which is a suffix
IsSuffix-is_old_suffix :
    (s : Bytes)
    → IsSuffix s
    → (is_old_suffix s ≡ true) × (contains_byte b'/' s ≡ false) × (beq s [] ≡ false)
unfolding is_old_suffix contains_byte beq
IsSuffix-is_old_suffix s (inl e) = rw e (refl, refl, refl)
IsSuffix-is_old_suffix s (inr e) = rw e (refl, refl, refl)

full : (l : Bytes) → IsLevel l → beq l [] ≡ false
unfolding beq
full [] h = absurd (h.0 refl)
full (c ∷ l) h = refl

old_layout_topic-joined :
    (is_function : Bytes → Bool) (root sn t : Bytes) (l : Bytes) (ls : List Bytes)
    → is_function sn ≡ false
    → t ≡ device_prefix root sn ++ join b'/' (l ∷ ls)
    → Free b'/' (l ∷ ls)
    → has_key [] (l ∷ ls) ≡ false
    → old_levels (l ∷ ls) ≡ true
    → old_layout_topic is_function root sn t ≡ true
unfolding old_layout_topic
old_layout_topic-joined is_function root sn t l ls fn e f n h = ground (
  arith,
  fn,
  e,
  cut_prefix-append (device_prefix root sn) (join b'/' (l ∷ ls)),
  split_levels-join b'/' l ls f,
  n,
  h,
)

battery_level :
    (contains_byte b'/' (str "battery") ≡ false)
    × (beq (str "battery") [] ≡ false)
    × (beq (str "battery") (str "battery") ≡ true)
unfolding contains_byte beq
battery_level = (refl, refl, refl)

pub IsOldTopic-old_layout_topic :
    (is_function : Bytes → Bool) (root sn t : Bytes)
    → is_function sn ≡ false
    → IsOldTopic root sn t
    → old_layout_topic is_function root sn t ≡ true
unfolding old_levels has_key
IsOldTopic-old_layout_topic is_function root sn t fn (IsOldTopic.unit_item g leaf suffix a b s e) =
    let x = IsSuffix-is_old_suffix suffix s in
    old_layout_topic-joined is_function root sn t g (leaf ∷ suffix ∷ []) fn e
      (a.1, (b.1, (x.1, tt))) (ground (arith, full g a, full leaf b, x.2)) x.0
IsOldTopic-old_layout_topic is_function root sn t fn
      (IsOldTopic.pack_item pack leaf suffix a b s e) =
    let x = IsSuffix-is_old_suffix suffix s in
    old_layout_topic-joined is_function root sn t (str "battery") (pack ∷ leaf ∷ suffix ∷ []) fn e
      (battery_level.0, (a.1, (b.1, (x.1, tt))))
      (ground (arith, battery_level.1, full pack a, full leaf b, x.2))
      (ground (arith, battery_level.2, x.0))
