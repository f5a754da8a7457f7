-- ===== src/Hass/Owned.antt =====
-- What the ownership tests of internal/hass/cleanup.go keep apart, and what they let the sweep reach.
use go_zendure2mqtt.Common.{
  Bytes, str, beq, beq_iff, beq_refl, has_prefix, has_prefix-append, has_prefix_inv, split_at,
  contains_byte, Map, Option, none, some, true, false, [], ◌∷◌, ◌++◌, ◌≡◌, ◌≢◌, refl, sym, ◌∙◌,
  arith, length, drop, ℕ, if◌then◌else◌, suc, Bool-cases, inl, inr,
}
use mathlib.Core.List.{append_assoc}
use go_zendure2mqtt.Hass.Ownership.{
  Identity, Body, owns_identity, owns_each, owns_body, is_own_config, ConfigTopic,
  owns_device_config_topic, unique_id,
}

-- up to the first underscore
head_token : Bytes → Bytes
head_token s = (split_at b'_' s).0

head_token-alone : (a : Bytes) → contains_byte b'_' a ≡ false → head_token a ≡ a
unfolding head_token split_at contains_byte
head_token-alone [] h = refl
head_token-alone (c ∷ a) h = ground (arith, head_token-alone a)

head_token-append : (a r : Bytes) → contains_byte b'_' a ≡ false → head_token (a ++ b'_' ∷ r) ≡ a
unfolding head_token split_at contains_byte
head_token-append [] r h = ground arith
head_token-append (c ∷ a) r h = ground (arith, head_token-append a r)

-- A text that begins with a name and an underscore has that name as its first token.
head_token-prefix :
    (s a r : Bytes)
    → contains_byte b'_' a ≡ false
    → has_prefix s (a ++ b'_' ∷ r) ≡ true
    → head_token s ≡ a
head_token-prefix s a r free h =
    let inv = has_prefix_inv s (a ++ b'_' ∷ r) h in
    let e : s ≡ a ++ b'_' ∷ (r ++ inv.0) = inv.1 ∙ append_assoc a (b'_' ∷ r) inv.0 in
    rw e (head_token-append a (r ++ inv.0) free)

-- the name that a config topic gives to its device or entity
name_of : ConfigTopic → Bytes
name_of t = if t.bundle then t.node_id else t.object_id

drop-device : (identity s : Bytes) → drop (suc (length identity)) (identity ++ b'_' ∷ s) ≡ s
drop-device [] s = refl
drop-device (c ∷ identity) s = drop-device identity s

serial-exact :
    (identity sn s : Bytes)
    → contains_byte b'_' sn ≡ false
    → beq s (identity ++ b'_' ∷ sn) ≡ true
    → head_token (drop (suc (length identity)) s) ≡ sn
serial-exact identity sn s free h =
    rw ((beq_iff s (identity ++ b'_' ∷ sn)).0 h, drop-device identity sn) (head_token-alone sn free)

serial-prefix :
    (identity sn s r : Bytes)
    → contains_byte b'_' sn ≡ false
    → has_prefix s ((identity ++ b'_' ∷ sn) ++ b'_' ∷ r) ≡ true
    → head_token (drop (suc (length identity)) s) ≡ sn
serial-prefix identity sn s r free h =
    let inv = has_prefix_inv s ((identity ++ b'_' ∷ sn) ++ b'_' ∷ r) h in
    let e : s ≡ identity ++ b'_' ∷ (sn ++ b'_' ∷ (r ++ inv.0)) =
      inv.1
      ∙ append_assoc (identity ++ b'_' ∷ sn) (b'_' ∷ r) inv.0
      ∙ append_assoc identity (b'_' ∷ sn) (b'_' ∷ (r ++ inv.0)) in
    rw (e, drop-device identity (sn ++ b'_' ∷ (r ++ inv.0)))
      (head_token-append sn (r ++ inv.0) free)

-- The serial of a device can be read from a topic that it owns.
serial-owns_device_config_topic :
    (identity sn : Bytes) (t : ConfigTopic)
    → contains_byte b'_' sn ≡ false
    → owns_device_config_topic identity sn t ≡ true
    → head_token (drop (suc (length identity)) (name_of t)) ≡ sn
unfolding owns_device_config_topic name_of
serial-owns_device_config_topic identity sn t free h = ground (
  arith,
  serial-exact identity sn t.node_id free,
  serial-prefix identity sn t.node_id (str "pack_") free,
  serial-prefix identity sn t.object_id [] free,
)

-- Two devices of one bridge whose serials hold no underscore own no config topic together, in either
-- form: what one device's sweep may retract is no other device's.
pub owns_device_config_topic_unique :
    (identity a b : Bytes) (t : ConfigTopic)
    → contains_byte b'_' a ≡ false
    → contains_byte b'_' b ≡ false
    → owns_device_config_topic identity a t ≡ true
    → owns_device_config_topic identity b t ≡ true
    → a ≡ b
owns_device_config_topic_unique identity a b t fa fb ha hb =
    sym (serial-owns_device_config_topic identity a t fa ha)
    ∙ serial-owns_device_config_topic identity b t fb hb

-- the root that an owned identity is in
root-owns_identity :
    (name identity : Bytes) (i : Identity)
    → contains_byte b'_' identity ≡ false
    → owns_identity name identity i ≡ true
    → head_token i.unique_id ≡ identity
unfolding owns_identity
root-owns_identity name identity i free h =
    head_token-prefix i.unique_id identity [] free (ground arith)

-- the unique id that tells who owns a body
first_id : Identity → Map Identity → Bytes
first_id itself [] = itself.unique_id
first_id itself ((key, i) ∷ m) = i.unique_id

root-owns_body :
    (name identity : Bytes) (itself : Identity) (m : Map Identity)
    → contains_byte b'_' identity ≡ false
    → owns_body name identity itself m ≡ true
    → head_token (first_id itself m) ≡ identity
unfolding owns_body owns_each first_id
root-owns_body name identity itself [] free h = root-owns_identity name identity itself free h
root-owns_body name identity itself ((key, i) ∷ m) free h =
    root-owns_identity name identity i free (ground arith)

-- Two bridges whose identity roots hold no underscore never both take a retained config for their
-- own, whatever their topic names are, one below the other included.
pub is_own_config_unique :
    (name identity name' identity' : Bytes) (body : Option Body)
    → contains_byte b'_' identity ≡ false
    → contains_byte b'_' identity' ≡ false
    → is_own_config name identity body ≡ true
    → is_own_config name' identity' body ≡ true
    → identity ≡ identity'
unfolding is_own_config
is_own_config_unique name identity name' identity' none f f' h h' = cc
is_own_config_unique name identity name' identity' (some b) f f' h h' =
    sym (root-owns_body name identity b.itself b.components f h)
    ∙ root-owns_body name' identity' b.itself b.components f' h'

has_prefix-at : (s p r : Bytes) → s ≡ p ++ r → has_prefix s p ≡ true
has_prefix-at s p r e = rw e (has_prefix-append p r)

unique_id-device :
    (root sn pack_sn leaf : Bytes)
    → (r : Bytes) × (unique_id root sn pack_sn leaf ≡ (root ++ b'_' ∷ sn) ++ b'_' ∷ r)
unfolding unique_id
unique_id-device root sn pack_sn leaf = elim (Bool-cases (beq pack_sn [])) [
  | inl e ↦ (leaf, rw e (sym (append_assoc root (b'_' ∷ sn) (b'_' ∷ leaf))))
  | inr e ↦ (
    str "pack_" ++ (pack_sn ++ b'_' ∷ leaf),
    rw e (sym (append_assoc root (b'_' ∷ sn) (b'_' ∷ (str "pack_" ++ (pack_sn ++ b'_' ∷ leaf))))),
  )
]

-- the id in the form that the per-entity topics are matched in
has_prefix-unique_id :
    (root sn pack_sn leaf : Bytes)
    → has_prefix (unique_id root sn pack_sn leaf) ((root ++ b'_' ∷ sn) ++ str "_") ≡ true
has_prefix-unique_id root sn pack_sn leaf =
    let (r, e) = unique_id-device root sn pack_sn leaf in
    has_prefix-at (unique_id root sn pack_sn leaf) ((root ++ b'_' ∷ sn) ++ b'_' ∷ []) r
      (e ∙ sym (append_assoc (root ++ b'_' ∷ sn) (b'_' ∷ []) r))

has_prefix-root :
    (root sn pack_sn leaf : Bytes)
    → has_prefix (unique_id root sn pack_sn leaf) (root ++ str "_") ≡ true
has_prefix-root root sn pack_sn leaf =
    let (r, e) = unique_id-device root sn pack_sn leaf in
    has_prefix-at (unique_id root sn pack_sn leaf) (root ++ b'_' ∷ []) (sn ++ b'_' ∷ r) (
      e
      ∙ append_assoc root (b'_' ∷ sn) (b'_' ∷ r)
      ∙ sym (append_assoc root (b'_' ∷ []) (sn ++ b'_' ∷ r)))

-- a text with a prefix that is not empty
prefix-ne : (s p : Bytes) (c : ℕ) → has_prefix s (p ++ c ∷ []) ≡ true → beq s [] ≡ false
unfolding has_prefix beq
prefix-ne [] [] c h = cc
prefix-ne [] (x ∷ p) c h = cc
prefix-ne (x ∷ s) p c h = refl

-- the retained per-entity config of an entity, as a release before the device documents wrote it
abbrev pub entity_topic : Bytes → Bytes → ConfigTopic
entity_topic platform uid = record {
  bundle = false;
  node_id = [];
  platform = platform;
  object_id = uid;
}

-- The sweep reaches what this bridge wrote: for every entity of a device, of the unit or of a battery
-- pack, the per-entity config topic of its unique id is the device's, and a config whose body names
-- that id and a state topic below the topic name or the identity root is the bridge's own.
pub unique_id-owned :
    (name root sn pack_sn leaf platform rest : Bytes)
    → platform ≢ []
    → (owns_device_config_topic root sn (entity_topic platform (unique_id root sn pack_sn leaf))
        ≡ true)
      × (is_own_config name root (
            some (record {
              itself = record {
                unique_id = unique_id root sn pack_sn leaf;
                state_topic = name ++ str "/" ++ rest;
              };
              components = [];
            }))
          ≡ true)
      × (is_own_config name root (
            some (record {
              itself = record {
                unique_id = unique_id root sn pack_sn leaf;
                state_topic = root ++ str "/" ++ rest;
              };
              components = [];
            }))
          ≡ true)
unfolding owns_device_config_topic is_own_config owns_body owns_identity
unique_id-owned name root sn pack_sn leaf platform rest ne =
    let p = has_prefix-unique_id root sn pack_sn leaf in
    let q = has_prefix-root root sn pack_sn leaf in
    (
      ground (
        arith,
        p,
        ne,
        beq_iff platform [],
        beq_refl [],
        beq_iff (unique_id root sn pack_sn leaf) [],
        prefix-ne (unique_id root sn pack_sn leaf) (root ++ b'_' ∷ sn) b'_' p,
      ),
      ground (arith, q, has_prefix-append (name ++ str "/") rest),
      ground (arith, q, has_prefix-append (root ++ str "/") rest),
    )
