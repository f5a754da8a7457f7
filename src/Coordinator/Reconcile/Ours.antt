-- ===== src/Coordinator/Reconcile/Ours.antt =====
-- Which retained configs are a device's own, said without the code's tests: the topic and the body that
-- sweepOrphans of internal/coordinator/coordinator.go looks for.
use go_zendure2mqtt.Common.{
  Bytes, str, beq, beq_iff, has_prefix, has_prefix-append, has_prefix_inv, Map, Option, none, some,
  true, false, [], ◌∷◌, ◌++◌, ◌≡◌, ◌≢◌, ◌⊎◌, inl, inr, refl, arith, Bool-cases,
}
use go_zendure2mqtt.Hass.Ownership.{
  Identity, Body, ConfigTopic, owns_identity, owns_each, owns_body, is_own_config,
  owns_device_config_topic,
}
use go_zendure2mqtt.Coordinator.Reconcile.{Retained, is_ours}

-- s begins with p
abbrev pub Begins : Bytes → Bytes → Type 0
Begins s p = (rest : Bytes) × (s ≡ p ++ rest)

Begins-has_prefix : (s p : Bytes) → Begins s p → has_prefix s p ≡ true
Begins-has_prefix s p (rest, e) = rw e (has_prefix-append p rest)

-- An entity of this bridge: its unique id begins with the identity, and its state topic, where it has
-- one, is below the name or the identity.
pub record IsOwnEntity (name identity : Bytes) (i : Identity) : Type 0 where
  pub id : Begins i.unique_id (identity ++ str "_")
  pub state :
      (i.state_topic ≡ [])
      ⊎ Begins i.state_topic (name ++ str "/")
      ⊎ Begins i.state_topic (identity ++ str "/")

-- A body is this bridge's when all its components are, or the body itself where it has none.
abbrev pub AllOwn : Bytes → Bytes → Map Identity → Type 0
AllOwn name identity [] = Unit
AllOwn name identity ((key, i) ∷ m) = IsOwnEntity name identity i × AllOwn name identity m

abbrev pub IsOwnBody : Bytes → Bytes → Identity → Map Identity → Type 0
IsOwnBody name identity itself [] = IsOwnEntity name identity itself
IsOwnBody name identity itself (c ∷ cs) = AllOwn name identity (c ∷ cs)

-- The config topics of a device: its own document, one of a pack of it, and an entity of the old form.
pub data IsDeviceTopic (identity sn : Bytes) (t : ConfigTopic) : Type 0 where
  unit_document : t.bundle ≡ true → t.node_id ≡ identity ++ b'_' ∷ sn → IsDeviceTopic identity sn t
  pack_document :
      t.bundle ≡ true
      → Begins t.node_id ((identity ++ b'_' ∷ sn) ++ str "_pack_")
      → IsDeviceTopic identity sn t
  entity_config :
      t.bundle ≡ false
      → t.platform ≢ []
      → t.node_id ≡ []
      → t.object_id ≢ []
      → Begins t.object_id ((identity ++ b'_' ∷ sn) ++ str "_")
      → IsDeviceTopic identity sn t

pub record IsOurs (name identity sn : Bytes) (r : Retained) : Type 0 where
  pub place : IsDeviceTopic identity sn r.parsed
  pub content : (b : Body) × (r.body ≡ some b) × IsOwnBody name identity b.itself b.components
  pub named : r.topic ≢ []

owns_identity-IsOwnEntity :
    (name identity : Bytes) (i : Identity)
    → owns_identity name identity i ≡ true
    → IsOwnEntity name identity i
unfolding owns_identity
owns_identity-IsOwnEntity name identity i h = record {
  id = has_prefix_inv i.unique_id (identity ++ str "_") (ground arith);
  state = elim (Bool-cases (beq i.state_topic [])) [
    | inl e ↦ inl (ground (arith, e, beq_iff i.state_topic []))
    | inr n ↦ elim (Bool-cases (has_prefix i.state_topic (name ++ str "/"))) [
      | inl y ↦ inr (inl (has_prefix_inv i.state_topic (name ++ str "/") y))
      | inr m ↦
          inr (inr (has_prefix_inv i.state_topic (identity ++ str "/") (ground (arith, n, m))))
    ]
  ];
}

IsOwnEntity-owns_identity :
    (name identity : Bytes) (i : Identity)
    → IsOwnEntity name identity i
    → owns_identity name identity i ≡ true
unfolding owns_identity
IsOwnEntity-owns_identity name identity i h =
    let p = Begins-has_prefix i.unique_id (identity ++ str "_") h.id in
    elim h.state [
      | inl e ↦ ground (arith, p, beq_iff i.state_topic [])
      | inr (inl b) ↦ ground (arith, p, Begins-has_prefix i.state_topic (name ++ str "/") b)
      | inr (inr b) ↦ ground (arith, p, Begins-has_prefix i.state_topic (identity ++ str "/") b)
    ]

owns_each-AllOwn :
    (name identity : Bytes) (m : Map Identity)
    → owns_each name identity m ≡ true
    → AllOwn name identity m
unfolding owns_each
owns_each-AllOwn name identity [] h = tt
owns_each-AllOwn name identity ((key, i) ∷ m) h = (
  owns_identity-IsOwnEntity name identity i (ground arith),
  owns_each-AllOwn name identity m (ground arith),
)

AllOwn-owns_each :
    (name identity : Bytes) (m : Map Identity)
    → AllOwn name identity m
    → owns_each name identity m ≡ true
unfolding owns_each
AllOwn-owns_each name identity [] h = refl
AllOwn-owns_each name identity ((key, i) ∷ m) h =
    ground
      (arith, IsOwnEntity-owns_identity name identity i h.0, AllOwn-owns_each name identity m h.1)

owns_body-IsOwnBody :
    (name identity : Bytes) (itself : Identity) (m : Map Identity)
    → owns_body name identity itself m ≡ true
    → IsOwnBody name identity itself m
unfolding owns_body
owns_body-IsOwnBody name identity itself [] h = owns_identity-IsOwnEntity name identity itself h
owns_body-IsOwnBody name identity itself (c ∷ cs) h = owns_each-AllOwn name identity (c ∷ cs) h

IsOwnBody-owns_body :
    (name identity : Bytes) (itself : Identity) (m : Map Identity)
    → IsOwnBody name identity itself m
    → owns_body name identity itself m ≡ true
unfolding owns_body
IsOwnBody-owns_body name identity itself [] h = IsOwnEntity-owns_identity name identity itself h
IsOwnBody-owns_body name identity itself (c ∷ cs) h = AllOwn-owns_each name identity (c ∷ cs) h

is_own_config-IsOwnBody :
    (name identity : Bytes) (body : Option Body)
    → is_own_config name identity body ≡ true
    → (b : Body) × (body ≡ some b) × IsOwnBody name identity b.itself b.components
unfolding is_own_config
is_own_config-IsOwnBody name identity none h = cc
is_own_config-IsOwnBody name identity (some b) h =
    (b, refl, owns_body-IsOwnBody name identity b.itself b.components h)

owns_topic-IsDeviceTopic :
    (identity sn : Bytes) (t : ConfigTopic)
    → owns_device_config_topic identity sn t ≡ true
    → IsDeviceTopic identity sn t
unfolding owns_device_config_topic
owns_topic-IsDeviceTopic identity sn t h =
    let device = identity ++ b'_' ∷ sn in
    elim (Bool-cases t.bundle) [
      | inl b ↦ elim (Bool-cases (beq t.node_id device)) [
        | inl e ↦ IsDeviceTopic.unit_document b (ground (arith, e, beq_iff t.node_id device))
        | inr n ↦
            IsDeviceTopic.pack_document b
              (has_prefix_inv t.node_id (device ++ str "_pack_") (ground (arith, h, b, n)))
      ]
      | inr b ↦
          IsDeviceTopic.entity_config b (ground (arith, h, b, beq_iff t.platform []))
            (ground (arith, h, b, beq_iff t.node_id []))
            (ground (arith, h, b, beq_iff t.object_id []))
            (has_prefix_inv t.object_id (device ++ str "_") (ground (arith, h, b)))
    ]

IsDeviceTopic-owns_topic :
    (identity sn : Bytes) (t : ConfigTopic)
    → IsDeviceTopic identity sn t
    → owns_device_config_topic identity sn t ≡ true
unfolding owns_device_config_topic
IsDeviceTopic-owns_topic identity sn t (IsDeviceTopic.unit_document b e) =
    ground (arith, b, beq_iff t.node_id (identity ++ b'_' ∷ sn))
IsDeviceTopic-owns_topic identity sn t (IsDeviceTopic.pack_document b p) =
    ground (arith, b, Begins-has_prefix t.node_id ((identity ++ b'_' ∷ sn) ++ str "_pack_") p)
IsDeviceTopic-owns_topic identity sn t (IsDeviceTopic.entity_config b p n o q) = ground (
  arith,
  b,
  beq_iff t.platform [],
  beq_iff t.node_id [],
  beq_iff t.object_id [],
  Begins-has_prefix t.object_id ((identity ++ b'_' ∷ sn) ++ str "_") q,
)

pub is_ours-IsOurs :
    (name identity sn : Bytes) (r : Retained)
    → is_ours name identity sn r ≡ true
    → IsOurs name identity sn r
unfolding is_ours
is_ours-IsOurs name identity sn r h = record {
  place = owns_topic-IsDeviceTopic identity sn r.parsed (ground arith);
  content = is_own_config-IsOwnBody name identity r.body (ground arith);
  named = ground (arith, h, beq_iff r.topic []);
}

pub IsOurs-is_ours :
    (name identity sn : Bytes) (r : Retained)
    → IsOurs name identity sn r
    → is_ours name identity sn r ≡ true
unfolding is_ours is_own_config
IsOurs-is_ours name identity sn r h =
    let (b, e, own) = h.content in
    ground (
      arith,
      e,
      IsDeviceTopic-owns_topic identity sn r.parsed h.place,
      IsOwnBody-owns_body name identity b.itself b.components own,
      beq_iff r.topic [],
      h.named,
    )
