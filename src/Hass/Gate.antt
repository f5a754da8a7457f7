-- ===== src/Hass/Gate.antt =====
-- Which documents Publish of internal/hass/discovery.go hands on.
use go_zendure2mqtt.Common.{
  Bytes, beq_iff, has_key, has_key-append, Option, none, true, false, List, [], ◌∷◌, ◌≡◌, refl,
  arith, Bool-cases, inl, inr,
}
use go_zendure2mqtt.Hass.Publish.{
  Bundle, Rendered, render_failed, no_bundle, rendered, Discovery, component_ids, is_fresh, attempt,
  publish_bundle, publish_one, publish_all,
}

-- every id of the one list is in the other
abbrev pub Within : List Bytes → List Bytes → Type 0
Within ids sent = (k : Bytes) → has_key k ids ≡ true → has_key k sent ≡ true

pub is_fresh-Within : (ids sent : List Bytes) → Within ids sent → is_fresh ids sent ≡ false
unfolding is_fresh has_key
is_fresh-Within [] sent h = refl
is_fresh-Within (id ∷ ids) sent h = ground (
  arith,
  h id (ground (arith, beq_iff id id)),
  is_fresh-Within ids sent (λ k i. h k (ground (arith, i))),
)

pub Within-is_fresh : (ids sent : List Bytes) → is_fresh ids sent ≡ false → Within ids sent
unfolding is_fresh has_key
Within-is_fresh [] sent h k i = cc
Within-is_fresh (id ∷ ids) sent h k i =
    ground (arith, beq_iff id k, Within-is_fresh ids sent (ground arith) k)

module _ (topic_of : Bundle → Bytes) (answer : Bundle → Option Bytes) where
  -- What was sent stays sent.
  sent-attempt : (b : Bundle) (d : Discovery) → Within d.sent (attempt topic_of answer b d).sent
  unfolding attempt
  sent-attempt b d k i = ground (arith, has_key-append k (component_ids b) d.sent)

  sent-publish_one :
      (r : Rendered) (d : Discovery) → Within d.sent (publish_one topic_of answer r d).state.sent
  unfolding publish_one publish_bundle
  sent-publish_one render_failed d k i = i
  sent-publish_one no_bundle d k i = i
  sent-publish_one (rendered b) d k i = ground (arith, sent-attempt b d k i)

  sent-publish_all :
      (rs : List Rendered) (d : Discovery)
      → Within d.sent (publish_all topic_of answer rs d).state.sent
  unfolding publish_all
  sent-publish_all [] d k i = i
  sent-publish_all (r ∷ rs) d k i =
      sent-publish_all rs (publish_one topic_of answer r d).state k (sent-publish_one r d k i)

  -- a document that reached the broker, or needed no write, has all its ids sent
  ids-publish_bundle :
      (b : Bundle) (d : Discovery)
      → answer b ≡ none
      → Within (component_ids b) (publish_bundle topic_of answer b d).state.sent
  unfolding publish_bundle attempt
  ids-publish_bundle b d ok k i = elim (Bool-cases (is_fresh (component_ids b) d.sent)) [
    | inl f ↦ ground (arith, ok, f, has_key-append k (component_ids b) d.sent)
    | inr f ↦ ground (arith, f, Within-is_fresh (component_ids b) d.sent f k i)
  ]

abbrev pub topics_of : (Bundle → Bytes) → List Rendered → List Bytes
topics_of topic_of [] = []
topics_of topic_of (rendered b ∷ rs) = topic_of b ∷ topics_of topic_of rs
topics_of topic_of (r ∷ rs) = topics_of topic_of rs

-- the ids of every rendered document have been sent
abbrev AllSent : List Rendered → List Bytes → Type 0
AllSent [] sent = Unit
AllSent (rendered b ∷ rs) sent = Within (component_ids b) sent × AllSent rs sent
AllSent (r ∷ rs) sent = AllSent rs sent

module _ (topic_of : Bundle → Bytes) where
  AllSent-publish_all :
      (answer : Bundle → Option Bytes) (rs : List Rendered) (d : Discovery)
      → ((b : Bundle) → answer b ≡ none)
      → AllSent rs (publish_all topic_of answer rs d).state.sent
  unfolding publish_all publish_one
  AllSent-publish_all answer [] d ok = tt
  AllSent-publish_all answer (render_failed ∷ rs) d ok = AllSent-publish_all answer rs d ok
  AllSent-publish_all answer (no_bundle ∷ rs) d ok = AllSent-publish_all answer rs d ok
  AllSent-publish_all answer (rendered b ∷ rs) d ok =
      let d' = (publish_bundle topic_of answer b d).state in
      (
        λ k i.
            sent-publish_all topic_of answer rs d' k
              (ids-publish_bundle topic_of answer b d (ok b) k i),
        AllSent-publish_all answer rs d' ok,
      )

  pub publish_bundle-sent :
      (answer : Bundle → Option Bytes) (b : Bundle) (d : Discovery)
      → Within (component_ids b) d.sent
      → publish_bundle topic_of answer b d
        ≡ record { state = d; topics = topic_of b ∷ []; attempts = [] }
  unfolding publish_bundle
  publish_bundle-sent answer b d h = rw (is_fresh-Within (component_ids b) d.sent h)

  publish_all-sent :
      (answer : Bundle → Option Bytes) (rs : List Rendered) (d : Discovery)
      → AllSent rs d.sent
      → publish_all topic_of answer rs d
        ≡ record { state = d; topics = topics_of topic_of rs; attempts = [] }
  unfolding publish_all publish_one
  publish_all-sent answer [] d h = refl
  publish_all-sent answer (render_failed ∷ rs) d h = rw (publish_all-sent answer rs d h)
  publish_all-sent answer (no_bundle ∷ rs) d h = rw (publish_all-sent answer rs d h)
  publish_all-sent answer (rendered b ∷ rs) d h =
      rw (publish_bundle-sent answer b d h.0, publish_all-sent answer rs d h.1)

  topics-publish_all :
      (answer : Bundle → Option Bytes) (rs : List Rendered) (d : Discovery)
      → (publish_all topic_of answer rs d).topics ≡ topics_of topic_of rs
  unfolding publish_all publish_one publish_bundle
  topics-publish_all answer [] d = refl
  topics-publish_all answer (render_failed ∷ rs) d = topics-publish_all answer rs d
  topics-publish_all answer (no_bundle ∷ rs) d = topics-publish_all answer rs d
  topics-publish_all answer (rendered b ∷ rs) d =
      ground (arith, topics-publish_all answer rs (publish_bundle topic_of answer b d).state)

  -- When every document of a Publish reached the broker, the same report again hands no document on,
  -- whatever the broker would answer, changes nothing, and still names every topic of the device's
  -- current set.
  pub publish_all_again :
      (answer answer' : Bundle → Option Bytes) (rs : List Rendered) (d : Discovery)
      → ((b : Bundle) → answer b ≡ none)
      → publish_all topic_of answer' rs (publish_all topic_of answer rs d).state ≡ record {
        state = (publish_all topic_of answer rs d).state;
        topics = (publish_all topic_of answer rs d).topics;
        attempts = [];
      }
  publish_all_again answer answer' rs d ok = rw (topics-publish_all answer rs d) (
      publish_all-sent answer' rs (publish_all topic_of answer rs d).state
        (AllSent-publish_all answer rs d ok))
