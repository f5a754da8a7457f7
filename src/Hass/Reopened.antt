-- ===== src/Hass/Reopened.antt =====
-- What Publish of internal/hass/discovery.go hands on behind Reopen.
use go_zendure2mqtt.Common.{
  Bytes, has_key, has_key-append, Option, true, List, [], ◌∷◌, ◌++◌, ◌≡◌, refl, arith, Bool-cases,
  inl, inr,
}
use go_zendure2mqtt.Hass.Publish.{
  Bundle, Rendered, render_failed, no_bundle, rendered, Discovery, component_ids, is_fresh, mark,
  attempt, publish_bundle, publish_one, publish_all, reopen,
}
use go_zendure2mqtt.Hass.Gate.{Within, is_fresh-Within, Within-is_fresh}

-- the bundles that were rendered
abbrev pub bundles : List Rendered → List Bundle
bundles [] = []
bundles (rendered b ∷ rs) = b ∷ bundles rs
bundles (r ∷ rs) = bundles rs

-- each document has an id that none before it has, nor `seen`
abbrev pub Apart : List Bytes → List Rendered → Type 0
Apart seen [] = Unit
Apart seen (rendered b ∷ rs) =
    (is_fresh (component_ids b) seen ≡ true) × Apart (component_ids b ++ seen) rs
Apart seen (r ∷ rs) = Apart seen rs

is_fresh-anti :
    (ids sent seen : List Bytes)
    → Within sent seen
    → is_fresh ids seen ≡ true
    → is_fresh ids sent ≡ true
is_fresh-anti ids sent seen w f = elim (Bool-cases (is_fresh ids sent)) [
  | inl e ↦ e
  | inr e ↦
      ground (arith, f, is_fresh-Within ids seen (λ k i. w k (Within-is_fresh ids sent e k i)))
]

module _ (topic_of : Bundle → Bytes) (answer : Bundle → Option Bytes) where
  Within-attempt :
      (b : Bundle) (d : Discovery) (seen : List Bytes)
      → Within d.sent seen
      → Within (attempt topic_of answer b d).sent (component_ids b ++ seen)
  unfolding attempt mark
  Within-attempt b d seen w k i = ground (
    arith,
    w k,
    has_key-append k (component_ids b) d.sent,
    has_key-append k (component_ids b) seen,
  )

  publish_bundle-apart :
      (b : Bundle) (d : Discovery)
      → is_fresh (component_ids b) d.sent ≡ true
      → publish_bundle topic_of answer b d ≡ record {
        state = attempt topic_of answer b d;
        topics = topic_of b ∷ [];
        attempts = b ∷ [];
      }
  unfolding publish_bundle
  publish_bundle-apart b d f = rw f refl

  attempts-publish_all :
      (rs : List Rendered) (d : Discovery) (seen : List Bytes)
      → Within d.sent seen
      → Apart seen rs
      → (publish_all topic_of answer rs d).attempts ≡ bundles rs
  unfolding publish_all publish_one
  attempts-publish_all [] d seen w a = refl
  attempts-publish_all (render_failed ∷ rs) d seen w a = attempts-publish_all rs d seen w a
  attempts-publish_all (no_bundle ∷ rs) d seen w a = attempts-publish_all rs d seen w a
  attempts-publish_all (rendered b ∷ rs) d seen w a =
      rw
        (
          publish_bundle-apart b d (is_fresh-anti (component_ids b) d.sent seen w a.0),
          attempts-publish_all rs (attempt topic_of answer b d) (component_ids b ++ seen)
              (Within-attempt b d seen w) a.1,
        )
        refl

  -- Behind Reopen a Publish hands on the document of every owner that renders one, whatever was sent
  -- before and whichever of the documents fail on the way, when each document has an id that none
  -- before it has.
  pub attempts-reopen :
      (rs : List Rendered) (d : Discovery)
      → Apart [] rs
      → (publish_all topic_of answer rs (reopen d)).attempts ≡ bundles rs
  unfolding reopen has_key
  attempts-reopen rs d a = attempts-publish_all rs (reopen d) [] (λ k i. i) a
