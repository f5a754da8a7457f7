-- ===== src/Coordinator/Online/Republished.antt =====
-- What a reconnect to the broker hands on: republishDiscovery of internal/coordinator/coordinator.go.
use go_zendure2mqtt.Common.{
  Bytes, lookup, keys, sort_keys, Map, FloatOps, Option, none, some, List, [], ◌∷◌, ◌++◌, map, ◌≡◌,
  refl, sym, ap, ◌∙◌, Option-cases, inl, inr,
}
use mathlib.Core.List.{append_assoc, map-append}
use go_zendure2mqtt.Hass.Publish.{Bundle, Rendered, Discovery, publish_one, publish_all, reopen}
use go_zendure2mqtt.Hass.Reopened.{bundles, Apart, attempts-reopen}
use go_zendure2mqtt.Coordinator.Online.{
  Setup, World, LastReport, document, rendered_for, publish_documents, republish_each,
  republish_discovery,
}

module _ (topic_of : Bundle → Bytes) (answer : Bundle → Option Bytes) where
  publish_all-append :
      (rs ss : List Rendered) (d : Discovery)
      → ((publish_all topic_of answer (rs ++ ss) d).state
          ≡ (publish_all topic_of answer ss (publish_all topic_of answer rs d).state).state)
        × ((publish_all topic_of answer (rs ++ ss) d).attempts
            ≡ (publish_all topic_of answer rs d).attempts
              ++ (publish_all topic_of answer ss (publish_all topic_of answer rs d).state).attempts)
  unfolding publish_all
  publish_all-append [] ss d = (refl, refl)
  publish_all-append (r ∷ rs) ss d =
      let one = publish_one topic_of answer r d in
      let ih = publish_all-append rs ss one.state in
      (
        ih.0,
        rw ih.1 (
            sym (
              append_assoc one.attempts (publish_all topic_of answer rs one.state).attempts
                (publish_all topic_of answer ss
                  (publish_all topic_of answer rs one.state).state).attempts)),
      )

module _ {F : Type 0} ⦃fl : FloatOps F⦄ (su : Setup F) where
  -- what the owners of the last reports of some devices render to, one device behind the other
  abbrev pub rendered_all : Map (LastReport F) → List Bytes → List Rendered
  rendered_all last [] = []
  rendered_all last (sn ∷ sns) = elim (lookup sn last) [
    | none ↦ rendered_all last sns
    | some lr ↦ rendered_for su lr.dev lr.report ++ rendered_all last sns
  ]

  republish_each-all :
      (last : Map (LastReport F)) (sns : List Bytes) (d : Discovery)
      → (republish_each su last sns d).1
        ≡ map document (publish_all su.topic_of su.answer (rendered_all last sns) d).attempts
  unfolding republish_each publish_documents publish_all
  republish_each-all last [] d = refl
  republish_each-all last (sn ∷ sns) d = elim (Option-cases (lookup sn last)) [
    | inl e ↦ rw (republish_each, rendered_all, e) (republish_each-all last sns d)
    | inr (lr, e) ↦
        let rs = rendered_for su lr.dev lr.report in
        let after = (publish_all su.topic_of su.answer rs d).state in
        let both = publish_all-append su.topic_of su.answer rs (rendered_all last sns) d in
        rw (republish_each, rendered_all, e, both.1)
          (ap (λ acts. map document (publish_all su.topic_of su.answer rs d).attempts ++ acts)
              (republish_each-all last sns after)
            ∙ sym (
                map-append document (publish_all su.topic_of su.answer rs d).attempts
                  (publish_all su.topic_of su.answer (rendered_all last sns) after).attempts))
  ]

  -- After a reconnect every document of every device that has reported is handed on again, one device
  -- behind the other in the order of their serials, whatever was sent before and whatever fails on the
  -- way, when each document has an id that none before it has.
  pub republish_discovery-documents :
      (w : World F) (d : Discovery)
      → w.hass ≡ some d
      → Apart [] (rendered_all w.last (sort_keys (keys w.last)))
      → (republish_discovery su w).1
        ≡ map document (bundles (rendered_all w.last (sort_keys (keys w.last))))
  unfolding republish_discovery
  republish_discovery-documents w d h a =
      rw (republish_discovery, h, republish_each-all w.last (sort_keys (keys w.last)) (reopen d))
        (ap (map document) (
          attempts-reopen su.topic_of su.answer (rendered_all w.last (sort_keys (keys w.last))) d
            a))
