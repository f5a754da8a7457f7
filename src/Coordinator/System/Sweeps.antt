-- ===== src/Coordinator/System/Sweeps.antt =====
-- The sweeps of the running coordinator: the gate of reconcileOrphans, internal/coordinator/coordinator.go,
-- and the sweeps in flight.
use go_zendure2mqtt.Common.{
  ℕ, Bytes, beq, has_key, keys, sort_keys, lookup, Map, FloatOps, some, Bool, true, false, List, [],
  ◌∷◌, ◌++◌, map, ◌≡◌, refl, sym, ap, ◌∙◌, arith, Bool-cases, Option-cases, inl, inr, ◌⊎◌,
  get_elem?,
}
use mathlib.Core.Path.{subst}
use go_zendure2mqtt.Process.Points.{Report}
use go_zendure2mqtt.State.Store.{SourceDevice}
use go_zendure2mqtt.Hass.Publish.{Discovery, reopen}
use go_zendure2mqtt.Coordinator.Battery.{Effect}
use go_zendure2mqtt.Coordinator.Battery.{publish_evcc, evcc_fallback}
use go_zendure2mqtt.Coordinator.Commands.Routes.{handle_set, handle_evcc_set, write_item}
use go_zendure2mqtt.Coordinator.Publish.{publish_points}
use go_zendure2mqtt.Coordinator.Reconcile.{Gate, reconcile_orphans, last_of, discovery_signature}
use go_zendure2mqtt.Coordinator.Online.{
  points_of, publish_documents, set_of, World, LastReport, Act, document, sweep, item, warning,
  evcc_effect, Setup, store_report, discover, publish_items, publish_profile, publish, learn_device,
  on_reading, online_items, publish_reachability, republish_each, republish_discovery,
  publish_current,
}
use go_zendure2mqtt.Coordinator.System.{
  Daemon, Fixed, Env, Event, reading, upstream, reachable, set, evcc_set, ui_write, connected,
  read_again, tick, set_up, known_in, commanded, handle,
}

module _ {F : Type 0} where
  -- the sweeps that acts begin
  abbrev pub sweeps_of : List (Act F) → Map (List Bytes)
  sweeps_of [] = []
  sweeps_of (sweep sn topics ∷ acts) = (sn, topics) ∷ sweeps_of acts
  sweeps_of (a ∷ acts) = sweeps_of acts

  sweeps_of-append : (xs ys : List (Act F)) → sweeps_of (xs ++ ys) ≡ sweeps_of xs ++ sweeps_of ys
  sweeps_of-append [] ys = refl
  sweeps_of-append (sweep sn topics ∷ xs) ys = ap (λ m. (sn, topics) ∷ m) (sweeps_of-append xs ys)
  sweeps_of-append (a ∷ xs) ys = sweeps_of-append xs ys

  sweeps_of-map {ℓ} :
      {A : Type ℓ} (f : A → Act F) (xs : List A)
      → ((x : A) → sweeps_of (f x ∷ []) ≡ [])
      → sweeps_of (map f xs) ≡ []
  sweeps_of-map f [] h = refl
  sweeps_of-map f (x ∷ xs) h =
      sweeps_of-append (f x ∷ []) (map f xs)
      ∙ (ap (λ m. m ++ sweeps_of (map f xs)) (h x) ∙ sweeps_of-map f xs h)

  -- What a handler does to the gate: nothing, or it closes it for one device that has no sweep in
  -- flight, and begins that sweep.
  pub data Gates (w w' : World F) (acts : List (Act F)) : Type 0 where
    leaves : sweeps_of acts ≡ [] → w'.gate.busy ≡ w.gate.busy → Gates w w' acts
    closes :
        (sn : Bytes) (topics : List Bytes)
        → sweeps_of acts ≡ (sn, topics) ∷ []
        → has_key sn w.gate.busy ≡ false
        → w'.gate.busy ≡ sn ∷ w.gate.busy
        → Gates w w' acts

  Gates-gate :
      {v w w' : World F} {acts : List (Act F)} → w.gate ≡ v.gate → Gates w w' acts → Gates v w' acts
  Gates-gate e (leaves n g) = leaves n (g ∙ ap (λ (g : Gate). g.busy) e)
  Gates-gate e (closes sn topics n f g) =
      closes sn topics n (ground (arith, f, e)) (ground (arith, g, e))

  -- acts behind it that begin no sweep
  Gates-append :
      {w w' w'' : World F} (xs ys : List (Act F))
      → Gates w w' xs
      → sweeps_of ys ≡ []
      → w''.gate.busy ≡ w'.gate.busy
      → Gates w w'' (xs ++ ys)
  Gates-append xs ys (leaves e g) h same =
      leaves (rw (sweeps_of-append xs ys, e, h) refl) (same ∙ g)
  Gates-append xs ys (closes sn topics e f g) h same =
      closes sn topics (rw (sweeps_of-append xs ys, e, h) refl) f (same ∙ g)

reconcile_gate :
    (sn : Bytes) (published : List Bytes) (g : Gate)
    → let out = reconcile_orphans sn published g in
      ((out.1 ≡ false) × (out.0.busy ≡ g.busy))
      ⊎ ((out.1 ≡ true) × (has_key sn g.busy ≡ false) × (out.0.busy ≡ sn ∷ g.busy))
unfolding reconcile_orphans
reconcile_gate sn published g =
    elim (Bool-cases (beq (last_of g.last sn) (discovery_signature published))) [
      | inl s ↦ inl (ground (arith, s))
      | inr s ↦ elim (Bool-cases (has_key sn g.busy)) [
        | inl b ↦ inl (ground (arith, s, b))
        | inr b ↦ inr (ground (arith, s, b))
      ]
    ]

module _ {F : Type 0} ⦃fl : FloatOps F⦄ (su : Setup F) where
  Gates-discover :
      (dev : SourceDevice) (report : Report F) (w : World F)
      → Gates w (discover su dev report w).0 (discover su dev report w).1
  unfolding discover
  Gates-discover dev report w = elim (Option-cases w.hass) [
    | inl n ↦ leaves (ground (arith, n)) (ground (arith, n))
    | inr (d, n) ↦
        let out = publish_documents su dev report d in
        let published = set_of out.topics in
        let docs : sweeps_of {F = F} (map document out.attempts) ≡ [] =
          sweeps_of-map document out.attempts (λ b. refl) in
        elim (reconcile_gate dev.sn published w.gate) [
          | inl (c, g) ↦
              let acts : (discover su dev report w).1 ≡ map document out.attempts ++ [] =
                ground (arith, n, c) in
              leaves
                (ap sweeps_of acts
                  ∙ (sweeps_of-append (map document out.attempts) [] ∙ (rw docs refl)))
                (ground (arith, n, g))
          | inr (c, f, g) ↦
              let acts : (discover su dev report w).1
                  ≡ map document out.attempts ++ sweep dev.sn published ∷ [] =
                ground (arith, n, c) in
              closes dev.sn published
                (ap sweeps_of acts
                  ∙ (sweeps_of-append (map document out.attempts) (sweep dev.sn published ∷ [])
                      ∙ (rw docs refl)))
                f (ground (arith, n, g))
        ]
  ]

  store_report_gate :
      (now : ℕ) (dev : SourceDevice) (report : Report F) (w : World F)
      → (store_report su now dev report w).gate ≡ w.gate
  unfolding store_report
  store_report_gate now dev report w = ground arith

  publish_items_none :
      (dev : SourceDevice) (report : Report F) (w : World F)
      → sweeps_of (publish_items su dev report w).1 ≡ []
  unfolding publish_items
  publish_items_none dev report w =
      let (seen, lines, items, written) =
        publish_points su.print su.status su.plane dev.sn (points_of su report) w.unmapped in
      sweeps_of-append (map warning lines) (map item items)
      ∙ (rw (sweeps_of-map warning lines (λ l. refl)) (sweeps_of-map item items (λ l. refl)))

  publish_profile_none :
      (dev : SourceDevice) (report : Report F) (w : World F)
      → (sweeps_of (publish_profile su dev report w).1 ≡ [])
        × ((publish_profile su dev report w).0.gate ≡ w.gate)
  unfolding publish_profile
  publish_profile_none dev report w = elim (Option-cases w.evcc) [
    | inl n ↦ ground (arith, n)
    | inr (units, n) ↦ ground (
      arith,
      n,
      sweeps_of-map evcc_effect (publish_evcc (some report.properties) dev.sn units).1 (λ e. refl),
    )
  ]

  Gates-publish :
      (now : ℕ) (dev : SourceDevice) (report : Report F) (w : World F)
      → Gates w (publish su now dev report w).0 (publish su now dev report w).1
  unfolding publish
  Gates-publish now dev report w =
      let w1 = store_report su now dev report w in
      let w2 = (discover su dev report w1).0 in
      let w3 = (publish_items su dev report w2).0 in
      let items = publish_items su dev report w2 in
      let profile = publish_profile su dev report w3 in
      let p = publish_profile_none dev report w3 in
      Gates-append (discover su dev report w1).1 (items.1 ++ profile.1)
        (Gates-gate (store_report_gate now dev report w) (Gates-discover dev report w1))
        (sweeps_of-append items.1 profile.1 ∙ (rw (publish_items_none dev report w2, p.0) refl))
        (ap (λ (g : Gate). g.busy) p.1 ∙ unfold publish_items in refl)

  online_items_none :
      (reach : Map Bool) (sns : List Bytes) → sweeps_of (online_items su reach sns) ≡ []
  unfolding online_items
  online_items_none reach [] = refl
  online_items_none reach (sn ∷ sns) = online_items_none reach sns

  republish_each_none :
      (last : Map (LastReport F)) (sns : List Bytes) (d : Discovery)
      → sweeps_of (republish_each su last sns d).1 ≡ []
  unfolding republish_each
  republish_each_none last [] d = refl
  republish_each_none last (sn ∷ sns) d = elim (Option-cases (lookup sn last)) [
    | inl e ↦ rw (republish_each, e) (republish_each_none last sns d)
    | inr (lr, e) ↦
        let out = publish_documents su lr.dev lr.report d in
        let rest = (republish_each su last sns out.state).1 in
        let docs : sweeps_of {F = F} (map document out.attempts) ≡ [] =
          sweeps_of-map document out.attempts (λ b. refl) in
        rw (republish_each, e, sweeps_of-append (map document out.attempts) rest, docs)
          (republish_each_none last sns out.state)
  ]

  publish_current_none :
      (w : World F)
      → (sweeps_of (publish_current su w).1 ≡ []) × ((publish_current su w).0.gate ≡ w.gate)
  unfolding publish_current republish_discovery publish_reachability
  publish_current_none w = elim (Option-cases w.hass) [
    | inl n ↦ ground (arith, n, online_items_none w.reach (sort_keys (keys w.reach)))
    | inr (d, n) ↦
        let acts = (republish_each su w.last (sort_keys (keys w.last)) (reopen d)).1 in
        let shown = online_items su w.reach (sort_keys (keys w.reach)) in
        ground (
          arith,
          n,
          sweeps_of-append acts shown,
          republish_each_none w.last (sort_keys (keys w.last)) (reopen d),
          online_items_none w.reach (sort_keys (keys w.reach)),
        )
  ]

module _ {F : Type 0} ⦃fl : FloatOps F⦄ (fx : Fixed F) where
  effects_none : (es : List (Effect F)) → sweeps_of (map evcc_effect es) ≡ []
  effects_none es = sweeps_of-map evcc_effect es (λ e. refl)

  Gates-learn :
      (env : Env F) (dev : SourceDevice) (report : Report F) (w : World F)
      → Gates w
          (on_reading (set_up fx env) env.now dev report w).0
          (on_reading (set_up fx env) env.now dev report w).1
  unfolding on_reading
  Gates-learn env dev report w =
      let learned : (learn_device (set_up fx env) dev w).gate ≡ w.gate =
        unfold learn_device in ground arith in
      Gates-gate learned
        (Gates-publish (set_up fx env) env.now dev report (learn_device (set_up fx env) dev w))

  pub Gates-handle :
      (env : Env F) (e : Event F) (s : Daemon F)
      → Gates s.world (handle fx env e s).0 (handle fx env e s).1
  unfolding handle
  Gates-handle env (reading dev report) s = Gates-learn env dev report s.world
  Gates-handle env (upstream b) s = leaves refl refl
  Gates-handle env (reachable sn b) s = leaves refl refl
  Gates-handle env (set wildcards topic payload v) s =
      leaves
        (effects_none
          (handle_set (known_in s.world) fx.setup.catalog fx.setup.switches fx.charge_w true
            env.writes fx.say env.now wildcards topic payload v (commanded s.world)).1)
        refl
  Gates-handle env (evcc_set wildcards topic payload v) s = elim (Option-cases s.world.evcc) [
    | inl n ↦ leaves (ground (arith, n)) (ground (arith, n))
    | inr (units, n) ↦
        let acts =
          (handle_evcc_set (known_in s.world) fx.setup.catalog fx.setup.switches fx.charge_w true
            env.writes fx.say env.now wildcards topic payload v (commanded s.world)).1 in
        leaves (ground (arith, n, effects_none acts)) (ground (arith, n))
  ]
  Gates-handle env (ui_write device key value) s =
      leaves
        (effects_none
          (write_item (known_in s.world) fx.setup.catalog fx.setup.switches fx.charge_w true
            env.writes fx.say env.now fx.parse device key value (commanded s.world)).1)
        refl
  Gates-handle env connected s =
      let p = publish_current_none (set_up fx env) s.world in
      leaves p.0 (ap (λ (g : Gate). g.busy) p.1)
  Gates-handle env (read_again i report) s = elim (Option-cases (get_elem? s.re_reads i)) [
    | inl n ↦ leaves (ground (arith, n)) (ground (arith, n))
    | inr (dev, n) ↦ elim (Option-cases report) [
      | inl e ↦ leaves (ground (arith, n, e)) (ground (arith, n, e))
      | inr (r, e) ↦
          let same : handle fx env (read_again i report) s
              ≡ publish (set_up fx env) env.now dev r s.world =
            ground (arith, n, e) in
          subst (λ out. Gates s.world out.0 out.1) (sym same)
            (Gates-publish (set_up fx env) env.now dev r s.world)
    ]
  ]
  Gates-handle env (tick timeout) s = elim (Option-cases s.world.evcc) [
    | inl n ↦ leaves (ground (arith, n)) (ground (arith, n))
    | inr (units, n) ↦
        let acts =
          (evcc_fallback fx.charge_w true env.writes env.now timeout (known_in s.world) units).1 in
        leaves (ground (arith, n, effects_none acts)) (ground (arith, n))
  ]
  Gates-handle env e s = leaves refl refl
