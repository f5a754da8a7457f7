-- ===== src/Coordinator/System/Known.antt =====
-- One event of the running coordinator: what `handle` leaves known.
use go_zendure2mqtt.Common.{
  ℕ, zero, suc, lookup, Map, FloatOps, Option, none, some, true, List, [], ◌∷◌, ◌≡◌, refl, sym,
  arith, is_some, All, get_elem?, Option-cases, inl, inr,
}
use mathlib.Core.Path.{subst}
use go_zendure2mqtt.State.Store.{SourceDevice}
use go_zendure2mqtt.Coordinator.Battery.{Plane, evcc_fallback}
use go_zendure2mqtt.Coordinator.Online.{World}
use go_zendure2mqtt.Coordinator.Commands.Routes.{handle_evcc_set}
use go_zendure2mqtt.Coordinator.System.{
  commanded, behind, Daemon, Fixed, Env, Event, reading, upstream, reachable, set, evcc_set,
  ui_write, connected, read_again, tick, known_in, set_up, handle, remove_at,
}
use go_zendure2mqtt.Coordinator.System.Kept.{
  Below, Units, Labelled, units_in, IsKnown, Kept, Kept-refl, Kept-units, IsKnown-Kept,
}
use go_zendure2mqtt.Coordinator.System.Reports.{
  Kept-publish, on_reading-IsKnown, Kept-upstream_usable, Kept-device_reachable,
  Kept-publish_current,
}
use go_zendure2mqtt.Coordinator.System.Writes.{
  Units-evcc_fallback, Kept-handle_set, Kept-handle_evcc_set, Kept-write_item,
}

-- what holds of the coordinator between two events
pub record IsSound {F : Type 0} (s : Daemon F) : Type 0 where
  pub known : IsKnown s.world
  pub labelled : Labelled s.world.by_sn
  pub re_reads : All (λ (d : SourceDevice). known_in s.world d.sn ≡ true) s.re_reads

module _ {F : Type 0} where
  -- a world that keeps what is known, and knows no fewer devices
  pub record Follows (w w' : World F) : Type 0 where
    pub known : IsKnown w'
    pub more : Below w.by_sn w'.by_sn
    pub labelled : Labelled w.by_sn → Labelled w'.by_sn

  pub Follows-Kept : {w w' : World F} → IsKnown w → Kept w w' → Follows w w'
  Follows-Kept {w} h k = record {
    known = IsKnown-Kept k h;
    more = λ i e. subst (λ n. is_some (lookup i n) ≡ true) (sym k.by_sn) e;
    labelled = λ l. subst Labelled (sym k.by_sn) l;
  }

  Follows-eq : {w w' : World F} → w' ≡ w → IsKnown w → Follows w w'
  Follows-eq {w} e h = subst (λ v. Follows w v) (sym e) (Follows-Kept h (Kept-refl w))

All-get {ℓ} :
    {A : Type ℓ} (P : A → Type 0) (xs : List A) (i : ℕ) (x : A)
    → All P xs
    → get_elem? xs i ≡ some x
    → P x
All-get P [] i x h e = cc
All-get P (y ∷ ys) zero x h e = subst P (ground (arith, e)) h.0
All-get P (y ∷ ys) (suc i) x h e = All-get P ys i x h.1 e

pub All-remove_at {ℓ} :
    {A : Type ℓ} (P : A → Type 0) (i : ℕ) (xs : List A) → All P xs → All P (remove_at i xs)
All-remove_at P i [] h = h
All-remove_at P zero (x ∷ xs) h = h.1
All-remove_at P (suc i) (x ∷ xs) h = (h.0, All-remove_at P i xs h.1)

pub All-more :
    (m n : Map SourceDevice) (ds : List SourceDevice)
    → Below m n
    → All (λ (d : SourceDevice). is_some (lookup d.sn m) ≡ true) ds
    → All (λ (d : SourceDevice). is_some (lookup d.sn n) ≡ true) ds
All-more m n [] more h = tt
All-more m n (d ∷ ds) more h = (more d.sn h.0, All-more m n ds more h.1)

module _ {F : Type 0} ⦃fl : FloatOps F⦄ (fx : Fixed F) where
  fallen : Env F → ℕ → World F → Option (Plane F) → Option (Plane F)
  fallen env timeout w none = none
  fallen env timeout w (some units) =
      some (evcc_fallback fx.charge_w true env.writes env.now timeout (known_in w) units).0

  Units-fallen :
      (env : Env F) (timeout : ℕ) (w : World F) (o : Option (Plane F))
      → Units (units_in o) w.by_sn
      → Units (units_in (fallen env timeout w o)) w.by_sn
  unfolding fallen
  Units-fallen env timeout w none h = h
  Units-fallen env timeout w (some units) h =
      Units-evcc_fallback fx.charge_w env.writes env.now w.by_sn timeout units h

  -- the step's first half
  pub Follows-handle :
      (env : Env F) (e : Event F) (s : Daemon F) → IsSound s → Follows s.world (handle fx env e s).0
  unfolding handle
  Follows-handle env (reading dev report) s h =
      let l = on_reading-IsKnown (set_up fx env) env.now dev report s.world h.known in
      record { known = l.0; more = l.2; labelled = l.3 }
  Follows-handle env (upstream b) s h =
      Follows-Kept h.known (Kept-upstream_usable (set_up fx env) b s.world)
  Follows-handle env (reachable sn b) s h =
      Follows-Kept h.known (Kept-device_reachable (set_up fx env) sn b s.world)
  Follows-handle env (set wildcards topic payload v) s h =
      Follows-Kept h.known (Kept-handle_set fx env.writes env.now s.world wildcards topic payload v)
  Follows-handle env (evcc_set wildcards topic payload v) s h = elim (Option-cases s.world.evcc) [
    | inl n ↦
        let e : (handle fx env (evcc_set wildcards topic payload v) s).0 ≡ s.world =
          ground (arith, n) in
        Follows-eq e h.known
    | inr (units, n) ↦
        let k = Kept-handle_evcc_set fx env.writes env.now s.world wildcards topic payload v in
        let e : (handle fx env (evcc_set wildcards topic payload v) s).0
            ≡ behind s.world
                (handle_evcc_set (known_in s.world) fx.setup.catalog fx.setup.switches fx.charge_w
                  true env.writes fx.say env.now wildcards topic payload v (commanded s.world)).0 =
          ground (arith, n) in
        subst (λ w. Follows s.world w) (sym e) (Follows-Kept h.known k)
  ]
  Follows-handle env (ui_write device key value) s h =
      Follows-Kept h.known (Kept-write_item fx env.writes env.now s.world device key value)
  Follows-handle env connected s h =
      Follows-Kept h.known (Kept-publish_current (set_up fx env) s.world)
  Follows-handle env (read_again i report) s h = elim (Option-cases (get_elem? s.re_reads i)) [
    | inl n ↦ rw (handle, n) (Follows-Kept h.known (Kept-refl s.world))
    | inr (dev, n) ↦ elim (Option-cases report) [
      | inl e ↦ rw (handle, n, e) (Follows-Kept h.known (Kept-refl s.world))
      | inr (r, e) ↦
          rw (handle, n, e)
            (Follows-Kept h.known (
              Kept-publish (set_up fx env) env.now dev r s.world
                (All-get (λ d. known_in s.world d.sn ≡ true) s.re_reads i dev h.re_reads n)))
    ]
  ]
  Follows-handle env (tick timeout) s h =
      let e : (handle fx env (tick timeout) s).0
          ≡ record s.world { evcc = fallen env timeout s.world s.world.evcc } =
        unfold fallen in ground arith in
      subst (λ w. Follows s.world w) (sym e)
        (Follows-Kept h.known (
          Kept-units s.world (record s.world { evcc = fallen env timeout s.world s.world.evcc })
            (refl, refl, refl) (Units-fallen env timeout s.world s.world.evcc)))
  Follows-handle env e s h = Follows-Kept h.known (Kept-refl s.world)
