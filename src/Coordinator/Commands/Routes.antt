-- ===== src/Coordinator/Commands/Routes.antt =====
-- handleSet of coordinator.go, handleEVCCSet of evcc.go and Write of web.go: how a command reaches the
-- write path, and what becomes of its error. `say` gives the text of an error, `parse` is
-- publisher.ParseSet of go-hamqtt, `none` for its error. The effects of a
-- command, mirrors into the store among them, are values in the order in which they are made; the
-- running coordinator (Coordinator/System) makes them in the same step. The evcc plane is `none` where
-- evcc is off.
use go_zendure2mqtt.Common.{
  ℕ, Bytes, str, cut_prefix, Map, Value, FloatOps, Option, none, some, Bool, true, false, List, [],
  ◌∷◌, ◌++◌, ◌==◌, ℤ, ◌≡◌, refl, arith, if◌then◌else◌, take, Option-cases, inl, inr,
}
use go_zendure2mqtt.Evcc.Profile.{group}
use go_zendure2mqtt.Catalog.Load.{Catalog}
use go_zendure2mqtt.Virtual.{Switch}
use go_zendure2mqtt.Coordinator.Battery.{Plane, Effect}
use go_zendure2mqtt.Coordinator.Commands.{
  SetValue, SetError, refusal, not_writable, apply_set, apply_evcc_set, reject_set,
}
use go_zendure2mqtt.State.Store.{Store, Problem, stamp, problems_of, max_problems}
use go_zendure2mqtt.State.Problems.{problems_of-add_problem}

pub data Failure : Type 0 where
  -- the daemon does not run yet
  not_running : Failure
  -- the value is no payload of a `set`
  bad_payload : Failure
  set_failed : SetError → Failure

unfoldable pub event_of : Failure → Bytes
event_of (set_failed e) = e.event
event_of _ = str "coordinator.write_failed"

-- what the coordinator keeps, as far as commands change it
pub record World (F : Type 0) : Type 0 where
  pub evcc : Option (Plane F)
  pub store : Store F

-- strings.Cut at the first slash
unfoldable pub cut_slash : Bytes → Bytes × Bytes
cut_slash [] = ([], [])
cut_slash (c ∷ s) = let rest = cut_slash s in if c == b'/' then ([], s) else (c ∷ rest.0, rest.1)

module _ {F : Type 0} ⦃fl : FloatOps F⦄ (known : Bytes → Bool) (cat : Catalog F)
    (switches : List (Switch F)) (charge_w : ℤ) (running : Bool)
    (answer : Map (Value F) → Option Bytes) (say : Failure → Bytes) (now : ℕ) where
  -- the error of a command, logged and kept for the web UI
  unfoldable pub rejected : Bytes → Bytes → Bytes → Option Failure → World F → World F
  rejected sn topic payload none w = w
  rejected sn topic payload (some e) w = record w {
    store = reject_set now sn (event_of e) topic payload (say e) w.store;
  }

  abbrev pub failure_of : Option SetError → Option Failure
  failure_of none = none
  failure_of (some e) = some (set_failed e)

  -- handleSet
  unfoldable pub handle_set :
      List Bytes → Bytes → Bytes → SetValue → World F → World F × List (Effect F)
  unfolding rejected
  handle_set (sn ∷ g ∷ leaf ∷ []) topic payload v w =
      let (effects, error) = apply_set known cat switches answer sn leaf v in
      (rejected sn topic payload (failure_of error) w, effects)
  handle_set _ topic payload v w = (w, [])

  -- applyEVCCSet where evcc is on; the error of Write where it is off
  unfoldable pub set_evcc_item :
      Bytes → Bytes → Bytes → SetValue → World F → World F × List (Effect F) × Option Failure
  set_evcc_item sn role key v w = elim w.evcc [
    | none ↦ (w, [], some (set_failed (refusal not_writable (str "coordinator.evcc_not_writable"))))
    | some units ↦
        let (units', effects, error) =
          apply_evcc_set known charge_w running answer now sn role key v units in
        (record w { evcc = some units' }, effects, failure_of error)
  ]

  -- handleEVCCSet, which is registered where evcc is on
  unfoldable pub handle_evcc_set :
      List Bytes → Bytes → Bytes → SetValue → World F → World F × List (Effect F)
  unfolding rejected set_evcc_item
  handle_evcc_set (sn ∷ role ∷ key ∷ []) topic payload v w =
      let (w', effects, error) = set_evcc_item sn role key v w in
      (rejected sn topic payload error w', effects)
  handle_evcc_set _ topic payload v w = (w, [])

  -- the item that a key of the web UI names
  unfoldable pub set_item :
      Bytes → Bytes → SetValue → World F → World F × List (Effect F) × Option Failure
  unfolding set_evcc_item cut_slash
  set_item sn key v w = elim (cut_prefix key (group ++ b'/' ∷ [])) [
    | some rest ↦ set_evcc_item sn (cut_slash rest).0 (cut_slash rest).1 v w
    | none ↦
        let (effects, error) = apply_set known cat switches answer sn key v in
        (w, effects, failure_of error)
  ]

  abbrev pub origin : Bytes → Bytes → Bytes
  origin sn key = str "web " ++ (sn ++ b'/' ∷ key)

  -- Write behind the check that the daemon runs
  unfoldable pub write_running :
      (Bytes → Option SetValue)
      → Bytes
      → Bytes
      → Bytes
      → World F
      → World F × List (Effect F) × Option Failure
  unfolding set_item rejected
  write_running parse sn key value w = elim (parse value) [
    | none ↦ (rejected sn (origin sn key) value (some bad_payload) w, [], some bad_payload)
    | some v ↦
        let (w', effects, error) = set_item sn key v w in
        (rejected sn (origin sn key) value error w', effects, error)
  ]

  -- Write. The mirror of an evcc write into the store, which applyBatteryMode makes before Write returns,
  -- stands among the effects: the store here is the one without it.
  unfoldable pub write_item :
      (Bytes → Option SetValue)
      → Bytes
      → Bytes
      → Bytes
      → World F
      → World F × List (Effect F) × Option Failure
  unfolding write_running
  write_item parse sn key value w =
      if running then write_running parse sn key value w else (w, [], some not_running)

  -- the problem that a failure leaves
  abbrev pub problem : Bytes → Bytes → Bytes → Failure → Problem
  problem sn topic payload e = record {
    at = 0;
    sn = sn;
    event = event_of e;
    detail = topic ++ (str " = " ++ (payload ++ (str ": " ++ say e)));
  }

  -- how the problem log stands to an error
  abbrev pub IsLogged : Bytes → Bytes → Bytes → Option Failure → World F → World F → Type 0
  IsLogged sn topic payload none w w' = w'.store ≡ w.store
  IsLogged sn topic payload (some e) w w' =
      problems_of w'.store
      ≡ take max_problems (stamp now (problem sn topic payload e) ∷ problems_of w.store)

  IsLogged-rejected :
      (sn topic payload : Bytes) (e : Option Failure) (w w' : World F)
      → w'.store ≡ w.store
      → IsLogged sn topic payload e w (rejected sn topic payload e w')
  unfolding rejected reject_set
  IsLogged-rejected sn topic payload none w w' h = h
  IsLogged-rejected sn topic payload (some e) w w' h =
      rw h (problems_of-add_problem now (problem sn topic payload e) w.store)

  store-set_item :
      (sn key : Bytes) (v : SetValue) (w : World F) → (set_item sn key v w).0.store ≡ w.store
  unfolding set_item set_evcc_item
  store-set_item sn key v w = ground arith

  -- A write from the web UI, while the daemon runs, leaves its failure as the newest entry of the
  -- problem log, whether the payload, the item or the backend refused it; a write that succeeds leaves
  -- the store as it was but for the mirrors among its effects, which are made where the effects are.
  -- Before the daemon runs, it does nothing at all.
  pub write_item-IsLogged :
      (parse : Bytes → Option SetValue) (sn key value : Bytes) (w : World F)
      → (running ≡ true
          → IsLogged sn
              (origin sn key)
              value
              (write_item parse sn key value w).2
              w
              (write_item parse sn key value w).0)
        × (running ≡ false → write_item parse sn key value w ≡ (w, [], some not_running))
  unfolding write_item write_running
  write_item-IsLogged parse sn key value w = (
    λ r. elim (Option-cases (parse value)) [
      | inl n ↦
          let e : write_item parse sn key value w
              ≡ (rejected sn (origin sn key) value (some bad_payload) w, [], some bad_payload) =
            ground (arith, r, n) in
          rw e (IsLogged-rejected sn (origin sn key) value (some bad_payload) w w refl)
      | inr (v, p) ↦
          let (w', effects, error) = set_item sn key v w in
          let e : write_item parse sn key value w
              ≡ (rejected sn (origin sn key) value error w', effects, error) =
            ground (arith, r, p) in
          rw e (IsLogged-rejected sn (origin sn key) value error w w' (store-set_item sn key v w))
    ],
    λ r. ground (arith, r),
  )
