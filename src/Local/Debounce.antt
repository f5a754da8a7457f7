-- ===== src/Local/Debounce.antt =====
-- The reported reachability against a device's own polls: observe of internal/zendure/local/source.go.
use go_zendure2mqtt.Common.{
  ℕ, suc, ◌+◌, Bytes, beq, beq_iff, lookup, lookup-insert, Option, none, some, Bool, true, false,
  List, [], ◌∷◌, ◌≡◌, refl, arith, ltb, if◌then◌else◌,
}
use go_zendure2mqtt.Local.{Reachability, new_reach, failures_of, report_to, observe}

-- polls, the last one first
unfoldable pub after : List (Bytes × Bool) → Reachability
unfolding observe
after [] = new_reach
after ((sn, ok) ∷ polls) = (observe sn ok (after polls)).0

-- the outcomes of one device's polls, the last one first
unfoldable pub outcomes : Bytes → List (Bytes × Bool) → List Bool
outcomes k [] = []
outcomes k ((sn, ok) ∷ polls) = let rest = outcomes k polls in if beq sn k then ok ∷ rest else rest

-- The state that the outcomes say: the last success or the last two failures in a row decide, and
-- before either there is none.
unfoldable pub debounced : List Bool → Option Bool
debounced [] = none
debounced (true ∷ os) = some true
debounced (false ∷ []) = none
debounced (false ∷ false ∷ os) = some false
debounced (false ∷ true ∷ os) = some true

unfoldable trailing : List Bool → ℕ
trailing [] = 0
trailing (true ∷ os) = 0
trailing (false ∷ os) = suc (trailing os)

-- what one more outcome makes of a device's count and state
count-observe :
    (sn k : Bytes) (ok : Bool) (r : Reachability)
    → failures_of (observe sn ok r).0 k
      ≡ (if beq sn k then (if ok then 0 else failures_of r sn + 1) else failures_of r k)
unfolding observe report_to failures_of
count-observe sn k true r = ground (arith, lookup-insert sn k 0 r.failures)
count-observe sn k false r = ground (arith, lookup-insert sn k (failures_of r sn + 1) r.failures)

state-observe :
    (sn k : Bytes) (ok : Bool) (r : Reachability)
    → lookup k (observe sn ok r).0.reachable ≡ (
        if beq sn k
        then (if ok
            then some true
            else (if ltb (failures_of r sn + 1) 2 then lookup k r.reachable else some false))
        else lookup k r.reachable)
unfolding observe report_to
state-observe sn k true r = ground (arith, lookup-insert sn k true r.reachable)
state-observe sn k false r = ground (arith, lookup-insert sn k false r.reachable)

debounced-hit : (os : List Bool) → debounced (true ∷ os) ≡ some true
unfolding debounced
debounced-hit os = refl

debounced-miss :
    (os : List Bool)
    → debounced (false ∷ os) ≡ (if ltb (trailing os + 1) 2 then debounced os else some false)
unfolding debounced trailing
debounced-miss [] = ground arith
debounced-miss (true ∷ os) = ground arith
debounced-miss (false ∷ os) = ground arith

failures_of-after :
    (polls : List (Bytes × Bool)) (k : Bytes)
    → failures_of (after polls) k ≡ trailing (outcomes k polls)
unfolding after outcomes trailing
failures_of-after [] k = unfold failures_of lookup in refl
failures_of-after ((sn, true) ∷ polls) k =
    ground (arith, count-observe sn k true (after polls), failures_of-after polls k)
failures_of-after ((sn, false) ∷ polls) k =
    ground (arith, beq_iff sn k, count-observe sn k false (after polls), failures_of-after polls k)

-- Whatever polls of whatever devices came before, a device's reported state is the one its own
-- outcomes say: reachable once its last poll worked, unreachable once its last two failed, and as it
-- was where only the last one failed.
pub after-debounced :
    (polls : List (Bytes × Bool)) (k : Bytes)
    → lookup k (after polls).reachable ≡ debounced (outcomes k polls)
unfolding after outcomes
after-debounced [] k = unfold lookup debounced in refl
after-debounced ((sn, true) ∷ polls) k = ground (
  arith,
  state-observe sn k true (after polls),
  debounced-hit (outcomes k polls),
  after-debounced polls k,
)
after-debounced ((sn, false) ∷ polls) k = ground (
  arith,
  beq_iff sn k,
  state-observe sn k false (after polls),
  failures_of-after polls sn,
  debounced-miss (outcomes k polls),
  after-debounced polls k,
)
