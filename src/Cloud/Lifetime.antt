-- ===== src/Cloud/Lifetime.antt =====
-- connectLoop of internal/zendure/cloud/source.go: the life of the cloud session, as the sequence of
-- what the loop does.
use go_zendure2mqtt.Common.{
  ℕ, ◌*◌, ◌≤◌, Bool, true, false, List, [], ◌∷◌, arith, leb, if◌then◌else◌,
}
use go_zendure2mqtt.Retry.{min}

-- One turn: Connect fails; the session is lost when it was up for that many seconds; or the context
-- ends while it is up. A turn without end of the context has its wait run out, or cut by the context.
pub data Turn : Type 0 where
  connect_failed : Bool → Turn
  lost : ℕ → Bool → Turn
  stopped : Turn

-- what the loop does: the subscriptions, the observer's word, the graceful disconnect, a wait
pub data Act : Type 0 where
  subscribe disconnect : Act
  session_is : Bool → Act
  wait : ℕ → Act

abbrev pub max_reconnect : ℕ
max_reconnect = 30

abbrev pub session_stable_at : ℕ
session_stable_at = 60

-- the backoff behind a session that was up for `up` seconds
unfoldable pub settle : ℕ → ℕ → ℕ
settle up backoff = if leb session_stable_at up then 1 else backoff

unfoldable pub connect_loop : ℕ → List Turn → List Act
unfolding settle min
connect_loop backoff [] = []
connect_loop backoff (connect_failed true ∷ ts) = wait backoff ∷ []
connect_loop backoff (connect_failed false ∷ ts) =
    wait backoff ∷ connect_loop (min (backoff * 2) max_reconnect) ts
connect_loop backoff (lost up true ∷ ts) =
    subscribe ∷ session_is true ∷ session_is false ∷ wait (settle up backoff) ∷ []
connect_loop backoff (lost up false ∷ ts) =
    subscribe
    ∷ session_is true
    ∷ session_is false
    ∷ wait (settle up backoff)
    ∷ connect_loop (min (settle up backoff * 2) max_reconnect) ts
connect_loop backoff (stopped ∷ ts) = subscribe ∷ session_is true ∷ disconnect ∷ []

-- Run, behind the login
unfoldable pub run_session : List Turn → List Act
unfolding connect_loop
run_session ts = connect_loop 1 ts

-- what the observer knows of the session
pub data Phase : Type 0 where
  down subscribing up ended : Phase

-- The acts in their order, as one step each: the session is told up only behind the subscriptions,
-- told down only when it is up, and waited for only when it is down, for 1 to 30 seconds.
pub data Step : Phase → Act → Phase → Type 0 where
  asks : Step down subscribe subscribing
  comes_up : Step subscribing (session_is true) up
  goes_down : Step up (session_is false) down
  waits : {n : ℕ} → 1 ≤ n → n ≤ max_reconnect → Step down (wait n) down
  leaves : Step up disconnect ended

pub data Steps : Phase → List Act → Type 0 where
  stop : {p : Phase} → Steps p []
  step : {p q : Phase} {a : Act} {rest : List Act} → Step p a q → Steps q rest → Steps p (a ∷ rest)

min-positive : (n : ℕ) → 1 ≤ n → 1 ≤ min (n * 2) max_reconnect
unfolding min
min-positive n h = ground arith

min-most : (n : ℕ) → min (n * 2) max_reconnect ≤ max_reconnect
unfolding min
min-most n = ground arith

settle-positive : (t b : ℕ) → 1 ≤ b → 1 ≤ settle t b
unfolding settle
settle-positive t b h = ground arith

settle-most : (t b : ℕ) → b ≤ max_reconnect → settle t b ≤ max_reconnect
unfolding settle
settle-most t b h = ground arith

Steps-connect_loop :
    (b : ℕ) (ts : List Turn) → 1 ≤ b → b ≤ max_reconnect → Steps down (connect_loop b ts)
unfolding connect_loop
Steps-connect_loop b [] lo hi = stop
Steps-connect_loop b (connect_failed true ∷ ts) lo hi = step (waits lo hi) stop
Steps-connect_loop b (connect_failed false ∷ ts) lo hi =
    step (waits lo hi)
      (Steps-connect_loop (min (b * 2) max_reconnect) ts (min-positive b lo) (min-most b))
Steps-connect_loop b (lost t true ∷ ts) lo hi = step asks (
    step comes_up
      (step goes_down (step (waits (settle-positive t b lo) (settle-most t b hi)) stop)))
Steps-connect_loop b (lost t false ∷ ts) lo hi =
    let s = settle t b in
    let pos = settle-positive t b lo in
    step asks (
      step comes_up (
        step goes_down (
          step (waits pos (settle-most t b hi))
            (Steps-connect_loop (min (s * 2) max_reconnect) ts (min-positive s pos) (min-most s)))))
Steps-connect_loop b (stopped ∷ ts) lo hi = step asks (step comes_up (step leaves stop))

-- However the session is lost and found, what the loop does is a path of the session's steps: it
-- subscribes on every connection before the observer is told of it, tells each loss before the next
-- connection, and waits 1 to 30 seconds each time.
pub run_session-Steps : (ts : List Turn) → Steps down (run_session ts)
unfolding run_session
run_session-Steps ts = Steps-connect_loop 1 ts (omega arith) (omega arith)
