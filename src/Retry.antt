-- ===== src/Retry.antt =====
-- loginWithRetry of internal/zendure/cloud/source.go and retrySubscribe of
-- internal/coordinator/coordinator.go: an attempt, a wait that doubles up to a cap, the next attempt.
use go_zendure2mqtt.Common.{
  ℕ, zero, suc, ◌*◌, ◌^◌, List, [], ◌∷◌, ◌≡◌, refl, arith, leb, if◌then◌else◌,
}

-- the smaller of two durations, in seconds
unfoldable pub min : ℕ → ℕ → ℕ
min a b = if leb a b then a else b

-- One round: the attempt succeeds, or it fails and the context is cancelled before the wait or
-- during it, or it fails and the wait runs out.
pub data Round : Type 0 where
  succeeds cancelled_now cancelled_waiting fails : Round

-- how a loop ends: `trying` where the rounds run out before it does
pub data End : Type 0 where
  done cancelled trying : End

unfoldable pub retry : ℕ → ℕ → List Round → List ℕ × End
unfolding min
retry cap backoff [] = ([], trying)
retry cap backoff (succeeds ∷ rs) = ([], done)
retry cap backoff (cancelled_now ∷ rs) = ([], cancelled)
retry cap backoff (cancelled_waiting ∷ rs) = (backoff ∷ [], cancelled)
retry cap backoff (fails ∷ rs) =
    let rest = retry cap (min (backoff * 2) cap) rs in (backoff ∷ rest.0, rest.1)

abbrev pub max_login_backoff : ℕ
max_login_backoff = 300

-- loginWithRetry: the waits it begins and its end
unfoldable pub login_with_retry : List Round → List ℕ × End
unfolding retry
login_with_retry rounds = retry max_login_backoff 1 rounds

abbrev pub subscribe_max_backoff : ℕ
subscribe_max_backoff = 30

-- Of retrySubscribe, the wait comes first: a round is a wait that runs out with the attempt behind
-- it, or a wait that the context ends.
pub data Wait : Type 0 where
  subscribed refused stopped : Wait

unfoldable pub resubscribe : ℕ → List Wait → List ℕ × End
unfolding min
resubscribe backoff [] = ([], trying)
resubscribe backoff (subscribed ∷ ws) = (backoff ∷ [], done)
resubscribe backoff (stopped ∷ ws) = (backoff ∷ [], cancelled)
resubscribe backoff (refused ∷ ws) =
    let rest = resubscribe (min (backoff * 2) subscribe_max_backoff) ws in
    (backoff ∷ rest.0, rest.1)

unfoldable pub retry_subscribe : List Wait → List ℕ × End
unfolding resubscribe
retry_subscribe ws = resubscribe 1 ws

-- n times the same
abbrev pub repeat {ℓ} : {A : Type ℓ} → ℕ → A → List A → List A
repeat zero x xs = xs
repeat (suc n) x xs = x ∷ repeat n x xs

-- the waits from the i-th on: two to the power of i, and the cap at most
unfoldable pub waits_from : ℕ → ℕ → ℕ → List ℕ
unfolding min
waits_from cap i zero = []
waits_from cap i (suc n) = min (2 ^ i) cap ∷ waits_from cap (suc i) n

min-double : (cap i : ℕ) → min (min (2 ^ i) cap * 2) cap ≡ min (2 ^ suc i) cap
unfolding min
min-double cap i = ground arith

retry-succeeds :
    (cap i n : ℕ) (rs : List Round)
    → retry cap (min (2 ^ i) cap) (repeat n fails (succeeds ∷ rs)) ≡ (waits_from cap i n, done)
unfolding retry waits_from
retry-succeeds cap i zero rs = refl
retry-succeeds cap i (suc n) rs = rw (min-double cap i, retry-succeeds cap (suc i) n rs) refl

-- The login comes through: when the first n attempts fail, the context lives on, and the next attempt
-- succeeds, the loop ends logged in behind n waits, of 1, 2, 4 seconds and so on, 300 at most.
pub login_with_retry-succeeds :
    (n : ℕ) (rs : List Round)
    → login_with_retry (repeat n fails (succeeds ∷ rs)) ≡ (waits_from max_login_backoff 0 n, done)
unfolding login_with_retry min
login_with_retry-succeeds n rs = retry-succeeds max_login_backoff 0 n rs

resubscribe-succeeds :
    (i n : ℕ) (ws : List Wait)
    → resubscribe (min (2 ^ i) subscribe_max_backoff) (repeat n refused (subscribed ∷ ws))
      ≡ (waits_from subscribe_max_backoff i (suc n), done)
unfolding resubscribe waits_from
resubscribe-succeeds i zero ws = refl
resubscribe-succeeds i (suc n) ws =
    rw (min-double subscribe_max_backoff i, resubscribe-succeeds (suc i) n ws) refl

-- A subscription that the broker refused n times and then accepts is made, behind n + 1 waits, of 1,
-- 2, 4 seconds and so on, 30 at most.
pub retry_subscribe-succeeds :
    (n : ℕ) (ws : List Wait)
    → retry_subscribe (repeat n refused (subscribed ∷ ws))
      ≡ (waits_from subscribe_max_backoff 0 (suc n), done)
unfolding retry_subscribe min
retry_subscribe-succeeds n ws = resubscribe-succeeds 0 n ws
