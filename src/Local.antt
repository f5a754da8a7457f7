-- ===== src/Local.antt =====
-- internal/zendure/local/source.go: what the local backend tells of its devices' reachability. There
-- is an observer, and the lock makes a poll's outcome one step.
pub mod Debounce
pub mod Poll
mod Tests
use go_zendure2mqtt.Common.{
  ℕ, ◌+◌, Bytes, lookup, insert, Map, Option, none, some, Bool, true, false, List, [], ◌∷◌, ◌||◌,
  ltb, if◌then◌else◌,
}

pub record Reachability : Type 0 where
  -- sn -> reported reachable
  pub reachable : Map Bool
  -- sn -> consecutive failed polls
  pub failures : Map ℕ

-- what the observer is told: DeviceReachable and UpstreamUsable
pub data Told : Type 0 where
  device_reachable : Bytes → Bool → Told
  upstream_usable : Bool → Told

abbrev pub unreachable_after : ℕ
unreachable_after = 2

abbrev pub new_reach : Reachability
new_reach = record { reachable = []; failures = [] }

-- b.failures[sn]
unfoldable pub failures_of : Reachability → Bytes → ℕ
failures_of r sn = elim (lookup sn r.failures) [ none ↦ 0 | some n ↦ n ]

unfoldable pub any_reachable : Map Bool → Bool
any_reachable [] = false
any_reachable ((sn, b) ∷ m) = b || any_reachable m

-- the second half of observe, for a state that counted the poll
unfoldable pub report_to : Bytes → Bool → Reachability → Reachability × List Told
unfolding any_reachable
report_to sn ok r =
    let reachable = insert sn ok r.reachable in
    (
      record r { reachable = reachable },
      device_reachable sn ok ∷ upstream_usable (any_reachable reachable) ∷ [],
    )

unfoldable pub observe : Bytes → Bool → Reachability → Reachability × List Told
unfolding report_to failures_of
observe sn true r = report_to sn true (record r { failures = insert sn 0 r.failures })
observe sn false r =
    let n : ℕ = failures_of r sn + 1 in
    let counted = record r { failures = insert sn n r.failures } in
    if ltb n unreachable_after then (counted, []) else report_to sn false counted
