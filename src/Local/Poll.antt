-- ===== src/Local/Poll.antt =====
-- The polls of internal/zendure/local/source.go, and FetchReport and WriteProperties of client.go. The
-- HTTP client's answers and `parse`, model.ParseReport over encoding/json, are arguments. The loops of
-- the devices interleave as a list of polls.
use go_zendure2mqtt.Common.{
  ℕ, ◌*◌, ◌^◌, Bytes, str, beq, lookup, Option, none, some, Bool, true, false, not, List, [], ◌∷◌,
  ◌++◌, ◌&&◌, ◌≡◌, refl, ◌==◌, ltb, leb, arith, length, if◌then◌else◌, is_some, Option-cases, inl,
  inr,
}
use go_zendure2mqtt.Process.Points.{Report}
use go_zendure2mqtt.Config.Settings.{LocalDevice}
use go_zendure2mqtt.Local.{Reachability, Told, new_reach, observe}
use go_zendure2mqtt.Local.Debounce.{after, outcomes, debounced, after-debounced}

-- source.Device, as New fills it; there is no product key
pub record LocalUnit : Type 0 where
  pub sn : Bytes
  pub device_id : Bytes
  pub device_name : Bytes
  pub model : Bytes
  pub address : Bytes

abbrev pub unit_of : LocalDevice → LocalUnit
unit_of c = record {
  sn = c.sn;
  device_id = c.sn;
  device_name = c.device_name;
  model = c.model;
  address = c.host;
}

-- New: the devices, and the interval in seconds
unfoldable pub new_units : List LocalDevice → List LocalUnit
new_units [] = []
new_units (c ∷ cs) = unit_of c ∷ new_units cs

unfoldable pub poll_interval : ℕ → ℕ
poll_interval n = if n == 0 then 15 else n

abbrev pub max_body_bytes : ℕ
max_body_bytes = 4 * 2 ^ 20

pub record Response : Type 0 where
  pub status : ℕ
  pub body : Bytes

abbrev pub report_url : Bytes → Bytes
report_url host = str "http://" ++ (host ++ str "/properties/report")

abbrev pub write_url : Bytes → Bytes
write_url host = str "http://" ++ (host ++ str "/properties/write")

pub data WriteFailure : Type 0 where
  not_marshalled unreachable : WriteFailure
  bad_status : ℕ → WriteFailure

-- WriteProperties: `marshals` is whether json.Marshal takes the properties
unfoldable pub write_properties : Bool → Option Response → Option WriteFailure
write_properties marshals answer = if not marshals then some not_marshalled else elim answer [
  | none ↦ some unreachable
  | some a ↦ if a.status == 200 then none else some (bad_status a.status)
]

module _ {F : Type 0} (parse : Bytes → Option (Report F)) where
  -- FetchReport, `none` for its errors
  unfoldable pub fetch_report : Option Response → Option (Report F)
  fetch_report none = none
  fetch_report (some a) =
      if ltb max_body_bytes (length a.body)
      then none
      else if not (a.status == 200)
      then none
      else parse a.body

  unfoldable pub named_report : LocalUnit → Report F → Report F
  named_report dev r = if beq r.sn [] then record r { sn = dev.sn } else r

  -- Read
  unfoldable pub read_report : LocalUnit → Option Response → Option (Report F)
  unfolding fetch_report named_report
  read_report dev answer = elim (fetch_report answer) [
    | none ↦ none
    | some r ↦ some (named_report dev r)
  ]

  -- pollOnce: `cancelled` is whether the context has ended by then
  unfoldable pub poll_once :
      LocalUnit
      → Bool
      → Option Response
      → Reachability
      → Reachability × List Told × Option (Report F)
  unfolding read_report
  poll_once dev cancelled answer r = elim (read_report dev answer) [
    | some report ↦ let (r', told) = observe dev.sn true r in (r', told, some report)
    | none ↦
        if cancelled
        then (r, [], none)
        else (let (r', told) = observe dev.sn false r in (r', told, none))
  ]

-- one poll of one device
pub record Polled : Type 0 where
  pub dev : LocalUnit
  pub cancelled : Bool
  pub answer : Option Response

module _ {F : Type 0} (parse : Bytes → Option (Report F)) where
  -- the state behind the polls of all the loops, the last one first
  unfoldable pub after_polls : List Polled → Reachability
  unfolding poll_once
  after_polls [] = new_reach
  after_polls (p ∷ ps) = (poll_once parse p.dev p.cancelled p.answer (after_polls ps)).0

  -- a response that carries a report
  abbrev pub is_good : Option Response → Bool
  is_good none = false
  is_good (some a) =
      leb (length a.body) max_body_bytes && ((a.status == 200) && is_some (parse a.body))

  -- what the polls say of their devices: a failure at the end says nothing
  abbrev pub heard : List Polled → List (Bytes × Bool)
  heard [] = []
  heard (p ∷ ps) =
      if is_good p.answer
      then (p.dev.sn, true) ∷ heard ps
      else if p.cancelled
      then heard ps
      else (p.dev.sn, false) ∷ heard ps

  is_some-read_report :
      (dev : LocalUnit) (answer : Option Response)
      → is_some (read_report parse dev answer) ≡ is_good answer
  unfolding read_report fetch_report
  is_some-read_report dev none = refl
  is_some-read_report dev (some a) = ground arith

  state-poll_once :
      (dev : LocalUnit) (cancelled : Bool) (answer : Option Response) (r : Reachability)
      → (poll_once parse dev cancelled answer r).0 ≡ (
          if is_good answer
          then (observe dev.sn true r).0
          else (if cancelled then r else (observe dev.sn false r).0))
  unfolding poll_once
  state-poll_once dev cancelled answer r = elim (Option-cases (read_report parse dev answer)) [
    | inl e ↦ ground (arith, e, is_some-read_report dev answer)
    | inr (x, e) ↦ ground (arith, e, is_some-read_report dev answer)
  ]

  after_polls-heard : (ps : List Polled) → after_polls ps ≡ after (heard ps)
  unfolding after_polls after
  after_polls-heard [] = refl
  after_polls-heard (p ∷ ps) =
      ground
        (arith, state-poll_once p.dev p.cancelled p.answer (after_polls ps), after_polls-heard ps)

  -- However the polls of the devices interleave, a device's reported state is the one its own answers
  -- say: reachable once the last one carried a report (status 200, at most 4 MiB, readable), unreachable
  -- once the last two did not, where a failure while the daemon stops says nothing.
  pub after_polls-debounced :
      (ps : List Polled) (k : Bytes)
      → lookup k (after_polls ps).reachable ≡ debounced (outcomes k (heard ps))
  after_polls-debounced ps k = rw (after_polls-heard ps) (after-debounced (heard ps) k)
