-- ===== src/Startup/Lifecycle.antt =====
-- run of cmd/zendure2mqtt/main.go: what the daemon does from its configuration to its end, and in which
-- order. The calls of libraries are named deeds, and what they answer is an argument; the goroutines of
-- the errgroup are begun, and `ends` is what its Wait gives.
use go_zendure2mqtt.Common.{
  Bytes, Option, none, some, Bool, not, List, [], ◌∷◌, ◌++◌, ◌≡◌, arith, if◌then◌else◌, is_some,
  Bool-cases, Option-cases, inl, inr,
}
use go_zendure2mqtt.Config.Settings.{Config}
use go_zendure2mqtt.Startup.{Built, build_backend, output_broker_config}

pub data Deed : Type 0 where
  -- level.Set for DEBUG
  debug_set : Deed
  backend_built : Built → Deed
  -- haLink.wire, lifecycle.Start and Stop
  link_wired link_started link_stopped : Deed
  -- instance.Register, lifecycle.OnConnect, AnnounceInfo
  routes_registered hook_set info_announced : Deed
  -- coord.Run, RunStats and the web server, each on its own
  coordinator_run stats_run web_run : Deed
  -- haRuntime.Close and PublishOffline
  replay_closed offline_published : Deed

-- why run returns an error
pub data RunError : Type 0 where
  no_config no_catalog no_will no_tls no_link no_routes : RunError
  -- a component failed
  component : Bytes → RunError

-- what the calls answer
pub record Answers (T : Type 0) : Type 0 where
  -- loadConfig
  pub config : Option Config
  -- whether catalog.LoadFile, Will, lifecycle.Start and Register succeed
  pub catalog_loads : Bool
  pub will_made : Bool
  pub tls_answer : Bytes → Bytes → Bool → Option T
  pub link_starts : Bool
  pub registers : Bool
  -- whether the client is connected when the hook is set
  pub is_connected : Bool
  -- g.Wait
  pub ends : Option Bytes

abbrev pub ended : Option Bytes → Option RunError
ended none = none
ended (some e) = some (component e)

abbrev pub shutdown : List Deed
shutdown = replay_closed ∷ offline_published ∷ []

module _ {T : Type 0} where
  -- behind the start of the link, up to the deferred Stop
  unfoldable pub run_linked : Answers T → Config → List Deed × Option RunError
  run_linked a c = if not a.registers then ([], some no_routes) else (
    routes_registered
        ∷ hook_set
        ∷ ((if a.is_connected then info_announced ∷ [] else [])
            ++ (coordinator_run
                ∷ stats_run
                ∷ ((if c.web_enable then web_run ∷ [] else []) ++ shutdown))),
    ended a.ends,
  )

  -- behind the configuration and the catalog
  unfoldable pub run_configured : Answers T → Config → List Deed × Option RunError
  unfolding run_linked
  run_configured a c =
      if not a.will_made
      then ([], some no_will)
      else if not (is_some (output_broker_config a.tls_answer c))
      then ([], some no_tls)
      else if not a.link_starts
      then (link_wired ∷ [], some no_link)
      else (
        link_wired ∷ link_started ∷ ((run_linked a c).0 ++ link_stopped ∷ []),
        (run_linked a c).1,
      )

  -- run
  unfoldable pub run_daemon : Answers T → List Deed × Option RunError
  unfolding run_configured
  run_daemon a = elim a.config [
    | none ↦ ([], some no_config)
    | some c ↦
        let debug : List Deed = if c.debug then debug_set ∷ [] else [] in
        if not a.catalog_loads then (debug, some no_catalog) else (
          debug ++ backend_built (build_backend c) ∷ (run_configured a c).0,
          (run_configured a c).1,
        )
  ]

-- Where the daemon stands with its link to the broker: no client, one that is wired, a link, a
-- coordinator that runs over it, no more replays, and the last word said.
pub data Phase : Type 0 where
  down wired up serving drained said : Phase

-- what may be done where
unfoldable pub move : Phase → Deed → Option Phase
move down debug_set = some down
move down (backend_built b) = some down
move down link_wired = some wired
move wired link_started = some up
move up routes_registered = some up
move up hook_set = some up
move up info_announced = some up
move up coordinator_run = some serving
move up link_stopped = some down
move serving stats_run = some serving
move serving web_run = some serving
move serving replay_closed = some drained
move drained offline_published = some said
move said link_stopped = some down
move p d = none

unfoldable pub moves : Phase → List Deed → Option Phase
unfolding move
moves p [] = some p
moves p (d ∷ ds) = elim (move p d) [ none ↦ none | some q ↦ moves q ds ]

-- where run leaves the link
abbrev pub left_at : Option RunError → Phase
left_at (some no_link) = wired
left_at _ = down

module _ {T : Type 0} where
  left_at-linked : (a : Answers T) (c : Config) → left_at (run_linked a c).1 ≡ down
  unfolding run_linked
  left_at-linked a c = ground arith

  moves-linked :
      (a : Answers T) (c : Config) → moves up ((run_linked a c).0 ++ link_stopped ∷ []) ≡ some down
  unfolding run_linked moves
  moves-linked a c = elim (Bool-cases a.is_connected) [
    | inl i ↦ elim (Bool-cases c.web_enable) [
      | inl w ↦ ground (arith, i, w)
      | inr w ↦ ground (arith, i, w)
    ]
    | inr i ↦ elim (Bool-cases c.web_enable) [
      | inl w ↦ ground (arith, i, w)
      | inr w ↦ ground (arith, i, w)
    ]
  ]

  moves-configured :
      (a : Answers T) (c : Config)
      → moves down (run_configured a c).0 ≡ some (left_at (run_configured a c).1)
  unfolding run_configured moves
  moves-configured a c = ground (arith, moves-linked a c, left_at-linked a c)

  -- However the daemon's run ends, its deeds follow the life of the link: the coordinator runs only
  -- over a link that was started; when it has run, the replays are closed before the last word is said,
  -- and the last word is said before the link is stopped; a link that was started is stopped, also when
  -- the routes fail and the coordinator never runs. Only where the start of the link fails is a wired
  -- client left behind; a run that fails before it never wires one.
  pub run_daemon-moves :
      (a : Answers T) → moves down (run_daemon a).0 ≡ some (left_at (run_daemon a).1)
  unfolding run_daemon moves
  run_daemon-moves a = elim (Option-cases a.config) [
    | inl n ↦ ground (arith, n)
    | inr (c, n) ↦ elim (Bool-cases c.debug) [
      | inl d ↦ ground (arith, n, d, moves-configured a c)
      | inr d ↦ ground (arith, n, d, moves-configured a c)
    ]
  ]
