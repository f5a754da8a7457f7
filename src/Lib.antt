-- ===== src/Lib.antt =====
-- go-zendure2mqtt: a bridge from Zendure battery units to MQTT, Home Assistant and evcc.
--
-- A backend (internal/zendure/local, internal/zendure/cloud) delivers each unit's reports. The
-- coordinator (internal/coordinator) resolves a report against the catalog (internal/catalog) into
-- points (internal/process), publishes them, derives the evcc profile from them (internal/evcc) and
-- turns commands into property writes. Units on the local network are found by mDNS
-- (internal/discovery).
--
-- The files and the code they model:
--   Common: texts, maps, integers, UTF-8 and dynamic values, as Go has them
--   Evcc: internal/evcc/evcc.go (Profile: items and derived values; Mode: parsing and planning)
--   Catalog: internal/catalog/catalog.go (Entry, Load) and internal/catalog/load.go (Load)
--   Process: internal/process/process.go and topic.go (Segment: names from the device; Points)
--   Mdns: internal/discovery/mdns.go (Name: names and queries; Collector: records;
--     Browse: the loop over the packets)
--   Virtual: internal/virtual/virtual.go
--   Coordinator/Battery: the evcc battery modes of internal/coordinator/evcc.go
--   Coordinator/Commands: applySet, decodeSet, decodeCommand, switchProps and rejectSet of
--     internal/coordinator/coordinator.go, and applyEVCCSet of evcc.go; Routes: handleSet,
--     handleEVCCSet, and Write of web.go
--   Coordinator/Migrate: internal/coordinator/migrate.go
--   Coordinator/Publish, Reconcile and Online: publishState, warnUnmapped and switchPoints; reconcileOrphans,
--     sweepOrphans and discoverySignature; publish, onReading, the observer and what a reconnect
--     republishes, all of internal/coordinator/coordinator.go
--   Hass: internal/hass/discovery.go (Publish: what was sent; Names) and cleanup.go (Ownership)
--   Cloud: internal/zendure/cloud/login.go (Base64, Login) and source.go (Session, Lifetime)
--   Retry: loginWithRetry of source.go, and retrySubscribe of coordinator.go
--   Harender: internal/harender/harender.go (Layout: topics; Entity: devices, entities, documents)
--   Local: internal/zendure/local/source.go (and Poll: client.go)
--   Startup: cmd/zendure2mqtt/main.go (Lifecycle: run)
--   State: internal/state/state.go
--   Config: internal/config/config.go, defaults.go, validate.go and load.go
--   Coordinator/Web: Health, Config and Items of internal/coordinator/web.go
--   Coordinator/System: the running coordinator as one state with a step for each event: what Run starts,
--     the handlers, and reReadSoon, migrateDevice and the sweeps as work in flight
--   Web: internal/web/web.go (Tiles: health and configuration; Dashboard: devices, controls and writes)
-- The other files of a folder hold proofs; the Tests files run the theorems on concrete inputs.
--
-- A Go string is the list of its bytes. A Go map is an association list, whose order stands for the
-- order of one iteration; sorted iteration sorts the keys. `float64` is abstract: a record of the
-- operations that the code uses, with the one law that an integer's float equals itself. `int` is
-- unbounded; the ports, lengths and properties it holds stay far below 2^63. An error is a value of
-- an option or of a data type, without the text of the message. A backend's answer to a write is a
-- function of the properties written, and time is a number. A function that holds a lock throughout
-- is one step; evccFallback reads the units under the lock and then changes them one at a time, and is
-- modelled with nothing between, while Coordinator/Battery/Duration adds up the time of its writes.
-- strings.EqualFold is modelled on ASCII. The library go-hamqtt is outside: its reading of a payload is a
-- record (SetValue), and what it says of topic names is an argument. Context deadlines are not modelled:
-- a write that is cut short is one that the backend answered with an error.
--
-- Loops that are not structural run on fuel. `name_fuel` of Mdns/Name is the square of the message's
-- length plus one and more, enough for every jump with every label behind it; the loop over TXT data
-- takes a byte a round at least, so that its length is enough, as it is for trimming white space.
--
-- What go-hamqtt keeps of its own (the dedup index of the state plane, the declared topics, the sweep's
-- window) is an argument, and so is a rendered document, of which the unique ids are read. In the
-- retry loops a round is one attempt with its wait, and the rounds are a list. In Coordinator/System a
-- handler is one step: two handlers that the code runs at once are taken one behind the other.
--
-- Not modelled: the network clients of the backends, the MQTT publisher, the documents that go-hamqtt
-- renders of the entities, go-bridgeui with its page, the sockets of Browse, and the diagnostic
-- cmd/zendure2mqtt-util.
pub mod Common
pub mod Evcc
pub mod Catalog
pub mod Process
pub mod Mdns
pub mod Virtual
pub mod Harender
pub mod Local
pub mod Config
pub mod Retry
pub mod Cloud
pub mod Startup
pub mod Hass
pub mod State
pub mod Coordinator
pub mod Web
