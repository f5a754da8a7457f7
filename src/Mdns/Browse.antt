-- ===== src/Mdns/Browse.antt =====
-- Browse of internal/discovery/mdns.go behind the sent query: the reads of the socket are a list, each
-- with whether the context is still running before it.
use go_zendure2mqtt.Common.{
  ℕ, Bytes, str, Bool, true, false, List, [], ◌∷◌, ◌++◌, if◌then◌else◌, take,
}
use go_zendure2mqtt.Mdns.Name.{trim_dot}
use go_zendure2mqtt.Mdns.Collector.{Service, Collector, new_collector, ingest, result}

unfoldable pub full_name : Bytes → Bytes
unfolding trim_dot
full_name service = trim_dot service ++ str ".local."

pub data Read : Type 0 where
  packet : Bytes → Read
  deadline_reached read_failed : Read

abbrev pub max_packet : ℕ
max_packet = 9000

-- the loop: the collector at its end, and whether a read failed
unfoldable pub browse_loop : Bytes → List (Bool × Read) → Collector → Collector × Bool
unfolding ingest
browse_loop full [] c = (c, false)
browse_loop full ((running, read) ∷ reads) c =
    if running
    then (elim read [
      | packet bytes ↦ browse_loop full reads (ingest (take max_packet bytes) full c)
      | deadline_reached ↦ (c, false)
      | read_failed ↦ (c, true)
    ])
    else (c, false)

-- Browse: the services, also beside an error
unfoldable pub browse : Bytes → List (Bool × Read) → List Service × Bool
unfolding browse_loop full_name result
browse service reads =
    let (c, failed) = browse_loop (full_name service) reads new_collector in (result c, failed)
