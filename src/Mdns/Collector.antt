-- ===== src/Mdns/Collector.antt =====
-- The collector of internal/discovery/mdns.go: newCollector, ingest, ensure and result. An address
-- is its four bytes.
use go_zendure2mqtt.Common.{
  ℕ, zero, suc, ◌+◌, ◌*◌, Bytes, Map, lookup, insert, Option, none, some, List, [], ◌∷◌, ◌++◌, ltb,
  ◌==◌, if◌then◌else◌, length, get_elem?, take, drop,
}
use go_zendure2mqtt.Catalog.Entry.{equal_fold}
use go_zendure2mqtt.Mdns.Name.{
  parsed, parse_name, parse_txt, first_label, type_a, type_ptr, type_txt, type_srv,
}

pub record Service : Type 0 where
  pub instance_label : Bytes
  pub host : Bytes
  pub addrs : List Bytes
  pub port : ℕ
  pub txt : List Bytes

pub record Collector : Type 0 where
  pub services : Map Service
  pub host_ip : Map (List Bytes)

abbrev pub new_collector : Collector
new_collector = record { services = []; host_ip = [] }

-- binary.BigEndian.Uint16(msg[i:i+2]), where both bytes are there
unfoldable pub u16 : Bytes → ℕ → ℕ
u16 msg i = elim (get_elem? msg i) [
  | none ↦ 0
  | some a ↦ elim (get_elem? msg (i + 1)) [ none ↦ 0 | some b ↦ a * 256 + b ]
]

-- ensure: the service of an instance, a new one if there is none
unfoldable pub service_at : Collector → Bytes → Service
service_at c name = elim (lookup name c.services) [
  | some s ↦ s
  | none ↦ record { instance_label = first_label name; host = []; addrs = []; port = 0; txt = [] }
]

unfoldable pub put_service : Bytes → Service → Collector → Collector
put_service name s c = record c { services = insert name s c.services }

-- m[k] of a map of lists
abbrev pub list_at : Map (List Bytes) → Bytes → List Bytes
list_at m k = elim (lookup k m) [ none ↦ [] | some l ↦ l ]

-- The cases of the switch on a record's type: its name, the start and the length of its data.
unfoldable pub take_ptr : Bytes → Bytes → Bytes → ℕ → Collector → Collector
unfolding service_at put_service
take_ptr msg service_full name start c = elim (parse_name msg start) [
  | some (parsed target n) ↦
      if equal_fold name service_full then put_service target (service_at c target) c else c
  | _ ↦ c
]

unfoldable pub take_srv : Bytes → Bytes → ℕ → ℕ → Collector → Collector
unfolding service_at put_service u16
take_srv msg name start rdlen c = elim (parse_name msg (start + 6)) [
  | some (parsed target n) ↦
      if ltb rdlen 6
      then c
      else put_service name
          (record (service_at c name) { port = u16 msg (start + 4); host = target }) c
  | _ ↦ c
]

unfoldable pub take_txt : Bytes → Bytes → ℕ → ℕ → Collector → Collector
unfolding service_at put_service
take_txt msg name start rdlen c =
    put_service name
      (record (service_at c name) {
        txt = (service_at c name).txt ++ parse_txt (take rdlen (drop start msg));
      })
      c

unfoldable pub take_a : Bytes → Bytes → ℕ → ℕ → Collector → Collector
take_a msg name start rdlen c =
    if rdlen == 4
    then record c {
      host_ip = insert name (list_at c.host_ip name ++ take 4 (drop start msg) ∷ []) c.host_ip;
    }
    else c

unfoldable pub take_record : Bytes → Bytes → ℕ → Bytes → ℕ → ℕ → Collector → Collector
unfolding take_ptr take_srv take_txt take_a
take_record msg service_full rr_type name start rdlen c =
    if rr_type == type_ptr
    then take_ptr msg service_full name start c
    else if rr_type == type_srv
    then take_srv msg name start rdlen c
    else if rr_type == type_txt
    then take_txt msg name start rdlen c
    else if rr_type == type_a
    then take_a msg name start rdlen c
    else c

-- the loop over the questions: the offset behind them, or `none` for the early return
unfoldable pub skip_questions : ℕ → Bytes → ℕ → Option ℕ
skip_questions zero msg off = some off
skip_questions (suc qd) msg off = elim (parse_name msg off) [
  | some (parsed name n) ↦
      let rest = skip_questions qd msg (n + 4) in if ltb (length msg) (n + 4) then none else rest
  | _ ↦ none
]

-- the loop over the records
unfoldable pub take_records : ℕ → Bytes → Bytes → ℕ → Collector → Collector
unfolding take_record
take_records zero msg service_full off c = c
take_records (suc total) msg service_full off c = elim (parse_name msg off) [
  | some (parsed name n) ↦
      let rdlen = u16 msg (n + 8) in
      let stop = n + 10 + rdlen in
      let rest =
        take_records total msg service_full stop
          (take_record msg service_full (u16 msg n) name (n + 10) rdlen c) in
      if ltb (length msg) (n + 10) then c else if ltb (length msg) stop then c else rest
  | _ ↦ c
]

unfoldable pub ingest : Bytes → Bytes → Collector → Collector
unfolding skip_questions take_records
ingest msg service_full c =
    if ltb (length msg) 12 then c else elim (skip_questions (u16 msg 4) msg 12) [
      | none ↦ c
      | some off ↦ take_records (u16 msg 6 + u16 msg 8 + u16 msg 10) msg service_full off c
    ]

-- one service of the result, with the addresses of its host
unfoldable pub with_addrs : Map (List Bytes) → Service → Service
with_addrs ips s = record s { addrs = s.addrs ++ list_at ips s.host }

unfoldable pub result_loop : Map Service → Map (List Bytes) → List Service
unfolding with_addrs
result_loop [] ips = []
result_loop ((name, s) ∷ m) ips = with_addrs ips s ∷ result_loop m ips

unfoldable pub result : Collector → List Service
unfolding result_loop
result c = result_loop c.services c.host_ip
